-- ===== src/Reconciler.antt =====
-- crates/reconciler/src: balances rebuilt from the journal, and compared with a view of them.
pub mod Rebuilt
pub mod Compared
pub mod Total
pub mod Clean
mod Tests
use iron_ledger.Domain.Amount.{AtomicAmount, checked_add, is_zero}
use iron_ledger.Domain.Asset.{AssetCode}
use iron_ledger.Domain.Error.{DomainError}
use iron_ledger.Domain.Ids.{AccountId, Timestamp}
use iron_ledger.Domain.Journal.{JournalEntry, Posting}
use iron_ledger.Domain.Journal.Slots.{amount_in}
use iron_ledger.Domain.Journal.Sums.{BalanceKey, key_of, key_order}
use iron_ledger.Ledger.Error.{LedgerError}
use iron_ledger.Ledger.Port.{BalanceRecord}
use iron_ledger.Ledger.Store.Queries.{snapshot}
use iron_ledger.Prelude.{Bool, List, [], if◌then◌else◌, length, ℕ, ◌+◌, ◌==◌, ◌∷◌}
use iron_ledger.Prelude.Int.{◌-ℤ◌}
use iron_ledger.Prelude.Map.{Map, insert, keys}
use iron_ledger.Prelude.Result.{Result, map_err, ok, ◌>>=◌, ◌>>◌}
use iron_ledger.Prelude.Text.{Text}

-- `ReconcileError`
pub data ReconcileError : Type 0 where
  domain : DomainError → ReconcileError
  store : Text → ReconcileError
  ledger : LedgerError → ReconcileError

pub record Discrepancy : Type 0 where
  pub account_id : AccountId
  pub asset : AssetCode
  pub expected : AtomicAmount
  pub observed : AtomicAmount
  pub view : Text

pub record ReconcileReport : Type 0 where
  pub finished_at : Timestamp
  pub entries_scanned : ℕ
  pub postings_applied : ℕ
  pub discrepancies : List Discrepancy

-- `ReconcileReport::is_clean`
abbrev pub is_clean : ReconcileReport → Bool
is_clean report = length report.discrepancies == 0

-- The loop of `rebuild` over an entry's postings.
unfoldable pub rebuild_entry :
    Map BalanceKey AtomicAmount → List Posting → Result ReconcileError (Map BalanceKey AtomicAmount)
rebuild_entry totals [] = ok totals
rebuild_entry totals (posting ∷ postings) = do
  total ← map_err domain (checked_add (amount_in (key_of posting) totals) posting.amount)
  rebuild_entry (insert key_order (key_of posting) total totals) postings

unfoldable pub rebuild_from :
    Map BalanceKey AtomicAmount
    → List JournalEntry
    → Result ReconcileError (Map BalanceKey AtomicAmount)
unfolding rebuild_entry
rebuild_from totals [] = ok totals
rebuild_from totals (entry ∷ entries) = do
  added ← rebuild_entry totals entry.postings
  rebuild_from added entries

-- `Reconciler::rebuild`, on the entries of the history
unfoldable pub rebuild : List JournalEntry → Result ReconcileError (Map BalanceKey AtomicAmount)
unfolding rebuild_from
rebuild entries = rebuild_from [] entries

-- The map of what was observed; a later record of a balance replaces an earlier one.
unfoldable pub observe :
    Map BalanceKey AtomicAmount → List BalanceRecord → Map BalanceKey AtomicAmount
observe observed [] = observed
observe observed (r ∷ rs) = observe (insert key_order (r.account_id, r.asset) r.amount observed) rs

-- `BTreeSet::extend`; the set is in ascending order.
unfoldable pub extend_keys : Map BalanceKey (Unit {0}) → List BalanceKey → Map BalanceKey (Unit {0})
extend_keys seen [] = seen
extend_keys seen (key ∷ ks) = extend_keys (insert key_order key tt seen) ks

-- The loop over the keys.
unfoldable pub differences :
    Map BalanceKey AtomicAmount
    → Map BalanceKey AtomicAmount
    → Text
    → List BalanceKey
    → List Discrepancy
differences rebuilt observed view [] = []
differences rebuilt observed view (key ∷ ks) =
    let rest = differences rebuilt observed view ks in
    if is_zero (amount_in key rebuilt -ℤ amount_in key observed)
    then rest
    else record {
      account_id = key.0;
      asset = key.1;
      expected = amount_in key rebuilt;
      observed = amount_in key observed;
      view = view;
    }
      ∷ rest

-- `compare_maps`
unfoldable pub compare_maps :
    Map BalanceKey AtomicAmount → List BalanceRecord → Text → List Discrepancy
unfolding observe differences extend_keys
compare_maps rebuilt snapshot view =
    let observed = observe [] snapshot in
    differences rebuilt observed view
      (keys (extend_keys (extend_keys [] (keys rebuilt)) (keys observed)))

abbrev pub count_postings : List JournalEntry → ℕ
count_postings [] = 0
count_postings (entry ∷ entries) = length entry.postings + count_postings entries

-- `reconcile_authoritative` and `reconcile_projection`, on what the history and the view return
unfoldable pub reconcile :
    Timestamp
    → List JournalEntry
    → List BalanceRecord
    → Text
    → Result ReconcileError ReconcileReport
unfolding rebuild compare_maps
reconcile now entries snapshot view = do
  rebuilt ← rebuild entries
  ok (record {
    finished_at = now;
    entries_scanned = length entries;
    postings_applied = count_postings entries;
    discrepancies = compare_maps rebuilt snapshot view;
  })
