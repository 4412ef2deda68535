-- ===== src/Ledger/Store/Queries.antt =====
-- The reads of balances, entries and idempotency records in crates/ledger/src/memory.rs.
use mathlib.Core.List.{reverse}
use iron_ledger.Domain.Amount.{AtomicAmount, amount_zero}
use iron_ledger.Domain.Asset.{AssetCode}
use iron_ledger.Domain.Ids.{AccountId, IdempotencyKey, Timestamp, TransactionId}
use iron_ledger.Domain.Journal.{JournalEntry}
use iron_ledger.Domain.Journal.Sums.{key_order}
use iron_ledger.Ledger.Idempotency.{IdempotencyRecord}
use iron_ledger.Ledger.Port.{BalanceRecord, Page}
use iron_ledger.Ledger.Store.{RecordKey, State, record_order}
use iron_ledger.Prelude.{
  Bool, List, Option, [], any, drop, filter, if◌then◌else◌, leb, length, none, some, take, ℕ, ◌-◌,
  ◌==◌, ◌∷◌,
}
use iron_ledger.Prelude.Map.{Map, get, values}
use iron_ledger.Prelude.Text.{Text}

-- `InMemoryLedger::balance_of`
unfoldable pub balance_of : AccountId → AssetCode → State → AtomicAmount
balance_of account_id asset s = elim (get key_order (account_id, asset) s.balances) [
  | none ↦ amount_zero
  | some balance ↦ balance.amount
]

-- `BalanceRepo::get`
unfoldable pub get_balance : AccountId → AssetCode → State → Option BalanceRecord
get_balance account_id asset s = get key_order (account_id, asset) s.balances

-- `BalanceRepo::list_for_account`; the map is in the order of the keys, so the filtered records are
-- in the order of their assets.
unfoldable pub list_for_account : AccountId → State → List BalanceRecord
list_for_account account_id s =
    filter (λ balance. balance.account_id == account_id) (values s.balances)

-- `BalanceRepo::snapshot`
unfoldable pub snapshot : State → List BalanceRecord
snapshot s = values s.balances

unfoldable pub find_in : TransactionId → List JournalEntry → Option JournalEntry
find_in id [] = none
find_in id (entry ∷ entries) = if entry.id == id then some entry else find_in id entries

-- `LedgerRepo::find_entry`
unfoldable pub find_entry : TransactionId → State → Option JournalEntry
unfolding find_in
find_entry id s = find_in id s.entries

abbrev pub touches : AccountId → JournalEntry → Bool
touches account_id entry = any (λ posting. posting.account_id == account_id) entry.postings

-- `LedgerRepo::list_account_entries`
unfoldable pub list_account_entries : AccountId → Page → State → List JournalEntry
list_account_entries account_id page s =
    take page.limit (drop page.offset (filter (touches account_id) (reverse s.entries)))

-- `IdempotencyRepo::find`
unfoldable pub find_record : Text → IdempotencyKey → State → Option IdempotencyRecord
find_record scope key s = get record_order (scope, key) s.idempotency

unfoldable pub retain_since :
    Timestamp → Map RecordKey IdempotencyRecord → Map RecordKey IdempotencyRecord
retain_since cutoff [] = []
retain_since cutoff ((key, r) ∷ rs) =
    let rest = retain_since cutoff rs in if leb cutoff r.created_at then (key, r) ∷ rest else rest

-- `IdempotencyRepo::purge_created_before`
unfoldable pub purge_created_before : Timestamp → State → ℕ × State
unfolding retain_since
purge_created_before cutoff s = (
  length s.idempotency - length (retain_since cutoff s.idempotency),
  record s { idempotency = retain_since cutoff s.idempotency },
)
