-- ===== src/Reconciler/Clean.antt =====
-- The in-memory ledger against its own journal.
use iron_ledger.Domain.Amount.{AtomicAmount}
use iron_ledger.Domain.Ids.{Timestamp}
use iron_ledger.Domain.Journal.Slots.{amount_in}
use iron_ledger.Domain.Journal.Sums.{BalanceKey, key_order}
use iron_ledger.Ledger.Port.{BalanceRecord}
use iron_ledger.Ledger.Store.{State}
use iron_ledger.Ledger.Store.Applied.{amount_at}
use iron_ledger.Ledger.Store.Filed.{IsFiled, Reach-IsFiled, own_key}
use iron_ledger.Ledger.Store.Queries.{snapshot}
use iron_ledger.Ledger.Store.Reach.{Reach, Reach-IsSound}
use iron_ledger.Prelude.{
  List, Option, Ordering, [], arith, length, none, refl, some, sym, ◌∙◌, ◌∷◌, ◌≡◌,
}
use iron_ledger.Prelude.Map.{Map, get, get-insert, insert, sum_option, values}
use iron_ledger.Prelude.Result.{ok}
use iron_ledger.Prelude.Sorted.{Above, Above-trans, get_of_Above}
use iron_ledger.Prelude.Text.{Text}
use iron_ledger.Reconciler.{count_postings, observe, reconcile}
use iron_ledger.Reconciler.Compared.{Agrees, compare_maps-Agrees}
use iron_ledger.Reconciler.Rebuilt.{rebuild-eq-sum}
use iron_ledger.Reconciler.Total.{Reach-Rebuilds}

observe_next :
    (r : BalanceRecord) (rs : List BalanceRecord) (k : BalanceKey) (m : Map BalanceKey AtomicAmount)
    → own_key r ≡ k
    → observe m (r ∷ rs) ≡ observe (insert key_order k r.amount m) rs
unfolding observe
observe_next r rs k m own = rw own refl

below_absent :
    {V : Type 0} (key k : BalanceKey) (b : Map BalanceKey V)
    → Above key_order k b
    → key_order.cmp key k ≡ Ordering.lt
    → get key_order key b ≡ none
below_absent key k b above less =
    get_of_Above key_order key b (Above-trans key_order key k b less above)

-- The amount of a record that was found, or `rest`.
abbrev amount_or : AtomicAmount → Option BalanceRecord → AtomicAmount
amount_or rest none = rest
amount_or rest (some r) = r.amount

head_amount :
    (key k : BalanceKey) (r : BalanceRecord) (b : Map BalanceKey BalanceRecord)
    (m : Map BalanceKey AtomicAmount)
    → Above key_order k b
    → amount_or (amount_in key (insert key_order k r.amount m)) (get key_order key b)
      ≡ amount_or (amount_in key m) (get key_order key ((k, r) ∷ b))
unfolding get
head_amount key k r b m above = ground (
  arith,
  get-insert key_order key k r.amount m,
  get_of_Above key_order k b above,
  below_absent key k b above,
  key_order.cmp_eq key k,
)

observe_sorted :
    (key : BalanceKey) (b : Map BalanceKey BalanceRecord) (m : Map BalanceKey AtomicAmount)
    → IsFiled b
    → amount_in key (observe m (values b)) ≡ amount_or (amount_in key m) (get key_order key b)
observe_sorted key [] m h = unfold observe get in refl
observe_sorted key ((k, r) ∷ b) m ((own, keyed), (above, sorted)) =
    rw (observe_next r (values b) k m own) (
      observe_sorted key b (insert key_order k r.amount m) (keyed, sorted)
      ∙ head_amount key k r b m above)

zero_amount :
    (key : BalanceKey) (found : Option BalanceRecord)
    → amount_or (amount_in key []) found ≡ sum_option (λ r. r.amount) found
unfolding get
zero_amount key none = refl
zero_amount key (some r) = refl

observe-snapshot :
    (key : BalanceKey) (s : State)
    → IsFiled s.balances
    → amount_in key (observe [] (snapshot s)) ≡ amount_at key s.balances
unfolding snapshot
observe-snapshot key s h =
    observe_sorted key s.balances [] h ∙ zero_amount key (get key_order key s.balances)

-- A store that the in-memory ledger's operations reach, reconciled with its own journal, gives a
-- clean report over all of its entries: the journal is rebuilt without an overflow, and no balance
-- differs from the rebuilt one.
pub reconcile_reachable :
    (now : Timestamp) (view : Text) (s : State)
    → Reach s
    → reconcile now s.entries (snapshot s) view
      ≡ ok (record {
        finished_at = now;
        entries_scanned = length s.entries;
        postings_applied = count_postings s.entries;
        discrepancies = [];
      })
unfolding reconcile
reconcile_reachable now view s reach =
    let (totals, rebuilt) = Reach-Rebuilds reach in
    let same : Agrees totals (snapshot s) = (λ key.
      rebuild-eq-sum s.entries totals rebuilt key
      ∙ sym ((Reach-IsSound reach).history key)
      ∙ sym (observe-snapshot key s (Reach-IsFiled reach))) in
    rw (rebuilt, (compare_maps-Agrees totals (snapshot s) view).1 same) refl
