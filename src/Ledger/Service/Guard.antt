-- ===== src/Ledger/Service/Guard.antt =====
-- `guard_postings` (crates/ledger/src/service.rs): the check before the commit.
use iron_ledger.Domain.Account.{Account}
use iron_ledger.Domain.Amount.{AtomicAmount, is_negative}
use iron_ledger.Domain.Ids.{Uuid}
use iron_ledger.Domain.Journal.{JournalEntry}
use iron_ledger.Domain.Journal.Sums.{BalanceKey}
use iron_ledger.Ledger.Action.{Action, Ports, lift, pure, ◌>>=◌, ◌>>◌}
use iron_ledger.Ledger.Service.Checks.{
  add_deltas, check_accounts, check_balance, collect_by_id, dedup, may_go_negative,
}
use iron_ledger.Prelude.{[], if◌then◌else◌, map, not, ◌||◌, ◌∷◌}
use iron_ledger.Prelude.Map.{Map, get, keys}
use iron_ledger.Prelude.Order.{nat_order}

module _ {S : Type 0} (ports : Ports S) where
  -- The loop over the deltas.
  unfoldable pub check_deltas : Map Uuid Account → Map BalanceKey AtomicAmount → Action S (Unit {0})
  unfolding check_balance
  check_deltas accounts [] = pure tt
  check_deltas accounts ((key, delta) ∷ deltas) =
      let rest = check_deltas accounts deltas in
      if not (is_negative delta) || may_go_negative (get nat_order key.0 accounts)
      then rest
      else do found ← ports.get_balance key.0 key.1; lift (check_balance key delta found); rest

  unfoldable pub guard_postings : JournalEntry → Action S (Unit {0})
  unfolding add_deltas dedup collect_by_id check_accounts check_deltas
  guard_postings entry = do
    deltas ← lift (add_deltas [] entry.postings)
    let ids = dedup (map (λ (key : BalanceKey). key.0) (keys deltas))
    loaded ← ports.load_many ids
    let accounts = collect_by_id [] loaded
    lift (check_accounts accounts ids)
    check_deltas accounts deltas
