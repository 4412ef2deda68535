-- ===== src/Ledger/Service/Checks.antt =====
-- The parts of `guard_postings` (crates/ledger/src/service.rs) that call no port.
use mathlib.Core.Option
use iron_ledger.Domain.Account.{Account, allows_negative, is_active, status_text}
use iron_ledger.Domain.Amount.{AtomicAmount, amount_zero, checked_add, is_negative}
use iron_ledger.Domain.Error.{account_not_active, insufficient_balance}
use iron_ledger.Domain.Ids.{AccountId, Uuid}
use iron_ledger.Domain.Journal.{Posting}
use iron_ledger.Domain.Journal.Sums.{BalanceKey, key_of, key_order}
use iron_ledger.Ledger.Error.{LedgerError, domain, not_found}
use iron_ledger.Ledger.Port.{BalanceRecord}
use iron_ledger.Prelude.{
  Bool, List, Option, [], false, get_or, if◌then◌else◌, none, not, some, ◌==◌, ◌∷◌,
}
use iron_ledger.Prelude.Map.{Map, get, insert}
use iron_ledger.Prelude.Order.{nat_order}
use iron_ledger.Prelude.Result.{Result, err, map_err, ok, reject_if, ◌>>=◌, ◌>>◌}
use iron_ledger.Prelude.Text.{codes}

-- The loop over the postings; an overflow ends the call.
unfoldable pub add_deltas :
    Map BalanceKey AtomicAmount → List Posting → Result LedgerError (Map BalanceKey AtomicAmount)
add_deltas deltas [] = ok deltas
add_deltas deltas (posting ∷ postings) = do
  delta ←
      map_err domain
        (checked_add (get_or (get key_order (key_of posting) deltas) amount_zero) posting.amount)
  add_deltas (insert key_order (key_of posting) delta deltas) postings

-- `Vec::dedup`: of equal neighbours the first stays.
unfoldable pub dedup : List Uuid → List Uuid
dedup [] = []
dedup (a ∷ []) = a ∷ []
dedup (a ∷ b ∷ rest) = let others = dedup (b ∷ rest) in if a == b then others else a ∷ others

-- The accounts that were loaded, collected by identifier; a later one replaces an earlier.
unfoldable pub collect_by_id : Map Uuid Account → List Account → Map Uuid Account
collect_by_id accounts [] = accounts
collect_by_id accounts (account ∷ loaded) =
    collect_by_id (insert nat_order account.id account accounts) loaded

unfoldable pub check_account : AccountId → Option Account → Result LedgerError (Unit {0})
check_account id none = err (not_found (codes "account") id)
check_account id (some account) =
    reject_if (not (is_active account))
      (domain (account_not_active id (status_text account.status)))

-- The loop over the identifiers.
unfoldable pub check_accounts : Map Uuid Account → List AccountId → Result LedgerError (Unit {0})
unfolding check_account
check_accounts accounts [] = ok tt
check_accounts accounts (id ∷ ids) = do
  check_account id (get nat_order id accounts)
  check_accounts accounts ids

-- The balance that a delta would leave.
unfoldable pub check_balance :
    BalanceKey → AtomicAmount → Option BalanceRecord → Result LedgerError (Unit {0})
check_balance key delta found = do
  let balance = get_or (Option.map (λ (r : BalanceRecord). r.amount) found) amount_zero
  left ← map_err domain (checked_add balance delta)
  reject_if (is_negative left) (domain (insufficient_balance key.0 key.1 balance delta))

-- An account that `accounts[&id]` finds; the identifiers were checked before.
abbrev pub may_go_negative : Option Account → Bool
may_go_negative none = false
may_go_negative (some account) = allows_negative account.policy
