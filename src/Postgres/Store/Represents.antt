-- ===== src/Postgres/Store/Represents.antt =====
-- crates/storage-postgres/src/store.rs: the tables as a representation of the in-memory state.
use mathlib.Core.Option
use iron_ledger.Domain.Account.{
  Account, AccountPolicy, AccountStatus, active, allow_negative, allows_negative, closed, frozen,
  is_active, is_active_status, non_negative, status_text,
}
use iron_ledger.Domain.Amount.{AtomicAmount, amount_zero}
use iron_ledger.Domain.Amount.Exact.{InRange}
use iron_ledger.Domain.Ids.{Uuid}
use iron_ledger.Domain.Journal.Sums.{BalanceKey, key_order}
use iron_ledger.Ledger.Port.{BalanceRecord}
use iron_ledger.Ledger.Store.{RecordKey, State, record_order}
use iron_ledger.Ledger.Store.Numbered.{event_ids}
use iron_ledger.Postgres.Convert.{account_row, amount_to_str, policy_to_str, status_to_str}
use iron_ledger.Postgres.Convert.Columns.{column_amount-amount_to_str}
use iron_ledger.Postgres.Store.{BalanceRow, Driver, QueuedRow, Tables, current_amount, record_row}
use iron_ledger.Prelude.{
  List, Option, Option-cases, arith, inl, inr, map, none, not, refl, some, ℕ, ◌≡◌,
}
use iron_ledger.Prelude.Map.{get}
use iron_ledger.Prelude.Order.{equals, nat_order, text_order}
use iron_ledger.Prelude.Result.{ok}
use iron_ledger.Prelude.Text.{codes}

abbrev pub balance_row : Driver → BalanceRecord → BalanceRow
balance_row driver r = record {
  amount_atomic = amount_to_str r.amount;
  updated_at = driver.kept r.updated_at;
}

abbrev pub queued_ids : List QueuedRow → List ℕ
queued_ids rows = map (λ row. row.event_id) rows

-- The tables hold the accounts, balances, idempotency records and queued events of the state, with
-- their instants as the columns keep them.
pub record Represents (driver : Driver) (t : Tables) (s : State) : Type 0 where
  pub accounts :
      (id : Uuid)
      → get nat_order id t.accounts
        ≡ Option.map (account_row driver.kept) (get nat_order id s.accounts)
  pub own_id : (id : Uuid) (a : Account) → get nat_order id s.accounts ≡ some a → a.id ≡ id
  pub balances :
      (key : BalanceKey)
      → get key_order key t.balances
        ≡ Option.map (balance_row driver) (get key_order key s.balances)
  pub in_range :
      (key : BalanceKey) (r : BalanceRecord)
      → get key_order key s.balances ≡ some r
      → InRange r.amount
  pub idempotency :
      (key : RecordKey)
      → get record_order key t.idempotency_keys
        ≡ Option.map (record_row driver) (get record_order key s.idempotency)
  pub queued : queued_ids t.outbox ≡ event_ids s.outbox

pub status_agrees :
    (driver : Driver) (account : Account)
    → equals text_order (account_row driver.kept account).status (codes "active")
      ≡ is_active account
status_agrees driver account = go account.status
  where
    go :
        (status : AccountStatus)
        → equals text_order (status_to_str status) (codes "active") ≡ is_active_status status
    go active = refl
    go frozen = refl
    go closed = refl

pub policy_agrees :
    (policy : AccountPolicy)
    → equals text_order (policy_to_str policy) (codes "non_negative") ≡ not (allows_negative policy)
policy_agrees non_negative = refl
policy_agrees allow_negative = refl

pub status_text_agrees : (status : AccountStatus) → status_to_str status ≡ status_text status
status_text_agrees active = refl
status_text_agrees frozen = refl
status_text_agrees closed = refl

-- The amount of a balance, zero where there is none.
abbrev pub amount_or_zero : Option BalanceRecord → AtomicAmount
amount_or_zero none = amount_zero
amount_or_zero (some r) = r.amount

pub current_amount-represented :
    (driver : Driver) (t : Tables) (s : State) (key : BalanceKey)
    → Represents driver t s
    → current_amount (get key_order key t.balances)
      ≡ ok (amount_or_zero (get key_order key s.balances))
unfolding current_amount
current_amount-represented driver t s key h =
    let row = h.balances key in
    elim (Option-cases (get key_order key s.balances)) [
      | inl absent ↦ ground arith
      | inr (r, present) ↦
          let read = column_amount-amount_to_str r.amount (h.in_range key r present) in ground arith
    ]
