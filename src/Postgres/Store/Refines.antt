-- ===== src/Postgres/Store/Refines.antt =====
-- crates/storage-postgres/src/store.rs: the transaction of a commit against crates/ledger/src/memory.rs.
use mathlib.Core.Option
use mathlib.Core.Path.{subst}
use iron_ledger.Domain.Account.{Account, allows_negative, is_active, status_text}
use iron_ledger.Domain.Amount.{AtomicAmount, checked_add, is_negative}
use iron_ledger.Domain.Amount.Exact.{InRange, checked_arithmetic-IsExact}
use iron_ledger.Domain.Error.{account_not_active, insufficient_balance}
use iron_ledger.Domain.Ids.{Timestamp, Uuid}
use iron_ledger.Domain.Journal.{Posting}
use iron_ledger.Domain.Journal.Sums.{BalanceKey, key_of, key_order}
use iron_ledger.Ledger.Error.{LedgerError}
use iron_ledger.Ledger.Port.{BalanceRecord}
use iron_ledger.Ledger.Store.{State, balance_or_new}
use iron_ledger.Ledger.Store.Commit.{apply_known, apply_posting, apply_postings, apply_to}
use iron_ledger.Postgres.Convert.{account_row, amount_to_str}
use iron_ledger.Postgres.Store.{
  BalanceRow, Driver, Tables, apply_posting_tx, apply_postings_tx, update_balance, write_posting,
}
use iron_ledger.Postgres.Store.Represents.{
  Represents, amount_or_zero, balance_row, current_amount-represented, policy_agrees, status_agrees,
  status_text_agrees,
}
use iron_ledger.Prelude.{
  Bool-cases, List, Option-cases, [], ap, arith, inl, inr, not, refl, some, some_injective, sym,
  ◌&&◌, ◌∙◌, ◌∷◌, ◌≡◌, ◌⊎◌,
}
use iron_ledger.Prelude.Map.{Map, get, get-insert, insert}
use iron_ledger.Prelude.Order.{equals, nat_order}
use iron_ledger.Prelude.Result.{Result, Result-cases, err, err_injective, ok}
use iron_ledger.Prelude.Text.{codes}

-- Both fail with the same error, or both succeed and the tables represent the state.
abbrev pub Agrees :
    Driver → Result LedgerError Tables → Result LedgerError (Unit {0}) × State → Type 0
Agrees driver (ok t) (ok _, s) = Represents driver t s
Agrees driver (ok t) (err e, s) = ⊥
Agrees driver (err d) (ok _, s) = ⊥
Agrees driver (err d) (err e, s) = d ≡ e

Agrees-err :
    (driver : Driver) (x : Result LedgerError Tables) (y : Result LedgerError (Unit {0}) × State)
    (e : LedgerError)
    → x ≡ err e
    → y.0 ≡ err e
    → Agrees driver x y
Agrees-err driver x (err d, s) e h k = rw h (sym (err_injective k))
Agrees-err driver x (ok u, s) e h k = absurd (ground arith)

Agrees-ok :
    (driver : Driver) (x : Result LedgerError Tables) (y : Result LedgerError (Unit {0}) × State)
    (t : Tables) (s : State)
    → x ≡ ok t
    → y ≡ (ok tt, s)
    → Represents driver t s
    → Agrees driver x y
Agrees-ok driver x y t s h k represented = rw (h, k) represented

pub checked_add-InRange : (a b c : AtomicAmount) → checked_add a b ≡ ok c → InRange c
checked_add-InRange a b c h =
    let (exact, bounds) = rw h at (checked_arithmetic-IsExact a b).0 in
    subst InRange (sym exact) bounds

amount_or_zero_new :
    (now : Timestamp) (key : BalanceKey) (m : Map BalanceKey BalanceRecord)
    → (balance_or_new now key m).amount ≡ amount_or_zero (get key_order key m)
amount_or_zero_new now key m = elim (Option-cases (get key_order key m)) [
  | inl absent ↦ ground arith
  | inr (r, present) ↦ ground arith
]

module _ (driver : Driver) (now : Timestamp) (entry_id : Uuid) (p : Posting) (t : Tables)
    (s : State) (h : Represents driver t s) where
  -- The state with the balance of the posting's key written, as the code writes it.
  abbrev written : BalanceRecord → AtomicAmount → State
  written balance updated = record s {
    balances =
        insert key_order (key_of p) (record balance { amount = updated; updated_at = now })
          (insert key_order (key_of p) balance s.balances);
  }

  write_balances :
      (balance : BalanceRecord) (updated : AtomicAmount) (key : BalanceKey)
      → get key_order key (write_posting driver now entry_id p updated t).balances
        ≡ Option.map (balance_row driver) (get key_order key (written balance updated).balances)
  write_balances balance updated key =
      let row : BalanceRow = record {
        amount_atomic = amount_to_str updated;
        updated_at = driver.kept now;
      } in
      let after_write = get-insert key_order key (key_of p) row t.balances in
      let first = get-insert key_order key (key_of p) balance s.balances in
      let second =
        get-insert key_order key (key_of p) (record balance { amount = updated; updated_at = now })
          (insert key_order (key_of p) balance s.balances) in
      let before = h.balances key in
      elim (Bool-cases (equals key_order key (key_of p))) [
        | inl here ↦ ground arith
        | inr elsewhere ↦ ground arith
      ]

  write-InRange :
      (balance : BalanceRecord) (updated : AtomicAmount)
      → InRange updated
      → (key : BalanceKey) (r : BalanceRecord)
      → get key_order key (written balance updated).balances ≡ some r
      → InRange r.amount
  write-InRange balance updated small key r found =
      let first = get-insert key_order key (key_of p) balance s.balances in
      let second =
        get-insert key_order key (key_of p) (record balance { amount = updated; updated_at = now })
          (insert key_order (key_of p) balance s.balances) in
      elim (Bool-cases (equals key_order key (key_of p))) [
        | inl here ↦
            let stored : get key_order key (written balance updated).balances
                ≡ some (record balance { amount = updated; updated_at = now }) =
              ground arith in
            subst (λ (x : BalanceRecord). InRange x.amount) (some_injective (sym stored ∙ found))
              small
        | inr elsewhere ↦ h.in_range key r (ground arith)
      ]

  write-Represents :
      (balance : BalanceRecord) (updated : AtomicAmount)
      → InRange updated
      → Represents driver (write_posting driver now entry_id p updated t) (written balance updated)
  write-Represents balance updated small = record {
    accounts = h.accounts;
    own_id = h.own_id;
    balances = write_balances balance updated;
    in_range = write-InRange balance updated small;
    idempotency = h.idempotency;
    queued = h.queued;
  }

  update_balance_refines :
      (account : Account) (balance : BalanceRecord)
      → account.id ≡ p.account_id
      → Agrees driver
          (update_balance driver now entry_id p (account_row driver.kept account) balance.amount t)
          (apply_to now p account balance
            (record s { balances = insert key_order (key_of p) balance s.balances }))
  unfolding update_balance apply_to
  update_balance_refines account balance own =
      let policy = policy_agrees account.policy in
      let x =
        update_balance driver now entry_id p (account_row driver.kept account) balance.amount t in
      let y =
        apply_to now p account balance
          (record s { balances = insert key_order (key_of p) balance s.balances }) in
      elim (Result-cases (checked_add balance.amount p.amount)) [
        | inr (e, bad) ↦ Agrees-err driver x y (LedgerError.domain e) (ground arith) (ground arith)
        | inl (updated, good) ↦
            elim (Bool-cases (is_negative updated && not (allows_negative account.policy))) [
              | inl negative ↦
                  Agrees-err driver x y
                    (LedgerError.domain
                      (insufficient_balance p.account_id p.asset balance.amount p.amount))
                    (ground arith) (ground arith)
              | inr fine ↦
                  Agrees-ok driver x y (write_posting driver now entry_id p updated t)
                    (written balance updated) (ground arith) (ground arith)
                    (write-Represents balance updated
                      (checked_add-InRange balance.amount p.amount updated good))
            ]
      ]

  known_refines :
      (account : Account)
      → get nat_order p.account_id s.accounts ≡ some account
      → Agrees driver
          (apply_posting_tx driver now entry_id p t)
          (apply_known now p (some account) s)
  unfolding apply_posting_tx apply_known
  known_refines account found =
      let row = h.accounts p.account_id in
      let own = h.own_id p.account_id account found in
      let status = status_agrees driver account in
      let texts = status_text_agrees account.status in
      let x = apply_posting_tx driver now entry_id p t in
      let y = apply_known now p (some account) s in
      let read = current_amount-represented driver t s (key_of p) h in
      let balance = balance_or_new now (key_of p) s.balances in
      let same_amount = amount_or_zero_new now (key_of p) s.balances in
      elim (Bool-cases (is_active account)) [
        | inr stopped ↦
            Agrees-err driver x y
              (LedgerError.domain (account_not_active p.account_id (status_text account.status)))
              (ground arith) (ground arith)
        | inl running ↦
            let tables : x
                ≡ update_balance driver now entry_id p (account_row driver.kept account)
                    balance.amount t =
              ground arith in
            let memory : y
                ≡ apply_to now p account balance
                    (record s { balances = insert key_order (key_of p) balance s.balances }) =
              ground arith in
            rw (tables, memory) (update_balance_refines account balance own)
      ]

  apply_posting_refines :
      Agrees driver (apply_posting_tx driver now entry_id p t) (apply_posting now p s)
  unfolding apply_posting_tx apply_posting
  apply_posting_refines =
      let row = h.accounts p.account_id in
      elim (Option-cases (get nat_order p.account_id s.accounts)) [
        | inl absent ↦
            Agrees-err driver (apply_posting_tx driver now entry_id p t) (apply_posting now p s)
              (LedgerError.not_found (codes "account") p.account_id) (ground arith) (ground arith)
        | inr (account, found) ↦
            let same_step : apply_posting now p s ≡ apply_known now p (some account) s =
              ground arith in
            rw same_step (known_refines account found)
      ]

-- The two ways to agree.
pub Agrees-cases :
    (driver : Driver) (x : Result LedgerError Tables) (y : Result LedgerError (Unit {0}) × State)
    → Agrees driver x y
    → ((t : Tables) × (x ≡ ok t) × (y.0 ≡ ok tt) × Represents driver t y.1)
      ⊎ ((e : LedgerError) × (x ≡ err e) × (y.0 ≡ err e))
Agrees-cases driver (ok t) (ok u, s) h = inl (t, refl, refl, h)
Agrees-cases driver (ok t) (err e, s) h = absurd h
Agrees-cases driver (err d) (ok u, s) h = absurd h
Agrees-cases driver (err d) (err e, s) h = inr (d, refl, ap err (sym h))

pub apply_postings_refines :
    (driver : Driver) (now : Timestamp) (entry_id : Uuid) (ps : List Posting) (t : Tables)
    (s : State)
    → Represents driver t s
    → Agrees driver (apply_postings_tx driver now entry_id ps t) (apply_postings now ps s)
unfolding apply_postings_tx apply_postings
apply_postings_refines driver now entry_id [] t s h = h
apply_postings_refines driver now entry_id (p ∷ ps) t s h =
    let x = apply_postings_tx driver now entry_id (p ∷ ps) t in
    let y = apply_postings now (p ∷ ps) s in
    elim (Agrees-cases driver (apply_posting_tx driver now entry_id p t) (apply_posting now p s)
      (apply_posting_refines driver now entry_id p t s h)) [
        | inr (e, bad, same_error) ↦ Agrees-err driver x y e (ground arith) (ground arith)
        | inl (u, good, fine, represented) ↦
            let v = (apply_posting now p s).1 in
            let tables : x ≡ apply_postings_tx driver now entry_id ps u = ground arith in
            let memory : y ≡ apply_postings now ps v = ground arith in
            rw (tables, memory) (apply_postings_refines driver now entry_id ps u v represented)
      ]
