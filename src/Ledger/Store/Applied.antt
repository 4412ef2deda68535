-- ===== src/Ledger/Store/Applied.antt =====
-- What an applied posting does to the balances.
use iron_ledger.Domain.Account.{Account, allows_negative, is_active}
use iron_ledger.Domain.Amount.{AtomicAmount, checked_add, is_negative}
use iron_ledger.Domain.Amount.Exact.{checked_add-eq}
use iron_ledger.Domain.Asset.{AssetCode}
use iron_ledger.Domain.Ids.{Timestamp}
use iron_ledger.Domain.Journal.{Posting}
use iron_ledger.Domain.Journal.Sums.{BalanceKey, key_of, key_order}
use iron_ledger.Ledger.Port.{BalanceRecord}
use iron_ledger.Ledger.Store.{State, balance_or_new}
use iron_ledger.Ledger.Store.Commit.{apply_posting, apply_to}
use iron_ledger.Prelude.{
  Option-cases, ap, arith, false, if◌then◌else◌, inl, inr, some, true, ◌∙◌, ◌≡◌, ◌⊎◌,
}
use iron_ledger.Prelude.Int.{int_laws, pos, ℤ, ◌+ℤ◌, ◌≤ℤ◌}
use iron_ledger.Prelude.Map.{
  Map, get, get-insert, insert, sum_entries, sum_entries-insert, sum_option,
}
use iron_ledger.Prelude.Order.{equals, equals_refl, equals_sound, nat_order, text_order}
use iron_ledger.Prelude.Result.{Result-cases, ok}

-- The amount stored under a key, zero if there is none.
abbrev pub amount_at : BalanceKey → Map BalanceKey BalanceRecord → ℤ
amount_at key balances = sum_option (λ r. r.amount) (get key_order key balances)

abbrev pub posting_amount : BalanceKey → Posting → ℤ
posting_amount key p = if equals key_order key (key_of p) then p.amount else pos 0

-- The sum of all balances in an asset.
abbrev pub in_asset : AssetCode → BalanceKey → BalanceRecord → ℤ
in_asset asset key balance = if equals text_order asset key.1 then balance.amount else pos 0

abbrev pub asset_total : AssetCode → Map BalanceKey BalanceRecord → ℤ
asset_total asset balances = sum_entries (in_asset asset) balances

-- An accepted posting adds its amount to its balance alone; the account is active, and its balance
-- afterwards is not negative unless the policy allows it.
pub record IsApplied (p : Posting) (s t : State) : Type 0 where
  pub moved :
      (key : BalanceKey)
      → amount_at key t.balances ≡ amount_at key s.balances +ℤ posting_amount key p
  pub total :
      (asset : AssetCode)
      → asset_total asset t.balances
        ≡ asset_total asset s.balances
          +ℤ (if equals text_order asset p.asset then p.amount else pos 0)
  pub account : Account
  pub known : get nat_order p.account_id s.accounts ≡ some account
  pub running : is_active account ≡ true
  pub allowed : (allows_negative account.policy ≡ true) ⊎ (pos 0 ≤ℤ amount_at (key_of p) t.balances)

-- The balances after an accepted posting.
abbrev after_posting :
    Timestamp → Posting → AtomicAmount → Map BalanceKey BalanceRecord → Map BalanceKey BalanceRecord
after_posting now p updated balances =
    let balance = balance_or_new now (key_of p) balances in
    insert key_order (key_of p) (record balance { amount = updated; updated_at = now })
      (insert key_order (key_of p) balance balances)

amount_of_new :
    (now : Timestamp) (key : BalanceKey) (balances : Map BalanceKey BalanceRecord)
    → (balance_or_new now key balances).amount ≡ amount_at key balances
amount_of_new now key balances = ground arith

amount_at-after_posting :
    (now : Timestamp) (p : Posting) (updated : AtomicAmount) (key : BalanceKey)
    (balances : Map BalanceKey BalanceRecord)
    → amount_at key (after_posting now p updated balances)
      ≡ (if equals key_order key (key_of p) then updated else amount_at key balances)
amount_at-after_posting now p updated key balances = ground (
  arith,
  get-insert key_order key (key_of p)
      (record (balance_or_new now (key_of p) balances) { amount = updated; updated_at = now })
      (insert key_order (key_of p) (balance_or_new now (key_of p) balances) balances),
  get-insert key_order key (key_of p) (balance_or_new now (key_of p) balances) balances,
)

asset_total-after_posting :
    (now : Timestamp) (p : Posting) (updated : AtomicAmount) (asset : AssetCode)
    (balances : Map BalanceKey BalanceRecord)
    → updated ≡ amount_at (key_of p) balances +ℤ p.amount
    → asset_total asset (after_posting now p updated balances)
      ≡ asset_total asset balances +ℤ (if equals text_order asset p.asset then p.amount else pos 0)
asset_total-after_posting now p updated asset balances h =
    let key = key_of p in
    let balance = balance_or_new now key balances in
    let once = insert key_order key balance balances in
    grind (
      int_laws,
      h,
      sum_entries-insert key_order (in_asset asset) key balance balances,
      sum_entries-insert key_order (in_asset asset) key
          (record balance { amount = updated; updated_at = now }) once,
      get-insert key_order key key balance balances,
      equals_refl key_order key,
    )

apply_to_ok :
    (now : Timestamp) (p : Posting) (account : Account) (balance : BalanceRecord) (s : State)
    → (apply_to now p account balance s).0 ≡ ok tt
    → (updated : AtomicAmount) × (checked_add balance.amount p.amount ≡ ok updated)
      × ((allows_negative account.policy ≡ true) ⊎ (is_negative updated ≡ false))
      × ((apply_to now p account balance s).1 ≡ record s {
        balances =
            insert key_order
              (key_of p)
              (record balance { amount = updated; updated_at = now })
              s.balances;
      })
unfolding apply_to
apply_to_ok now p account balance s h = elim (Result-cases (checked_add balance.amount p.amount)) [
  | inl (updated, e) ↦ (updated, e, ground arith, ground arith)
  | inr (d, e) ↦ absurd (ground arith)
]

-- An accepted posting sets its balance to what `checked_add` gave.
after_posting-IsApplied :
    (now : Timestamp) (p : Posting) (s : State) (account : Account) (updated : AtomicAmount)
    → get nat_order p.account_id s.accounts ≡ some account
    → is_active account ≡ true
    → checked_add (balance_or_new now (key_of p) s.balances).amount p.amount ≡ ok updated
    → (allows_negative account.policy ≡ true) ⊎ (is_negative updated ≡ false)
    → IsApplied p s (record s { balances = after_posting now p updated s.balances })
after_posting-IsApplied now p s account updated found running added policy =
    let sum : updated ≡ amount_at (key_of p) s.balances +ℤ p.amount =
      checked_add-eq (balance_or_new now (key_of p) s.balances).amount p.amount added
      ∙ ap (λ x. x +ℤ p.amount) (amount_of_new now (key_of p) s.balances) in
    record {
      moved = λ key.
          rw (amount_at-after_posting now p updated key s.balances)
            (grind (int_laws, sum, equals_sound key_order key (key_of p)));
      total = λ asset. asset_total-after_posting now p updated asset s.balances sum;
      account = account;
      known = found;
      running = running;
      allowed =
          rw
            (
              amount_at-after_posting now p updated (key_of p) s.balances,
              equals_refl key_order (key_of p),
            )
            (ground arith);
    }

apply_posting_known :
    (now : Timestamp) (p : Posting) (s : State) (account : Account)
    → get nat_order p.account_id s.accounts ≡ some account
    → is_active account ≡ true
    → apply_posting now p s
      ≡ apply_to now p account (balance_or_new now (key_of p) s.balances) (record s {
        balances =
            insert key_order (key_of p) (balance_or_new now (key_of p) s.balances) s.balances;
      })
unfolding apply_posting
apply_posting_known now p s account found running = ground arith

apply_posting_unknown :
    (now : Timestamp) (p : Posting) (s : State)
    → (apply_posting now p s).0 ≡ ok tt
    → (account : Account) × (get nat_order p.account_id s.accounts ≡ some account)
      × (is_active account ≡ true)
unfolding apply_posting
apply_posting_unknown now p s h = elim (Option-cases (get nat_order p.account_id s.accounts)) [
  | inl absent ↦ absurd (ground arith)
  | inr (account, found) ↦ (account, found, ground arith)
]

pub apply_posting-IsApplied :
    (now : Timestamp) (p : Posting) (s : State)
    → (apply_posting now p s).0 ≡ ok tt
    → IsApplied p s (apply_posting now p s).1
apply_posting-IsApplied now p s h =
    let (account, found, running) = apply_posting_unknown now p s h in
    let step = apply_posting_known now p s account found running in
    let (updated, added, policy, result) =
      apply_to_ok now p account (balance_or_new now (key_of p) s.balances)
        (record s {
          balances =
              insert key_order (key_of p) (balance_or_new now (key_of p) s.balances) s.balances;
        })
        (rw step at h) in
    rw (step, result) (after_posting-IsApplied now p s account updated found running added policy)
