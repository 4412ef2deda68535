-- ===== src/Ledger/Store/Postings.antt =====
-- What an accepted list of postings does to the balances.
use mathlib.Core.Path.{subst}
use iron_ledger.Domain.Account.{Account, allows_negative, is_active}
use iron_ledger.Domain.Asset.{AssetCode}
use iron_ledger.Domain.Ids.{Timestamp, Uuid}
use iron_ledger.Domain.Journal.{Posting}
use iron_ledger.Domain.Journal.Sums.{BalanceKey, asset_sum, key_of, key_order, posting_sum}
use iron_ledger.Ledger.Error.{LedgerError}
use iron_ledger.Ledger.Port.{BalanceRecord}
use iron_ledger.Ledger.Store.{State}
use iron_ledger.Ledger.Store.Applied.{IsApplied, amount_at, apply_posting-IsApplied, asset_total}
use iron_ledger.Ledger.Store.Commit.{apply_posting, apply_postings}
use iron_ledger.Ledger.Store.Frame.{apply_posting_frame}
use iron_ledger.Prelude.{
  All, Bool-cases, List, [], ap, arith, false, inl, inr, none, some, sym, true, ◌∷◌, ◌≡◌,
}
use iron_ledger.Prelude.Int.{+ℤ_zero, int_laws, pos, ◌+ℤ◌, ◌≤ℤ◌}
use iron_ledger.Prelude.Map.{Map, get}
use iron_ledger.Prelude.Order.{equals, equals_sound, nat_order}
use iron_ledger.Prelude.Result.{Result-cases, err, ok}

-- No account that may not be negative has a negative balance.
abbrev pub IsSolvent : Map Uuid Account → Map BalanceKey BalanceRecord → Type 0
IsSolvent accounts balances =
    (key : BalanceKey) (account : Account)
    → get nat_order key.0 accounts ≡ some account
    → allows_negative account.policy ≡ false
    → pos 0 ≤ℤ amount_at key balances

-- Nothing is booked on an account that does not exist.
abbrev pub HasOwners : Map Uuid Account → Map BalanceKey BalanceRecord → Type 0
HasOwners accounts balances =
    (key : BalanceKey) → get nat_order key.0 accounts ≡ none → amount_at key balances ≡ pos 0

apply_posting-IsSolvent :
    (p : Posting) (s t : State)
    → IsApplied p s t
    → IsSolvent s.accounts s.balances
    → IsSolvent s.accounts t.balances
apply_posting-IsSolvent p s t step h key account found strict =
    elim (Bool-cases (equals key_order key (key_of p))) [
      | inl same ↦
          let e = equals_sound key_order key (key_of p) same in
          (elim step.allowed [
            | inl free ↦
                absurd (ground (arith, ap (λ (k : BalanceKey). get nat_order k.0 s.accounts) e))
            | inr enough ↦ rw e enough
          ])
      | inr other_key ↦ rw (step.moved key, other_key) (rw +ℤ_zero (h key account found strict))
    ]

apply_posting-HasOwners :
    (p : Posting) (s t : State)
    → IsApplied p s t
    → HasOwners s.accounts s.balances
    → HasOwners s.accounts t.balances
apply_posting-HasOwners p s t step h key absent =
    elim (Bool-cases (equals key_order key (key_of p))) [
      | inl same ↦
          let e = equals_sound key_order key (key_of p) same in
          absurd (ground (arith, ap (λ (k : BalanceKey). get nat_order k.0 s.accounts) e))
      | inr other_key ↦ rw (step.moved key, other_key) (rw +ℤ_zero (h key absent))
    ]

-- The accepted postings as a whole.
pub record AreApplied (ps : List Posting) (s t : State) : Type 0 where
  pub moved :
      (key : BalanceKey) → amount_at key t.balances ≡ amount_at key s.balances +ℤ posting_sum key ps
  pub total :
      (asset : AssetCode)
      → asset_total asset t.balances ≡ asset_total asset s.balances +ℤ asset_sum asset ps
  pub solvent : IsSolvent s.accounts s.balances → IsSolvent s.accounts t.balances
  pub owned : HasOwners s.accounts s.balances → HasOwners s.accounts t.balances
  pub accounts_active :
      All
        (λ p.
          (account : Account) × (get nat_order p.account_id s.accounts ≡ some account)
          × (is_active account ≡ true))
        ps

none_applied : (s : State) → AreApplied [] s s
none_applied s = record {
  moved = λ key. sym (+ℤ_zero (amount_at key s.balances));
  total = λ asset. sym (+ℤ_zero (asset_total asset s.balances));
  solvent = λ h. h;
  owned = λ h. h;
  accounts_active = tt;
}

one_more_applied :
    (p : Posting) (ps : List Posting) (s t u : State)
    → t.accounts ≡ s.accounts
    → IsApplied p s t
    → AreApplied ps t u
    → AreApplied (p ∷ ps) s u
one_more_applied p ps s t u same first rest = record {
  moved = λ key. rw (rest.moved key, first.moved key) (omega int_laws);
  total = λ asset. rw (rest.total asset, first.total asset) (omega int_laws);
  solvent = λ h.
      subst (λ (a : Map Uuid Account). IsSolvent a u.balances) same
        (rest.solvent (
          subst (λ (a : Map Uuid Account). IsSolvent a t.balances) (sym same)
            (apply_posting-IsSolvent p s t first h)));
  owned = λ h.
      subst (λ (a : Map Uuid Account). HasOwners a u.balances) same
        (rest.owned (
          subst (λ (a : Map Uuid Account). HasOwners a t.balances) (sym same)
            (apply_posting-HasOwners p s t first h)));
  accounts_active = ((first.account, first.known, first.running), rw same at rest.accounts_active);
}

pub apply_postings_next :
    (now : Timestamp) (p : Posting) (ps : List Posting) (s : State) (u : Unit {0})
    → (apply_posting now p s).0 ≡ ok u
    → apply_postings now (p ∷ ps) s ≡ apply_postings now ps (apply_posting now p s).1
unfolding apply_postings
apply_postings_next now p ps s u h = ground arith

pub apply_postings_stop :
    (now : Timestamp) (p : Posting) (ps : List Posting) (s : State) (e : LedgerError)
    → (apply_posting now p s).0 ≡ err e
    → apply_postings now (p ∷ ps) s ≡ (err e, (apply_posting now p s).1)
unfolding apply_postings
apply_postings_stop now p ps s e h = ground arith

-- Accepted postings are applied as a whole, in order, to active accounts.
pub apply_postings-AreApplied :
    (now : Timestamp) (ps : List Posting) (s : State)
    → (apply_postings now ps s).0 ≡ ok tt
    → AreApplied ps s (apply_postings now ps s).1
apply_postings-AreApplied now [] s h = unfold apply_postings in none_applied s
apply_postings-AreApplied now (p ∷ ps) s h = elim (Result-cases (apply_posting now p s).0) [
  | inl (u, good) ↦
      let next = (apply_posting now p s).1 in
      let skip = apply_postings_next now p ps s u good in
      rw skip (
        one_more_applied p ps s next (apply_postings now ps next).1 (apply_posting_frame now p s).0
          (apply_posting-IsApplied now p s good)
          (apply_postings-AreApplied now ps next (rw skip at h)))
  | inr (e, bad) ↦ absurd (ground (arith, apply_postings_stop now p ps s e bad))
]
