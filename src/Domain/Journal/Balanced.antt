-- ===== src/Domain/Journal/Balanced.antt =====
-- The verdict of `validate_balanced` on every list of postings.
use iron_ledger.Domain.Amount.{AtomicAmount, checked_add, is_zero}
use iron_ledger.Domain.Amount.Exact.{InRange, checked_add-eq, checked_add-err}
use iron_ledger.Domain.Asset.{AssetCode}
use iron_ledger.Domain.Error.{DomainError, amount_overflow, insufficient_postings, unbalanced_entry}
use iron_ledger.Domain.Journal.{Posting, add_totals, asset_totals, check_totals, validate_balanced}
use iron_ledger.Domain.Journal.Sums.{asset_sum, asset_sum_snoc}
use iron_ledger.Domain.Journal.Totals.{add_totals-eq-sum, total_of, total_of-insert}
use iron_ledger.Prelude.{
  Bool-cases, List, [], ap, arith, false, get_or, inl, inr, length, ltb, refl, some, sym, ◌++◌, ◌<◌,
  ◌∙◌, ◌∷◌, ◌≡◌, ◌≢◌, ◌≤◌, ◌⊎◌,
}
use iron_ledger.Prelude.Int.{pos, zero_+ℤ}
use iron_ledger.Prelude.Map.{Map, get, insert}
use iron_ledger.Prelude.Order.{equals_refl, text_order}
use iron_ledger.Prelude.Result.{
  succeeded_bind, Result, Result-cases, err, err_injective, ok, ok_injective,
}
use iron_ledger.Prelude.Sorted.{IsSorted, get_of_tail, insert-IsSorted}
-- An asset whose running sum leaves the range of an `i128` somewhere in the list.
use mathlib.Core.List.{append_assoc}

abbrev pub Overflows : List Posting → Type 0
Overflows ps =
    (asset : AssetCode) × (xs : List Posting) × (ys : List Posting) × (ps ≡ xs ++ ys)
    × ¬ (InRange (asset_sum asset xs))

-- What the verdict says of the postings.
abbrev pub IsVerdict : List Posting → Result DomainError (Unit {0}) → Type 0
IsVerdict ps (ok _) = (2 ≤ length ps) × ((asset : AssetCode) → asset_sum asset ps ≡ pos 0)
IsVerdict ps (err e) =
    ((length ps < 2) × (e ≡ insufficient_postings (length ps)))
    ⊎ (((asset : AssetCode) × (e ≡ unbalanced_entry asset (asset_sum asset ps))
          × (asset_sum asset ps ≢ pos 0))
        ⊎ ((e ≡ amount_overflow) × Overflows ps))

pub add_totals-IsSorted :
    (m t : Map AssetCode AtomicAmount) (ps : List Posting)
    → IsSorted text_order m
    → add_totals m ps ≡ ok t
    → IsSorted text_order t
unfolding add_totals
add_totals-IsSorted m t [] s h = rw (← ok_injective h) s
add_totals-IsSorted m t (p ∷ ps) s h =
    let (total, added, rest) = succeeded_bind (checked_add (total_of p.asset m) p.amount) _ h in
    add_totals-IsSorted (insert text_order p.asset total m) t ps
      (insert-IsSorted text_order p.asset total m s) rest

check_totals_zero :
    (m : Map AssetCode AtomicAmount)
    → check_totals m ≡ ok tt
    → (asset : AssetCode) → total_of asset m ≡ pos 0
unfolding check_totals get
check_totals_zero [] h asset = refl
check_totals_zero ((a, t) ∷ m) h asset = ground (arith, check_totals_zero m (ground arith) asset)

pub check_totals_nonzero :
    (m : Map AssetCode AtomicAmount) (e : DomainError)
    → IsSorted text_order m
    → check_totals m ≡ err e
    → (asset : AssetCode) × (total : AtomicAmount) × (e ≡ unbalanced_entry asset total)
      × (get text_order asset m ≡ some total)
      × (is_zero total ≡ false)
unfolding check_totals
check_totals_nonzero [] e s h = cc
check_totals_nonzero ((a, t) ∷ m) e s h = elim (Bool-cases (is_zero t)) [
  | inl z ↦
      let (asset, total, is_error, found, nonzero) = check_totals_nonzero m e s.1 (rw z at h) in
      (asset, total, is_error, get_of_tail text_order asset a total t m s.0 found, nonzero)
  | inr nz ↦ (a, t, ground arith, unfold get in ground (arith, text_order.cmp_refl a), nz)
]

-- A failure of the loop is an overflow after some of the postings.
add_totals_overflow :
    (seen : List Posting) (m : Map AssetCode AtomicAmount) (ps : List Posting) (e : DomainError)
    → ((asset : AssetCode) → total_of asset m ≡ asset_sum asset seen)
    → add_totals m ps ≡ err e
    → (e ≡ amount_overflow) × Overflows (seen ++ ps)
unfolding add_totals
add_totals_overflow seen m [] e inv h = cc
add_totals_overflow seen m (p ∷ ps) e inv h =
    elim (Result-cases (checked_add (total_of p.asset m) p.amount)) [
      | inl (total, added) ↦
          let sum = checked_add-eq (total_of p.asset m) p.amount added in
          rw (append_assoc seen (p ∷ []) ps) at (
            add_totals_overflow (seen ++ p ∷ []) (insert text_order p.asset total m) ps e
              (λ asset.
                rw (total_of-insert asset p total m sum, asset_sum_snoc asset seen p, inv asset))
              (rw added at h))
      | inr (d, bad) ↦
          let (overflow, out) = checked_add-err (total_of p.asset m) p.amount bad in
          let left : ¬ (InRange (asset_sum p.asset (seen ++ p ∷ []))) =
            rw (asset_sum_snoc p.asset seen p, equals_refl text_order p.asset, ← inv p.asset) out in
          let split = sym (append_assoc seen (p ∷ []) ps) in
          (err_injective (sym (rw bad at h)) ∙ overflow, (p.asset, seen ++ p ∷ [], ps, split, left))
    ]

asset_totals_lem :
    (ps : List Posting) (t : Map AssetCode AtomicAmount)
    → asset_totals ps ≡ ok t
    → (asset : AssetCode) → total_of asset t ≡ asset_sum asset ps
unfolding asset_totals get
asset_totals_lem ps t h asset =
    rw (add_totals-eq-sum asset [] t ps h) (zero_+ℤ (asset_sum asset ps))

check_totals-IsVerdict :
    (ps : List Posting) (t : Map AssetCode AtomicAmount)
    → 2 ≤ length ps
    → asset_totals ps ≡ ok t
    → IsVerdict ps (check_totals t)
unfolding asset_totals
check_totals-IsVerdict ps t long h = elim (Result-cases (check_totals t)) [
  | inl (u, good) ↦
      rw good (long, λ asset. rw (← asset_totals_lem ps t h asset) (check_totals_zero t good asset))
  | inr (e, bad) ↦
      let (asset, total, is_error, found, nonzero) =
        check_totals_nonzero t e (add_totals-IsSorted [] t ps tt h) bad in
      let sum : asset_sum asset ps ≡ total =
        sym (asset_totals_lem ps t h asset) ∙ ap (λ o. get_or o (pos 0)) found in
      rw bad (inr (inl (asset, rw sum is_error, rw sum (λ z. ground arith))))
]

-- The verdict on a list of postings. Acceptance means two postings or more that sum to zero in
-- every asset. A rejection names the number of postings if there are fewer than two; or an asset
-- with its sum, which is not zero; or an overflow, and then some asset's running sum leaves the
-- range of an `i128`.
pub validate_balanced-IsVerdict : (ps : List Posting) → IsVerdict ps (validate_balanced ps)
unfolding validate_balanced
validate_balanced-IsVerdict ps = elim (Bool-cases (ltb (length ps) 2)) [
  | inl short ↦ rw short (inl (ground arith, refl))
  | inr long ↦ rw long (elim (Result-cases (asset_totals ps)) [
    | inl (t, good) ↦ rw good (check_totals-IsVerdict ps t (ground arith) good)
    | inr (e, bad) ↦ rw bad (
        inr (
          inr (
            add_totals_overflow [] [] ps e (λ asset. unfold get in refl)
              (unfold asset_totals in bad))))
  ])
]
