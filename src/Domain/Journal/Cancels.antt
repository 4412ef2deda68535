-- ===== src/Domain/Journal/Cancels.antt =====
-- Postings that cancel in adjacent pairs.
use iron_ledger.Domain.Amount.{AtomicAmount, checked_add}
use iron_ledger.Domain.Amount.Exact.{InRange, checked_add_zero}
use iron_ledger.Domain.Asset.{AssetCode}
use iron_ledger.Domain.Journal.{Posting, add_totals, asset_totals, check_totals, validate_balanced}
use iron_ledger.Domain.Journal.Balanced.{add_totals-IsSorted, check_totals_nonzero}
use iron_ledger.Domain.Journal.Totals.{total_of}
use iron_ledger.Prelude.{List, [], arith, inl, inr, length, refl, ◌∷◌, ◌≡◌, ◌≤◌}
use iron_ledger.Prelude.Int.{pos, ◌+ℤ◌}
use iron_ledger.Prelude.Map.{Map, get, get-insert, insert}
use iron_ledger.Prelude.Order.{equals_refl, text_order}
use iron_ledger.Prelude.Result.{Result-cases, ok}

-- The list is made of pairs in one asset with opposite amounts.
abbrev pub Cancels : List Posting → Type 0
Cancels [] = Unit
Cancels (p ∷ []) = ⊥
Cancels (p ∷ q ∷ ps) =
    (q.asset ≡ p.asset) × InRange p.amount × (p.amount +ℤ q.amount ≡ pos 0) × Cancels ps

abbrev IsClear : Map AssetCode AtomicAmount → Type 0
IsClear m = (asset : AssetCode) → total_of asset m ≡ pos 0

checked_add_cancel : (a b : AtomicAmount) → a +ℤ b ≡ pos 0 → checked_add a b ≡ ok (pos 0)
unfolding checked_add
checked_add_cancel a b h = rw h refl

total_of-insert_self :
    (asset : AssetCode) (total : AtomicAmount) (m : Map AssetCode AtomicAmount)
    → total_of asset (insert text_order asset total m) ≡ total
total_of-insert_self asset total m =
    rw (get-insert text_order asset asset total m, equals_refl text_order asset)

insert_twice-IsClear :
    (asset : AssetCode) (a : AtomicAmount) (m : Map AssetCode AtomicAmount)
    → IsClear m
    → IsClear (insert text_order asset (pos 0) (insert text_order asset a m))
insert_twice-IsClear asset a m clear k = ground (
  arith,
  get-insert text_order k asset (pos 0) (insert text_order asset a m),
  get-insert text_order k asset a m,
  clear k,
)

add_totals_cancel :
    (m : Map AssetCode AtomicAmount) (ps : List Posting)
    → Cancels ps
    → IsClear m
    → (t : Map AssetCode AtomicAmount) × (add_totals m ps ≡ ok t) × IsClear t
unfolding add_totals
add_totals_cancel m [] h clear = (m, refl, clear)
add_totals_cancel m (p ∷ []) h clear = absurd h
add_totals_cancel m (p ∷ q ∷ ps) (same, range, zero_sum, rest) clear =
    let next = insert text_order p.asset (pos 0) (insert text_order p.asset p.amount m) in
    rw
      (
        clear p.asset,
        checked_add_zero p.amount range,
        same,
        total_of-insert_self p.asset p.amount m,
        checked_add_cancel p.amount q.amount zero_sum,
      )
      (add_totals_cancel next ps rest (insert_twice-IsClear p.asset p.amount m clear))

pub validate_balanced_cancel :
    (ps : List Posting) → 2 ≤ length ps → Cancels ps → validate_balanced ps ≡ ok tt
unfolding validate_balanced asset_totals
validate_balanced_cancel ps long h =
    let (t, good, clear) = add_totals_cancel [] ps h (λ asset. unfold get in refl) in
    rw good (elim (Result-cases (check_totals t)) [
      | inl (u, fine) ↦ ground arith
      | inr (e, bad) ↦
          let (asset, total, is_error, found, nonzero) =
            check_totals_nonzero t e (add_totals-IsSorted [] t ps tt good) bad in
          absurd (ground (arith, clear asset))
    ])
