-- ===== src/Domain/Amount/Exact.antt =====
-- The checked arithmetic of crates/domain/src/amount.rs against exact arithmetic.
use iron_ledger.Domain.Amount.{
  AtomicAmount, checked, checked_abs, checked_add, checked_neg, checked_sub,
}
use iron_ledger.Domain.Error.{DomainError, amount_overflow}
use iron_ledger.Prelude.{arith, inl, inr, refl, suc, ◌≡◌, ◌⊎◌}
use iron_ledger.Prelude.Int.{negate, negsuc, pos, ℤ, ◌+ℤ◌, ◌-ℤ◌, ◌≤ℤ◌}
use iron_ledger.Prelude.Numeral.{i128_max}
use iron_ledger.Prelude.Result.{Result, err, ok}
use native.Mathlib.Decide.{dec_lt}

-- The range of an `i128`.
abbrev pub InRange : ℤ → Type 0
InRange z = (negsuc i128_max ≤ℤ z) × (z ≤ℤ pos i128_max)

-- The result is `z`, which is in range, or `z` is out of range and the error says so.
abbrev pub IsExact : ℤ → Result DomainError AtomicAmount → Type 0
IsExact z (ok c) = (c ≡ z) × InRange z
IsExact z (err e) = (e ≡ amount_overflow) × ¬ (InRange z)

checked-IsExact : (z : ℤ) → IsExact z (checked z)
checked-IsExact z = ground arith

-- Checked addition, subtraction and negation return the exact result where an `i128` can hold it,
-- and otherwise the overflow error, whatever the operands.
pub checked_arithmetic-IsExact :
    (a b : AtomicAmount)
    → IsExact (a +ℤ b) (checked_add a b)
      × IsExact (a -ℤ b) (checked_sub a b)
      × IsExact (negate a) (checked_neg a)
unfolding checked_add checked_sub checked_neg
checked_arithmetic-IsExact a b =
    (checked-IsExact (a +ℤ b), checked-IsExact (a -ℤ b), checked-IsExact (negate a))

-- The absolute value of an amount in range is refused for the least amount alone, and is otherwise
-- not negative and equal to the amount or to its negation.
checked_abs_least :
    (a : AtomicAmount)
    → InRange a
    → ((a ≡ negsuc i128_max) × (checked_abs a ≡ err amount_overflow))
      ⊎ ((c : AtomicAmount) × (checked_abs a ≡ ok c) × (pos 0 ≤ℤ c) × ((c ≡ a) ⊎ (c +ℤ a ≡ pos 0)))
unfolding checked_abs negate ◌+ℤ◌
checked_abs_least (pos n) h = inr (pos n, ground arith, ground arith, inl refl)
checked_abs_least (negsuc n) h = elim (dec_lt n i128_max) [
  | yes p ↦ inr (pos (suc n), ground arith, ground arith, inr (ground arith))
  | no p ↦ inl (ground arith, ground arith)
]

pub checked_add-eq : (a b : AtomicAmount) {c : AtomicAmount} → checked_add a b ≡ ok c → c ≡ a +ℤ b
unfolding checked_add
checked_add-eq a b h = ground arith

-- Zero is never out of range.
pub checked_add_zero : (a : AtomicAmount) → InRange a → checked_add (pos 0) a ≡ ok a
unfolding checked_add ◌+ℤ◌
checked_add_zero a h = ground arith

pub checked_add-err :
    (a b : AtomicAmount) {e : DomainError}
    → checked_add a b ≡ err e
    → (e ≡ amount_overflow) × ¬ (InRange (a +ℤ b))
checked_add-err a b h = rw h at (checked_arithmetic-IsExact a b).0
