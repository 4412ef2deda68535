-- ===== src/Domain/Amount.antt =====
-- crates/domain/src/amount.rs: an `AtomicAmount` wraps an `i128`. It is an integer here, and every
-- operation that could leave the range of an `i128` is checked, as in the source.
pub mod Exact
pub mod Printed
use iron_ledger.Domain.Error.{
  DomainError, amount_overflow, invalid_money_format, non_positive_amount,
}
use iron_ledger.Prelude.{
  Bool, Option, false, if◌then◌else◌, none, not, some, suc, true, ◌==◌, ◌||◌, ◌∷◌,
}
use iron_ledger.Prelude.Int.{ltb_ℤ, negate, negsuc, pos, ℤ, ◌+ℤ◌, ◌-ℤ◌}
use iron_ledger.Prelude.Numeral.{fits, parse_i128, show_ℕ}
use iron_ledger.Prelude.Result.{Result, err, ok, reject_if, ◌>>=◌, ◌>>◌}
use iron_ledger.Prelude.Text.{Text, trim}

abbrev pub AtomicAmount : Type 0
AtomicAmount = ℤ

-- `AtomicAmount::ZERO`
abbrev pub amount_zero : AtomicAmount
amount_zero = pos 0

-- The result of an operation of `i128` that checks for overflow.
abbrev pub checked : ℤ → Result DomainError AtomicAmount
checked z = if fits z then ok z else err amount_overflow

unfoldable pub checked_add : AtomicAmount → AtomicAmount → Result DomainError AtomicAmount
checked_add a b = checked (a +ℤ b)

unfoldable pub checked_sub : AtomicAmount → AtomicAmount → Result DomainError AtomicAmount
checked_sub a b = checked (a -ℤ b)

unfoldable pub checked_neg : AtomicAmount → Result DomainError AtomicAmount
checked_neg a = checked (negate a)

unfoldable pub checked_abs : AtomicAmount → Result DomainError AtomicAmount
checked_abs a = if ltb_ℤ a (pos 0) then checked (negate a) else ok a

abbrev pub is_negative : AtomicAmount → Bool
is_negative (pos n) = false
is_negative (negsuc n) = true

abbrev pub is_zero : AtomicAmount → Bool
is_zero (pos n) = n == 0
is_zero (negsuc n) = false

abbrev pub is_positive : AtomicAmount → Bool
is_positive a = not (is_negative a || is_zero a)

unfoldable pub require_positive : AtomicAmount → Result DomainError AtomicAmount
require_positive a = do reject_if (not (is_positive a)) (non_positive_amount a); ok a

or_malformed : Text → Option ℤ → Result DomainError AtomicAmount
or_malformed s none = err (invalid_money_format s)
or_malformed s (some z) = ok z

-- `FromStr`: the error carries the text as it was given.
unfoldable pub amount_from_str : Text → Result DomainError AtomicAmount
unfolding or_malformed parse_i128 trim
amount_from_str s = or_malformed s (parse_i128 (trim s))

-- `Display`, and the string that `Serialize` writes
unfoldable pub show_amount : AtomicAmount → Text
show_amount (pos n) = show_ℕ n
show_amount (negsuc n) = b'-' ∷ show_ℕ (suc n)
