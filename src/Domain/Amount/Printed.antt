-- ===== src/Domain/Amount/Printed.antt =====
-- Amounts that are printed and read (crates/domain/src/amount.rs).
use iron_ledger.Domain.Amount.{AtomicAmount, amount_from_str, show_amount}
use iron_ledger.Domain.Amount.Exact.{InRange}
use iron_ledger.Prelude.{all, arith, not, refl, some, suc, true, ◌∙◌, ◌≡◌}
use iron_ledger.Prelude.Digits.{
  digits_value-show_ℕ, parse_i128_negative, parse_i128_unsigned, show_ℕ-digits, show_ℕ-visible,
  show_ℕ_nonempty, trim-visible,
}
use iron_ledger.Prelude.Int.{negsuc, pos, sub_ℕ}
use iron_ledger.Prelude.Numeral.{parse_i128, show_ℕ}
use iron_ledger.Prelude.Result.{ok}
use iron_ledger.Prelude.Text.{is_whitespace}

show_amount-visible : (a : AtomicAmount) → all (λ c. not (is_whitespace c)) (show_amount a) ≡ true
unfolding show_amount is_whitespace
show_amount-visible (pos n) = show_ℕ-visible n
show_amount-visible (negsuc n) = ground (arith, show_ℕ-visible (suc n))

pub parse_i128-show_amount : (a : AtomicAmount) → InRange a → parse_i128 (show_amount a) ≡ some a
unfolding show_amount sub_ℕ
parse_i128-show_amount (pos n) h =
    parse_i128_unsigned (show_ℕ n) n (show_ℕ_nonempty n) (show_ℕ-digits n) (digits_value-show_ℕ n)
    ∙ ground arith
parse_i128-show_amount (negsuc n) h =
    parse_i128_negative (show_ℕ (suc n)) (suc n) (show_ℕ_nonempty (suc n))
      (digits_value-show_ℕ (suc n))
    ∙ ground arith

-- Every amount in the range of an `i128` is read back from the text that it is printed as.
pub amount_from_str-show_amount :
    (a : AtomicAmount) → InRange a → amount_from_str (show_amount a) ≡ ok a
unfolding amount_from_str
amount_from_str-show_amount a h =
    rw (trim-visible (show_amount a) (show_amount-visible a), parse_i128-show_amount a h) refl
