-- ===== src/Prelude/Numeral.antt =====
-- Decimal numerals: `Display` of an unsigned integer, and `str::parse::<i128>`.
use iron_ledger.Prelude.Tests.{ltb, leb, ◌==◌, if◌then◌else◌}
use iron_ledger.Prelude.Int.{ℤ, pos, sub_ℕ}
use iron_ledger.Prelude.Text.{Text, is_ascii_digit}
use Prim.Native.Nat.{ℕ, zero, suc, ◌+◌, ◌-◌, ◌*◌, ◌/◌, ◌%◌}
use mathlib.Core.Option.{Option, none, some}
use mathlib.Core.Option
use mathlib.Core.List.{[], ◌∷◌}
use mathlib.Core.Bool.{Bool}

-- The digits of a number, on fuel: `suc n` is enough for `n`.
unfoldable pub digits_from : ℕ → ℕ → Text → Text
digits_from zero n acc = acc
digits_from (suc f) n acc =
    let rest = digits_from f (n / 10) ((b'0' + n % 10) ∷ acc) in
    if ltb n 10 then (b'0' + n) ∷ acc else rest

unfoldable pub show_ℕ : ℕ → Text
unfolding digits_from
show_ℕ n = digits_from (suc n) n []

-- The value of a list of digits after `acc`; no other character is allowed.
unfoldable pub digits_value : ℕ → Text → Option ℕ
digits_value acc [] = some acc
digits_value acc (c ∷ s) =
    let rest = digits_value (acc * 10 + (c - b'0')) s in if is_ascii_digit c then rest else none

-- At least one digit.
unfoldable pub parse_digits : Text → Option ℕ
unfolding digits_value
parse_digits [] = none
parse_digits (c ∷ s) = digits_value 0 (c ∷ s)

abbrev pub i128_max : ℕ
i128_max = 170141183460469231731687303715884105727

-- The number fits in an `i128`: from -2^127 to 2^127 - 1.
abbrev pub fits : ℤ → Bool
fits (pos n) = leb n i128_max
fits (ℤ.negsuc n) = leb n i128_max

abbrev pub in_i128 : Option ℤ → Option ℤ
in_i128 none = none
in_i128 (some z) = if fits z then some z else none

-- `str::parse::<i128>`: an optional sign and at least one digit, in range.
unfoldable pub parse_i128 : Text → Option ℤ
unfolding parse_digits
parse_i128 [] = none
parse_i128 (c ∷ s) =
    if c == b'-'
    then in_i128 (Option.map (λ n. sub_ℕ 0 n) (parse_digits s))
    else if c == b'+'
    then in_i128 (Option.map pos (parse_digits s))
    else in_i128 (Option.map pos (parse_digits (c ∷ s)))
