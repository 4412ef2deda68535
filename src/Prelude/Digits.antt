-- ===== src/Prelude/Digits.antt =====
-- Numerals that are printed and read.
use Prim.Native.Nat.{ℕ, zero, suc, ◌+◌, ◌*◌, ◌/◌, ◌%◌, ◌<◌, ◌≤◌}
use mathlib.Core.Path.{◌≡◌, refl, ◌∙◌, ap}
use mathlib.Core.Logic.{inl, inr}
use mathlib.Core.Option.{some}
use mathlib.Core.List.{[], ◌∷◌, reverse, reverse_aux, reverse-reverse}
use mathlib.Core.Bool.{Bool, true, false, ◌&&◌, not}
use native.Mathlib.Omega.{arith}
use iron_ledger.Prelude.Tests.{ltb, Bool-cases}
use iron_ledger.Prelude.Lists.{all}
use iron_ledger.Prelude.Int.{pos, sub_ℕ}
use iron_ledger.Prelude.Text.{Text, is_ascii_digit, is_whitespace, trim, trim_start, is_empty}
use iron_ledger.Prelude.Numeral.{
  digits_from, digits_value, show_ℕ, parse_digits, parse_i128, in_i128,
}

-- A numeral is read digit by digit.
value_of_digit :
    (acc d : ℕ) (rest : Text)
    → d < 10
    → digits_value acc ((48 + d) ∷ rest) ≡ digits_value (acc * 10 + d) rest
unfolding digits_value
value_of_digit acc d rest h = ground arith

digits_from_last : (f n : ℕ) (rest : Text) → n < 10 → digits_from (suc f) n rest ≡ (48 + n) ∷ rest
unfolding digits_from
digits_from_last f n rest h = ground arith

digits_from_more :
    (f n : ℕ) (rest : Text)
    → 10 ≤ n
    → digits_from (suc f) n rest ≡ digits_from f (n / 10) ((48 + n % 10) ∷ rest)
unfolding digits_from
digits_from_more f n rest h = ground arith

digits_value-digits_from :
    (f n : ℕ) (rest : Text) → n < f → digits_value 0 (digits_from f n rest) ≡ digits_value n rest
digits_value-digits_from zero n rest h = absurd (omega arith)
digits_value-digits_from (suc f) n rest h = elim (Bool-cases (ltb n 10)) [
  | inl small ↦
      let low : n < 10 = ground arith in
      rw (digits_from_last f n rest low)
        (value_of_digit 0 n rest low ∙ ap (λ (k : ℕ). digits_value k rest) (omega arith))
  | inr large ↦
      let high : 10 ≤ n = ground arith in
      rw (digits_from_more f n rest high) (
        digits_value-digits_from f (n / 10) ((48 + n % 10) ∷ rest) (omega arith)
        ∙ value_of_digit (n / 10) (n % 10) rest (omega arith)
        ∙ ap (λ (k : ℕ). digits_value k rest) (omega arith))
]

digits_from-digits :
    (f n : ℕ) (rest : Text)
    → n < f
    → all is_ascii_digit rest ≡ true
    → all is_ascii_digit (digits_from f n rest) ≡ true
digits_from-digits zero n rest h r = absurd (omega arith)
digits_from-digits (suc f) n rest h r = elim (Bool-cases (ltb n 10)) [
  | inl small ↦ let low : n < 10 = ground arith in rw (digits_from_last f n rest low) (ground arith)
  | inr large ↦
      let high : 10 ≤ n = ground arith in
      rw (digits_from_more f n rest high)
        (digits_from-digits f (n / 10) ((48 + n % 10) ∷ rest) (omega arith) (ground arith))
]

-- What is not blank stays under `trim`.
abbrev is_visible : ℕ → Bool
is_visible c = not (is_whitespace c)

digits-visible : (s : Text) → all is_ascii_digit s ≡ true → all is_visible s ≡ true
unfolding is_whitespace
digits-visible [] h = refl
digits-visible (c ∷ s) h = ground (arith, digits-visible s)

all-reverse_aux : (p : ℕ → Bool) (s t : Text) → all p (reverse_aux s t) ≡ (all p s && all p t)
all-reverse_aux p [] t = refl
all-reverse_aux p (c ∷ s) t = ground (arith, all-reverse_aux p s (c ∷ t))

trim_start-visible : (s : Text) → all is_visible s ≡ true → trim_start s ≡ s
unfolding trim_start
trim_start-visible [] h = refl
trim_start-visible (c ∷ s) h = ground arith

pub trim-visible : (s : Text) → all (λ c. not (is_whitespace c)) s ≡ true → trim s ≡ s
unfolding trim
trim-visible s h =
    rw
      (
        trim_start-visible s h,
        trim_start-visible (reverse s) (ground (arith, all-reverse_aux is_visible s [])),
      )
      (reverse-reverse s)

-- A printed number has digits alone, and is read back.
pub show_ℕ-visible : (n : ℕ) → all (λ c. not (is_whitespace c)) (show_ℕ n) ≡ true
unfolding show_ℕ
show_ℕ-visible n =
    digits-visible (digits_from (suc n) n []) (digits_from-digits (suc n) n [] (omega arith) refl)

pub show_ℕ-digits : (n : ℕ) → all is_ascii_digit (show_ℕ n) ≡ true
unfolding show_ℕ
show_ℕ-digits n = digits_from-digits (suc n) n [] (omega arith) refl

pub digits_value-show_ℕ : (n : ℕ) → digits_value 0 (show_ℕ n) ≡ some n
unfolding show_ℕ
digits_value-show_ℕ n =
    digits_value-digits_from (suc n) n [] (omega arith) ∙ unfold digits_value in refl

digits_from_nonempty : (f n : ℕ) (rest : Text) → n < f → is_empty (digits_from f n rest) ≡ false
digits_from_nonempty zero n rest h = absurd (omega arith)
digits_from_nonempty (suc f) n rest h = elim (Bool-cases (ltb n 10)) [
  | inl small ↦ rw (digits_from_last f n rest (ground arith)) refl
  | inr large ↦
      let high : 10 ≤ n = ground arith in
      rw (digits_from_more f n rest high)
        (digits_from_nonempty f (n / 10) ((48 + n % 10) ∷ rest) (omega arith))
]

pub show_ℕ_nonempty : (n : ℕ) → is_empty (show_ℕ n) ≡ false
unfolding show_ℕ
show_ℕ_nonempty n = digits_from_nonempty (suc n) n [] (omega arith)

pub parse_digits_value :
    (s : Text) (n : ℕ) → is_empty s ≡ false → digits_value 0 s ≡ some n → parse_digits s ≡ some n
unfolding parse_digits
parse_digits_value [] n h v = cc
parse_digits_value (c ∷ s) n h v = v

-- A numeral without a sign.
pub parse_i128_unsigned :
    (s : Text) (n : ℕ)
    → is_empty s ≡ false
    → all is_ascii_digit s ≡ true
    → digits_value 0 s ≡ some n
    → parse_i128 s ≡ in_i128 (some (pos n))
unfolding parse_i128 parse_digits
parse_i128_unsigned [] n h d v = cc
parse_i128_unsigned (c ∷ s) n h d v = ground arith

-- A numeral after a minus sign.
pub parse_i128_negative :
    (s : Text) (n : ℕ)
    → is_empty s ≡ false
    → digits_value 0 s ≡ some n
    → parse_i128 (45 ∷ s) ≡ in_i128 (some (sub_ℕ 0 n))
unfolding parse_i128
parse_i128_negative s n h v = rw (parse_digits_value s n h v) refl
