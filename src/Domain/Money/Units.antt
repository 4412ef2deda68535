-- ===== src/Domain/Money/Units.antt =====
-- crates/domain/src/money.rs: the number of atomic units in the digits of a text.
use native.Mathlib.Numerals.{unary_clauses}
use mathlib.Core.Path.{subst}
use iron_ledger.Domain.Amount.{AtomicAmount, checked, checked_add}
use iron_ledger.Domain.Asset.{AssetScale, multiplier}
use iron_ledger.Domain.Error.{DomainError, amount_overflow}
use iron_ledger.Domain.Money.{or_overflow, split_point, units_of}
use iron_ledger.Prelude.{
  Bool, Bool-cases, [], all, ap, arith, false, if◌then◌else◌, inl, inr, leb, length, refl,
  replicate, some, some_injective, suc, true, zero, ℕ, ◌&&◌, ◌*◌, ◌++◌, ◌+◌, ◌-◌, ◌^◌, ◌∙◌, ◌∷◌,
  ◌≡◌, ◌≤◌,
}
use iron_ledger.Prelude.Digits.{parse_i128_unsigned}
use iron_ledger.Prelude.Int.{pos, ℤ, ◌*ℤ◌, ◌+ℤ◌}
use iron_ledger.Prelude.Numeral.{digits_value, i128_max, in_i128, parse_i128}
use iron_ledger.Prelude.Result.{Result, err, ok, ◌>>=◌}
use iron_ledger.Prelude.Text.{Text, is_ascii_digit, is_empty}

-- Zeros at the end multiply by powers of ten.
pow_ten_suc : (k : ℕ) → 10 ^ suc k ≡ 10 ^ k * 10
pow_ten_suc k = simp unary_clauses refl

one_le_pow_ten : (k : ℕ) → 1 ≤ 10 ^ k
one_le_pow_ten zero = omega arith
one_le_pow_ten (suc k) = omega (arith, one_le_pow_ten k, pow_ten_suc k)

pow_ten_le : (d k : ℕ) → k + d ≡ 18 → 10 ^ k ≤ 1000000000000000000
pow_ten_le zero k h =
    let same_power : 18 ≡ k = omega arith in
    subst (λ (n : ℕ). 10 ^ n ≤ 1000000000000000000) same_power (omega arith)
pow_ten_le (suc d) k h = omega (arith, pow_ten_le d (suc k) (omega arith), pow_ten_suc k)

shifted : (acc k : ℕ) → (acc * 10 + 0) * 10 ^ k ≡ acc * 10 ^ suc k
shifted acc k = rw (pow_ten_suc k) (omega arith)

digits_value-zeros : (k acc : ℕ) → digits_value acc (replicate k b'0') ≡ some (acc * 10 ^ k)
unfolding digits_value
digits_value-zeros zero acc = let one_times : acc ≡ acc * 1 = omega arith in ap some one_times
digits_value-zeros (suc k) acc = digits_value-zeros k (acc * 10 + 0) ∙ ap some (shifted acc k)

digits_value-append :
    (s t : Text) (acc v : ℕ)
    → digits_value acc s ≡ some v
    → digits_value acc (s ++ t) ≡ digits_value v t
unfolding digits_value
digits_value-append [] t acc v h = let same_value = some_injective h in rw same_value refl
digits_value-append (c ∷ s) t acc v h = elim (Bool-cases (is_ascii_digit c)) [
  | inl digit ↦ let ih = digits_value-append s t (acc * 10 + (c - b'0')) v in ground arith
  | inr bad ↦ absurd (ground arith)
]

pub all-append : (p : ℕ → Bool) (s t : Text) → all p (s ++ t) ≡ (all p s && all p t)
all-append p [] t = refl
all-append p (c ∷ s) t = let ih = all-append p s t in ground arith

pub split_point-append :
    (whole frac : Text)
    → all is_ascii_digit whole ≡ true
    → split_point (whole ++ b'.' ∷ frac) ≡ (whole, frac)
unfolding split_point
split_point-append [] frac h = refl
split_point-append (c ∷ whole) frac h = let ih = split_point-append whole frac in ground arith

-- A natural number as an amount, where an `i128` can hold it.
abbrev pub limited : ℕ → Result DomainError AtomicAmount
limited n = if leb n i128_max then ok (pos n) else err amount_overflow

pos_times : (n m : ℕ) → pos n *ℤ pos m ≡ pos (n * m)
unfolding ◌*ℤ◌
pos_times n m = ground arith

times_one_le : (n m : ℕ) → 1 ≤ m → n ≤ n * m
times_one_le zero m h = omega arith
times_one_le (suc n) m h = omega (arith, times_one_le n m h)

padded_limited :
    (p : Text) (v : ℕ)
    → all is_ascii_digit p ≡ true
    → digits_value 0 p ≡ some v
    → (if is_empty p then ok (pos 0) else or_overflow (parse_i128 p)) ≡ limited v
unfolding digits_value
padded_limited [] v digits value = ground arith
padded_limited (c ∷ p) v digits value =
    let parsed = parse_i128_unsigned (c ∷ p) v refl digits value in ground arith

-- The two parts are added; each overflow is one of the sum.
parts_limited :
    (n m b : ℕ) (frac_units : Result DomainError ℤ)
    → 1 ≤ m
    → frac_units ≡ limited b
    → (or_overflow (in_i128 (some (pos n))) >>= λ whole_i.
        checked (whole_i *ℤ pos m) >>= λ whole_units.
        frac_units >>= λ units. checked_add whole_units units)
      ≡ limited (n * m + b)
unfolding checked_add ◌+ℤ◌
parts_limited n m b frac_units h found =
    let product = pos_times n m in let grown = times_one_le n m h in ground arith

zeros-digits : (k : ℕ) → all is_ascii_digit (replicate k b'0') ≡ true
zeros-digits zero = refl
zeros-digits (suc k) = zeros-digits k

multiplier_limited : (scale : ℕ) → scale ≤ 18 → multiplier scale ≡ ok (pos (10 ^ scale))
unfolding multiplier
multiplier_limited scale h = let bound = pow_ten_le (18 - scale) scale (omega arith) in ground arith

-- The digits before and after a point, with their values.
pub record Decimal (scale : AssetScale) (whole frac : Text) (n f : ℕ) : Type 0 where
  pub some_digit : is_empty whole ≡ false
  pub whole_digits : all is_ascii_digit whole ≡ true
  pub frac_digits : all is_ascii_digit frac ≡ true
  pub whole_value : digits_value 0 whole ≡ some n
  pub frac_value : digits_value 0 frac ≡ some f
  pub fine_enough : length frac ≤ scale
  pub small_scale : scale ≤ 18

-- The number of atomic units.
abbrev pub decimal_units : AssetScale → Text → ℕ → ℕ → ℕ
decimal_units scale frac n f = n * 10 ^ scale + f * 10 ^ (scale - length frac)

pub units_of-limited :
    (scale : AssetScale) (whole frac : Text) (n f : ℕ)
    → Decimal scale whole frac n f
    → units_of scale whole frac ≡ limited (decimal_units scale frac n f)
unfolding units_of
units_of-limited scale whole frac n f d =
    let k = scale - length frac in
    let mult = multiplier_limited scale d.small_scale in
    let parsed = parse_i128_unsigned whole n d.some_digit d.whole_digits d.whole_value in
    let padded = frac ++ replicate k b'0' in
    let value =
      digits_value-append frac (replicate k b'0') 0 f d.frac_value ∙ digits_value-zeros k f in
    let digits : all is_ascii_digit padded ≡ true =
      all-append is_ascii_digit frac (replicate k b'0') ∙ rw (d.frac_digits, zeros-digits k) refl in
    let after_point = padded_limited padded (f * 10 ^ k) digits value in
    let total =
      parts_limited n (10 ^ scale) (f * 10 ^ k)
        (if is_empty padded then ok (pos 0) else or_overflow (parse_i128 padded))
        (one_le_pow_ten scale) after_point in
    rw (mult, parsed) total
