-- ===== src/Domain/Money/Parsed.antt =====
-- crates/domain/src/money.rs: the amount that a decimal text stands for.
use iron_ledger.Domain.Amount.{AtomicAmount, checked_neg}
use iron_ledger.Domain.Asset.{AssetCode, AssetScale}
use iron_ledger.Domain.Error.{DomainError}
use iron_ledger.Domain.Money.{Money, parse_decimal, split_sign}
use iron_ledger.Domain.Money.Units.{
  Decimal, all-append, decimal_units, limited, split_point-append, units_of-limited,
}
use iron_ledger.Prelude.{
  Bool, [], all, arith, false, if◌then◌else◌, length, ltb, not, refl, true, ℕ, ◌++◌, ◌==◌, ◌||◌,
  ◌∙◌, ◌∷◌, ◌≡◌,
}
use iron_ledger.Prelude.Digits.{trim-visible}
use iron_ledger.Prelude.Int.{negate, ℤ}
use iron_ledger.Prelude.Result.{Result, ok, ◌>>=◌}
use iron_ledger.Prelude.Text.{Text, is_ascii_digit, is_empty, is_whitespace}

pub data Sign : Type 0 where
  unsigned plus minus : Sign

abbrev pub sign_text : Sign → Text
sign_text unsigned = []
sign_text plus = b'+' ∷ []
sign_text minus = b'-' ∷ []

abbrev pub is_minus : Sign → Bool
is_minus unsigned = false
is_minus plus = false
is_minus minus = true

abbrev pub decimal_text : Sign → Text → Text → Text
decimal_text sign whole frac = sign_text sign ++ (whole ++ b'.' ∷ frac)

digit-visible : (c : ℕ) → is_ascii_digit c ≡ true → not (is_whitespace c) ≡ true
unfolding is_whitespace
digit-visible c h = ground arith

digits-visible :
    (s : Text) → all is_ascii_digit s ≡ true → all (λ c. not (is_whitespace c)) s ≡ true
digits-visible [] h = refl
digits-visible (c ∷ s) h = let ih = digits-visible s in let here = digit-visible c in ground arith

body-visible :
    (whole frac : Text)
    → all is_ascii_digit whole ≡ true
    → all is_ascii_digit frac ≡ true
    → all (λ c. not (is_whitespace c)) (whole ++ b'.' ∷ frac) ≡ true
unfolding is_whitespace
body-visible whole frac h k =
    let first = digits-visible whole h in
    let rest = digits-visible frac k in
    all-append (λ c. not (is_whitespace c)) whole (b'.' ∷ frac) ∙ ground arith

text-visible :
    (sign : Sign) (whole frac : Text)
    → all is_ascii_digit whole ≡ true
    → all is_ascii_digit frac ≡ true
    → all (λ c. not (is_whitespace c)) (decimal_text sign whole frac) ≡ true
unfolding is_whitespace
text-visible unsigned whole frac h k = body-visible whole frac h k
text-visible plus whole frac h k = body-visible whole frac h k
text-visible minus whole frac h k = body-visible whole frac h k

digits-body :
    (s : Text) → all is_ascii_digit s ≡ true → all (λ c. is_ascii_digit c || c == b'.') s ≡ true
digits-body [] h = refl
digits-body (c ∷ s) h = let ih = digits-body s in ground arith

split_sign-decimal :
    (sign : Sign) (whole frac : Text)
    → is_empty whole ≡ false
    → all is_ascii_digit whole ≡ true
    → split_sign (decimal_text sign whole frac) ≡ (is_minus sign, whole ++ b'.' ∷ frac)
split_sign-decimal unsigned [] frac h k = absurd (ground arith)
split_sign-decimal unsigned (c ∷ whole) frac h k = ground arith
split_sign-decimal plus whole frac h k = refl
split_sign-decimal minus whole frac h k = refl

decimal_nonempty :
    (sign : Sign) (whole frac : Text)
    → is_empty whole ≡ false
    → is_empty (decimal_text sign whole frac) ≡ false
decimal_nonempty unsigned [] frac h = absurd (ground arith)
decimal_nonempty unsigned (c ∷ whole) frac h = refl
decimal_nonempty plus whole frac h = refl
decimal_nonempty minus whole frac h = refl

abbrev pub signed : Sign → ℤ → ℤ
signed sign z = if is_minus sign then negate z else z

abbrev pub money_ok : AssetCode → AtomicAmount → Result DomainError Money
money_ok asset amount = ok (record { asset = asset; amount = amount })

body_nonempty : (whole frac : Text) → is_empty (whole ++ b'.' ∷ frac) ≡ false
body_nonempty [] frac = refl
body_nonempty (c ∷ whole) frac = refl

finish_sign :
    (asset : AssetCode) (sign : Sign) (n : ℕ)
    → (limited n >>= λ x.
        (if is_minus sign then checked_neg x else ok x) >>= λ units. money_ok asset units)
      ≡ (limited n >>= λ units. money_ok asset (signed sign units))
unfolding checked_neg negate
finish_sign asset unsigned n = ground arith
finish_sign asset plus n = ground arith
finish_sign asset minus n = ground arith

-- A decimal text with at least one digit before the point, any digits after it that the scale has
-- room for, and any sign or none is read as its exact number of atomic units, where their absolute
-- value is at most the greatest `i128`; otherwise the result is the overflow error, the least `i128`
-- included.
pub parse_decimal_exact :
    (asset : AssetCode) (sign : Sign) (scale : AssetScale) (whole frac : Text) (n f : ℕ)
    → Decimal scale whole frac n f
    → parse_decimal asset scale (decimal_text sign whole frac)
      ≡ (limited (decimal_units scale frac n f) >>= λ units. money_ok asset (signed sign units))
unfolding parse_decimal
parse_decimal_exact asset sign scale whole frac n f d =
    let text = decimal_text sign whole frac in
    let body = whole ++ b'.' ∷ frac in
    let whole_text =
      trim-visible text (text-visible sign whole frac d.whole_digits d.frac_digits) in
    let filled = decimal_nonempty sign whole frac d.some_digit in
    let parts = split_sign-decimal sign whole frac d.some_digit d.whole_digits in
    let body_digits : all (λ c. is_ascii_digit c || c == b'.') body ≡ true =
      all-append (λ c. is_ascii_digit c || c == b'.') whole (b'.' ∷ frac)
      ∙ rw (digits-body whole d.whole_digits, digits-body frac d.frac_digits) refl in
    let split = split_point-append whole frac d.whole_digits in
    let units = units_of-limited scale whole frac n f d in
    let body_filled = body_nonempty whole frac in
    let room : ltb scale (length frac) ≡ false = let fine = d.fine_enough in ground arith in
    rw
      (
        whole_text, filled, parts, body_filled, body_digits, split, d.some_digit, d.whole_digits,
        d.frac_digits, room, units,
      )
      (finish_sign asset sign (decimal_units scale frac n f))
