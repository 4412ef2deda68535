-- ===== src/Domain/Money.antt =====
-- crates/domain/src/money.rs
pub mod Units
pub mod Parsed
use iron_ledger.Domain.Amount.{AtomicAmount, checked, checked_add, checked_neg}
use iron_ledger.Domain.Asset.{AssetCode, AssetScale, multiplier}
use iron_ledger.Domain.Error.{DomainError, amount_overflow, asset_mismatch, invalid_money_format}
use iron_ledger.Prelude.{
  Bool, Option, [], all, false, if◌then◌else◌, length, ltb, none, not, replicate, some, true, ◌++◌,
  ◌-◌, ◌==◌, ◌||◌, ◌∷◌,
}
use iron_ledger.Prelude.Int.{pos, ℤ, ◌*ℤ◌}
use iron_ledger.Prelude.Numeral.{parse_i128, show_ℕ}
use iron_ledger.Prelude.Order.{equals, text_order}
use iron_ledger.Prelude.Result.{Result, err, ok, reject_if, ◌>>=◌, ◌>>◌}
use iron_ledger.Prelude.Text.{Text, codes, is_ascii_digit, is_empty, trim}

pub record Money : Type 0 where
  pub asset : AssetCode
  pub amount : AtomicAmount

-- `starts_with` a sign: whether it is a minus, and the rest.
abbrev pub split_sign : Text → Bool × Text
split_sign [] = (false, [])
split_sign (c ∷ s) =
    if c == b'-' then (true, s) else if c == b'+' then (false, s) else (false, c ∷ s)

-- `split_once('.')`, with no fraction where there is no point
unfoldable pub split_point : Text → Text × Text
split_point [] = ([], [])
split_point (c ∷ s) =
    let (whole, frac) = split_point s in if c == b'.' then ([], s) else (c ∷ whole, frac)

abbrev pub or_overflow : Option ℤ → Result DomainError ℤ
or_overflow none = err amount_overflow
or_overflow (some z) = ok z

-- The numbers before and after the point, in atomic units.
unfoldable pub units_of : AssetScale → Text → Text → Result DomainError AtomicAmount
units_of scale whole frac = do
  mult ← multiplier scale
  whole_i ← or_overflow (parse_i128 whole)
  whole_units ← checked (whole_i *ℤ mult)
  let frac_padded = frac ++ replicate (scale - length frac) b'0'
  frac_units ← if is_empty frac_padded then ok (pos 0) else or_overflow (parse_i128 frac_padded)
  checked_add whole_units frac_units

-- `Money::parse_decimal`
unfoldable pub parse_decimal : AssetCode → AssetScale → Text → Result DomainError Money
unfolding units_of split_point
parse_decimal asset scale raw = do
  let text = trim raw
  reject_if (is_empty text) (invalid_money_format text)
  let (negative, body) = split_sign text
  reject_if (is_empty body || not (all (λ c. is_ascii_digit c || c == b'.') body))
      (invalid_money_format text)
  let (whole, frac) = split_point body
  reject_if (is_empty whole || not (all is_ascii_digit whole)) (invalid_money_format text)
  reject_if (not (all is_ascii_digit frac)) (invalid_money_format text)
  reject_if (ltb scale (length frac))
      (invalid_money_format (codes "fractional precision exceeds scale " ++ show_ℕ scale))
  units ← units_of scale whole frac
  units ← if negative then checked_neg units else ok units
  ok (record { asset = asset; amount = units })

-- `Money::checked_add`
unfoldable pub add_money : Money → Money → Result DomainError Money
add_money a b = do
  reject_if (not (equals text_order a.asset b.asset)) (asset_mismatch a.asset b.asset)
  amount ← checked_add a.amount b.amount
  ok (record { asset = a.asset; amount = amount })
