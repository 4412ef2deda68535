-- ===== src/Domain/Asset.antt =====
-- crates/domain/src/asset.rs
pub mod Normal
use iron_ledger.Domain.Error.{DomainError, amount_overflow, invalid_asset_code, invalid_asset_scale}
use iron_ledger.Prelude.{all, if◌then◌else◌, ltb, not, ℕ, ◌^◌, ◌||◌}
use iron_ledger.Prelude.Int.{pos, ℤ}
use iron_ledger.Prelude.Numeral.{fits}
use iron_ledger.Prelude.Result.{Result, err, ok, reject_if, ◌>>=◌, ◌>>◌}
use iron_ledger.Prelude.Text.{Text, byte_len, codes, is_ascii_alphanumeric, to_ascii_uppercase}

abbrev pub AssetScale : Type 0
AssetScale = ℕ

-- `AssetScale::new`; the argument is a `u8`.
unfoldable pub new_scale : ℕ → Result DomainError AssetScale
new_scale scale = do reject_if (ltb 18 scale) (invalid_asset_scale scale); ok scale

-- `AssetScale::multiplier`: `10_i128.checked_pow(scale)`
unfoldable pub multiplier : AssetScale → Result DomainError ℤ
multiplier scale = if fits (pos (10 ^ scale)) then ok (pos (10 ^ scale)) else err amount_overflow

abbrev pub AssetCode : Type 0
AssetCode = Text

-- `AssetCode::new`
unfoldable pub new_asset_code : Text → Result DomainError AssetCode
unfolding byte_len to_ascii_uppercase is_ascii_alphanumeric
new_asset_code raw = do
  let code = to_ascii_uppercase raw
  reject_if (ltb (byte_len code) 2 || ltb 16 (byte_len code))
      (invalid_asset_code code (codes "length must be 2..=16"))
  reject_if (not (all is_ascii_alphanumeric code))
      (invalid_asset_code code (codes "must be ASCII alphanumeric"))
  ok code

-- `AssetCode::btc` and `AssetCode::usd`
abbrev pub btc : AssetCode
btc = codes "BTC"

abbrev pub usd : AssetCode
usd = codes "USD"

pub record Asset : Type 0 where
  pub code : AssetCode
  pub scale : AssetScale
  pub name : Text
