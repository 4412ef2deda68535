-- ===== src/Domain/Error.antt =====
-- crates/domain/src/error.rs. A payload that the source renders by `Display` is kept as the value
-- that it renders: the text of an identifier or of an asset code determines it.
use iron_ledger.Prelude.{ℕ}
use iron_ledger.Prelude.Int.{ℤ}
use iron_ledger.Prelude.Text.{Text}

pub data DomainError : Type 0 where
  invalid_identifier : Text → Text → DomainError
  invalid_idempotency_key : Text → DomainError
  invalid_asset_code : Text → Text → DomainError
  invalid_asset_scale : ℕ → DomainError
  invalid_money_format : Text → DomainError
  amount_overflow : DomainError
  non_positive_amount : ℤ → DomainError
  asset_mismatch : Text → Text → DomainError
  insufficient_postings : ℕ → DomainError
  unbalanced_entry : Text → ℤ → DomainError
  insufficient_balance : ℕ → Text → ℤ → ℤ → DomainError
  account_not_active : ℕ → Text → DomainError
  missing_adjustment_reason : DomainError
  invariant : Text → DomainError
