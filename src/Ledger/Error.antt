-- ===== src/Ledger/Error.antt =====
-- crates/ledger/src/error.rs
use iron_ledger.Domain.Error.{
  DomainError, account_not_active, amount_overflow, asset_mismatch, insufficient_balance,
  insufficient_postings, invalid_asset_code, invalid_asset_scale, invalid_idempotency_key,
  invalid_identifier, invalid_money_format, invariant, missing_adjustment_reason,
  non_positive_amount, unbalanced_entry,
}
use iron_ledger.Domain.Ids.{IdempotencyKey, Uuid}
use iron_ledger.Prelude.Text.{Text, codes}

pub data LedgerError : Type 0 where
  domain : DomainError → LedgerError
  not_found : Text → Uuid → LedgerError
  idempotency_conflict : Text → IdempotencyKey → LedgerError
  conflict : Text → LedgerError
  validation : Text → LedgerError
  storage : Text → LedgerError
  unavailable : Text → LedgerError
  serialization : Text → LedgerError

pub data ErrorCategory : Type 0 where
  invalid_argument not_found failed_precondition already_exists unavailable internal : ErrorCategory

unfoldable pub domain_category : DomainError → ErrorCategory
domain_category (insufficient_balance account_id asset balance delta) =
    ErrorCategory.failed_precondition
domain_category (account_not_active account_id status) = ErrorCategory.failed_precondition
domain_category (invariant reason) = ErrorCategory.internal
domain_category _ = ErrorCategory.invalid_argument

-- `LedgerError::category`
unfoldable pub category : LedgerError → ErrorCategory
unfolding domain_category
category (domain e) = domain_category e
category (LedgerError.not_found entity id) = ErrorCategory.not_found
category (idempotency_conflict scope key) = ErrorCategory.failed_precondition
category (conflict reason) = ErrorCategory.already_exists
category (validation reason) = ErrorCategory.invalid_argument
category (LedgerError.unavailable reason) = ErrorCategory.unavailable
category (storage reason) = ErrorCategory.internal
category (serialization reason) = ErrorCategory.internal

unfoldable pub domain_code : DomainError → Text
domain_code (invalid_identifier kind value) = codes "invalid_identifier"
domain_code (invalid_idempotency_key reason) = codes "invalid_idempotency_key"
domain_code (invalid_asset_code code reason) = codes "invalid_asset_code"
domain_code (invalid_asset_scale scale) = codes "invalid_asset_scale"
domain_code (invalid_money_format value) = codes "invalid_money_format"
domain_code amount_overflow = codes "amount_overflow"
domain_code (non_positive_amount amount) = codes "non_positive_amount"
domain_code (asset_mismatch left right) = codes "asset_mismatch"
domain_code (insufficient_postings count) = codes "insufficient_postings"
domain_code (unbalanced_entry asset residual) = codes "unbalanced_entry"
domain_code (insufficient_balance account_id asset balance delta) = codes "insufficient_balance"
domain_code (account_not_active account_id status) = codes "account_not_active"
domain_code missing_adjustment_reason = codes "missing_adjustment_reason"
domain_code (invariant reason) = codes "invariant_violated"

-- `LedgerError::code`
unfoldable pub error_code : LedgerError → Text
unfolding domain_code
error_code (domain e) = domain_code e
error_code (LedgerError.not_found entity id) = codes "not_found"
error_code (idempotency_conflict scope key) = codes "idempotency_conflict"
error_code (conflict reason) = codes "conflict"
error_code (validation reason) = codes "invalid_request"
error_code (LedgerError.unavailable reason) = codes "unavailable"
error_code (storage reason) = codes "storage_failure"
error_code (serialization reason) = codes "serialization_failure"
