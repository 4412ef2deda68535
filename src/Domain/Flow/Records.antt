-- ===== src/Domain/Flow/Records.antt =====
-- The flows of crates/domain/src/flow.rs, as the records that its builders consume.
use iron_ledger.Domain.Amount.{AtomicAmount}
use iron_ledger.Domain.Asset.{AssetCode}
use iron_ledger.Domain.Audit.{AuditMetadata}
use iron_ledger.Domain.Ids.{AccountId, CausationId, CorrelationId, IdempotencyKey}
use iron_ledger.Prelude.{Option}

pub record ConfirmedDeposit : Type 0 where
  pub idempotency_key : IdempotencyKey
  pub customer_available : AccountId
  pub deposit_clearing : AccountId
  pub hot_wallet : Option AccountId
  pub asset : AssetCode
  pub amount : AtomicAmount
  pub correlation_id : CorrelationId
  pub causation_id : CausationId

pub record InternalTransfer : Type 0 where
  pub idempotency_key : IdempotencyKey
  pub from : AccountId
  pub to : AccountId
  pub asset : AssetCode
  pub amount : AtomicAmount
  pub correlation_id : CorrelationId
  pub causation_id : CausationId

pub record TradeSettlement : Type 0 where
  pub idempotency_key : IdempotencyKey
  pub buyer_available : AccountId
  pub seller_available : AccountId
  pub base_asset : AssetCode
  pub base_amount : AtomicAmount
  pub quote_asset : AssetCode
  pub quote_amount : AtomicAmount
  pub correlation_id : CorrelationId
  pub causation_id : CausationId

pub record TradingFee : Type 0 where
  pub idempotency_key : IdempotencyKey
  pub customer_available : AccountId
  pub fee_revenue : AccountId
  pub asset : AssetCode
  pub amount : AtomicAmount
  pub correlation_id : CorrelationId
  pub causation_id : CausationId

pub record WithdrawalRequest : Type 0 where
  pub idempotency_key : IdempotencyKey
  pub customer_available : AccountId
  pub customer_locked : AccountId
  pub asset : AssetCode
  pub amount : AtomicAmount
  pub correlation_id : CorrelationId
  pub causation_id : CausationId

pub record WithdrawalCompletion : Type 0 where
  pub idempotency_key : IdempotencyKey
  pub customer_locked : AccountId
  pub withdrawal_clearing : AccountId
  pub hot_wallet : AccountId
  pub asset : AssetCode
  pub amount : AtomicAmount
  pub correlation_id : CorrelationId
  pub causation_id : CausationId

pub record WithdrawalRejection : Type 0 where
  pub idempotency_key : IdempotencyKey
  pub customer_locked : AccountId
  pub customer_available : AccountId
  pub asset : AssetCode
  pub amount : AtomicAmount
  pub correlation_id : CorrelationId
  pub causation_id : CausationId

pub record AdminAdjustment : Type 0 where
  pub idempotency_key : IdempotencyKey
  pub from : AccountId
  pub to : AccountId
  pub asset : AssetCode
  pub amount : AtomicAmount
  pub audit : AuditMetadata
  pub correlation_id : CorrelationId
  pub causation_id : CausationId
