-- ===== src/Grpc/Messages.antt =====
-- proto/ironledger/v1/ledger.proto: the messages; an enumeration is its number, an `i32`.
use iron_ledger.Prelude.{Bool, List, Option}
use iron_ledger.Prelude.Int.{ℤ}
use iron_ledger.Prelude.Text.{Text}

pub record CommandContext : Type 0 where
  pub idempotency_key : Text
  pub correlation_id : Text
  pub causation_id : Text

pub record ProtoAccount : Type 0 where
  pub id : Text
  pub name : Text
  pub kind : ℤ
  pub policy : ℤ
  pub status : ℤ
  pub created_at : Text

pub record ProtoPosting : Type 0 where
  pub account_id : Text
  pub asset : Text
  pub amount_atomic : Text
  pub side : ℤ

pub record ProtoEntry : Type 0 where
  pub transaction_id : Text
  pub idempotency_key : Text
  pub description : Text
  pub postings : List ProtoPosting
  pub status : Text
  pub correlation_id : Text
  pub causation_id : Text
  pub created_at : Text

pub record ProtoAudit : Type 0 where
  pub actor : Text
  pub reason : Text
  pub ticket_id : Text

pub record CommandResult : Type 0 where
  pub transaction_id : Text
  pub replayed : Bool
  pub posted_at : Text

pub record CreateAccountRequest : Type 0 where
  pub context : Option CommandContext
  pub name : Text
  pub kind : ℤ
  pub policy : ℤ

pub record SubmitJournalEntryRequest : Type 0 where
  pub context : Option CommandContext
  pub description : Text
  pub postings : List ProtoPosting

pub record RecordDepositRequest : Type 0 where
  pub context : Option CommandContext
  pub customer_available_account_id : Text
  pub deposit_clearing_account_id : Text
  pub hot_wallet_account_id : Text
  pub asset : Text
  pub amount_atomic : Text
  pub external_reference : Text

pub record RequestWithdrawalRequest : Type 0 where
  pub context : Option CommandContext
  pub customer_available_account_id : Text
  pub customer_locked_account_id : Text
  pub asset : Text
  pub amount_atomic : Text
  pub destination_reference : Text

pub record CompleteWithdrawalRequest : Type 0 where
  pub context : Option CommandContext
  pub customer_locked_account_id : Text
  pub withdrawal_clearing_account_id : Text
  pub hot_wallet_account_id : Text
  pub asset : Text
  pub amount_atomic : Text
  pub settlement_reference : Text

pub record RejectWithdrawalRequest : Type 0 where
  pub context : Option CommandContext
  pub customer_locked_account_id : Text
  pub customer_available_account_id : Text
  pub asset : Text
  pub amount_atomic : Text
  pub reason : Text

pub record RecordTradeSettlementRequest : Type 0 where
  pub context : Option CommandContext
  pub buyer_available_account_id : Text
  pub seller_available_account_id : Text
  pub base_asset : Text
  pub base_amount_atomic : Text
  pub quote_asset : Text
  pub quote_amount_atomic : Text
  pub trade_reference : Text

pub record RecordTradingFeeRequest : Type 0 where
  pub context : Option CommandContext
  pub customer_available_account_id : Text
  pub fee_revenue_account_id : Text
  pub asset : Text
  pub amount_atomic : Text

pub record RecordAdminAdjustmentRequest : Type 0 where
  pub context : Option CommandContext
  pub from_account_id : Text
  pub to_account_id : Text
  pub asset : Text
  pub amount_atomic : Text
  pub audit : Option ProtoAudit
