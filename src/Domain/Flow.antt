-- ===== src/Domain/Flow.antt =====
-- crates/domain/src/flow.rs: each flow becomes a journal entry. `TransactionId::new()` and the clock
-- are the arguments `id` and `now` of a builder.
mod Records
pub mod Effect
pub mod Moves
pub use Records.*
use iron_ledger.Domain.Amount.{AtomicAmount, require_positive}
use iron_ledger.Domain.Asset.{AssetCode}
use iron_ledger.Domain.Error.{DomainError}
use iron_ledger.Domain.Flow.Records.{
  AdminAdjustment, ConfirmedDeposit, InternalTransfer, TradeSettlement, TradingFee,
  WithdrawalCompletion, WithdrawalRejection, WithdrawalRequest,
}
use iron_ledger.Domain.Ids.{AccountId, Timestamp, TransactionId}
use iron_ledger.Domain.Journal.{JournalEntry, Posting, credit, debit, new_entry}
use iron_ledger.Prelude.{List, Option, [], none, some, ◌++◌, ◌∷◌}
use iron_ledger.Prelude.Result.{Result, ok, ◌>>=◌, ◌>>◌}
use iron_ledger.Prelude.Text.{codes}

unfoldable pub transfer_pair :
    AccountId → AccountId → AssetCode → AtomicAmount → Result DomainError (List Posting)
transfer_pair from to asset amount = do
  positive ← require_positive amount
  credited ← credit from asset positive
  debited ← debit to asset positive
  ok (credited ∷ debited ∷ [])

-- The custody mirror of a deposit, pushed after the transfer.
unfoldable pub mirror_custody :
    Option AccountId
    → AccountId
    → AssetCode
    → AtomicAmount
    → List Posting
    → Result DomainError (List Posting)
mirror_custody none clearing asset amount postings = ok postings
mirror_custody (some hot) clearing asset amount postings = do
  debited ← debit clearing asset amount
  credited ← credit hot asset amount
  ok (postings ++ debited ∷ credited ∷ [])

-- `ConfirmedDeposit::into_entry`
unfoldable pub deposit_entry :
    Timestamp → TransactionId → ConfirmedDeposit → Result DomainError JournalEntry
unfolding transfer_pair mirror_custody
deposit_entry now id flow = do
  amount ← require_positive flow.amount
  moved ← transfer_pair flow.deposit_clearing flow.customer_available flow.asset amount
  postings ← mirror_custody flow.hot_wallet flow.deposit_clearing flow.asset amount moved
  new_entry now id flow.idempotency_key (codes "confirmed_deposit") postings flow.correlation_id
      flow.causation_id

-- `InternalTransfer::into_entry`
unfoldable pub internal_transfer_entry :
    Timestamp → TransactionId → InternalTransfer → Result DomainError JournalEntry
unfolding transfer_pair
internal_transfer_entry now id flow = do
  postings ← transfer_pair flow.from flow.to flow.asset flow.amount
  new_entry now id flow.idempotency_key (codes "internal_transfer") postings flow.correlation_id
      flow.causation_id

-- `TradeSettlement::into_entry`
unfoldable pub settlement_entry :
    Timestamp → TransactionId → TradeSettlement → Result DomainError JournalEntry
settlement_entry now id flow = do
  base ← require_positive flow.base_amount
  quote ← require_positive flow.quote_amount
  base_out ← credit flow.seller_available flow.base_asset base
  base_in ← debit flow.buyer_available flow.base_asset base
  quote_out ← credit flow.buyer_available flow.quote_asset quote
  quote_in ← debit flow.seller_available flow.quote_asset quote
  new_entry now id flow.idempotency_key (codes "trade_settlement")
      (base_out ∷ base_in ∷ quote_out ∷ quote_in ∷ []) flow.correlation_id flow.causation_id

-- `TradingFee::into_entry`
unfoldable pub fee_entry : Timestamp → TransactionId → TradingFee → Result DomainError JournalEntry
unfolding transfer_pair
fee_entry now id flow = do
  postings ← transfer_pair flow.customer_available flow.fee_revenue flow.asset flow.amount
  new_entry now id flow.idempotency_key (codes "trading_fee") postings flow.correlation_id
      flow.causation_id

-- `WithdrawalRequest::into_entry`
unfoldable pub withdrawal_request_entry :
    Timestamp → TransactionId → WithdrawalRequest → Result DomainError JournalEntry
unfolding transfer_pair
withdrawal_request_entry now id flow = do
  postings ← transfer_pair flow.customer_available flow.customer_locked flow.asset flow.amount
  new_entry now id flow.idempotency_key (codes "withdrawal_request") postings flow.correlation_id
      flow.causation_id

-- `WithdrawalCompletion::into_entry`
unfoldable pub withdrawal_completion_entry :
    Timestamp → TransactionId → WithdrawalCompletion → Result DomainError JournalEntry
withdrawal_completion_entry now id flow = do
  amount ← require_positive flow.amount
  locked_out ← credit flow.customer_locked flow.asset amount
  clearing_in ← debit flow.withdrawal_clearing flow.asset amount
  clearing_out ← credit flow.withdrawal_clearing flow.asset amount
  wallet_in ← debit flow.hot_wallet flow.asset amount
  new_entry now id flow.idempotency_key (codes "withdrawal_completion")
      (locked_out ∷ clearing_in ∷ clearing_out ∷ wallet_in ∷ []) flow.correlation_id
      flow.causation_id

-- `WithdrawalRejection::into_entry`
unfoldable pub withdrawal_rejection_entry :
    Timestamp → TransactionId → WithdrawalRejection → Result DomainError JournalEntry
unfolding transfer_pair
withdrawal_rejection_entry now id flow = do
  postings ← transfer_pair flow.customer_locked flow.customer_available flow.asset flow.amount
  new_entry now id flow.idempotency_key (codes "withdrawal_rejection") postings flow.correlation_id
      flow.causation_id

-- `AdminAdjustment::into_entry`
unfoldable pub adjustment_entry :
    Timestamp → TransactionId → AdminAdjustment → Result DomainError JournalEntry
unfolding transfer_pair
adjustment_entry now id flow = do
  postings ← transfer_pair flow.from flow.to flow.asset flow.amount
  new_entry now id flow.idempotency_key (codes "admin_adjustment: " ++ flow.audit.reason) postings
      flow.correlation_id flow.causation_id
