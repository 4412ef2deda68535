-- ===== src/Ledger/Service/Handlers.antt =====
-- The closures that the handlers of crates/ledger/src/service.rs pass to `post_entry`. `now` and `id`
-- are the clock and the drawn identifier of the entry.
use iron_ledger.Domain.Error.{DomainError}
use iron_ledger.Domain.Event.{LedgerEventPayload}
use iron_ledger.Domain.Flow.{
  adjustment_entry, deposit_entry, fee_entry, settlement_entry, withdrawal_completion_entry,
  withdrawal_rejection_entry, withdrawal_request_entry,
}
use iron_ledger.Domain.Ids.{Timestamp, TransactionId}
use iron_ledger.Domain.Journal.{JournalEntry, Posting, new_entry, new_posting}
use iron_ledger.Ledger.Command.{
  CompleteWithdrawalCommand, PostingInput, RecordAdminAdjustmentCommand, RecordDepositCommand,
  RecordTradeSettlementCommand, RecordTradingFeeCommand, RejectWithdrawalCommand,
  RequestWithdrawalCommand, SubmitJournalCommand, into_metadata,
}
use iron_ledger.Ledger.Error.{LedgerError, domain, validation}
use iron_ledger.Ledger.Service.{annotate, validated_description}
use iron_ledger.Prelude.{List, Option, [], some, ◌==◌, ◌∷◌}
use iron_ledger.Prelude.Order.{equals, text_order}
use iron_ledger.Prelude.Result.{Result, collect, map_err, ok, reject_if, ◌>>=◌, ◌>>◌}
use iron_ledger.Prelude.Text.{Text, codes, is_empty, trim}

-- A flow's entry with a caller's reference, and no event besides the entry's.
abbrev pub annotated :
    Result DomainError JournalEntry
    → Option Text
    → Result LedgerError (JournalEntry × List LedgerEventPayload)
annotated built reference = do
  entry ← map_err domain built
  noted ← annotate entry reference
  ok (noted, [])

-- `Posting::new` on an input
abbrev pub posting_of : PostingInput → Result LedgerError Posting
posting_of input = map_err domain (new_posting input.account_id input.asset input.amount)

abbrev pub Builder : Type 0 → Type 0
Builder C =
    Timestamp → TransactionId → C → Result LedgerError (JournalEntry × List LedgerEventPayload)

-- `submit_journal_entry`
unfoldable pub build_journal : Builder SubmitJournalCommand
unfolding collect new_posting validated_description
build_journal now id command = do
  description ← validated_description command.description
  postings ← collect posting_of command.postings
  entry ← map_err domain (
      new_entry now id command.meta.idempotency_key description postings command.meta.correlation_id
        command.meta.causation_id)
  ok (entry, [])

-- `record_deposit`
unfoldable pub build_record_deposit : Builder RecordDepositCommand
unfolding annotate
build_record_deposit now id command =
    annotated
      (deposit_entry now id (record {
        idempotency_key = command.meta.idempotency_key;
        customer_available = command.customer_available;
        deposit_clearing = command.deposit_clearing;
        hot_wallet = command.hot_wallet;
        asset = command.asset;
        amount = command.amount;
        correlation_id = command.meta.correlation_id;
        causation_id = command.meta.causation_id;
      }))
      command.external_reference

-- `request_withdrawal`
unfoldable pub build_request_withdrawal : Builder RequestWithdrawalCommand
unfolding annotate
build_request_withdrawal now id command =
    annotated
      (withdrawal_request_entry now id (record {
        idempotency_key = command.meta.idempotency_key;
        customer_available = command.customer_available;
        customer_locked = command.customer_locked;
        asset = command.asset;
        amount = command.amount;
        correlation_id = command.meta.correlation_id;
        causation_id = command.meta.causation_id;
      }))
      command.destination_reference

-- `complete_withdrawal`
unfoldable pub build_complete_withdrawal : Builder CompleteWithdrawalCommand
unfolding annotate
build_complete_withdrawal now id command =
    annotated
      (withdrawal_completion_entry now id (record {
        idempotency_key = command.meta.idempotency_key;
        customer_locked = command.customer_locked;
        withdrawal_clearing = command.withdrawal_clearing;
        hot_wallet = command.hot_wallet;
        asset = command.asset;
        amount = command.amount;
        correlation_id = command.meta.correlation_id;
        causation_id = command.meta.causation_id;
      }))
      command.settlement_reference

-- `reject_withdrawal`
unfoldable pub build_reject_withdrawal : Builder RejectWithdrawalCommand
unfolding annotate
build_reject_withdrawal now id command = do
  let reason = trim command.reason
  reject_if (is_empty reason) (validation (codes "withdrawal rejection requires a reason"))
  annotated
      (withdrawal_rejection_entry now id (record {
        idempotency_key = command.meta.idempotency_key;
        customer_locked = command.customer_locked;
        customer_available = command.customer_available;
        asset = command.asset;
        amount = command.amount;
        correlation_id = command.meta.correlation_id;
        causation_id = command.meta.causation_id;
      }))
      (some reason)

-- `record_trade_settlement`
unfoldable pub build_record_trade_settlement : Builder RecordTradeSettlementCommand
unfolding annotate
build_record_trade_settlement now id command = do
  reject_if (equals text_order command.base_asset command.quote_asset)
      (validation (codes "trade settlement requires two distinct assets"))
  reject_if (command.buyer_available == command.seller_available)
      (validation (codes "trade settlement requires two distinct accounts"))
  annotated
      (settlement_entry now id (record {
        idempotency_key = command.meta.idempotency_key;
        buyer_available = command.buyer_available;
        seller_available = command.seller_available;
        base_asset = command.base_asset;
        base_amount = command.base_amount;
        quote_asset = command.quote_asset;
        quote_amount = command.quote_amount;
        correlation_id = command.meta.correlation_id;
        causation_id = command.meta.causation_id;
      }))
      command.trade_reference

-- `record_trading_fee`
unfoldable pub build_record_trading_fee : Builder RecordTradingFeeCommand
build_record_trading_fee now id command = do
  entry ← map_err domain (
      fee_entry now id (record {
        idempotency_key = command.meta.idempotency_key;
        customer_available = command.customer_available;
        fee_revenue = command.fee_revenue;
        asset = command.asset;
        amount = command.amount;
        correlation_id = command.meta.correlation_id;
        causation_id = command.meta.causation_id;
      }))
  ok (entry, [])

-- `record_admin_adjustment`
unfoldable pub build_record_admin_adjustment : Builder RecordAdminAdjustmentCommand
unfolding into_metadata
build_record_admin_adjustment now id command = do
  reject_if (command.from == command.to)
      (validation (codes "adjustment requires two distinct accounts"))
  audit ← map_err domain (into_metadata now command.audit)
  entry ← map_err domain (
      adjustment_entry now id (record {
        idempotency_key = command.meta.idempotency_key;
        from = command.from;
        to = command.to;
        asset = command.asset;
        amount = command.amount;
        audit = audit;
        correlation_id = command.meta.correlation_id;
        causation_id = command.meta.causation_id;
      }))
  ok (entry, LedgerEventPayload.admin_adjusted entry.id audit ∷ [])
