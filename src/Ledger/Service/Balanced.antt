-- ===== src/Ledger/Service/Balanced.antt =====
-- The entries that the handlers of crates/ledger/src/service.rs build.
use mathlib.Core.Path.{subst}
use iron_ledger.Domain.Error.{DomainError}
use iron_ledger.Domain.Event.{LedgerEventPayload}
use iron_ledger.Domain.Flow.{
  AdminAdjustment, ConfirmedDeposit, TradeSettlement, TradingFee, WithdrawalCompletion,
  WithdrawalRejection, WithdrawalRequest, adjustment_entry, deposit_entry, fee_entry,
  settlement_entry, withdrawal_completion_entry, withdrawal_rejection_entry,
  withdrawal_request_entry,
}
use iron_ledger.Domain.Ids.{CausationId, CorrelationId, IdempotencyKey, Timestamp, TransactionId}
use iron_ledger.Domain.Journal.{JournalEntry, Posting, new_entry, validate_balanced}
use iron_ledger.Ledger.Command.{
  CompleteWithdrawalCommand, RecordAdminAdjustmentCommand, RecordDepositCommand,
  RecordTradeSettlementCommand, RecordTradingFeeCommand, RejectWithdrawalCommand,
  RequestWithdrawalCommand, SubmitJournalCommand,
}
use iron_ledger.Ledger.Service.{annotate, usable_reference}
use iron_ledger.Ledger.Service.Handlers.{
  Builder, annotated, build_complete_withdrawal, build_journal, build_record_admin_adjustment,
  build_record_deposit, build_record_trade_settlement, build_record_trading_fee,
  build_reject_withdrawal, build_request_withdrawal,
}
use iron_ledger.Prelude.{
  Bool-cases, List, Option, Option-cases, arith, inl, inr, refl, some, ◌==◌, ◌≡◌,
}
use iron_ledger.Prelude.Order.{equals, text_order}
use iron_ledger.Prelude.Result.{succeeded_bind, Result, Result-cases, WhenOk, err, ok}
use iron_ledger.Prelude.Text.{Text, is_empty, trim}

abbrev pub IsValidated : JournalEntry → Type 0
IsValidated entry = validate_balanced entry.postings ≡ ok tt

new_entry_ok-IsValidated :
    (now : Timestamp) (id : TransactionId) (k : IdempotencyKey) (description : Text)
    (ps : List Posting) (cor : CorrelationId) (cau : CausationId)
    → WhenOk IsValidated (new_entry now id k description ps cor cau)
unfolding new_entry
new_entry_ok-IsValidated now id k description ps cor cau =
    elim (Result-cases (validate_balanced ps)) [
      | inl (u, good) ↦ rw good good
      | inr (e, bad) ↦ rw bad tt
    ]

new_entry-IsValidated :
    (now : Timestamp) (id : TransactionId) (k : IdempotencyKey) (description : Text)
    (ps : List Posting) (cor : CorrelationId) (cau : CausationId) (entry : JournalEntry)
    → new_entry now id k description ps cor cau ≡ ok entry
    → IsValidated entry
new_entry-IsValidated now id k description ps cor cau entry h =
    subst (WhenOk IsValidated) h (new_entry_ok-IsValidated now id k description ps cor cau)

deposit_entry-IsValidated :
    (now : Timestamp) (id : TransactionId) (flow : ConfirmedDeposit) (entry : JournalEntry)
    → deposit_entry now id flow ≡ ok entry
    → IsValidated entry
unfolding deposit_entry
deposit_entry-IsValidated now id flow entry h = grind (arith, new_entry-IsValidated)

settlement_entry-IsValidated :
    (now : Timestamp) (id : TransactionId) (flow : TradeSettlement) (entry : JournalEntry)
    → settlement_entry now id flow ≡ ok entry
    → IsValidated entry
unfolding settlement_entry
settlement_entry-IsValidated now id flow entry h = grind (arith, new_entry-IsValidated)

fee_entry-IsValidated :
    (now : Timestamp) (id : TransactionId) (flow : TradingFee) (entry : JournalEntry)
    → fee_entry now id flow ≡ ok entry
    → IsValidated entry
unfolding fee_entry
fee_entry-IsValidated now id flow entry h = grind (arith, new_entry-IsValidated)

withdrawal_request_entry-IsValidated :
    (now : Timestamp) (id : TransactionId) (flow : WithdrawalRequest) (entry : JournalEntry)
    → withdrawal_request_entry now id flow ≡ ok entry
    → IsValidated entry
unfolding withdrawal_request_entry
withdrawal_request_entry-IsValidated now id flow entry h = grind (arith, new_entry-IsValidated)

withdrawal_completion_entry-IsValidated :
    (now : Timestamp) (id : TransactionId) (flow : WithdrawalCompletion) (entry : JournalEntry)
    → withdrawal_completion_entry now id flow ≡ ok entry
    → IsValidated entry
unfolding withdrawal_completion_entry
withdrawal_completion_entry-IsValidated now id flow entry h = grind (arith, new_entry-IsValidated)

withdrawal_rejection_entry-IsValidated :
    (now : Timestamp) (id : TransactionId) (flow : WithdrawalRejection) (entry : JournalEntry)
    → withdrawal_rejection_entry now id flow ≡ ok entry
    → IsValidated entry
unfolding withdrawal_rejection_entry
withdrawal_rejection_entry-IsValidated now id flow entry h = grind (arith, new_entry-IsValidated)

adjustment_entry-IsValidated :
    (now : Timestamp) (id : TransactionId) (flow : AdminAdjustment) (entry : JournalEntry)
    → adjustment_entry now id flow ≡ ok entry
    → IsValidated entry
unfolding adjustment_entry
adjustment_entry-IsValidated now id flow entry h = grind (arith, new_entry-IsValidated)

annotate_postings :
    (entry noted : JournalEntry) (reference : Option Text)
    → annotate entry reference ≡ ok noted
    → noted.postings ≡ entry.postings
unfolding annotate
annotate_postings entry noted reference h = elim (Option-cases (usable_reference reference)) [
  | inl absent ↦ ground arith
  | inr (text, present) ↦ ground arith
]

annotated-IsValidated :
    (r : Result DomainError JournalEntry) (reference : Option Text)
    (built : JournalEntry × List LedgerEventPayload)
    → ((entry : JournalEntry) → r ≡ ok entry → IsValidated entry)
    → annotated r reference ≡ ok built
    → IsValidated built.0
annotated-IsValidated (ok entry) reference built valid h =
    let (noted, e, same) = succeeded_bind (annotate entry reference) _ h in
    let same_postings = annotate_postings entry noted reference e in
    let fine = valid entry refl in cc
annotated-IsValidated (err e) reference built valid h = cc

-- The handlers that post an entry, each with its command.
pub data PostingCommand : Type 0 where
  submit_journal : SubmitJournalCommand → PostingCommand
  record_deposit : RecordDepositCommand → PostingCommand
  request_withdrawal : RequestWithdrawalCommand → PostingCommand
  complete_withdrawal : CompleteWithdrawalCommand → PostingCommand
  reject_withdrawal : RejectWithdrawalCommand → PostingCommand
  record_trade_settlement : RecordTradeSettlementCommand → PostingCommand
  record_trading_fee : RecordTradingFeeCommand → PostingCommand
  record_admin_adjustment : RecordAdminAdjustmentCommand → PostingCommand

-- What the handler of the command builds.
abbrev pub build_entry : Builder PostingCommand
build_entry now id (submit_journal command) = build_journal now id command
build_entry now id (record_deposit command) = build_record_deposit now id command
build_entry now id (request_withdrawal command) = build_request_withdrawal now id command
build_entry now id (complete_withdrawal command) = build_complete_withdrawal now id command
build_entry now id (reject_withdrawal command) = build_reject_withdrawal now id command
build_entry now id (record_trade_settlement command) = build_record_trade_settlement now id command
build_entry now id (record_trading_fee command) = build_record_trading_fee now id command
build_entry now id (record_admin_adjustment command) = build_record_admin_adjustment now id command

-- Whatever a posting handler builds from its command, and with whatever reference it annotates it,
-- the entry that goes to the commit has passed the validation of balanced entries.
pub build_entry-IsValidated :
    (now : Timestamp) (id : TransactionId) (command : PostingCommand)
    (built : JournalEntry × List LedgerEventPayload)
    → build_entry now id command ≡ ok built
    → IsValidated built.0
unfolding build_journal build_record_deposit build_request_withdrawal build_complete_withdrawal
    build_reject_withdrawal build_record_trade_settlement build_record_trading_fee
    build_record_admin_adjustment
build_entry-IsValidated now id (submit_journal c) built h = grind (arith, new_entry-IsValidated)
build_entry-IsValidated now id (record_deposit c) built h =
    annotated-IsValidated _ c.external_reference built (deposit_entry-IsValidated now id _) h
build_entry-IsValidated now id (request_withdrawal c) built h =
    annotated-IsValidated _ c.destination_reference built
      (withdrawal_request_entry-IsValidated now id _) h
build_entry-IsValidated now id (complete_withdrawal c) built h =
    annotated-IsValidated _ c.settlement_reference built
      (withdrawal_completion_entry-IsValidated now id _) h
build_entry-IsValidated now id (reject_withdrawal c) built h =
    elim (Bool-cases (is_empty (trim c.reason))) [
      | inl empty ↦ absurd (ground arith)
      | inr usable ↦
          annotated-IsValidated _ (some (trim c.reason)) built
            (withdrawal_rejection_entry-IsValidated now id _) (rw usable at h)
    ]
build_entry-IsValidated now id (record_trade_settlement c) built h =
    elim (Bool-cases (equals text_order c.base_asset c.quote_asset)) [
      | inl same ↦ absurd (ground arith)
      | inr distinct ↦ elim (Bool-cases (c.buyer_available == c.seller_available)) [
        | inl one ↦ absurd (ground arith)
        | inr two ↦
            annotated-IsValidated _ c.trade_reference built (settlement_entry-IsValidated now id _)
              (rw (distinct, two) at h)
      ]
    ]
build_entry-IsValidated now id (record_trading_fee c) built h = grind (arith, fee_entry-IsValidated)
build_entry-IsValidated now id (record_admin_adjustment c) built h =
    grind (arith, adjustment_entry-IsValidated)
