-- ===== src/Grpc/Server.antt =====
-- crates/api-grpc/src/server.rs: the handlers over a ledger service and a reconciler, whose calls are
-- fields of an interface.
use iron_ledger.Domain.Amount.{show_amount}
use iron_ledger.Domain.Asset.{AssetCode}
use iron_ledger.Domain.Ids.{AccountId, CausationId, CorrelationId, TransactionId}
use iron_ledger.Domain.Journal.{JournalEntry}
use iron_ledger.Grpc.Mapping.{
  Rendering, Status, command_result, ledger_status, map_account, map_entry, parse_asset, parse_uuid,
}
use iron_ledger.Grpc.Messages.{
  CommandResult, CompleteWithdrawalRequest, CreateAccountRequest, ProtoAccount, ProtoEntry,
  RecordAdminAdjustmentRequest, RecordDepositRequest, RecordTradeSettlementRequest,
  RecordTradingFeeRequest, RejectWithdrawalRequest, RequestWithdrawalRequest,
  SubmitJournalEntryRequest,
}
use iron_ledger.Grpc.Requests.{
  read_admin_adjustment, read_complete_withdrawal, read_create_account, read_record_deposit,
  read_reject_withdrawal, read_request_withdrawal, read_submit_journal, read_trade_settlement,
  read_trading_fee,
}
use iron_ledger.Ledger.Command.{
  CompleteWithdrawalCommand, CreateAccountCommand, RecordAdminAdjustmentCommand,
  RecordDepositCommand, RecordTradeSettlementCommand, RecordTradingFeeCommand,
  RejectWithdrawalCommand, RequestWithdrawalCommand, SubmitJournalCommand,
}
use iron_ledger.Ledger.Error.{LedgerError}
use iron_ledger.Ledger.Port.{BalanceRecord, Page, new_page}
use iron_ledger.Ledger.Service.{AccountCreated, EntryPosted, Outcome}
use iron_ledger.Prelude.{Bool, List, Option, if◌then◌else◌, map, none, some, ℕ}
use iron_ledger.Prelude.Result.{Result, err, map_err, ok, ◌>>=◌}
use iron_ledger.Prelude.Text.{Text, codes, is_empty}

-- What the handlers call, on a state of any type.
pub record Services (S : Type 0) : Type 0 where
  pub create_account : CreateAccountCommand → S → Result LedgerError (Outcome AccountCreated) × S
  pub submit_journal_entry : SubmitJournalCommand → S → Result LedgerError (Outcome EntryPosted) × S
  pub record_deposit : RecordDepositCommand → S → Result LedgerError (Outcome EntryPosted) × S
  pub request_withdrawal :
      RequestWithdrawalCommand → S → Result LedgerError (Outcome EntryPosted) × S
  pub complete_withdrawal :
      CompleteWithdrawalCommand → S → Result LedgerError (Outcome EntryPosted) × S
  pub reject_withdrawal : RejectWithdrawalCommand → S → Result LedgerError (Outcome EntryPosted) × S
  pub record_trade_settlement :
      RecordTradeSettlementCommand → S → Result LedgerError (Outcome EntryPosted) × S
  pub record_trading_fee :
      RecordTradingFeeCommand → S → Result LedgerError (Outcome EntryPosted) × S
  pub record_admin_adjustment :
      RecordAdminAdjustmentCommand → S → Result LedgerError (Outcome EntryPosted) × S
  pub get_transaction : TransactionId → S → Result LedgerError JournalEntry
  pub get_balances : AccountId → Option AssetCode → S → Result LedgerError (List BalanceRecord)
  pub list_account_entries : AccountId → Page → S → Result LedgerError (List JournalEntry)

-- The rendering and the two identifiers that `CommandMeta::new` may draw for a call.
pub record Call : Type 0 where
  pub rendering : Rendering
  pub correlation : CorrelationId
  pub causation : CausationId

pub record CreateAccountResponse : Type 0 where
  pub account : ProtoAccount
  pub replayed : Bool

pub record ProtoBalance : Type 0 where
  pub account_id : Text
  pub asset : Text
  pub amount_atomic : Text
  pub updated_at : Text

abbrev pub posted_result : Rendering → Outcome EntryPosted → CommandResult
posted_result r o = command_result r o.value.transaction_id o.replayed o.value.posted_at

abbrev pub map_balance : Rendering → BalanceRecord → ProtoBalance
map_balance r balance = record {
  account_id = r.show_uuid balance.account_id;
  asset = balance.asset;
  amount_atomic = show_amount balance.amount;
  updated_at = r.to_rfc3339 balance.updated_at;
}

module _ {S : Type 0} where
  -- A command that was read is handed over, and the outcome is mapped.
  abbrev pub answer :
      {C A B : Type 0}
      → Rendering
      → Result Status C
      → (C → S → Result LedgerError (Outcome A) × S)
      → (Outcome A → B)
      → S
      → Result Status B × S
  answer r (err e) handle show s = (err e, s)
  answer r (ok command) handle show s =
      let (outcome, t) = handle command s in
      elim outcome [ ok o ↦ (ok (show o), t) | err e ↦ (err (ledger_status r e), t) ]

  -- `LedgerWriteService`
  unfoldable pub create_account_rpc :
      Call → Services S → CreateAccountRequest → S → Result Status CreateAccountResponse × S
  create_account_rpc c services req =
      answer c.rendering (read_create_account c.rendering c.correlation c.causation req)
        services.create_account
        (λ o. record { account = map_account c.rendering o.value.account; replayed = o.replayed })

  unfoldable pub submit_journal_entry_rpc :
      Call → Services S → SubmitJournalEntryRequest → S → Result Status CommandResult × S
  submit_journal_entry_rpc c services req =
      answer c.rendering (read_submit_journal c.rendering c.correlation c.causation req)
        services.submit_journal_entry (posted_result c.rendering)

  unfoldable pub record_deposit_rpc :
      Call → Services S → RecordDepositRequest → S → Result Status CommandResult × S
  record_deposit_rpc c services req =
      answer c.rendering (read_record_deposit c.rendering c.correlation c.causation req)
        services.record_deposit (posted_result c.rendering)

  unfoldable pub request_withdrawal_rpc :
      Call → Services S → RequestWithdrawalRequest → S → Result Status CommandResult × S
  request_withdrawal_rpc c services req =
      answer c.rendering (read_request_withdrawal c.rendering c.correlation c.causation req)
        services.request_withdrawal (posted_result c.rendering)

  unfoldable pub complete_withdrawal_rpc :
      Call → Services S → CompleteWithdrawalRequest → S → Result Status CommandResult × S
  complete_withdrawal_rpc c services req =
      answer c.rendering (read_complete_withdrawal c.rendering c.correlation c.causation req)
        services.complete_withdrawal (posted_result c.rendering)

  unfoldable pub reject_withdrawal_rpc :
      Call → Services S → RejectWithdrawalRequest → S → Result Status CommandResult × S
  reject_withdrawal_rpc c services req =
      answer c.rendering (read_reject_withdrawal c.rendering c.correlation c.causation req)
        services.reject_withdrawal (posted_result c.rendering)

  unfoldable pub record_trade_settlement_rpc :
      Call → Services S → RecordTradeSettlementRequest → S → Result Status CommandResult × S
  record_trade_settlement_rpc c services req =
      answer c.rendering (read_trade_settlement c.rendering c.correlation c.causation req)
        services.record_trade_settlement (posted_result c.rendering)

  unfoldable pub record_trading_fee_rpc :
      Call → Services S → RecordTradingFeeRequest → S → Result Status CommandResult × S
  record_trading_fee_rpc c services req =
      answer c.rendering (read_trading_fee c.rendering c.correlation c.causation req)
        services.record_trading_fee (posted_result c.rendering)

  unfoldable pub record_admin_adjustment_rpc :
      Call → Services S → RecordAdminAdjustmentRequest → S → Result Status CommandResult × S
  record_admin_adjustment_rpc c services req =
      answer c.rendering (read_admin_adjustment c.rendering c.correlation c.causation req)
        services.record_admin_adjustment (posted_result c.rendering)

  -- `LedgerQueryService`
  unfoldable pub get_transaction_rpc : Rendering → Services S → Text → S → Result Status ProtoEntry
  unfolding parse_uuid
  get_transaction_rpc r services transaction_id s = do
    id ← parse_uuid r transaction_id (codes "transaction_id")
    entry ← map_err (ledger_status r) (services.get_transaction id s)
    ok (map_entry r entry)

  unfoldable pub get_balance_rpc :
      Rendering → Services S → Text → Text → S → Result Status (List ProtoBalance)
  unfolding parse_uuid parse_asset
  get_balance_rpc r services account_id asset s = do
    id ← parse_uuid r account_id (codes "account_id")
    wanted ← (if is_empty asset then ok none else parse_asset r asset >>= λ code. ok (some code))
    balances ← map_err (ledger_status r) (services.get_balances id wanted s)
    ok (map (map_balance r) balances)

  unfoldable pub list_account_entries_rpc :
      Rendering → Services S → Text → ℕ → ℕ → S → Result Status (List ProtoEntry)
  unfolding parse_uuid
  list_account_entries_rpc r services account_id limit offset s = do
    id ← parse_uuid r account_id (codes "account_id")
    entries ← map_err (ledger_status r) (services.list_account_entries id (new_page limit offset) s)
    ok (map (map_entry r) entries)
