-- ===== src/Ledger/Command.antt =====
-- crates/ledger/src/command.rs: the commands and what they share. The derived `Serialize` of a
-- command, which leaves `meta` out, is an argument of `impl_command`.
use iron_ledger.Domain.Account.{AccountKind, AccountPolicy}
use iron_ledger.Domain.Amount.{AtomicAmount}
use iron_ledger.Domain.Asset.{AssetCode}
use iron_ledger.Domain.Audit.{AuditMetadata, new_audit_metadata}
use iron_ledger.Domain.Error.{DomainError}
use iron_ledger.Domain.Ids.{
  AccountId, CausationId, CorrelationId, IdempotencyKey, Timestamp, Uuid, new_idempotency_key,
}
use iron_ledger.Ledger.Error.{LedgerError}
use iron_ledger.Ledger.Idempotency.{Hashing, RequestHash, compute}
use iron_ledger.Ledger.Json.{Value}
use iron_ledger.Prelude.{List, Option, get_or, none}
use iron_ledger.Prelude.Result.{Result, ok, ◌>>=◌}
use iron_ledger.Prelude.Text.{Text, codes}

pub record CommandMeta : Type 0 where
  pub idempotency_key : IdempotencyKey
  pub correlation_id : CorrelationId
  pub causation_id : CausationId

-- `CommandMeta::new`; the last two arguments are the identifiers drawn where the caller has none
unfoldable pub new_meta :
    IdempotencyKey → Option CorrelationId → Option CausationId → Uuid → Uuid → CommandMeta
new_meta idempotency_key correlation_id causation_id drawn drawn' = record {
  idempotency_key = idempotency_key;
  correlation_id = get_or correlation_id drawn;
  causation_id = get_or causation_id drawn';
}

-- `CommandMeta::from_key`
unfoldable pub from_key : Text → Uuid → Uuid → Result DomainError CommandMeta
unfolding new_meta new_idempotency_key
from_key key drawn drawn' = do
  valid ← new_idempotency_key key
  ok (new_meta valid none none drawn drawn')

-- The trait `Command`.
pub record Command (C : Type 0) : Type 0 where
  pub scope : Text
  pub meta_of : C → CommandMeta
  pub payload : C → Result Text Value

-- `Command::fingerprint`
unfoldable pub fingerprint : {C : Type 0} → Hashing → Command C → C → Result LedgerError RequestHash
unfolding compute
fingerprint hashing iface command = compute hashing iface.scope (iface.payload command)

pub record AuditRequest : Type 0 where
  pub actor : Text
  pub reason : Text
  pub ticket_id : Option Text

-- `AuditRequest::into_metadata`, called at `now`
unfoldable pub into_metadata : Timestamp → AuditRequest → Result DomainError AuditMetadata
unfolding new_audit_metadata
into_metadata now request = new_audit_metadata now request.actor request.reason request.ticket_id

pub record PostingInput : Type 0 where
  pub account_id : AccountId
  pub asset : AssetCode
  pub amount : AtomicAmount

pub record CreateAccountCommand : Type 0 where
  pub meta : CommandMeta
  pub name : Text
  pub kind : AccountKind
  pub policy : AccountPolicy

pub record SubmitJournalCommand : Type 0 where
  pub meta : CommandMeta
  pub description : Text
  pub postings : List PostingInput

pub record RecordDepositCommand : Type 0 where
  pub meta : CommandMeta
  pub customer_available : AccountId
  pub deposit_clearing : AccountId
  pub hot_wallet : Option AccountId
  pub asset : AssetCode
  pub amount : AtomicAmount
  pub external_reference : Option Text

pub record RequestWithdrawalCommand : Type 0 where
  pub meta : CommandMeta
  pub customer_available : AccountId
  pub customer_locked : AccountId
  pub asset : AssetCode
  pub amount : AtomicAmount
  pub destination_reference : Option Text

pub record CompleteWithdrawalCommand : Type 0 where
  pub meta : CommandMeta
  pub customer_locked : AccountId
  pub withdrawal_clearing : AccountId
  pub hot_wallet : AccountId
  pub asset : AssetCode
  pub amount : AtomicAmount
  pub settlement_reference : Option Text

pub record RejectWithdrawalCommand : Type 0 where
  pub meta : CommandMeta
  pub customer_locked : AccountId
  pub customer_available : AccountId
  pub asset : AssetCode
  pub amount : AtomicAmount
  pub reason : Text

pub record RecordTradeSettlementCommand : Type 0 where
  pub meta : CommandMeta
  pub buyer_available : AccountId
  pub seller_available : AccountId
  pub base_asset : AssetCode
  pub base_amount : AtomicAmount
  pub quote_asset : AssetCode
  pub quote_amount : AtomicAmount
  pub trade_reference : Option Text

pub record RecordTradingFeeCommand : Type 0 where
  pub meta : CommandMeta
  pub customer_available : AccountId
  pub fee_revenue : AccountId
  pub asset : AssetCode
  pub amount : AtomicAmount

pub record RecordAdminAdjustmentCommand : Type 0 where
  pub meta : CommandMeta
  pub from : AccountId
  pub to : AccountId
  pub asset : AssetCode
  pub amount : AtomicAmount
  pub audit : AuditRequest

-- The scopes that `impl_command!` gives: each command's idempotency namespace.

abbrev pub create_account_command :
    (CreateAccountCommand → Result Text Value) → Command CreateAccountCommand
create_account_command payload = record {
  scope = codes "create_account";
  meta_of = λ command. command.meta;
  payload = payload;
}

abbrev pub submit_journal_entry_command :
    (SubmitJournalCommand → Result Text Value) → Command SubmitJournalCommand
submit_journal_entry_command payload = record {
  scope = codes "submit_journal_entry";
  meta_of = λ command. command.meta;
  payload = payload;
}

abbrev pub record_deposit_command :
    (RecordDepositCommand → Result Text Value) → Command RecordDepositCommand
record_deposit_command payload = record {
  scope = codes "record_deposit";
  meta_of = λ command. command.meta;
  payload = payload;
}

abbrev pub request_withdrawal_command :
    (RequestWithdrawalCommand → Result Text Value) → Command RequestWithdrawalCommand
request_withdrawal_command payload = record {
  scope = codes "request_withdrawal";
  meta_of = λ command. command.meta;
  payload = payload;
}

abbrev pub complete_withdrawal_command :
    (CompleteWithdrawalCommand → Result Text Value) → Command CompleteWithdrawalCommand
complete_withdrawal_command payload = record {
  scope = codes "complete_withdrawal";
  meta_of = λ command. command.meta;
  payload = payload;
}

abbrev pub reject_withdrawal_command :
    (RejectWithdrawalCommand → Result Text Value) → Command RejectWithdrawalCommand
reject_withdrawal_command payload = record {
  scope = codes "reject_withdrawal";
  meta_of = λ command. command.meta;
  payload = payload;
}

abbrev pub record_trade_settlement_command :
    (RecordTradeSettlementCommand → Result Text Value) → Command RecordTradeSettlementCommand
record_trade_settlement_command payload = record {
  scope = codes "record_trade_settlement";
  meta_of = λ command. command.meta;
  payload = payload;
}

abbrev pub record_trading_fee_command :
    (RecordTradingFeeCommand → Result Text Value) → Command RecordTradingFeeCommand
record_trading_fee_command payload = record {
  scope = codes "record_trading_fee";
  meta_of = λ command. command.meta;
  payload = payload;
}

abbrev pub record_admin_adjustment_command :
    (RecordAdminAdjustmentCommand → Result Text Value) → Command RecordAdminAdjustmentCommand
record_admin_adjustment_command payload = record {
  scope = codes "record_admin_adjustment";
  meta_of = λ command. command.meta;
  payload = payload;
}
