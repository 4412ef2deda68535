-- ===== src/Grpc/Mapping.antt =====
-- crates/api-grpc/src/map.rs: values and errors. The texts of identifiers, instants and errors are
-- those of the crates uuid and chrono and of the derived `Display`, which are parameters.
use iron_ledger.Domain.Account.{
  Account, AccountKind, AccountPolicy, AccountStatus, active, allow_negative, closed,
  customer_available, customer_locked, deposit_clearing, exchange_cold_wallet, exchange_hot_wallet,
  fee_revenue, frozen, non_negative, other, withdrawal_clearing,
}
use iron_ledger.Domain.Amount.{AtomicAmount, show_amount}
use iron_ledger.Domain.Asset.{AssetCode, new_asset_code}
use iron_ledger.Domain.Error.{DomainError}
use iron_ledger.Domain.Ids.{
  CausationId, CorrelationId, Timestamp, TransactionId, Uuid, new_idempotency_key,
}
use iron_ledger.Domain.Journal.{JournalEntry, Posting, PostingSide, credit_side, debit_side}
use iron_ledger.Grpc.Messages.{
  CommandContext, CommandResult, ProtoAccount, ProtoEntry, ProtoPosting,
}
use iron_ledger.Ledger.Command.{CommandMeta, PostingInput, new_meta}
use iron_ledger.Ledger.Error.{ErrorCategory, LedgerError, category}
use iron_ledger.Prelude.{Bool, List, Option, if◌then◌else◌, map, none, some, ◌++◌}
use iron_ledger.Prelude.Int.{pos, ℤ}
use iron_ledger.Prelude.Numeral.{parse_i128}
use iron_ledger.Prelude.Result.{Result, collect, err, map_err, ok, ◌>>=◌}
use iron_ledger.Prelude.Text.{Text, codes, is_empty}

pub record Rendering : Type 0 where
  pub show_uuid : Uuid → Text
  pub read_uuid : Text → Option Uuid
  pub to_rfc3339 : Timestamp → Text
  pub show_ledger_error : LedgerError → Text
  pub show_domain_error : DomainError → Text

pub data StatusCode : Type 0 where
  invalid_argument not_found failed_precondition already_exists unavailable internal : StatusCode

-- `tonic::Status`
pub record Status : Type 0 where
  pub code : StatusCode
  pub message : Text

abbrev pub invalid : Text → Status
invalid message = record { code = StatusCode.invalid_argument; message = message }

abbrev pub invalid_field : Text → Status
invalid_field label = invalid (codes "invalid " ++ label)

-- `parse_uuid` and `parse_account_id`
unfoldable pub parse_uuid : Rendering → Text → Text → Result Status Uuid
parse_uuid r text label = elim (r.read_uuid text) [
  | none ↦ err (invalid_field label)
  | some id ↦ ok id
]

unfoldable pub parse_amount : Text → Text → Result Status AtomicAmount
parse_amount text label = elim (parse_i128 text) [
  | none ↦ err (invalid_field label)
  | some raw ↦ ok raw
]

unfoldable pub parse_asset : Rendering → Text → Result Status AssetCode
parse_asset r text = map_err (λ e. invalid (r.show_domain_error e)) (new_asset_code text)

-- An optional text is empty where it is missing.
abbrev pub optional_text : Text → Option Text
optional_text text = if is_empty text then none else some text

abbrev pub optional_uuid : Rendering → Text → Text → Result Status (Option Uuid)
optional_uuid r text label =
    if is_empty text then ok none else parse_uuid r text label >>= λ id. ok (some id)

-- `context`; `drawn` and `drawn'` are the identifiers that `CommandMeta::new` draws
unfoldable pub read_context :
    Rendering → CorrelationId → CausationId → CommandContext → Result Status CommandMeta
unfolding parse_uuid
read_context r drawn drawn' meta = do
  key ← map_err (λ e. invalid (r.show_domain_error e)) (new_idempotency_key meta.idempotency_key)
  correlation ← optional_uuid r meta.correlation_id (codes "correlation_id")
  causation ← optional_uuid r meta.causation_id (codes "causation_id")
  ok (new_meta key correlation causation drawn drawn')

abbrev pub map_kind : AccountKind → ℤ
map_kind customer_available = pos 1
map_kind customer_locked = pos 2
map_kind exchange_hot_wallet = pos 3
map_kind exchange_cold_wallet = pos 4
map_kind fee_revenue = pos 5
map_kind withdrawal_clearing = pos 6
map_kind deposit_clearing = pos 7
map_kind other = pos 8

abbrev pub map_policy : AccountPolicy → ℤ
map_policy non_negative = pos 1
map_policy allow_negative = pos 2

abbrev pub map_status : AccountStatus → ℤ
map_status active = pos 1
map_status frozen = pos 2
map_status closed = pos 3

abbrev pub map_side : PostingSide → ℤ
map_side debit_side = pos 1
map_side credit_side = pos 2

unfoldable pub map_account : Rendering → Account → ProtoAccount
map_account r account = record {
  id = r.show_uuid account.id;
  name = account.name;
  kind = map_kind account.kind;
  policy = map_policy account.policy;
  status = map_status account.status;
  created_at = r.to_rfc3339 account.created_at;
}

abbrev pub map_posting : Rendering → Posting → ProtoPosting
map_posting r posting = record {
  account_id = r.show_uuid posting.account_id;
  asset = posting.asset;
  amount_atomic = show_amount posting.amount;
  side = map_side posting.side;
}

-- Every entry is reported as posted.
unfoldable pub map_entry : Rendering → JournalEntry → ProtoEntry
map_entry r entry = record {
  transaction_id = r.show_uuid entry.id;
  idempotency_key = entry.idempotency_key;
  description = entry.description;
  postings = map (map_posting r) entry.postings;
  status = codes "posted";
  correlation_id = r.show_uuid entry.correlation_id;
  causation_id = r.show_uuid entry.causation_id;
  created_at = r.to_rfc3339 entry.created_at;
}

-- The closure of `map_posting_inputs`
unfoldable pub read_posting : Rendering → ProtoPosting → Result Status PostingInput
unfolding parse_uuid parse_asset parse_amount
read_posting r posting = do
  account_id ← parse_uuid r posting.account_id (codes "account_id")
  asset ← parse_asset r posting.asset
  amount ← parse_amount posting.amount_atomic (codes "amount_atomic")
  ok (record { account_id = account_id; asset = asset; amount = amount })

unfoldable pub map_posting_inputs :
    Rendering → List ProtoPosting → Result Status (List PostingInput)
unfolding read_posting
map_posting_inputs r postings = collect (read_posting r) postings

-- `ledger_status`: the text of an internal error is not given.
abbrev pub status_of : Text → ErrorCategory → Status
status_of message ErrorCategory.invalid_argument = record {
  code = StatusCode.invalid_argument;
  message = message;
}
status_of message ErrorCategory.not_found = record {
  code = StatusCode.not_found;
  message = message;
}
status_of message ErrorCategory.failed_precondition = record {
  code = StatusCode.failed_precondition;
  message = message;
}
status_of message ErrorCategory.already_exists = record {
  code = StatusCode.already_exists;
  message = message;
}
status_of message ErrorCategory.unavailable = record {
  code = StatusCode.unavailable;
  message = message;
}
status_of message ErrorCategory.internal = record {
  code = StatusCode.internal;
  message = codes "internal error";
}

unfoldable pub ledger_status : Rendering → LedgerError → Status
ledger_status r e = status_of (r.show_ledger_error e) (category e)

-- `command_result`
unfoldable pub command_result : Rendering → TransactionId → Bool → Timestamp → CommandResult
command_result r transaction_id replayed posted_at = record {
  transaction_id = r.show_uuid transaction_id;
  replayed = replayed;
  posted_at = r.to_rfc3339 posted_at;
}
