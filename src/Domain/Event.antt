-- ===== src/Domain/Event.antt =====
-- crates/domain/src/event.rs. JSON is serde's: a decoder is an argument of `from_bytes`.
use iron_ledger.Domain.Audit.{AuditMetadata}
use iron_ledger.Domain.Error.{DomainError, invariant}
use iron_ledger.Domain.Ids.{AccountId, CausationId, CorrelationId, Timestamp, TransactionId, Uuid}
use iron_ledger.Domain.Journal.{JournalEntry}
use iron_ledger.Prelude.{List, Option, ltb, ℕ, ◌++◌, ◌==◌, ◌||◌}
use iron_ledger.Prelude.Numeral.{show_ℕ}
use iron_ledger.Prelude.Result.{Result, map_err, ok, reject_if, ◌>>=◌, ◌>>◌}
use iron_ledger.Prelude.Text.{Text, codes}

abbrev pub EventId : Type 0
EventId = Uuid

pub data LedgerEventPayload : Type 0 where
  account_created : AccountId → Text → LedgerEventPayload
  journal_posted : JournalEntry → LedgerEventPayload
  admin_adjusted : TransactionId → AuditMetadata → LedgerEventPayload

-- `LedgerEventPayload::event_type`
abbrev pub event_type_of : LedgerEventPayload → Text
event_type_of (account_created account_id name) = codes "account_created"
event_type_of (journal_posted entry) = codes "journal_posted"
event_type_of (admin_adjusted transaction_id audit) = codes "admin_adjusted"

-- The aggregate id is kept as the identifier that the source renders.
pub record LedgerEvent : Type 0 where
  pub event_id : EventId
  pub event_type : Text
  pub schema_version : ℕ
  pub aggregate_id : Uuid
  pub sequence : Option ℕ
  pub created_at : Timestamp
  pub correlation_id : CorrelationId
  pub causation_id : CausationId
  pub trace_context : Text
  pub payload : LedgerEventPayload

-- `LedgerEvent::CURRENT_SCHEMA_VERSION`
abbrev pub current_schema_version : ℕ
current_schema_version = 1

-- `LedgerEvent::wrap`, called at `now` with `event_id` drawn
unfoldable pub wrap :
    Timestamp
    → EventId
    → Uuid
    → Option ℕ
    → CorrelationId
    → CausationId
    → Text
    → LedgerEventPayload
    → LedgerEvent
wrap now event_id aggregate_id sequence correlation_id causation_id trace_context payload = record {
  event_id = event_id;
  event_type = event_type_of payload;
  schema_version = current_schema_version;
  aggregate_id = aggregate_id;
  sequence = sequence;
  created_at = now;
  correlation_id = correlation_id;
  causation_id = causation_id;
  trace_context = trace_context;
  payload = payload;
}

-- `LedgerEvent::from_bytes`; `decode` is `serde_json::from_slice`, its error rendered
unfoldable pub from_bytes :
    (List ℕ → Result Text LedgerEvent) → List ℕ → Result DomainError LedgerEvent
from_bytes decode bytes = do
  event ← map_err (λ e. invariant (codes "event decode: " ++ e)) (decode bytes)
  reject_if (event.schema_version == 0 || ltb current_schema_version event.schema_version)
      (invariant (codes "unsupported schema version " ++ show_ℕ event.schema_version))
  ok event
