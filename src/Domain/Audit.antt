-- ===== src/Domain/Audit.antt =====
-- crates/domain/src/audit.rs
use iron_ledger.Domain.Error.{DomainError, invariant, missing_adjustment_reason}
use iron_ledger.Domain.Ids.{Timestamp}
use iron_ledger.Prelude.{Option, ltb}
use iron_ledger.Prelude.Result.{Result, ok, reject_if, ◌>>◌}
use iron_ledger.Prelude.Text.{Text, byte_len, codes, is_empty, trim}

pub record AuditMetadata : Type 0 where
  pub actor : Text
  pub reason : Text
  pub ticket_id : Option Text
  pub authorized_at : Timestamp

-- `AuditMetadata::new`, called at `now`
unfoldable pub new_audit_metadata :
    Timestamp → Text → Text → Option Text → Result DomainError AuditMetadata
new_audit_metadata now actor reason ticket_id = do
  reject_if (is_empty (trim actor)) (invariant (codes "audit actor must not be empty"))
  reject_if (is_empty (trim reason)) missing_adjustment_reason
  reject_if (ltb 1024 (byte_len reason)) (invariant (codes "audit reason exceeds 1024 characters"))
  ok (record { actor = actor; reason = reason; ticket_id = ticket_id; authorized_at = now })
