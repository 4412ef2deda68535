-- ===== src/Domain/Ids.antt =====
-- crates/domain/src/ids.rs. A `Uuid` is the number that its 16 bytes spell, so its order is theirs;
-- the newtypes around it and around a validated text are the type that they wrap. Random
-- identifiers are arguments of what draws them.
use iron_ledger.Domain.Error.{DomainError, invalid_idempotency_key}
use iron_ledger.Prelude.{Bool, all, ltb, not, ℕ, ◌==◌, ◌||◌}
use iron_ledger.Prelude.Result.{Result, ok, reject_if, ◌>>◌}
use iron_ledger.Prelude.Text.{Text, byte_len, codes, is_ascii_alphanumeric, is_empty}

abbrev pub Uuid : Type 0
Uuid = ℕ

abbrev pub AccountId : Type 0
AccountId = Uuid

abbrev pub TransactionId : Type 0
TransactionId = Uuid

abbrev pub CorrelationId : Type 0
CorrelationId = Uuid

abbrev pub CausationId : Type 0
CausationId = Uuid

-- An instant of `Utc`, as a number that grows with time.
abbrev pub Timestamp : Type 0
Timestamp = ℕ

abbrev pub IdempotencyKey : Type 0
IdempotencyKey = Text

-- `IdempotencyKey::MAX_LEN`
abbrev pub max_len : ℕ
max_len = 128

unfoldable pub is_key_char : ℕ → Bool
unfolding is_ascii_alphanumeric
is_key_char c = is_ascii_alphanumeric c || c == b'-' || c == b'_' || c == b'.' || c == b':'

-- `IdempotencyKey::new`
unfoldable pub new_idempotency_key : Text → Result DomainError IdempotencyKey
unfolding is_key_char byte_len
new_idempotency_key value = do
  reject_if (is_empty value) (invalid_idempotency_key (codes "key must not be empty"))
  reject_if (ltb max_len (byte_len value)) (invalid_idempotency_key (codes "key exceeds 128 bytes"))
  reject_if (not (all is_key_char value))
      (invalid_idempotency_key (codes "key contains invalid characters"))
  ok value
