-- ===== src/Ledger/Idempotency.antt =====
-- crates/ledger/src/idempotency.rs. serde, the printer of `serde_json` and SHA-256 are arguments.
pub mod Fingerprint
use iron_ledger.Domain.Ids.{IdempotencyKey, Timestamp}
use iron_ledger.Ledger.Error.{LedgerError, idempotency_conflict, serialization}
use iron_ledger.Ledger.Json.{Value, canonicalize}
use iron_ledger.Prelude.{not, ◌++◌, ◌∷◌}
use iron_ledger.Prelude.Order.{equals, text_order}
use iron_ledger.Prelude.Result.{Result, map_err, ok, reject_if, ◌>>=◌, ◌>>◌}
use iron_ledger.Prelude.Text.{Text}

-- The hex digest is kept as the text that it is.
abbrev pub RequestHash : Type 0
RequestHash = Text

-- What the program takes from `serde_json` and `sha2`: the text of a value, and the hex digest of
-- a text's bytes.
pub record Hashing : Type 0 where
  pub print : Value → Text
  pub sha256_hex : Text → Text

-- The derived `Serialize` and `Deserialize` of a response type; the errors are rendered.
pub record Codec (A : Type 0) : Type 0 where
  pub to_value : A → Result Text Value
  pub from_value : Value → Result Text A

-- `canonical_json`
unfoldable pub canonical_json : Hashing → Value → Text
unfolding canonicalize
canonical_json hashing value = hashing.print (canonicalize value)

-- `RequestHash::compute`; `payload` is what `serde_json::to_value` gives
unfoldable pub compute : Hashing → Text → Result Text Value → Result LedgerError RequestHash
unfolding canonical_json
compute hashing scope payload = do
  value ← map_err serialization payload
  ok (hashing.sha256_hex (scope ++ 0 ∷ canonical_json hashing value))

pub record IdempotencyRecord : Type 0 where
  pub scope : Text
  pub key : IdempotencyKey
  pub request_hash : RequestHash
  pub response : Value
  pub created_at : Timestamp

-- `IdempotencyRecord::new`, called at `now`
unfoldable pub new_record :
    {A : Type 0}
    → Codec A
    → Timestamp
    → Text
    → IdempotencyKey
    → RequestHash
    → A
    → Result LedgerError IdempotencyRecord
new_record codec now scope key request_hash response = do
  value ← map_err serialization (codec.to_value response)
  ok (record {
    scope = scope;
    key = key;
    request_hash = request_hash;
    response = value;
    created_at = now;
  })

-- `IdempotencyRecord::replay`
unfoldable pub replay :
    {A : Type 0} → Codec A → IdempotencyRecord → RequestHash → Result LedgerError A
replay codec stored request_hash = do
  reject_if (not (equals text_order stored.request_hash request_hash))
      (idempotency_conflict stored.scope stored.key)
  map_err serialization (codec.from_value stored.response)
