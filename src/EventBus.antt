-- ===== src/EventBus.antt =====
-- crates/event-bus/src: errors, the backoff, the publisher. Kafka's producer is a parameter.
pub mod Backoff
pub mod Relay
pub mod Consumer
mod Tests
use iron_ledger.Domain.Event.{LedgerEvent}
use iron_ledger.Domain.Ids.{Uuid}
use iron_ledger.Prelude.{List, ℕ, ◌++◌}
use iron_ledger.Prelude.Result.{Result, map_err, ◌>>=◌, ◌>>◌}
use iron_ledger.Prelude.Text.{Text, codes}

pub data BusError : Type 0 where
  config publish consume encode : Text → BusError

-- The derived `Display`
abbrev pub show_bus_error : BusError → Text
show_bus_error (config e) = codes "invalid configuration: " ++ e
show_bus_error (publish e) = codes "publish failed: " ++ e
show_bus_error (consume e) = codes "consume failed: " ++ e
show_bus_error (encode e) = codes "encode failed: " ++ e

-- `KafkaPublisher`: `to_bytes` is `serde_json::to_vec`, `send` the producer's, their errors rendered.
pub record KafkaPublisher : Type 0 where
  pub topic : Text
  pub to_bytes : LedgerEvent → Result Text (List ℕ)
  pub send : Text → Uuid → List ℕ → Result Text (Unit {0})

-- `KafkaPublisher::publish_bytes`
abbrev pub publish_bytes : KafkaPublisher → Text → Uuid → List ℕ → Result BusError (Unit {0})
publish_bytes publisher topic key payload = map_err publish (publisher.send topic key payload)

-- `KafkaPublisher::publish`
unfoldable pub publish_event : KafkaPublisher → Uuid → LedgerEvent → Result BusError (Unit {0})
publish_event publisher key event = do
  payload ← map_err encode (publisher.to_bytes event)
  publish_bytes publisher publisher.topic key payload
