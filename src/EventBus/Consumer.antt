-- ===== src/EventBus/Consumer.antt =====
-- crates/event-bus/src/kafka.rs: the consumer's loop for one message. The handler, the producer
-- and the offset store act on a state of any type.
pub mod Attempts
use iron_ledger.Domain.Event.{LedgerEvent, from_bytes}
use iron_ledger.Domain.Ids.{Uuid}
use iron_ledger.EventBus.{BusError, encode, publish, show_bus_error}
use iron_ledger.Prelude.{Bool, List, false, ltb, suc, true, zero, ℕ, ◌+◌, ◌==◌}
use iron_ledger.Prelude.Result.{Result, err, map_err, ok}
use iron_ledger.Prelude.Text.{Text}

pub record Consumer (S : Type 0) : Type 0 where
  pub decode : List ℕ → Result Text LedgerEvent
  pub handler : LedgerEvent → S → Result BusError (Unit {0}) × S
  pub to_bytes : LedgerEvent → Result Text (List ℕ)
  pub dlq : Text
  -- the producer behind `publish_bytes`, its error rendered
  pub send : Text → Uuid → List ℕ → S → Result Text (Unit {0}) × S
  -- `store_offset_from_message`, whose error is only logged
  pub store_offset : S → S

module _ {S : Type 0} where
  -- `KafkaConsumer::send_dlq`, which makes no use of its reason
  unfoldable pub send_dlq : Consumer S → LedgerEvent → Text → S → Result BusError (Unit {0}) × S
  send_dlq c event reason s = elim (c.to_bytes event) [
    | ok payload ↦
        let (sent, t) = c.send c.dlq event.aggregate_id payload s in (map_err publish sent, t)
    | err e ↦ (err (encode e), s)
  ]

  -- The `for` loop over the attempts, from `attempt` on: whether the event was handled.
  unfoldable pub attempt_handler : ℕ → ℕ → Consumer S → LedgerEvent → S → Result BusError Bool × S
  attempt_handler zero attempt c event s = (ok false, s)
  attempt_handler (suc left) attempt c event s =
      let (result, t) = c.handler event s in
      elim result [
        | ok _ ↦ (ok true, t)
        | err e ↦ elim (ltb attempt 5) [
          | true ↦ elim (attempt == 5) [
            | false ↦ attempt_handler left (attempt + 1) c event t
            | true ↦
                let (sent, u) = send_dlq c event (show_bus_error e) t in
                elim sent [
                  | ok _ ↦ attempt_handler left (attempt + 1) c event u
                  | err failure ↦ (err failure, u)
                ]
          ]
          | false ↦
              let (sent, u) = send_dlq c event (show_bus_error e) t in
              elim sent [ ok _ ↦ (ok false, u) | err failure ↦ (err failure, u) ]
        ]
      ]

  unfoldable pub finish_message :
      Consumer S → Result BusError Bool × S → Result BusError (Unit {0}) × S
  finish_message c (err e, s) = (err e, s)
  finish_message c (ok true, s) = (ok tt, c.store_offset s)
  finish_message c (ok false, s) = (ok tt, s)

  -- What `run` does with the payload of one message.
  unfoldable pub consume_message : Consumer S → List ℕ → S → Result BusError (Unit {0}) × S
  unfolding attempt_handler finish_message
  consume_message c payload s = elim (from_bytes c.decode payload) [
    | ok event ↦ finish_message c (attempt_handler 6 0 c event s)
    | err e ↦ (ok tt, s)
  ]
