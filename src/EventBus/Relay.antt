-- ===== src/EventBus/Relay.antt =====
-- crates/event-bus/src/relay.rs over the outbox of the in-memory ledger.
pub mod Settled
pub mod Ticks
pub mod Runs
use iron_ledger.Domain.Ids.{Timestamp}
use iron_ledger.EventBus.{BusError, KafkaPublisher, publish, publish_event, show_bus_error}
use iron_ledger.Ledger.Error.{LedgerError}
use iron_ledger.Ledger.Port.{OutboxMessage}
use iron_ledger.Ledger.Store.{State}
use iron_ledger.Ledger.Store.Claims.{messages}
use iron_ledger.Ledger.Store.Outbox.{claim, mark_failed, mark_published}
use iron_ledger.Prelude.{List, [], false, length, true, ℕ, ◌==◌, ◌∷◌}
use iron_ledger.Prelude.Result.{Result, err, ok}
use iron_ledger.Prelude.Text.{Text}

-- `OutboxRelay`; `lease` is `chrono::Duration::from_std` of the lease, its error rendered.
pub record OutboxRelay : Type 0 where
  pub publisher : KafkaPublisher
  pub batch_size : ℕ
  pub lease : Result Text ℕ

abbrev pub deliver : OutboxRelay → OutboxMessage → Result BusError (Unit {0})
deliver relay message = publish_event relay.publisher message.partition_key message.event

-- The `for` loop of `tick`: the ids published, and the store after the failures are marked.
unfoldable pub publish_claimed : OutboxRelay → List OutboxMessage → State → List ℕ × State
publish_claimed relay [] s = ([], s)
publish_claimed relay (message ∷ messages) s = elim (deliver relay message) [
  | ok _ ↦ let (ids, t) = publish_claimed relay messages s in (message.id ∷ ids, t)
  | err e ↦ publish_claimed relay messages (mark_failed message.id (show_bus_error e) s)
]

-- The two instants at which a tick asks the clock: in `claim` and in `mark_published`.
pub record Instants : Type 0 where
  pub claimed_at : Timestamp
  pub marked_at : Timestamp

-- The end of `tick`.
unfoldable pub finish_tick : Timestamp → List ℕ × State → Result BusError ℕ × State
finish_tick now ([], s) = (ok 0, s)
finish_tick now (id ∷ ids, s) = let (count, t) = mark_published (id ∷ ids) now s in (ok count, t)

-- `OutboxRelay::tick`; `show_error` is the derived `Display` of `LedgerError`
unfoldable pub tick :
    (LedgerError → Text) → OutboxRelay → Instants → State → Result BusError ℕ × State
unfolding publish_claimed finish_tick
tick show_error relay at s =
    let (claimed, t) = claim relay.batch_size relay.lease at.claimed_at s in
    elim claimed [
      | err e ↦ (err (publish (show_error e)), t)
      | ok messages ↦ elim (length messages == 0) [
        | true ↦ (ok 0, t)
        | false ↦ finish_tick at.marked_at (publish_claimed relay messages t)
      ]
    ]

-- What is outside of the relay in one tick: how the producer answers, and the clock.
pub record Turn : Type 0 where
  pub producer : KafkaPublisher
  pub instants : Instants

-- The relay with the producer as it answers in a turn
abbrev pub during : OutboxRelay → Turn → OutboxRelay
during relay turn = record relay { publisher = turn.producer }

-- `OutboxRelay::run` until it is cancelled: a tick in each of these turns, whatever it returned.
unfoldable pub run_relay : (LedgerError → Text) → OutboxRelay → List Turn → State → State
run_relay show_error relay [] s = s
run_relay show_error relay (turn ∷ later) s =
    run_relay show_error relay later (tick show_error (during relay turn) turn.instants s).1
