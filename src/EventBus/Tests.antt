-- ===== src/EventBus/Tests.antt =====
-- Runs of the event bus's theorems on concrete values.
use iron_ledger.EventBus.Consumer.Attempts.{one_more}
use iron_ledger.Domain.Event.{LedgerEvent, account_created, from_bytes}
use iron_ledger.EventBus.{BusError, publish, publish_event}
use iron_ledger.EventBus.Backoff.{as_millis, backoff_delay, backoff_delay_bounds}
use iron_ledger.EventBus.Consumer.{Consumer, consume_message, send_dlq}
use iron_ledger.EventBus.Consumer.Attempts.{consume_message_attempts, no_failure}
use iron_ledger.EventBus.Relay.{Instants, OutboxRelay, Turn, run_relay, tick}
use iron_ledger.EventBus.Relay.Runs.{
  AcceptsAll, publications, run_relay_blocked, run_relay_drains, unpublished,
}
use iron_ledger.EventBus.Relay.Settled.{delivered_ids, relay_rows}
use iron_ledger.EventBus.Relay.Ticks.{tick_settles}
use iron_ledger.Ledger.Error.{LedgerError}
use iron_ledger.Ledger.Store.{OutboxRow, State, empty_state}
use iron_ledger.Ledger.Store.Claims.{claimable, messages}
use iron_ledger.Ledger.Store.Numbered.{row_ids}
use iron_ledger.Prelude.{
  List, [], arith, if◌then◌else◌, leb, length, ltb, min, none, refl, some, take, ℕ, ◌%◌, ◌*◌, ◌+◌,
  ◌^◌, ◌∷◌, ◌≡◌, ◌≤◌,
}
use iron_ledger.Prelude.Result.{err, ok}
use iron_ledger.Prelude.Text.{Text, codes}

backoff_delay_bounds_example :
    (as_millis (backoff_delay 3 100000000 5000000000)
      ≡ min (as_millis 100000000 * 2 ^ min 3 12) (as_millis 5000000000) + 3 % 7 * 13)
    × (as_millis (backoff_delay 3 100000000 5000000000) ≤ as_millis 5000000000 + 78)
    × (min (as_millis 100000000) (as_millis 5000000000)
        ≤ as_millis (backoff_delay 3 100000000 5000000000))
backoff_delay_bounds_example = backoff_delay_bounds 3 100000000 5000000000 (omega arith)

abbrev created : ℕ → LedgerEvent
created n = record {
  event_id = n;
  event_type = codes "account.created";
  schema_version = 1;
  aggregate_id = n;
  sequence = none;
  created_at = 100;
  correlation_id = 3;
  causation_id = 4;
  trace_context = [];
  payload = account_created n (codes "a");
}

abbrev waiting_row : ℕ → OutboxRow
waiting_row n = record {
  message = record {
    id = n;
    topic = codes "ledger.events";
    partition_key = n;
    event = created n;
    attempts = 0;
    created_at = 100;
    published_at = none;
    last_error = none;
  };
  leased_until = some 150;
}

abbrev two_waiting : State
two_waiting = record empty_state { outbox = waiting_row 1 ∷ waiting_row 2 ∷ []; next_outbox_id = 2 }

-- A broker that takes every key from this one on.
abbrev relay_from : ℕ → ℕ → OutboxRelay
relay_from key batch_size = record {
  publisher = record {
    topic = codes "ledger.events";
    to_bytes = λ event. ok [];
    send = λ topic k payload. if leb key k then ok tt else err (codes "no");
  };
  batch_size = batch_size;
  lease = ok 30;
}

abbrev no_text : LedgerError → Text
no_text e = []

abbrev minute : ℕ → Instants
minute n = record { claimed_at = 200 + n; marked_at = 201 + n }

tick_settles_example : tick no_text (relay_from 2 5) (minute 0) two_waiting ≡ (
  ok (
      length
        (delivered_ids (relay_from 2 5) (messages (take 5 (claimable 200 two_waiting.outbox))))),
  record two_waiting { outbox = relay_rows (relay_from 2 5) (minute 0) 5 two_waiting.outbox },
)
tick_settles_example =
    tick_settles no_text (relay_from 2 5) (minute 0) two_waiting 30 refl (refl, (refl, tt))

-- Two turns in which the producer takes every key from `first` and from `second` on
abbrev two_turns : ℕ → ℕ → List Turn
two_turns first second =
    record { producer = (relay_from first 1).publisher; instants = minute 0 }
    ∷ record { producer = (relay_from second 1).publisher; instants = minute 60 }
    ∷ []

zero_taken : AcceptsAll (relay_from 0 1)
unfolding publish_event
zero_taken message = ground arith

run_relay_drains_example :
    (length (unpublished (run_relay no_text (relay_from 0 1) (two_turns 0 0) two_waiting).outbox)
      ≡ 0)
    × (row_ids (run_relay no_text (relay_from 0 1) (two_turns 0 0) two_waiting).outbox
        ≡ row_ids two_waiting.outbox)
run_relay_drains_example =
    run_relay_drains no_text (relay_from 0 1) 30 refl 200 (two_turns 0 0) two_waiting
      (zero_taken, (zero_taken, tt)) (omega arith) refl (refl, (refl, tt)) refl (omega arith)

run_relay_blocked_example :
    publications (run_relay no_text (relay_from 2 1) (two_turns 2 3) two_waiting).outbox
    ≡ publications two_waiting.outbox
unfolding publish_event
run_relay_blocked_example =
    run_relay_blocked no_text (relay_from 2 1) 30 refl 200 (two_turns 2 3) two_waiting
      (refl, (refl, tt)) refl (refl, (refl, tt)) refl

-- A consumer whose handler fails on its first calls; the state counts the calls, the dead letters
-- and the stored offsets.
abbrev counting : ℕ → Consumer (ℕ × ℕ × ℕ)
counting failures = record {
  decode = λ bytes. ok (created 1);
  handler = λ event (calls, dead, stored). (
    (if ltb calls failures then err (publish (codes "no")) else ok tt),
    (calls + 1, dead, stored),
  );
  to_bytes = λ event. ok [];
  dlq = codes "ledger.events.dlq";
  send = λ topic key payload (calls, dead, stored). (ok tt, (calls, dead + 1, stored));
  store_offset = λ (calls, dead, stored). (calls, dead, stored + 1);
}

consume_message_attempts_example :
    (1 ≤ 5
      → (counting 1).handler (created 1) (1, 0, 0) ≡ (ok tt, (2, 0, 0))
      → consume_message (counting 1) [] (0, 0, 0) ≡ (ok tt, (2, 0, 1)))
    × ((e : BusError)
        → ◌≡◌ {A = ℕ} 1 5
        → (counting 1).handler (created 1) (1, 0, 0) ≡ (err e, (2, 0, 0))
        → consume_message (counting 1) [] (0, 0, 0) ≡ (ok tt, (2, 1, 0)))
unfolding from_bytes send_dlq
consume_message_attempts_example =
    consume_message_attempts (counting 1) (created 1) [] 1 (0, 0, 0) (1, 0, 0) (2, 0, 0) refl
      (one_more 0 (0, 0, 0) (1, 0, 0) (1, 0, 0) (publish (codes "no")) refl (no_failure (1, 0, 0)))
