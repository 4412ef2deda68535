-- ===== src/Ledger/Store.antt =====
-- crates/ledger/src/memory.rs: the in-memory adapter. The lock makes every call of an operation one
-- step, so an operation is a function from a state to its result and the next state.
pub mod Commit
pub mod Accounts
pub mod Outbox
pub mod Queries
pub mod Frame
pub mod Atomic
pub mod Applied
pub mod Postings
pub mod Sound
pub mod Opening
pub mod Opened
pub mod Reach
pub mod Filed
pub mod Claims
pub mod Numbered
use iron_ledger.Domain.Account.{Account}
use iron_ledger.Domain.Amount.{amount_zero}
use iron_ledger.Domain.Event.{EventId, LedgerEvent}
use iron_ledger.Domain.Ids.{Timestamp, Uuid}
use iron_ledger.Domain.Journal.{JournalEntry}
use iron_ledger.Domain.Journal.Sums.{BalanceKey, key_order}
use iron_ledger.Ledger.Idempotency.{IdempotencyRecord}
use iron_ledger.Ledger.Port.{
  BalanceRecord, CommitOutcome, OutboxMessage, committed, duplicate_idempotency_key,
}
use iron_ledger.Prelude.{
  Bool, List, Option, [], any, get_or, if◌then◌else◌, is_some, none, ℕ, ◌++◌, ◌+◌, ◌==◌, ◌∷◌,
}
use iron_ledger.Prelude.Map.{Map, get, insert}
use iron_ledger.Prelude.Order.{Order, pair_order, text_order}
use iron_ledger.Prelude.Text.{Text, codes}

pub record OutboxRow : Type 0 where
  pub message : OutboxMessage
  pub leased_until : Option Timestamp

-- A command scope and an idempotency key.
abbrev pub RecordKey : Type 0
RecordKey = Text × Text

abbrev pub record_order : Order RecordKey
record_order = pair_order text_order text_order

pub record State : Type 0 where
  pub accounts : Map Uuid Account
  pub entries : List JournalEntry
  pub balances : Map BalanceKey BalanceRecord
  pub idempotency : Map RecordKey IdempotencyRecord
  pub outbox : List OutboxRow
  pub next_outbox_id : ℕ

-- `InMemoryLedger::new`
abbrev pub empty_state : State
empty_state = record {
  accounts = [];
  entries = [];
  balances = [];
  idempotency = [];
  outbox = [];
  next_outbox_id = 0;
}

abbrev pub default_topic : Text
default_topic = codes "ledger.events"

abbrev pub has_event : EventId → List OutboxRow → Bool
has_event event_id = any (λ row. row.message.event.event_id == event_id)

-- One turn of the loop of `State::record_events`
unfoldable pub record_event : LedgerEvent → State → State
record_event event s = if has_event event.event_id s.outbox then s else record s {
  next_outbox_id = s.next_outbox_id + 1;
  outbox =
      s.outbox
      ++ record {
        message = record {
          id = s.next_outbox_id + 1;
          topic = default_topic;
          partition_key = event.aggregate_id;
          event = event;
          attempts = 0;
          created_at = event.created_at;
          published_at = none;
          last_error = none;
        };
        leased_until = none;
      }
        ∷ [];
}

unfoldable pub record_events : List LedgerEvent → State → State
unfolding record_event
record_events [] s = s
record_events (event ∷ events) s = record_events events (record_event event s)

abbrev pub record_key : IdempotencyRecord → RecordKey
record_key r = (r.scope, r.key)

-- `State::insert_idempotency`
unfoldable pub insert_idempotency : IdempotencyRecord → State → CommitOutcome × State
insert_idempotency r s =
    if is_some (get record_order (record_key r) s.idempotency)
    then (duplicate_idempotency_key, s)
    else (committed, record s { idempotency = insert record_order (record_key r) r s.idempotency })

-- The balance under a key, inserted as zero at `now` if it is missing (`or_insert_with`).
abbrev pub balance_or_new : Timestamp → BalanceKey → Map BalanceKey BalanceRecord → BalanceRecord
balance_or_new now key balances =
    get_or (get key_order key balances)
      (record { account_id = key.0; asset = key.1; amount = amount_zero; updated_at = now })
