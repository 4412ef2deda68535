-- ===== src/Postgres/Projection.antt =====
-- crates/storage-postgres/src/projection.rs over the tables projection_balances, processed_events
-- and consumer_offsets, the last without its column updated_at, which nothing reads, and with the
-- column offset as if its name were quoted. A transaction is a function on the tables; the one of
-- `apply_journal` that fails gives the tables of its start. The database itself does not fail.
pub mod Follows
use iron_ledger.Domain.Amount.{AtomicAmount, amount_zero, checked_add}
use iron_ledger.Domain.Event.{EventId}
use iron_ledger.Domain.Ids.{Timestamp, Uuid}
use iron_ledger.Domain.Journal.{JournalEntry, Posting}
use iron_ledger.Domain.Journal.Sums.{BalanceKey, key_of, key_order}
use iron_ledger.Postgres.Convert.{amount_to_str, column_amount, projector_error_of}
use iron_ledger.Postgres.Store.{BalanceRow}
use iron_ledger.Prelude.{List, Option, [], filter, if◌then◌else◌, is_some, none, not, some, ◌∷◌}
use iron_ledger.Prelude.Int.{ℤ}
use iron_ledger.Prelude.Map.{Map, get, insert}
use iron_ledger.Prelude.Order.{Order, equals, pair_order, text_order}
use iron_ledger.Prelude.Result.{Result, err, map_err, ok, ◌>>=◌, ◌>>◌}
use iron_ledger.Prelude.Text.{Text}
use iron_ledger.Projector.{
  ApplyOutcome, ProjectorError, StreamPosition, applied, duplicate, is_position, load_in,
  processed_order,
}

-- The primary keys of the tables
abbrev pub SlotKey : Type 0
SlotKey = Text × BalanceKey

abbrev pub slot_order : Order SlotKey
slot_order = pair_order text_order key_order

pub record ProjectionTables : Type 0 where
  pub projection_balances : Map SlotKey BalanceRow
  pub processed_events : Map (Text × Uuid) Timestamp
  pub consumer_offsets : List (Text × StreamPosition)

-- The amount that the query of the loop returns, zero without a row
unfoldable pub slot_amount : Option BalanceRow → Result ProjectorError AtomicAmount
unfolding projector_error_of column_amount
slot_amount none = ok amount_zero
slot_amount (some row) = map_err projector_error_of (column_amount row.amount_atomic)

-- The body of the loop of `apply_journal`
unfoldable pub project_posting :
    Timestamp → Text → Posting → ProjectionTables → Result ProjectorError ProjectionTables
unfolding slot_amount
project_posting now consumer posting t = do
  current ← slot_amount (get slot_order (consumer, key_of posting) t.projection_balances)
  updated ← map_err ProjectorError.domain (checked_add current posting.amount)
  ok (record t {
    projection_balances =
        insert slot_order (consumer, key_of posting)
          (record { amount_atomic = amount_to_str updated; updated_at = now })
          t.projection_balances;
  })

unfoldable pub project_postings :
    Timestamp → Text → List Posting → ProjectionTables → Result ProjectorError ProjectionTables
unfolding project_posting
project_postings now consumer [] t = ok t
project_postings now consumer (posting ∷ postings) t =
    elim (project_posting now consumer posting t) [
      | err e ↦ err e
      | ok u ↦ project_postings now consumer postings u
    ]

-- The end of the transaction: a rollback to the tables of its start after an error
abbrev pub finish_projected :
    ProjectionTables
    → Result ProjectorError ProjectionTables
    → Result ProjectorError ApplyOutcome × ProjectionTables
finish_projected start (err e) = (err e, start)
finish_projected start (ok changed) = (ok applied, changed)

-- `PostgresProjection::apply_journal`, with the two readings of the clock, as the columns keep them
unfoldable pub apply_journal_tx :
    Timestamp
    → Timestamp
    → Text
    → EventId
    → JournalEntry
    → ProjectionTables
    → Result ProjectorError ApplyOutcome × ProjectionTables
unfolding project_postings
apply_journal_tx processed_at now consumer event_id entry t =
    if is_some (get processed_order (consumer, event_id) t.processed_events)
    then (ok duplicate, t)
    else finish_projected t (
        project_postings now consumer entry.postings (record t {
          processed_events =
              insert processed_order (consumer, event_id) processed_at t.processed_events;
        }))

-- `PostgresProjection::record_position`
unfoldable pub record_position_row : Text → StreamPosition → ProjectionTables → ProjectionTables
record_position_row consumer position t = record t {
  consumer_offsets =
      (consumer, position)
      ∷ filter (λ entry. not (is_position consumer position.topic position.partition entry))
          t.consumer_offsets;
}

-- `PostgresProjection::load_position`
unfoldable pub load_position_row : Text → Text → ℤ → ProjectionTables → Option ℤ
unfolding load_in
load_position_row consumer topic partition t = load_in consumer topic partition t.consumer_offsets

unfoldable pub delete_slots : Text → Map SlotKey BalanceRow → Map SlotKey BalanceRow
delete_slots consumer [] = []
delete_slots consumer ((key, row) ∷ slots) =
    let rest = delete_slots consumer slots in
    if equals text_order key.0 consumer then rest else (key, row) ∷ rest

unfoldable pub delete_processed : Text → Map (Text × Uuid) Timestamp → Map (Text × Uuid) Timestamp
delete_processed consumer [] = []
delete_processed consumer ((key, at) ∷ processed) =
    let rest = delete_processed consumer processed in
    if equals text_order key.0 consumer then rest else (key, at) ∷ rest

-- `PostgresProjection::reset`
unfoldable pub reset_tables : Text → ProjectionTables → ProjectionTables
unfolding delete_slots delete_processed
reset_tables consumer t = record {
  projection_balances = delete_slots consumer t.projection_balances;
  processed_events = delete_processed consumer t.processed_events;
  consumer_offsets = filter (λ entry. not (equals text_order entry.0 consumer)) t.consumer_offsets;
}
