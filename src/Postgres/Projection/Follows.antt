-- ===== src/Postgres/Projection/Follows.antt =====
-- crates/storage-postgres/src/projection.rs against crates/projector/src/memory.rs, for one consumer.
use iron_ledger.Domain.Amount.{AtomicAmount, checked_add}
use iron_ledger.Domain.Amount.Exact.{InRange}
use iron_ledger.Domain.Error.{DomainError}
use iron_ledger.Domain.Event.{EventId}
use iron_ledger.Domain.Ids.{Timestamp, Uuid}
use iron_ledger.Domain.Journal.{JournalEntry, Posting}
use iron_ledger.Domain.Journal.Slots.{amount_in}
use iron_ledger.Domain.Journal.Sums.{BalanceKey, key_of, key_order}
use iron_ledger.Postgres.Convert.{amount_to_str}
use iron_ledger.Postgres.Convert.Columns.{column_amount-amount_to_str}
use iron_ledger.Postgres.Projection.{
  ProjectionTables, SlotKey, apply_journal_tx, finish_projected, project_postings, slot_amount,
  slot_order,
}
use iron_ledger.Postgres.Store.{BalanceRow}
use iron_ledger.Postgres.Store.Refines.{checked_add-InRange}
use iron_ledger.Prelude.{Bool-cases, List, [], arith, inl, inr, is_some, refl, ◌∷◌, ◌≡◌}
use iron_ledger.Prelude.Map.{Map, get, get-insert, insert}
use iron_ledger.Prelude.Order.{equals, text_order}
use iron_ledger.Prelude.Result.{Result, Result-cases, err, ok}
use iron_ledger.Prelude.Text.{Text}
use iron_ledger.Projector.{
  ApplyOutcome, Projection, ProjectorError, add_postings, apply_journal, finish_journal,
  processed_order,
}
use iron_ledger.Projector.Projected.{add_postings_step, add_postings_stop}

-- The amounts in the rows of the consumer are those of the slots.
abbrev pub SlotsFollow : Text → Map SlotKey BalanceRow → Map BalanceKey AtomicAmount → Type 0
SlotsFollow consumer rows balances =
    (key : BalanceKey)
    → slot_amount (get slot_order (consumer, key) rows) ≡ ok (amount_in key balances)

-- The tables hold the balances of the projection and the consumer's processed events.
pub record Follows (consumer : Text) (t : ProjectionTables) (s : Projection) : Type 0 where
  pub slots : SlotsFollow consumer t.projection_balances s.balances
  pub processed :
      (event_id : EventId)
      → is_some (get processed_order (consumer, event_id) t.processed_events)
        ≡ is_some (get processed_order (consumer, event_id) s.processed)

slot_order-equals :
    (consumer : Text) (j k : BalanceKey)
    → equals slot_order (consumer, j) (consumer, k) ≡ equals key_order j k
slot_order-equals consumer j k = ground (arith, text_order.cmp_refl consumer)

slots_after :
    (now : Timestamp) (consumer : Text) (p : Posting) (amount : AtomicAmount)
    (rows : Map SlotKey BalanceRow) (balances : Map BalanceKey AtomicAmount)
    → InRange amount
    → SlotsFollow consumer rows balances
    → SlotsFollow consumer
        (insert slot_order
          (consumer, key_of p)
          (record { amount_atomic = amount_to_str amount; updated_at = now })
          rows)
        (insert key_order (key_of p) amount balances)
unfolding slot_amount
slots_after now consumer p amount rows balances small h key =
    let row : BalanceRow = record { amount_atomic = amount_to_str amount; updated_at = now } in
    let tables = get-insert slot_order (consumer, key) (consumer, key_of p) row rows in
    let memory = get-insert key_order key (key_of p) amount balances in
    let same = slot_order-equals consumer key (key_of p) in
    let read = column_amount-amount_to_str amount small in
    let before = h key in
    elim (Bool-cases (equals key_order key (key_of p))) [
      | inl here ↦ rw (tables, memory, same, here, read) refl
      | inr elsewhere ↦ rw (tables, memory, same, elsewhere) before
    ]

-- Both fail with the same error, or both succeed, the rows follow the slots, and the processed events
-- are as they were.
abbrev pub LoopsAgree :
    Text
    → Map (Text × Uuid) Timestamp
    → Result ProjectorError ProjectionTables
    → Result DomainError (Unit {0}) × Map BalanceKey AtomicAmount
    → Type 0
LoopsAgree consumer events (ok t) (ok _, balances) =
    SlotsFollow consumer t.projection_balances balances × (t.processed_events ≡ events)
LoopsAgree consumer events (ok t) (err e, balances) = ⊥
LoopsAgree consumer events (err d) (ok _, balances) = ⊥
LoopsAgree consumer events (err d) (err e, balances) = d ≡ ProjectorError.domain e

abbrev after_posting :
    Timestamp → Text → Posting → AtomicAmount → ProjectionTables → ProjectionTables
after_posting now consumer p amount t = record t {
  projection_balances =
      insert slot_order (consumer, key_of p)
        (record { amount_atomic = amount_to_str amount; updated_at = now }) t.projection_balances;
}

project_postings_step :
    (now : Timestamp) (consumer : Text) (p : Posting) (ps : List Posting) (t : ProjectionTables)
    (current amount : AtomicAmount)
    → slot_amount (get slot_order (consumer, key_of p) t.projection_balances) ≡ ok current
    → checked_add current p.amount ≡ ok amount
    → project_postings now consumer (p ∷ ps) t
      ≡ project_postings now consumer ps (after_posting now consumer p amount t)
unfolding project_postings
project_postings_step now consumer p ps t current amount read added = ground arith

project_postings_stop :
    (now : Timestamp) (consumer : Text) (p : Posting) (ps : List Posting) (t : ProjectionTables)
    (current : AtomicAmount) (e : DomainError)
    → slot_amount (get slot_order (consumer, key_of p) t.projection_balances) ≡ ok current
    → checked_add current p.amount ≡ err e
    → project_postings now consumer (p ∷ ps) t ≡ err (ProjectorError.domain e)
unfolding project_postings
project_postings_stop now consumer p ps t current e read bad = ground arith

project_postings-LoopsAgree :
    (now : Timestamp) (consumer : Text) (ps : List Posting) (t : ProjectionTables)
    (balances : Map BalanceKey AtomicAmount)
    → SlotsFollow consumer t.projection_balances balances
    → LoopsAgree consumer t.processed_events
        (project_postings now consumer ps t)
        (add_postings ps balances)
project_postings-LoopsAgree now consumer [] t balances h =
    unfold project_postings add_postings in (h, refl)
project_postings-LoopsAgree now consumer (p ∷ ps) t balances h =
    let slot = amount_in (key_of p) balances in
    elim (Result-cases (checked_add slot p.amount)) [
      | inr (e, bad) ↦
          rw
            (
              project_postings_stop now consumer p ps t slot e (h (key_of p)) bad,
              add_postings_stop p ps balances e bad,
            )
            refl
      | inl (amount, added) ↦
          rw
            (
              project_postings_step now consumer p ps t slot amount (h (key_of p)) added,
              add_postings_step p ps balances amount added,
            )
            (project_postings-LoopsAgree now consumer ps (after_posting now consumer p amount t)
              (insert key_order (key_of p) amount balances)
              (slots_after now consumer p amount t.projection_balances balances
                (checked_add-InRange slot p.amount amount added) h))
    ]

-- Both give the same outcome and the tables follow the projection, or both fail with the same error
-- and the tables are those of the start.
abbrev pub SameProjected :
    Text
    → ProjectionTables
    → Result ProjectorError ApplyOutcome × ProjectionTables
    → Result ProjectorError ApplyOutcome × Projection
    → Type 0
SameProjected consumer start (ok o, t) (ok u, s) = (o ≡ u) × Follows consumer t s
SameProjected consumer start (ok o, t) (err e, s) = ⊥
SameProjected consumer start (err d, t) (ok u, s) = ⊥
SameProjected consumer start (err d, t) (err e, s) = (d ≡ e) × (t ≡ start)

finish-SameProjected :
    (processed_at : Timestamp) (consumer : Text) (event_id : EventId) (t : ProjectionTables)
    (s : Projection) (x : Result ProjectorError ProjectionTables)
    (y : Result DomainError (Unit {0}) × Map BalanceKey AtomicAmount)
    → Follows consumer t s
    → LoopsAgree consumer
        (insert processed_order (consumer, event_id) processed_at t.processed_events)
        x
        y
    → SameProjected consumer t (finish_projected t x) (finish_journal (consumer, event_id) s y)
unfolding finish_journal
finish-SameProjected processed_at consumer event_id t s (ok u) (ok _, balances) h (slots, events) =
    (
      refl,
      record {
        slots = slots;
        processed = λ id.
            rw
              (
                events,
                get-insert processed_order (consumer, id) (consumer, event_id) processed_at
                    t.processed_events,
                get-insert processed_order (consumer, id) (consumer, event_id) tt s.processed,
              )
              (elim (Bool-cases (equals processed_order (consumer, id) (consumer, event_id))) [
                | inl here ↦ rw here refl
                | inr elsewhere ↦ rw elsewhere (h.processed id)
              ]);
      },
    )
finish-SameProjected processed_at consumer event_id t s (ok u) (err e, balances) h agree =
    absurd agree
finish-SameProjected processed_at consumer event_id t s (err d) (ok _, balances) h agree =
    absurd agree
finish-SameProjected processed_at consumer event_id t s (err d) (err e, balances) h agree =
    (agree, refl)

abbrev mark_processed : Timestamp → Text → EventId → ProjectionTables → ProjectionTables
mark_processed processed_at consumer event_id t = record t {
  processed_events = insert processed_order (consumer, event_id) processed_at t.processed_events;
}

-- If the tables hold, for a consumer, the balances and the processed events of the in-memory
-- projection, then applying an entry to both for this consumer has the same outcome, duplicates and
-- overflows included. If it succeeds, the tables hold those of the new projection afterwards; if it
-- fails, the tables are as they were.
pub apply_journal_tx-SameProjected :
    (processed_at now : Timestamp) (consumer : Text) (event_id : EventId) (entry : JournalEntry)
    (t : ProjectionTables) (s : Projection)
    → Follows consumer t s
    → SameProjected consumer t
        (apply_journal_tx processed_at now consumer event_id entry t)
        (apply_journal consumer event_id entry s)
unfolding apply_journal_tx apply_journal
apply_journal_tx-SameProjected processed_at now consumer event_id entry t s h =
    elim (Bool-cases (is_some (get processed_order (consumer, event_id) s.processed))) [
      | inl seen ↦ rw (h.processed event_id, seen) (refl, h)
      | inr fresh ↦
          rw (h.processed event_id, fresh)
            (finish-SameProjected processed_at consumer event_id t s
              (project_postings now consumer entry.postings
                (mark_processed processed_at consumer event_id t))
              (add_postings entry.postings s.balances) h
              (project_postings-LoopsAgree now consumer entry.postings
                (mark_processed processed_at consumer event_id t) s.balances h.slots))
    ]
