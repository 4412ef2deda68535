-- ===== src/Projector/Replay/Settled.antt =====
-- crates/projector/src/projector.rs: events that leave the projection as it is.
use iron_ledger.Domain.Event.{
  EventId, LedgerEvent, LedgerEventPayload, account_created, admin_adjusted, journal_posted,
}
use iron_ledger.Domain.Journal.{JournalEntry}
use iron_ledger.Prelude.{Bool, Bool-cases, arith, inl, inr, refl, true, ◌≡◌, ◌⊎◌}
use iron_ledger.Prelude.Map.{get-insert}
use iron_ledger.Prelude.Order.{equals_refl}
use iron_ledger.Prelude.Result.{Result-cases, ok}
use iron_ledger.Prelude.Text.{Text}
use iron_ledger.Projector.{
  ApplyOutcome, Projection, SourcedEvent, add_postings, apply_event, apply_journal, apply_payload,
  duplicate, ignored, processed_order,
}
use iron_ledger.Projector.Projected.{apply_journal_seen, is_processed}

-- Whether an event leaves the projection as it is.
abbrev pub is_settled_payload : Text → EventId → LedgerEventPayload → Projection → Bool
is_settled_payload consumer event_id (journal_posted entry) s = is_processed consumer event_id s
is_settled_payload consumer event_id (account_created id name) s = true
is_settled_payload consumer event_id (admin_adjusted id audit) s = true

abbrev pub is_settled : Text → Projection → SourcedEvent → Bool
is_settled consumer s sourced =
    is_settled_payload consumer sourced.event.event_id sourced.event.payload s

-- An entry that succeeds is marked.
apply_journal_ok :
    (consumer : Text) (event_id : EventId) (entry : JournalEntry) (s : Projection)
    (o : ApplyOutcome)
    → (apply_journal consumer event_id entry s).0 ≡ ok o
    → is_processed consumer event_id (apply_journal consumer event_id entry s).1 ≡ true
unfolding apply_journal
apply_journal_ok consumer event_id entry s o h =
    elim (Bool-cases (is_processed consumer event_id s)) [
      | inl seen ↦ ground arith
      | inr fresh ↦ elim (Result-cases (add_postings entry.postings s.balances).0) [
        | inr (e, bad) ↦ absurd (ground arith)
        | inl (u, good) ↦ ground (
          arith,
          get-insert processed_order (consumer, event_id) (consumer, event_id) tt s.processed,
          equals_refl processed_order (consumer, event_id),
        )
      ]
    ]

apply_journal_keeps :
    (consumer : Text) (event_id marked : EventId) (entry : JournalEntry) (s : Projection)
    → is_processed consumer marked s ≡ true
    → is_processed consumer marked (apply_journal consumer event_id entry s).1 ≡ true
unfolding apply_journal
apply_journal_keeps consumer event_id marked entry s h =
    ground
      (arith, get-insert processed_order (consumer, marked) (consumer, event_id) tt s.processed)

apply_payload_ok :
    (consumer : Text) (event_id : EventId) (payload : LedgerEventPayload) (s : Projection)
    (o : ApplyOutcome)
    → (apply_payload consumer event_id payload s).0 ≡ ok o
    → is_settled_payload consumer event_id payload (apply_payload consumer event_id payload s).1
      ≡ true
unfolding apply_payload
apply_payload_ok consumer event_id (journal_posted entry) s o h =
    apply_journal_ok consumer event_id entry s o h
apply_payload_ok consumer event_id (account_created id name) s o h = refl
apply_payload_ok consumer event_id (admin_adjusted id audit) s o h = refl

apply_payload_keeps :
    (consumer : Text) (event_id marked : EventId) (payload : LedgerEventPayload) (s : Projection)
    → is_processed consumer marked s ≡ true
    → is_processed consumer marked (apply_payload consumer event_id payload s).1 ≡ true
unfolding apply_payload
apply_payload_keeps consumer event_id marked (journal_posted entry) s h =
    apply_journal_keeps consumer event_id marked entry s h
apply_payload_keeps consumer event_id marked (account_created id name) s h = h
apply_payload_keeps consumer event_id marked (admin_adjusted id audit) s h = h

pub apply_event_keeps :
    (consumer : Text) (sourced : SourcedEvent) (event : LedgerEvent) (s : Projection)
    → is_settled consumer s sourced ≡ true
    → is_settled consumer (apply_event consumer event s).1 sourced ≡ true
unfolding apply_event
apply_event_keeps consumer sourced event s h = go sourced.event.payload h
  where
    go :
        (payload : LedgerEventPayload)
        → is_settled_payload consumer sourced.event.event_id payload s ≡ true
        → is_settled_payload consumer sourced.event.event_id payload
            (apply_payload consumer event.event_id event.payload s).1
          ≡ true
    go (journal_posted entry) h =
        apply_payload_keeps consumer event.event_id sourced.event.event_id event.payload s h
    go (account_created id name) h = refl
    go (admin_adjusted id audit) h = refl

apply_payload_settled :
    (consumer : Text) (event_id : EventId) (payload : LedgerEventPayload) (s : Projection)
    → is_settled_payload consumer event_id payload s ≡ true
    → (apply_payload consumer event_id payload s ≡ (ok duplicate, s))
      ⊎ (apply_payload consumer event_id payload s ≡ (ok ignored, s))
unfolding apply_payload
apply_payload_settled consumer event_id (journal_posted entry) s h =
    inl (apply_journal_seen consumer event_id entry s h)
apply_payload_settled consumer event_id (account_created id name) s h = inr refl
apply_payload_settled consumer event_id (admin_adjusted id audit) s h = inr refl

pub apply_event_settled :
    (consumer : Text) (event : LedgerEvent) (s : Projection)
    → is_settled_payload consumer event.event_id event.payload s ≡ true
    → (apply_event consumer event s ≡ (ok duplicate, s))
      ⊎ (apply_event consumer event s ≡ (ok ignored, s))
unfolding apply_event
apply_event_settled consumer event s h =
    apply_payload_settled consumer event.event_id event.payload s h

pub apply_event_ok :
    (consumer : Text) (sourced : SourcedEvent) (s : Projection) (o : ApplyOutcome)
    → (apply_event consumer sourced.event s).0 ≡ ok o
    → is_settled consumer (apply_event consumer sourced.event s).1 sourced ≡ true
unfolding apply_event
apply_event_ok consumer sourced s o h =
    apply_payload_ok consumer sourced.event.event_id sourced.event.payload s o h
