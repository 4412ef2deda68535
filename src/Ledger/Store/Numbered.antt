-- ===== src/Ledger/Store/Numbered.antt =====
-- The ids and events of the outbox rows (`record_events` of crates/ledger/src/memory.rs).
use mathlib.Core.Path.{subst}
use iron_ledger.Domain.Event.{LedgerEvent}
use iron_ledger.Domain.Ids.{Timestamp}
use iron_ledger.Ledger.Error.{LedgerError}
use iron_ledger.Ledger.Port.{
  AccountCommit, CommitOutcome, JournalCommit, committed, duplicate_idempotency_key,
}
use iron_ledger.Ledger.Store.{
  OutboxRow, State, has_event, insert_idempotency, record_event, record_events,
}
use iron_ledger.Ledger.Store.Accounts.{
  add_account, create_account, name_conflict, name_taken, seed_account,
}
use iron_ledger.Ledger.Store.Atomic.{
  applied_state, commit_entry-used, commit_entry_atomic, commit_entry_done, used, with_record,
}
use iron_ledger.Ledger.Store.Commit.{commit_entry}
use iron_ledger.Ledger.Store.Frame.{apply_postings_frame}
use iron_ledger.Ledger.Store.Outbox.{
  claim, claim_rows, contains_id, fail_row, is_claimable, mark_failed, mark_published, publish_rows,
}
use iron_ledger.Ledger.Store.Queries.{purge_created_before}
use iron_ledger.Ledger.Store.Reach.{Reach, Step, after, initially}
use iron_ledger.Postgres.Store.{queue}
use iron_ledger.Prelude.{
  Bool-cases, List, Option-cases, [], all, ap, arith, false, inl, inr, leb, map, refl, suc, sym,
  true, zero, ℕ, ◌++◌, ◌+◌, ◌==◌, ◌∙◌, ◌∷◌, ◌≡◌,
}
use iron_ledger.Prelude.Result.{Result, Result-cases, err, ok}
use iron_ledger.Prelude.Text.{Text}
use iron_ledger.Projector.Replay.{events_after}

abbrev pub row_ids : List OutboxRow → List ℕ
row_ids rows = map (λ row. row.message.id) rows

abbrev pub event_ids : List OutboxRow → List ℕ
event_ids rows = map (λ row. row.message.event.event_id) rows

-- No two of the numbers are the same.
abbrev pub IsDistinct : List ℕ → Type 0
IsDistinct [] = Unit
IsDistinct (id ∷ ids) = (contains_id id ids ≡ false) × IsDistinct ids

pub record IsNumbered (s : State) : Type 0 where
  -- no two rows have the same id, and none has one above the counter
  pub distinct : IsDistinct (row_ids s.outbox)
  pub counted : all (λ id. leb id s.next_outbox_id) (row_ids s.outbox) ≡ true
  -- no event is queued twice
  pub once : IsDistinct (event_ids s.outbox)

-- What the invariant reads of a row.
abbrev row_keys : List OutboxRow → List (ℕ × ℕ)
row_keys rows = map (λ row. (row.message.id, row.message.event.event_id)) rows

row_keys-ids :
    (rows : List OutboxRow)
    → (row_ids rows ≡ map (λ k. k.0) (row_keys rows))
      × (event_ids rows ≡ map (λ k. k.1) (row_keys rows))
row_keys-ids [] = (refl, refl)
row_keys-ids (row ∷ rows) = let ih = row_keys-ids rows in (ground arith, ground arith)

SameQueue-IsNumbered :
    (s t : State)
    → row_keys t.outbox ≡ row_keys s.outbox
    → t.next_outbox_id ≡ s.next_outbox_id
    → IsNumbered s
    → IsNumbered t
SameQueue-IsNumbered s t same_keys next h =
    let (ids, events) = row_keys-ids s.outbox in
    let (ids_after, events_after) = row_keys-ids t.outbox in
    let same_ids : row_ids t.outbox ≡ row_ids s.outbox = cc in
    let same_events : event_ids t.outbox ≡ event_ids s.outbox = cc in
    record {
      distinct = rw same_ids h.distinct;
      counted = rw (same_ids, next) h.counted;
      once = rw same_events h.once;
    }

claim_rows_keys :
    (room now until : ℕ) (rows : List OutboxRow)
    → row_keys (claim_rows room now until rows).1 ≡ row_keys rows
unfolding claim_rows
claim_rows_keys zero now until [] = refl
claim_rows_keys (suc room) now until [] = refl
claim_rows_keys zero now until (row ∷ rows) = refl
claim_rows_keys (suc room) now until (row ∷ rows) =
    let taken = claim_rows_keys room now until rows in
    let passed = claim_rows_keys (suc room) now until rows in
    elim (Bool-cases (is_claimable now row)) [ inl free ↦ ground arith | inr held ↦ ground arith ]

claim-IsNumbered :
    (limit : ℕ) (duration : Result Text ℕ) (now : Timestamp) (s : State)
    → IsNumbered s
    → IsNumbered (claim limit duration now s).1
unfolding claim
claim-IsNumbered limit (err e) now s h = h
claim-IsNumbered limit (ok lease) now s h =
    SameQueue-IsNumbered s _ (claim_rows_keys limit now (now + lease) s.outbox) refl h

publish_rows_keys :
    (now : Timestamp) (ids : List ℕ) (rows : List OutboxRow)
    → row_keys (publish_rows now ids rows).1 ≡ row_keys rows
unfolding publish_rows
publish_rows_keys now ids [] = refl
publish_rows_keys now ids (row ∷ rows) = let ih = publish_rows_keys now ids rows in ground arith

fail_row_keys :
    (id : ℕ) (error : Text) (rows : List OutboxRow)
    → row_keys (fail_row id error rows) ≡ row_keys rows
unfolding fail_row
fail_row_keys id error [] = refl
fail_row_keys id error (row ∷ rows) = let ih = fail_row_keys id error rows in ground arith

IsDistinct-snoc :
    (ids : List ℕ) (new : ℕ)
    → IsDistinct ids
    → contains_id new ids ≡ false
    → IsDistinct (ids ++ new ∷ [])
IsDistinct-snoc [] new h fresh = (refl, tt)
IsDistinct-snoc (id ∷ ids) new (first, rest) fresh =
    (contains_snoc id new ids first (ground arith), IsDistinct-snoc ids new rest (ground arith))
  where
    contains_snoc :
        (id new : ℕ) (ids : List ℕ)
        → contains_id id ids ≡ false
        → new == id ≡ false
        → contains_id id (ids ++ new ∷ []) ≡ false
    contains_snoc id new [] h apart = ground arith
    contains_snoc id new (other_id ∷ ids) h apart =
        let ih = contains_snoc id new ids in ground arith

above-fresh :
    (next : ℕ) (ids : List ℕ)
    → all (λ id. leb id next) ids ≡ true
    → contains_id (next + 1) ids ≡ false
above-fresh next [] h = refl
above-fresh next (id ∷ ids) h = let ih = above-fresh next ids in ground arith

counted_snoc :
    (next : ℕ) (ids : List ℕ)
    → all (λ id. leb id next) ids ≡ true
    → all (λ id. leb id (next + 1)) (ids ++ (next + 1) ∷ []) ≡ true
counted_snoc next [] h = ground arith
counted_snoc next (id ∷ ids) h = let ih = counted_snoc next ids in ground arith

pub map_snoc :
    (f : OutboxRow → ℕ) (rows : List OutboxRow) (row : OutboxRow)
    → map f (rows ++ row ∷ []) ≡ map f rows ++ f row ∷ []
map_snoc f [] row = refl
map_snoc f (first ∷ rows) row = let ih = map_snoc f rows row in ground arith

pub has_event-contains :
    (event_id : ℕ) (rows : List OutboxRow)
    → has_event event_id rows ≡ contains_id event_id (event_ids rows)
has_event-contains event_id [] = refl
has_event-contains event_id (row ∷ rows) = let ih = has_event-contains event_id rows in ground arith

-- The state with one more row.
abbrev appended : State → OutboxRow → State
appended s row = record s { next_outbox_id = s.next_outbox_id + 1; outbox = s.outbox ++ row ∷ [] }

appended-IsNumbered :
    (s : State) (row : OutboxRow)
    → row.message.id ≡ s.next_outbox_id + 1
    → has_event row.message.event.event_id s.outbox ≡ false
    → IsNumbered s
    → IsNumbered (appended s row)
appended-IsNumbered s row numbered new h =
    let ids = map_snoc (λ r. r.message.id) s.outbox row in
    let events = map_snoc (λ r. r.message.event.event_id) s.outbox row in
    let next = s.next_outbox_id in
    let fresh_event = sym (has_event-contains row.message.event.event_id s.outbox) ∙ new in
    record {
      distinct =
          rw (ids, numbered)
            (IsDistinct-snoc (row_ids s.outbox) (next + 1) h.distinct
              (above-fresh next (row_ids s.outbox) h.counted));
      counted = rw (ids, numbered) (counted_snoc next (row_ids s.outbox) h.counted);
      once =
          rw events
            (IsDistinct-snoc (event_ids s.outbox) row.message.event.event_id h.once fresh_event);
    }

record_event-IsNumbered :
    (event : LedgerEvent) (s : State) → IsNumbered s → IsNumbered (record_event event s)
unfolding record_event
record_event-IsNumbered event s h = elim (Bool-cases (has_event event.event_id s.outbox)) [
  | inl queued ↦ rw queued h
  | inr new ↦ rw new (appended-IsNumbered s _ refl new h)
]

record_events-IsNumbered :
    (events : List LedgerEvent) (s : State) → IsNumbered s → IsNumbered (record_events events s)
unfolding record_events
record_events-IsNumbered [] s h = h
record_events-IsNumbered (event ∷ events) s h =
    record_events-IsNumbered events (record_event event s) (record_event-IsNumbered event s h)

commit_entry-IsNumbered :
    (now : Timestamp) (commit : JournalCommit) (s : State)
    → IsNumbered s
    → IsNumbered (commit_entry now commit s).1
commit_entry-IsNumbered now commit s h = elim (Result-cases (commit_entry now commit s).0) [
  | inr (e, bad) ↦ rw (commit_entry_atomic now commit s e bad) h
  | inl (outcome, good) ↦ elim (Option-cases (used commit.idempotency s)) [
    | inr (r, present) ↦ rw (commit_entry-used now commit s r present) h
    | inl absent ↦
        let (fine, done) = commit_entry_done now commit s outcome absent good in
        let (_, _, _, queue, next) =
          apply_postings_frame now commit.entry.postings (with_record commit.idempotency s) in
        let t = record (applied_state now commit s) {
          entries = (applied_state now commit s).entries ++ commit.entry ∷ [];
        } in
        rw done (
          record_events-IsNumbered commit.events t
            (SameQueue-IsNumbered s t (ap row_keys queue) next h))
  ]
]

create_account-IsNumbered :
    (commit : AccountCommit) (s : State) → IsNumbered s → IsNumbered (create_account commit s).1
unfolding create_account insert_idempotency add_account seed_account
create_account-IsNumbered commit s h =
    let t = with_record commit.idempotency s in
    let filed = SameQueue-IsNumbered s t refl refl h in
    elim (Option-cases (used commit.idempotency s)) [
      | inr (r, present) ↦
          let known : create_account commit s ≡ (ok duplicate_idempotency_key, s) = ground arith in
          carry known h
      | inl absent ↦ elim (Bool-cases (name_taken commit.account.name s.accounts)) [
        | inl taken ↦
            let refused : create_account commit s ≡ (err (name_conflict commit.account.name), t) =
              ground arith in
            carry refused filed
        | inr free ↦
            let opened = seed_account commit.account t in
            let added : create_account commit s
                ≡ (ok committed, record_events commit.events opened) =
              ground arith in
            carry added (
              record_events-IsNumbered commit.events opened
                (SameQueue-IsNumbered s opened refl refl h))
      ]
    ]
  where
    carry :
        {x : Result LedgerError CommitOutcome × State}
        → create_account commit s ≡ x
        → IsNumbered x.1
        → IsNumbered (create_account commit s).1
    carry e numbered =
        subst (λ (y : Result LedgerError CommitOutcome × State). IsNumbered y.1) (sym e) numbered

Step-IsNumbered : {s t : State} → Step s t → IsNumbered s → IsNumbered t
unfolding mark_published mark_failed purge_created_before
Step-IsNumbered (Step.posts now c s balanced) h = commit_entry-IsNumbered now c s h
Step-IsNumbered (Step.opens c s fresh) h = create_account-IsNumbered c s h
Step-IsNumbered (Step.leases limit duration now s) h = claim-IsNumbered limit duration now s h
Step-IsNumbered (Step.publishes ids now s) h =
    SameQueue-IsNumbered s _ (publish_rows_keys now ids s.outbox) refl h
Step-IsNumbered (Step.fails id error s) h =
    SameQueue-IsNumbered s _ (fail_row_keys id error s.outbox) refl h
Step-IsNumbered (Step.purges cutoff s) h = SameQueue-IsNumbered s _ refl refl h

-- In every state that the operations of the in-memory ledger reach, the rows of the outbox have
-- distinct ids, none above the counter, and no event is queued twice.
pub Reach-IsNumbered : {s : State} → Reach s → IsNumbered s
Reach-IsNumbered initially = record { distinct = tt; counted = refl; once = tt }
Reach-IsNumbered (after r step) = Step-IsNumbered step (Reach-IsNumbered r)
