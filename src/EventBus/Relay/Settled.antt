-- ===== src/EventBus/Relay/Settled.antt =====
-- crates/event-bus/src/relay.rs: what a tick does with each row of the outbox.
use iron_ledger.Domain.Ids.{Timestamp}
use iron_ledger.EventBus.{show_bus_error}
use iron_ledger.EventBus.Relay.{Instants, OutboxRelay, deliver, publish_claimed}
use iron_ledger.Ledger.Port.{OutboxMessage}
use iron_ledger.Ledger.Store.{OutboxRow, State}
use iron_ledger.Ledger.Store.Claims.{messages}
use iron_ledger.Ledger.Store.Numbered.{IsDistinct, row_ids}
use iron_ledger.Ledger.Store.Outbox.{
  claim_rows, contains_id, fail_row, is_claimable, mark_failed, publish_rows,
}
use iron_ledger.Prelude.{
  Bool-cases, List, [], arith, false, if◌then◌else◌, inl, inr, length, map, none, refl, some, suc,
  zero, ℕ, ◌+◌, ◌∷◌, ◌≡◌,
}
use iron_ledger.Prelude.Result.{Result-cases, err, ok}
use iron_ledger.Prelude.Text.{Text}

abbrev pub published_row : Timestamp → OutboxRow → OutboxRow
published_row at row = record row {
  message = record row.message { published_at = some at };
  leased_until = none;
}

abbrev pub failed_row : Text → OutboxRow → OutboxRow
failed_row error row = record row {
  message = record row.message { attempts = row.message.attempts + 1; last_error = some error };
  leased_until = none;
}

-- What becomes of a row that was handed out.
abbrev pub settled_row : OutboxRelay → Timestamp → OutboxRow → OutboxRow
settled_row relay at row = elim (deliver relay row.message) [
  | ok _ ↦ published_row at row
  | err e ↦ failed_row (show_bus_error e) row
]

-- One pass over the outbox, with `room` rows still to hand out: an independent description.
unfoldable pub relay_rows : OutboxRelay → Instants → ℕ → List OutboxRow → List OutboxRow
relay_rows relay at room [] = []
relay_rows relay at zero (row ∷ rows) = row ∷ rows
relay_rows relay at (suc room) (row ∷ rows) =
    let free = is_claimable at.claimed_at row in
    let rest = relay_rows relay at (if free then room else suc room) rows in
    if free then settled_row relay at.marked_at row ∷ rest else row ∷ rest

-- The ids of the messages that the publisher takes.
unfoldable pub delivered_ids : OutboxRelay → List OutboxMessage → List ℕ
delivered_ids relay [] = []
delivered_ids relay (message ∷ messages) = elim (deliver relay message) [
  | ok _ ↦ message.id ∷ delivered_ids relay messages
  | err e ↦ delivered_ids relay messages
]

-- The rows after the failures are marked.
unfoldable pub fail_all : OutboxRelay → List OutboxMessage → List OutboxRow → List OutboxRow
fail_all relay [] rows = rows
fail_all relay (message ∷ messages) rows = elim (deliver relay message) [
  | ok _ ↦ fail_all relay messages rows
  | err e ↦ fail_all relay messages (fail_row message.id (show_bus_error e) rows)
]

pub publish_claimed_rows :
    (relay : OutboxRelay) (messages : List OutboxMessage) (s : State)
    → publish_claimed relay messages s
      ≡ (delivered_ids relay messages, record s { outbox = fail_all relay messages s.outbox })
unfolding publish_claimed delivered_ids fail_all mark_failed
publish_claimed_rows relay [] s = refl
publish_claimed_rows relay (message ∷ messages) s =
    let kept = publish_claimed_rows relay messages s in
    elim (Result-cases (deliver relay message)) [
      | inl (u, good) ↦ ground arith
      | inr (e, bad) ↦
          let marked =
            publish_claimed_rows relay messages (mark_failed message.id (show_bus_error e) s) in
          ground arith
    ]

abbrev message_ids : List OutboxMessage → List ℕ
message_ids messages = map (λ message. message.id) messages

fail_row_ids :
    (id : ℕ) (error : Text) (rows : List OutboxRow)
    → row_ids (fail_row id error rows) ≡ row_ids rows
unfolding fail_row
fail_row_ids id error [] = refl
fail_row_ids id error (row ∷ rows) = let ih = fail_row_ids id error rows in ground arith

fail_all_ids :
    (relay : OutboxRelay) (messages : List OutboxMessage) (rows : List OutboxRow)
    → row_ids (fail_all relay messages rows) ≡ row_ids rows
unfolding fail_all
fail_all_ids relay [] rows = refl
fail_all_ids relay (message ∷ messages) rows =
    let kept = fail_all_ids relay messages rows in
    elim (Result-cases (deliver relay message)) [
      | inl (u, good) ↦ ground arith
      | inr (e, bad) ↦
          let marked = fail_row message.id (show_bus_error e) rows in
          let here = fail_row_ids message.id (show_bus_error e) rows in
          let rest = fail_all_ids relay messages marked in ground arith
    ]

fail_all_skip :
    (relay : OutboxRelay) (messages : List OutboxMessage) (row : OutboxRow) (rows : List OutboxRow)
    → contains_id row.message.id (message_ids messages) ≡ false
    → fail_all relay messages (row ∷ rows) ≡ row ∷ fail_all relay messages rows
unfolding fail_all fail_row
fail_all_skip relay [] row rows h = refl
fail_all_skip relay (message ∷ messages) row rows h =
    let ih = fail_all_skip relay messages row in
    elim (Result-cases (deliver relay message)) [
      | inl (u, good) ↦ let kept = ih rows (ground arith) in ground arith
      | inr (e, bad) ↦
          let next = ih (fail_row message.id (show_bus_error e) rows) (ground arith) in ground arith
    ]

delivered_fresh :
    (relay : OutboxRelay) (messages : List OutboxMessage) (id : ℕ)
    → contains_id id (message_ids messages) ≡ false
    → contains_id id (delivered_ids relay messages) ≡ false
unfolding delivered_ids
delivered_fresh relay [] id h = refl
delivered_fresh relay (message ∷ messages) id h =
    let ih = delivered_fresh relay messages id in ground arith

publish_rows_fresh :
    (at : Timestamp) (id : ℕ) (ids : List ℕ) (rows : List OutboxRow)
    → contains_id id (row_ids rows) ≡ false
    → publish_rows at (id ∷ ids) rows ≡ publish_rows at ids rows
unfolding publish_rows
publish_rows_fresh at id ids [] h = refl
publish_rows_fresh at id ids (row ∷ rows) h =
    let ih = publish_rows_fresh at id ids rows in ground arith

claimed_fresh :
    (room now until id : ℕ) (rows : List OutboxRow)
    → contains_id id (row_ids rows) ≡ false
    → contains_id id (message_ids (claim_rows room now until rows).0) ≡ false
unfolding claim_rows
claimed_fresh zero now until id [] h = refl
claimed_fresh (suc room) now until id [] h = refl
claimed_fresh zero now until id (row ∷ rows) h = refl
claimed_fresh (suc room) now until id (row ∷ rows) h =
    let taken = claimed_fresh room now until id rows in
    let passed = claimed_fresh (suc room) now until id rows in
    elim (Bool-cases (is_claimable now row)) [ inl free ↦ ground arith | inr held ↦ ground arith ]

pub publish_rows_none :
    (at : Timestamp) (rows : List OutboxRow) → publish_rows at [] rows ≡ (0, rows)
unfolding publish_rows
publish_rows_none at [] = refl
publish_rows_none at (row ∷ rows) = let ih = publish_rows_none at rows in ground arith

abbrev pub tick_rows : OutboxRelay → Instants → ℕ → ℕ → List OutboxRow → ℕ × List OutboxRow
tick_rows relay at room until rows =
    let (claimed, rest) = claim_rows room at.claimed_at until rows in
    publish_rows at.marked_at (delivered_ids relay claimed) (fail_all relay claimed rest)

abbrev leased_to : Timestamp → OutboxRow → OutboxRow
leased_to until row = record row { leased_until = some until }

claim_ids :
    (room now until : ℕ) (rows : List OutboxRow)
    → row_ids (claim_rows room now until rows).1 ≡ row_ids rows
unfolding claim_rows
claim_ids zero now until [] = refl
claim_ids (suc room) now until [] = refl
claim_ids zero now until (row ∷ rows) = refl
claim_ids (suc room) now until (row ∷ rows) =
    let taken = claim_ids room now until rows in
    let passed = claim_ids (suc room) now until rows in
    elim (Bool-cases (is_claimable now row)) [ inl free ↦ ground arith | inr held ↦ ground arith ]

-- The count and the rows of a tick, by the pass over the outbox.
pub tick_rows_settled :
    (relay : OutboxRelay) (at : Instants) (room until : ℕ) (rows : List OutboxRow)
    → IsDistinct (row_ids rows)
    → tick_rows relay at room until rows ≡ (
      length (delivered_ids relay (claim_rows room at.claimed_at until rows).0),
      relay_rows relay at room rows,
    )
unfolding claim_rows relay_rows delivered_ids fail_all publish_rows fail_row
tick_rows_settled relay at zero until [] distinct = refl
tick_rows_settled relay at (suc room) until [] distinct = refl
tick_rows_settled relay at zero until (row ∷ rows) distinct =
    let nothing = publish_rows_none at.marked_at rows in ground arith
tick_rows_settled relay at (suc room) until (row ∷ rows) (new, distinct) =
    elim (Bool-cases (is_claimable at.claimed_at row)) [
      | inl free ↦
          let fresh = claimed_fresh room at.claimed_at until row.message.id rows new in
          let (claimed, rest) = claim_rows room at.claimed_at until rows in
          let ih = tick_rows_settled relay at room until rows distinct in
          let skip = fail_all_skip relay claimed in
          let unsent = delivered_fresh relay claimed row.message.id fresh in
          let kept = fail_all_ids relay claimed rest in
          let same_ids = claim_ids room at.claimed_at until rows in
          let single =
            publish_rows_fresh at.marked_at row.message.id (delivered_ids relay claimed)
              (fail_all relay claimed rest) (rw (kept, same_ids) new) in
          elim (Result-cases (deliver relay row.message)) [
            | inl (u, good) ↦ let here = skip (leased_to until row) rest fresh in ground arith
            | inr (e, bad) ↦
                let here = skip (failed_row (show_bus_error e) row) rest fresh in ground arith
          ]
      | inr held ↦
          let ih = tick_rows_settled relay at (suc room) until rows distinct in
          let fresh = claimed_fresh (suc room) at.claimed_at until row.message.id rows new in
          let (claimed, rest) = claim_rows (suc room) at.claimed_at until rows in
          let skip = fail_all_skip relay claimed row rest fresh in
          let unsent = delivered_fresh relay claimed row.message.id fresh in ground arith
    ]
