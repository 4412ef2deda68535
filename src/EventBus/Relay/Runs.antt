-- ===== src/EventBus/Relay/Runs.antt =====
-- crates/event-bus/src/relay.rs: what a run of the relay delivers.
use mathlib.Core.Path.{subst}
use iron_ledger.Domain.Ids.{Timestamp}
use iron_ledger.EventBus.{BusError}
use iron_ledger.EventBus.Relay.{Instants, OutboxRelay, Turn, deliver, during, run_relay}
use iron_ledger.EventBus.Relay.Settled.{relay_rows}
use iron_ledger.EventBus.Relay.Ticks.{tick_settles}
use iron_ledger.Ledger.Error.{LedgerError}
use iron_ledger.Ledger.Port.{OutboxMessage}
use iron_ledger.Ledger.Store.{OutboxRow, State}
use iron_ledger.Ledger.Store.Numbered.{IsDistinct, row_ids}
use iron_ledger.Ledger.Store.Outbox.{is_leased}
use iron_ledger.Prelude.{
  All, Bool, Bool-cases, List, Option, [], all, ap, arith, false, filter, inl, inr, is_some, leb,
  length, map, not, refl, suc, sym, take, true, zero, ℕ, ◌-◌, ◌||◌, ◌∙◌, ◌∷◌, ◌≡◌, ◌≤◌,
}
use iron_ledger.Prelude.Result.{Result, Result-cases, err, ok}
use iron_ledger.Prelude.Text.{Text}

abbrev pub unpublished : List OutboxRow → List OutboxRow
unpublished rows = filter (λ row. not (is_some row.message.published_at)) rows

-- A row that no lease holds back from an instant on.
abbrev pub is_due : Timestamp → OutboxRow → Bool
is_due start row = is_some row.message.published_at || not (is_leased start row)

relay_rows_ids :
    (relay : OutboxRelay) (at : Instants) (room : ℕ) (rows : List OutboxRow)
    → row_ids (relay_rows relay at room rows) ≡ row_ids rows
unfolding relay_rows
relay_rows_ids relay at room [] = refl
relay_rows_ids relay at zero (row ∷ rows) = refl
relay_rows_ids relay at (suc room) (row ∷ rows) =
    let taken = relay_rows_ids relay at room rows in
    let passed = relay_rows_ids relay at (suc room) rows in
    elim (Result-cases (deliver relay row.message)) [
      | inl (u, good) ↦ ground arith
      | inr (e, bad) ↦ ground arith
    ]

relay_rows_due :
    (relay : OutboxRelay) (at : Instants) (start room : ℕ) (rows : List OutboxRow)
    → all (is_due start) rows ≡ true
    → all (is_due start) (relay_rows relay at room rows) ≡ true
unfolding relay_rows
relay_rows_due relay at start room [] h = refl
relay_rows_due relay at start zero (row ∷ rows) h = h
relay_rows_due relay at start (suc room) (row ∷ rows) h =
    let taken = relay_rows_due relay at start room rows in
    let passed = relay_rows_due relay at start (suc room) rows in
    elim (Result-cases (deliver relay row.message)) [
      | inl (u, good) ↦ ground arith
      | inr (e, bad) ↦ ground arith
    ]

-- Every message that the relay can hand to the publisher is taken.
abbrev pub AcceptsAll : OutboxRelay → Type 0
AcceptsAll relay = (message : OutboxMessage) → deliver relay message ≡ ok tt

relay_rows_drains :
    (relay : OutboxRelay) (at : Instants) (start room : ℕ) (rows : List OutboxRow)
    → AcceptsAll relay
    → start ≤ at.claimed_at
    → all (is_due start) rows ≡ true
    → length (unpublished (relay_rows relay at room rows)) ≡ length (unpublished rows) - room
unfolding relay_rows
relay_rows_drains relay at start room [] accepts since due = omega arith
relay_rows_drains relay at start zero (row ∷ rows) accepts since due = omega arith
relay_rows_drains relay at start (suc room) (row ∷ rows) accepts since due =
    let taken = relay_rows_drains relay at start room rows accepts since in
    let passed = relay_rows_drains relay at start (suc room) rows accepts since in
    let good = accepts row.message in ground arith

abbrev is_refused : OutboxRelay → OutboxRow → Bool
is_refused relay row = elim (deliver relay row.message) [ ok _ ↦ false | err e ↦ true ]

-- The id of a row and when it was published.
abbrev pub publications : List OutboxRow → List (ℕ × Option Timestamp)
publications rows = map (λ row. (row.message.id, row.message.published_at)) rows

-- The publisher refuses the first unpublished messages, as many as a batch holds.
abbrev pub RefusesFirst : OutboxRelay → ℕ → List OutboxRow → Type 0
RefusesFirst relay room rows = all (is_refused relay) (take room (unpublished rows)) ≡ true

-- A batch that is refused publishes nothing, and what another producer, or the same one later, refuses
-- at the front of the outbox stands there as before.
relay_rows_blocked :
    (relay : OutboxRelay) (at : Instants) (start room : ℕ) (rows : List OutboxRow)
    → start ≤ at.claimed_at
    → all (is_due start) rows ≡ true
    → RefusesFirst relay room rows
    → (publications (relay_rows relay at room rows) ≡ publications rows)
      × ((next : OutboxRelay)
          → RefusesFirst next room rows
          → RefusesFirst next room (relay_rows relay at room rows))
unfolding relay_rows
relay_rows_blocked relay at start room [] since due refused = (refl, λ next still. still)
relay_rows_blocked relay at start zero (row ∷ rows) since due refused = (refl, λ next still. still)
relay_rows_blocked relay at start (suc room) (row ∷ rows) since due refused =
    let taken = relay_rows_blocked relay at start room rows since in
    let passed = relay_rows_blocked relay at start (suc room) rows since in
    elim (Bool-cases (is_some row.message.published_at)) [
      | inl done ↦
          let (same_rest, keeps) = passed (ground arith) (ground arith) in
          (ground arith, λ next still. let rest = keeps next (ground arith) in ground arith)
      | inr waiting ↦ elim (Result-cases (deliver relay row.message)) [
        | inl (u, good) ↦ absurd (ground arith)
        | inr (e, bad) ↦
            let (same_rest, keeps) = taken (ground arith) (ground arith) in
            (ground arith, λ next still. let rest = keeps next (ground arith) in ground arith)
      ]
    ]

-- The producer of each turn takes every message.
abbrev pub AllAccept : OutboxRelay → List Turn → Type 0
AllAccept relay turns = All (λ turn. AcceptsAll (during relay turn)) turns

-- The producer of each turn refuses the first unpublished messages, as many as a batch holds.
abbrev pub AllRefuse : OutboxRelay → List Turn → List OutboxRow → Type 0
AllRefuse relay turns rows =
    All (λ turn. RefusesFirst (during relay turn) relay.batch_size rows) turns

relay_rows-AllRefuse :
    (relay : OutboxRelay) (turn : Turn) (start : ℕ) (rows : List OutboxRow) (later : List Turn)
    → start ≤ turn.instants.claimed_at
    → all (is_due start) rows ≡ true
    → RefusesFirst (during relay turn) relay.batch_size rows
    → AllRefuse relay later rows
    → AllRefuse relay later (relay_rows (during relay turn) turn.instants relay.batch_size rows)
relay_rows-AllRefuse relay turn start rows [] since due refused still = tt
relay_rows-AllRefuse relay turn start rows (next ∷ later) since due refused (first, rest) = (
  (relay_rows_blocked (during relay turn) turn.instants start relay.batch_size rows since due
        refused).1
      (during relay next) first,
  relay_rows-AllRefuse relay turn start rows later since due refused rest,
)

-- No turn claims before the instant.
abbrev pub begins : Timestamp → List Turn → Bool
begins start turns = all (λ turn. leb start turn.instants.claimed_at) turns

module _ (show_error : LedgerError → Text) (relay : OutboxRelay) (lease : ℕ)
    (leases : relay.lease ≡ ok lease) where
  -- The rows after a turn
  abbrev turned : Turn → List OutboxRow → List OutboxRow
  turned turn rows = relay_rows (during relay turn) turn.instants relay.batch_size rows

  run_relay_step :
      (turn : Turn) (later : List Turn) (s : State)
      → IsDistinct (row_ids s.outbox)
      → run_relay show_error relay (turn ∷ later) s
        ≡ run_relay show_error relay later (record s { outbox = turned turn s.outbox })
  unfolding run_relay
  run_relay_step turn later s distinct =
      ap (λ (result : Result BusError ℕ × State). run_relay show_error relay later result.1)
        (tick_settles show_error (during relay turn) turn.instants s lease leases distinct)

  -- Where the publisher takes every message in every turn and the batch is not empty, a run with as
  -- many ticks as there are unpublished rows publishes all of them, if the rows have distinct ids, the
  -- relay's lease converts, and every lease on the rows has ended when the first tick claims. No row
  -- is added or lost.
  pub run_relay_drains :
      (start : Timestamp) (turns : List Turn) (s : State)
      → AllAccept relay turns
      → 1 ≤ relay.batch_size
      → begins start turns ≡ true
      → IsDistinct (row_ids s.outbox)
      → all (is_due start) s.outbox ≡ true
      → length (unpublished s.outbox) ≤ length turns
      → (length (unpublished (run_relay show_error relay turns s).outbox) ≡ 0)
        × (row_ids (run_relay show_error relay turns s).outbox ≡ row_ids s.outbox)
  unfolding run_relay
  run_relay_drains start [] s accepts some_room since distinct due enough = (omega arith, refl)
  run_relay_drains start (turn ∷ turns) s (accepts, accept) some_room since distinct due enough =
      let now = during relay turn in
      let same_ids = relay_rows_ids now turn.instants relay.batch_size s.outbox in
      let kept = relay_rows_due now turn.instants start relay.batch_size s.outbox due in
      let fewer =
        relay_rows_drains now turn.instants start relay.batch_size s.outbox accepts (ground arith)
          due in
      let (none_left, ids) =
        run_relay_drains start turns (record s { outbox = turned turn s.outbox }) accept some_room
          (ground arith) (subst IsDistinct (sym same_ids) distinct) kept (omega arith) in
      rw (run_relay_step turn turns s distinct) (none_left, ids ∙ same_ids)

  -- Where the publisher refuses, in every turn, the first unpublished messages of the start, as many as
  -- a batch holds, no run publishes anything, however many ticks it has, although the publisher may
  -- accept all later messages, if the rows have distinct ids, the relay's lease converts, and every
  -- lease on the rows has ended when the first tick claims.
  pub run_relay_blocked :
      (start : Timestamp) (turns : List Turn) (s : State)
      → AllRefuse relay turns s.outbox
      → begins start turns ≡ true
      → IsDistinct (row_ids s.outbox)
      → all (is_due start) s.outbox ≡ true
      → publications (run_relay show_error relay turns s).outbox ≡ publications s.outbox
  unfolding run_relay
  run_relay_blocked start [] s refused since distinct due = refl
  run_relay_blocked start (turn ∷ turns) s (refused, refuse) since distinct due =
      let now = during relay turn in
      let same_ids = relay_rows_ids now turn.instants relay.batch_size s.outbox in
      let kept = relay_rows_due now turn.instants start relay.batch_size s.outbox due in
      let (here, _) =
        relay_rows_blocked now turn.instants start relay.batch_size s.outbox (ground arith) due
          refused in
      let still =
        relay_rows-AllRefuse relay turn start s.outbox turns (ground arith) due refused refuse in
      let rest =
        run_relay_blocked start turns (record s { outbox = turned turn s.outbox }) still
          (ground arith) (subst IsDistinct (sym same_ids) distinct) kept in
      rw (run_relay_step turn turns s distinct) (rest ∙ here)
