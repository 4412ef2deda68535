-- ===== src/Projector/Replay/Ends.antt =====
-- crates/projector/src/projector.rs: the rounds that `Projector::replay` makes.
use iron_ledger.Projector.Replay.Batch.{replay_loop_full}
use iron_ledger.Projector.Replay.Batch.{replay_loop_short}
use iron_ledger.Projector.Replay.Batch.{replay_loop_stop}
use mathlib.Core.Path.{subst}
use iron_ledger.Domain.Amount.{is_negative}
use iron_ledger.Prelude.{
  Bool, Bool-cases, List, List-cases, Option, [], all, any, arith, false, filter, inl, inr, length,
  ltb, not, refl, some, suc, sym, take, true, zero, ℕ, ◌&&◌, ◌+◌, ◌∙◌, ◌∷◌, ◌≡◌, ◌≤◌,
}
use iron_ledger.Prelude.Int.{neg_part, pos_part, ℤ, ◌-ℤ◌}
use iron_ledger.Prelude.Result.{Result, Result-cases, err, ok, ok_injective}
use iron_ledger.Prelude.Text.{Text}
use iron_ledger.Projector.{Projection, ProjectorError, SourcedEvent, fetch_after}
use iron_ledger.Projector.Replay.{
  ReplayFrom, ReplayReport, empty_report, first_cursor, replay_batch, replay_events, replay_loop,
}
use iron_ledger.Projector.Replay.Batch.{last_of, outcomes, replay_batch_report, replay_loop_empty}

abbrev pub is_above : ℤ → SourcedEvent → Bool
is_above start e = is_negative (start -ℤ e.cursor)

is_above_lem :
    (start : ℤ) (e : SourcedEvent)
    → is_above start e
      ≡ ltb (pos_part start + neg_part e.cursor) (pos_part e.cursor + neg_part start)
unfolding ◌-ℤ◌
is_above_lem start e = ground arith

pub is_above_trans :
    (start : ℤ) (d e : SourcedEvent)
    → is_above start d ≡ true
    → is_above d.cursor e ≡ true
    → is_above start e ≡ true
is_above_trans start d e h k =
    ground (arith, is_above_lem start d, is_above_lem d.cursor e, is_above_lem start e)

pub is_above_self : (e : SourcedEvent) → is_above e.cursor e ≡ false
is_above_self e = ground (arith, is_above_lem e.cursor e)

abbrev pub count_above : ℤ → List SourcedEvent → ℕ
count_above start log = length (filter (is_above start) log)

-- An event above the start that is not above the cursor.
abbrev is_passed : ℤ → ℤ → SourcedEvent → Bool
is_passed start cursor e = is_above start e && not (is_above cursor e)

abbrev pub IsLater : ℤ → ℤ → Type 0
IsLater start cursor = (e : SourcedEvent) → is_above cursor e ≡ true → is_above start e ≡ true

count_above_le :
    (start cursor : ℤ) (log : List SourcedEvent)
    → IsLater start cursor
    → count_above cursor log ≤ count_above start log
count_above_le start cursor [] h = omega arith
count_above_le start cursor (e ∷ log) h =
    let ih = count_above_le start cursor log h in let over = h e in ground arith

count_above_lt :
    (start cursor : ℤ) (log : List SourcedEvent)
    → IsLater start cursor
    → any (is_passed start cursor) log ≡ true
    → suc (count_above cursor log) ≤ count_above start log
count_above_lt start cursor [] h passed = absurd (ground arith)
count_above_lt start cursor (e ∷ log) h passed =
    let ih = count_above_lt start cursor log h in
    let le = count_above_le start cursor log h in let over = h e in ground arith

any-take-filter :
    (q p : SourcedEvent → Bool) (n : ℕ) (log : List SourcedEvent)
    → any q (take n (filter p log)) ≡ true
    → any q log ≡ true
any-take-filter q p zero log h = absurd (ground arith)
any-take-filter q p (suc n) [] h = absurd (ground arith)
any-take-filter q p (suc n) (e ∷ log) h =
    let less = any-take-filter q p n log in let ih = any-take-filter q p (suc n) log in ground arith

pub all-take-filter :
    (p : SourcedEvent → Bool) (n : ℕ) (log : List SourcedEvent)
    → all p (take n (filter p log)) ≡ true
all-take-filter p zero log = refl
all-take-filter p (suc n) [] = refl
all-take-filter p (suc n) (e ∷ log) =
    let less = all-take-filter p n log in let ih = all-take-filter p (suc n) log in ground arith

last_passed :
    (start : ℤ) (e : SourcedEvent) (batch : List SourcedEvent)
    → all (is_above start) (e ∷ batch) ≡ true
    → IsLater start (last_of start (e ∷ batch))
      × (any (is_passed start (last_of start (e ∷ batch))) (e ∷ batch) ≡ true)
last_passed start e [] h =
    let self = is_above_self e in
    let over = is_above_trans start e in ((λ d above. over d (ground arith) above), ground arith)
last_passed start e (d ∷ batch) h =
    let (later, passed) = last_passed start d batch (ground arith) in (later, ground arith)

pub last-IsLater :
    (start : ℤ) (batch : List SourcedEvent)
    → all (is_above start) batch ≡ true
    → IsLater start (last_of start batch)
last-IsLater start [] h = λ e above. above
last-IsLater start (e ∷ batch) h = (last_passed start e batch h).0

pub fetch_passed :
    (start : ℤ) (n : ℕ) (source : Projection) (e : SourcedEvent) (batch : List SourcedEvent)
    → fetch_after start n source ≡ e ∷ batch
    → suc (count_above (last_of start (e ∷ batch)) source.event_log)
      ≤ count_above start source.event_log
unfolding fetch_after
fetch_passed start n source e batch h =
    let above =
      subst (λ (b : List SourcedEvent). all (is_above start) b ≡ true) h
        (all-take-filter (is_above start) n source.event_log) in
    let (later, passed) = last_passed start e batch above in
    let here =
      subst (λ (b : List SourcedEvent). any (is_passed start (last_of start (e ∷ batch))) b ≡ true)
        (sym h) passed in
    count_above_lt start (last_of start (e ∷ batch)) source.event_log later (
      any-take-filter (is_passed start (last_of start (e ∷ batch))) (is_above start) n
        source.event_log here)

pub count_above_all : (start : ℤ) (log : List SourcedEvent) → count_above start log ≤ length log
count_above_all start [] = omega arith
count_above_all start (e ∷ log) = let ih = count_above_all start log in ground arith

-- The outcome of a replay: an end, with a report that tells every event once.
abbrev pub EndsCounted : Option (Result ProjectorError ReplayReport × Projection) → Type 0
EndsCounted found =
    (out : Result ProjectorError ReplayReport × Projection) × (found ≡ some out)
    × ((report : ReplayReport) → out.0 ≡ ok report → outcomes report ≡ report.scanned)

ends_ok :
    (out : Result ProjectorError ReplayReport × Projection) (next : ReplayReport)
    → out.0 ≡ ok next
    → outcomes next ≡ next.scanned
    → EndsCounted (some out)
ends_ok out next good counted = (
  out,
  refl,
  λ report h.
      subst (λ (x : ReplayReport). outcomes x ≡ x.scanned) (ok_injective (sym good ∙ h)) counted,
)

ends_err :
    (out : Result ProjectorError ReplayReport × Projection) (e : ProjectorError)
    → out.0 ≡ err e
    → EndsCounted (some out)
ends_err out e bad = (out, refl, λ report h. absurd (ground arith))

replay_loop_ends :
    (fuel : ℕ) (consumer : Text) (source : Projection) (n : ℕ) (start : ℤ) (r : ReplayReport)
    (s : Projection)
    → outcomes r ≡ r.scanned
    → suc (count_above start source.event_log) ≤ fuel
    → EndsCounted (replay_loop fuel consumer source n start r s)
replay_loop_ends zero consumer source n start r s counted enough = absurd (omega arith)
replay_loop_ends (suc fuel) consumer source n start r s counted enough =
    elim (List-cases (fetch_after start n source)) [
      | inl nothing ↦
          rw (replay_loop_empty fuel consumer source n start r s nothing)
            (ends_ok (ok r, s) r refl counted)
      | inr (e, batch, fetched) ↦
          let t = (replay_batch consumer (e ∷ batch) r s).1 in
          elim (Result-cases (replay_batch consumer (e ∷ batch) r s).0) [
            | inr (bad, failed) ↦
                rw (replay_loop_stop fuel consumer source n start r s e batch fetched bad failed)
                  (ends_err (replay_batch consumer (e ∷ batch) r s) bad failed)
            | inl (next, done) ↦
                let (a, b, c) = replay_batch_report consumer (e ∷ batch) r next s done in
                elim (Bool-cases (ltb (length (e ∷ batch)) n)) [
                  | inl short ↦
                      rw
                        (replay_loop_short fuel consumer source n start r s e batch fetched next
                          done short)
                        (ends_ok (replay_batch consumer (e ∷ batch) r s) next done (omega arith))
                  | inr full ↦
                      rw
                        (replay_loop_full fuel consumer source n start r s e batch fetched next done
                          full)
                        (replay_loop_ends fuel consumer source n next.last_cursor next t
                          (omega arith)
                          (rw c (
                            let passed = fetch_passed start n source e batch fetched in
                            omega arith)))
                ]
          ]
    ]

-- A replay always ends, whatever the source holds and whatever the batch size, an unordered log
-- and a batch size of zero included, and a report counts each event that it scanned as applied,
-- as a duplicate or as ignored.
pub replay_events_ends :
    (consumer : Text) (source : Projection) (from : ReplayFrom) (batch_size : ℕ) (s : Projection)
    → EndsCounted (replay_events consumer source from batch_size s)
unfolding replay_events
replay_events_ends consumer source from batch_size s =
    let start = first_cursor from in
    let bound = count_above_all start source.event_log in
    replay_loop_ends (suc (length source.event_log)) consumer source batch_size start
      (empty_report start) s refl (omega arith)
