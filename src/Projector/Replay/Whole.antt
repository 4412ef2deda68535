-- ===== src/Projector/Replay/Whole.antt =====
-- crates/projector/src/projector.rs: a replay in batches against one pass over the log.
use iron_ledger.Projector.Replay.Batch.{replay_loop_full}
use iron_ledger.Projector.Replay.Batch.{replay_loop_short}
use iron_ledger.Projector.Replay.Batch.{replay_loop_stop}
use mathlib.Core.Path.{subst}
use iron_ledger.Prelude.{
  Bool-cases, List, List-cases, Option, [], ap, arith, drop, false, inl, inr, length, ltb, refl,
  some, suc, sym, take, true, zero, ℕ, ◌++◌, ◌∙◌, ◌∷◌, ◌≡◌, ◌≤◌,
}
use iron_ledger.Prelude.Int.{ℤ}
use iron_ledger.Prelude.Result.{Result, Result-cases, ok}
use iron_ledger.Prelude.Text.{Text}
use iron_ledger.Projector.{Projection, ProjectorError, SourcedEvent, fetch_after}
use iron_ledger.Projector.Replay.{
  ReplayFrom, ReplayReport, empty_report, events_after, first_cursor, replay_batch, replay_events,
  replay_loop,
}
use iron_ledger.Projector.Replay.Ascending.{
  IsAscending, events_after_batch, fetch_after_whole, take-drop, take-short,
}
use iron_ledger.Projector.Replay.Batch.{
  last_of, replay_batch-append, replay_batch_report, replay_loop_empty,
}
use iron_ledger.Projector.Replay.Ends.{count_above, count_above_all, fetch_passed}

pub replay_batch_nil :
    (consumer : Text) (r : ReplayReport) (s : Projection) → replay_batch consumer [] r s ≡ (ok r, s)
unfolding replay_batch
replay_batch_nil consumer r s = refl

-- A batch and what is left after it are the events after the start.
module _ (start : ℤ) (n : ℕ) (source : Projection) (batch : List SourcedEvent)
    (fetched : fetch_after start (suc n) source ≡ batch) where
  batch_taken : take (suc n) (events_after start source) ≡ batch
  batch_taken = sym (fetch_after_whole start (suc n) source) ∙ fetched

  batch_short : ltb (length batch) (suc n) ≡ true → batch ≡ events_after start source
  batch_short short =
      sym batch_taken
      ∙ take-short (suc n) (events_after start source)
          (subst (λ (b : List SourcedEvent). ltb (length b) (suc n) ≡ true) (sym batch_taken) short)

  batch_rest : batch ++ drop (suc n) (events_after start source) ≡ events_after start source
  batch_rest =
      subst
        (λ (b : List SourcedEvent).
          b ++ drop (suc n) (events_after start source) ≡ events_after start source)
        batch_taken (take-drop (suc n) (events_after start source))

  batch_left :
      IsAscending source.event_log
      → ltb (length batch) (suc n) ≡ false
      → events_after (last_of start batch) source ≡ drop (suc n) (events_after start source)
  batch_left sorted =
      subst
        (λ (b : List SourcedEvent).
          ltb (length b) (suc n) ≡ false
          → events_after (last_of start b) source ≡ drop (suc n) (events_after start source))
        batch_taken (events_after_batch start n source sorted)

-- One pass over a list of events.
abbrev pass :
    Text
    → ReplayReport
    → Projection
    → List SourcedEvent
    → Option (Result ProjectorError ReplayReport × Projection)
pass consumer r s batch = some (replay_batch consumer batch r s)

replay_loop_whole :
    (fuel : ℕ) (consumer : Text) (source : Projection) (n : ℕ) (start : ℤ) (r : ReplayReport)
    (s : Projection)
    → IsAscending source.event_log
    → suc (count_above start source.event_log) ≤ fuel
    → replay_loop fuel consumer source (suc n) start r s
      ≡ pass consumer r s (events_after start source)
replay_loop_whole zero consumer source n start r s sorted enough = absurd (omega arith)
replay_loop_whole (suc fuel) consumer source n start r s sorted enough =
    let run = pass consumer r s in
    elim (List-cases (fetch_after start (suc n) source)) [
      | inl nothing ↦
          replay_loop_empty fuel consumer source (suc n) start r s nothing
          ∙ ap some (sym (replay_batch_nil consumer r s))
          ∙ ap run (batch_short start n source [] nothing (ground arith))
      | inr (e, batch, fetched) ↦
          let (result, t) = replay_batch consumer (e ∷ batch) r s in
          let rest = drop (suc n) (events_after start source) in
          let (failing, going) = replay_batch-append consumer (e ∷ batch) rest r s in
          let joined = ap run (batch_rest start n source (e ∷ batch) fetched) in
          elim (Result-cases result) [
            | inr (bad, failed) ↦
                replay_loop_stop fuel consumer source (suc n) start r s e batch fetched bad failed
                ∙ ap some (sym (failing bad failed))
                ∙ joined
            | inl (next, good) ↦ elim (Bool-cases (ltb (length (e ∷ batch)) (suc n))) [
              | inl short ↦
                  replay_loop_short fuel consumer source (suc n) start r s e batch fetched next good
                    short
                  ∙ ap run (batch_short start n source (e ∷ batch) fetched short)
              | inr full ↦
                  let (_, _, last) = replay_batch_report consumer (e ∷ batch) r next s good in
                  let passed = fetch_passed start (suc n) source e batch fetched in
                  let left =
                    ap (λ (c : ℤ). events_after c source) last
                    ∙ batch_left start n source (e ∷ batch) fetched sorted full in
                  replay_loop_full fuel consumer source (suc n) start r s e batch fetched next good
                    full
                  ∙ replay_loop_whole fuel consumer source n next.last_cursor next t sorted
                      (rw last (omega arith))
                  ∙ ap (pass consumer next t) left
                  ∙ ap some (sym (going next good))
                  ∙ joined
            ]
          ]
    ]

-- Over a log with ascending cursors, a replay with any positive batch size does what one pass over
-- the events after its start does: each of them is handed to the projection once and in order, up to
-- the first that fails.
pub replay_events_whole :
    (consumer : Text) (source : Projection) (from : ReplayFrom) (n : ℕ) (s : Projection)
    → IsAscending source.event_log
    → replay_events consumer source from (suc n) s
      ≡ some (
          replay_batch consumer
            (events_after (first_cursor from) source)
            (empty_report (first_cursor from))
            s)
unfolding replay_events
replay_events_whole consumer source from n s sorted =
    let start = first_cursor from in
    let bound = count_above_all start source.event_log in
    replay_loop_whole (suc (length source.event_log)) consumer source n start (empty_report start) s
      sorted (omega arith)
