-- ===== src/Projector/Replay/Again.antt =====
-- crates/projector/src/projector.rs: a replay of events that were replayed before.
use mathlib.Core.Path.{subst}
use iron_ledger.Prelude.{
  List, [], all, ap, arith, inl, inr, refl, some, some_injective, suc, sym, true, ℕ, ◌∙◌, ◌∷◌, ◌≡◌,
}
use iron_ledger.Prelude.Result.{Result, Result-cases, ok}
use iron_ledger.Prelude.Text.{Text}
use iron_ledger.Projector.{
  Projection, ProjectorError, SourcedEvent, apply_event, duplicate, ignored,
}
use iron_ledger.Projector.Replay.{
  ReplayFrom, ReplayReport, count_outcome, empty_report, events_after, first_cursor, replay_batch,
  replay_events, scan,
}
use iron_ledger.Projector.Replay.Ascending.{IsAscending}
use iron_ledger.Projector.Replay.Batch.{replay_batch_next, replay_batch_stop}
use iron_ledger.Projector.Replay.Settled.{
  apply_event_keeps, apply_event_ok, apply_event_settled, is_settled,
}
use iron_ledger.Projector.Replay.Whole.{replay_batch_nil, replay_events_whole}

-- What a batch settles stays settled.
replay_batch_keeps :
    (consumer : Text) (sourced : SourcedEvent) (batch : List SourcedEvent) (r : ReplayReport)
    (s : Projection)
    → is_settled consumer s sourced ≡ true
    → is_settled consumer (replay_batch consumer batch r s).1 sourced ≡ true
replay_batch_keeps consumer sourced [] r s h = rw (replay_batch_nil consumer r s) h
replay_batch_keeps consumer sourced (e ∷ batch) r s h =
    let t = (apply_event consumer e.event s).1 in
    let kept = apply_event_keeps consumer sourced e.event s h in
    elim (Result-cases (apply_event consumer e.event s).0) [
      | inr (bad, failed) ↦ rw (replay_batch_stop consumer e batch r s bad failed) kept
      | inl (o, good) ↦
          rw (replay_batch_next consumer e batch r s o good)
            (replay_batch_keeps consumer sourced batch (count_outcome o (scan e r)) t kept)
    ]

replay_batch_settles :
    (consumer : Text) (batch : List SourcedEvent) (r out : ReplayReport) (s : Projection)
    → (replay_batch consumer batch r s).0 ≡ ok out
    → all (is_settled consumer (replay_batch consumer batch r s).1) batch ≡ true
replay_batch_settles consumer [] r out s h = refl
replay_batch_settles consumer (e ∷ batch) r out s h =
    let t = (apply_event consumer e.event s).1 in
    elim (Result-cases (apply_event consumer e.event s).0) [
      | inr (bad, failed) ↦
          absurd (let stop = replay_batch_stop consumer e batch r s bad failed in cc)
      | inl (o, good) ↦
          let r2 = count_outcome o (scan e r) in
          let next = replay_batch_next consumer e batch r s o good in
          let first =
            replay_batch_keeps consumer e batch r2 t (apply_event_ok consumer e s o good) in
          let rest = replay_batch_settles consumer batch r2 out t (rw next at h) in
          subst
            (λ (result : Result ProjectorError ReplayReport × Projection).
              all (is_settled consumer result.1) (e ∷ batch) ≡ true)
            (sym next) (ground arith)
    ]

-- A report in which nothing new was applied.
abbrev pub AppliesNothing :
    ReplayReport → Projection → Result ProjectorError ReplayReport × Projection → Type 0
AppliesNothing r s result =
    (out : ReplayReport) × (result ≡ (ok out, s)) × (out.applied ≡ r.applied)

replay_batch_settled :
    (consumer : Text) (batch : List SourcedEvent) (r : ReplayReport) (s : Projection)
    → all (is_settled consumer s) batch ≡ true
    → AppliesNothing r s (replay_batch consumer batch r s)
replay_batch_settled consumer [] r s h = (r, replay_batch_nil consumer r s, refl)
replay_batch_settled consumer (e ∷ batch) r s h =
    elim (apply_event_settled consumer e.event s (ground arith)) [
      | inl seen ↦
          let (out, ends, count) =
            replay_batch_settled consumer batch (count_outcome duplicate (scan e r)) s
              (ground arith) in
          (
            out,
            rw (replay_batch_next consumer e batch r s duplicate (rw seen refl), seen) ends,
            count,
          )
      | inr skipped ↦
          let (out, ends, count) =
            replay_batch_settled consumer batch (count_outcome ignored (scan e r)) s
              (ground arith) in
          (
            out,
            rw (replay_batch_next consumer e batch r s ignored (rw skipped refl), skipped) ends,
            count,
          )
    ]

-- Over a log with ascending cursors, a replay that succeeded can be repeated from the same start,
-- with any positive batch size: it succeeds again, applies nothing, and leaves the projection as
-- the first left it.
pub replay_events_again :
    (consumer : Text) (source : Projection) (from : ReplayFrom) (n m : ℕ) (s t : Projection)
    (report : ReplayReport)
    → IsAscending source.event_log
    → replay_events consumer source from (suc n) s ≡ some (ok report, t)
    → (again : ReplayReport) × (replay_events consumer source from (suc m) t ≡ some (ok again, t))
      × (again.applied ≡ 0)
replay_events_again consumer source from n m s t report sorted done =
    let start = first_cursor from in
    let batch = events_after start source in
    let one = replay_batch consumer batch (empty_report start) s in
    let first : one ≡ (ok report, t) =
      some_injective (sym (replay_events_whole consumer source from n s sorted) ∙ done) in
    let settled =
      subst
        (λ (result : Result ProjectorError ReplayReport × Projection).
          all (is_settled consumer result.1) batch ≡ true)
        first (replay_batch_settles consumer batch (empty_report start) report s (rw first refl)) in
    let (again, ends, count) = replay_batch_settled consumer batch (empty_report start) t settled in
    (again, replay_events_whole consumer source from m t sorted ∙ ap some ends, count)
