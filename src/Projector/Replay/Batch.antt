-- ===== src/Projector/Replay/Batch.antt =====
-- crates/projector/src/projector.rs: what one batch of `Projector::replay` leaves in the report.
use iron_ledger.Prelude.{
  List, [], arith, false, inl, inr, length, ltb, refl, some, suc, sym, true, ℕ, ◌++◌, ◌+◌, ◌∷◌, ◌≡◌,
}
use iron_ledger.Prelude.Int.{ℤ}
use iron_ledger.Prelude.Result.{Result-cases, err, ok}
use iron_ledger.Prelude.Text.{Text}
use iron_ledger.Projector.{
  ApplyOutcome, Projection, ProjectorError, SourcedEvent, applied, apply_event, duplicate,
  fetch_after, ignored,
}
use iron_ledger.Projector.Replay.{ReplayReport, count_outcome, replay_batch, replay_loop, scan}

-- The cursor that the report holds after a batch.
abbrev pub last_of : ℤ → List SourcedEvent → ℤ
last_of start [] = start
last_of start (sourced ∷ batch) = last_of sourced.cursor batch

abbrev pub outcomes : ReplayReport → ℕ
outcomes r = r.applied + r.duplicates + r.ignored

pub replay_batch_next :
    (consumer : Text) (sourced : SourcedEvent) (batch : List SourcedEvent) (r : ReplayReport)
    (s : Projection) (o : ApplyOutcome)
    → (apply_event consumer sourced.event s).0 ≡ ok o
    → replay_batch consumer (sourced ∷ batch) r s
      ≡ replay_batch consumer batch
          (count_outcome o (scan sourced r))
          (apply_event consumer sourced.event s).1
unfolding replay_batch
replay_batch_next consumer sourced batch r s o h = ground arith

pub replay_batch_stop :
    (consumer : Text) (sourced : SourcedEvent) (batch : List SourcedEvent) (r : ReplayReport)
    (s : Projection) (e : ProjectorError)
    → (apply_event consumer sourced.event s).0 ≡ err e
    → replay_batch consumer (sourced ∷ batch) r s
      ≡ (err e, (apply_event consumer sourced.event s).1)
unfolding replay_batch
replay_batch_stop consumer sourced batch r s e h = ground arith

count_outcome-scan :
    (o : ApplyOutcome) (sourced : SourcedEvent) (r : ReplayReport)
    → ((count_outcome o (scan sourced r)).scanned ≡ r.scanned + 1)
      × (outcomes (count_outcome o (scan sourced r)) ≡ outcomes r + 1)
      × ((count_outcome o (scan sourced r)).last_cursor ≡ sourced.cursor)
count_outcome-scan applied sourced r = (refl, omega arith, refl)
count_outcome-scan duplicate sourced r = (refl, omega arith, refl)
count_outcome-scan ignored sourced r = (refl, omega arith, refl)

replay_batch_nil :
    (consumer : Text) (r out : ReplayReport) (s : Projection)
    → (replay_batch consumer [] r s).0 ≡ ok out
    → r ≡ out
unfolding replay_batch
replay_batch_nil consumer r out s h = cc

pub replay_batch_report :
    (consumer : Text) (batch : List SourcedEvent) (r out : ReplayReport) (s : Projection)
    → (replay_batch consumer batch r s).0 ≡ ok out
    → (out.scanned ≡ r.scanned + length batch)
      × (outcomes out ≡ outcomes r + length batch)
      × (out.last_cursor ≡ last_of r.last_cursor batch)
replay_batch_report consumer [] r out s h =
    let same_report = replay_batch_nil consumer r out s h in
    rw (sym same_report) (omega arith, omega arith, refl)
replay_batch_report consumer (sourced ∷ batch) r out s h =
    elim (Result-cases (apply_event consumer sourced.event s).0) [
      | inr (e, bad) ↦ absurd (let stop = replay_batch_stop consumer sourced batch r s e bad in cc)
      | inl (o, good) ↦
          let t = (apply_event consumer sourced.event s).1 in
          let next = replay_batch_next consumer sourced batch r s o good in
          let (a, b, c) = count_outcome-scan o sourced r in
          let (d, f, g) =
            replay_batch_report consumer batch (count_outcome o (scan sourced r)) out t
              (rw next at h) in
          (omega arith, omega arith, rw (g, c) refl)
    ]

pub replay_batch-append :
    (consumer : Text) (xs ys : List SourcedEvent) (r : ReplayReport) (s : Projection)
    → ((e : ProjectorError)
        → (replay_batch consumer xs r s).0 ≡ err e
        → replay_batch consumer (xs ++ ys) r s ≡ replay_batch consumer xs r s)
      × ((out : ReplayReport)
          → (replay_batch consumer xs r s).0 ≡ ok out
          → replay_batch consumer (xs ++ ys) r s
            ≡ replay_batch consumer ys out (replay_batch consumer xs r s).1)
replay_batch-append consumer [] ys r s = unfold replay_batch in ground arith
replay_batch-append consumer (x ∷ xs) ys r s =
    elim (Result-cases (apply_event consumer x.event s).0) [
      | inr (e, bad) ↦
          let one = replay_batch_stop consumer x xs r s e bad in
          let both = replay_batch_stop consumer x (xs ++ ys) r s e bad in
          rw (one, both) ((λ _ _. refl), (λ out h. absurd (ground arith)))
      | inl (o, good) ↦
          let one = replay_batch_next consumer x xs r s o good in
          let both = replay_batch_next consumer x (xs ++ ys) r s o good in
          rw (one, both)
            (replay_batch-append consumer xs ys (count_outcome o (scan x r))
              (apply_event consumer x.event s).1)
    ]

-- The rounds of the loop, by what the source gives and what the batch ends with.
module _ (fuel : ℕ) (consumer : Text) (source : Projection) (n : ℕ) (start : ℤ) (r : ReplayReport)
    (s : Projection) where
  pub replay_loop_empty :
      fetch_after start n source ≡ []
      → replay_loop (suc fuel) consumer source n start r s ≡ some (ok r, s)
  unfolding replay_loop
  replay_loop_empty none_left = ground arith

  module _ (e : SourcedEvent) (batch : List SourcedEvent)
      (fetched : fetch_after start n source ≡ e ∷ batch) where
    pub replay_loop_stop :
        (bad : ProjectorError)
        → (replay_batch consumer (e ∷ batch) r s).0 ≡ err bad
        → replay_loop (suc fuel) consumer source n start r s
          ≡ some (replay_batch consumer (e ∷ batch) r s)
    unfolding replay_loop
    replay_loop_stop bad h = ground arith

    pub replay_loop_short :
        (next : ReplayReport)
        → (replay_batch consumer (e ∷ batch) r s).0 ≡ ok next
        → ltb (length (e ∷ batch)) n ≡ true
        → replay_loop (suc fuel) consumer source n start r s
          ≡ some (replay_batch consumer (e ∷ batch) r s)
    unfolding replay_loop
    replay_loop_short next h short = ground arith

    pub replay_loop_full :
        (next : ReplayReport)
        → (replay_batch consumer (e ∷ batch) r s).0 ≡ ok next
        → ltb (length (e ∷ batch)) n ≡ false
        → replay_loop (suc fuel) consumer source n start r s
          ≡ replay_loop fuel consumer source n next.last_cursor next
              (replay_batch consumer (e ∷ batch) r s).1
    unfolding replay_loop
    replay_loop_full next h full = ground arith
