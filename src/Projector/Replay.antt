-- ===== src/Projector/Replay.antt =====
-- crates/projector/src/projector.rs: the loop of `Projector::replay` over the in-memory source.
pub mod Batch
pub mod Ends
pub mod Ascending
pub mod Whole
pub mod Settled
pub mod Again
use iron_ledger.Domain.Amount.{is_negative}
use iron_ledger.Prelude.{
  List, Option, [], false, filter, length, ltb, none, some, suc, true, zero, ℕ, ◌+◌, ◌==◌, ◌∷◌,
}
use iron_ledger.Prelude.Int.{pos, ℤ, ◌-ℤ◌}
use iron_ledger.Prelude.Result.{Result, err, ok}
use iron_ledger.Prelude.Text.{Text}
use iron_ledger.Projector.{
  ApplyOutcome, Projection, ProjectorError, SourcedEvent, applied, apply_event, duplicate,
  fetch_after, ignored,
}

pub data ReplayFrom : Type 0 where
  after_cursor : ℤ → ReplayFrom
  beginning : ReplayFrom

-- The counters are below the length of the log, so that `u64` does not wrap.
pub record ReplayReport : Type 0 where
  pub scanned : ℕ
  pub applied : ℕ
  pub duplicates : ℕ
  pub ignored : ℕ
  pub last_cursor : ℤ

abbrev pub first_cursor : ReplayFrom → ℤ
first_cursor beginning = pos 0
first_cursor (after_cursor cursor) = cursor

abbrev pub empty_report : ℤ → ReplayReport
empty_report start = record {
  scanned = 0;
  applied = 0;
  duplicates = 0;
  ignored = 0;
  last_cursor = start;
}

abbrev pub count_outcome : ApplyOutcome → ReplayReport → ReplayReport
count_outcome applied r = record r { applied = r.applied + 1 }
count_outcome duplicate r = record r { duplicates = r.duplicates + 1 }
count_outcome ignored r = record r { ignored = r.ignored + 1 }

abbrev pub scan : SourcedEvent → ReplayReport → ReplayReport
scan sourced r = record r { scanned = r.scanned + 1; last_cursor = sourced.cursor }

-- The `for` loop over one batch.
unfoldable pub replay_batch :
    Text
    → List SourcedEvent
    → ReplayReport
    → Projection
    → Result ProjectorError ReplayReport × Projection
replay_batch consumer [] report s = (ok report, s)
replay_batch consumer (sourced ∷ batch) report s =
    let (outcome, t) = apply_event consumer sourced.event s in
    elim outcome [
      | ok o ↦ replay_batch consumer batch (count_outcome o (scan sourced report)) t
      | err e ↦ (err e, t)
    ]

-- The `loop`, which stops at a batch that is empty or short; none when the fuel runs out.
unfoldable pub replay_loop :
    ℕ
    → Text
    → Projection
    → ℕ
    → ℤ
    → ReplayReport
    → Projection
    → Option (Result ProjectorError ReplayReport × Projection)
replay_loop zero consumer source batch_size start report s = none
replay_loop (suc fuel) consumer source batch_size start report s =
    let batch = fetch_after start batch_size source in
    elim (length batch == 0) [
      | true ↦ some (ok report, s)
      | false ↦
          let (outcome, t) = replay_batch consumer batch report s in
          elim outcome [
            | err e ↦ some (err e, t)
            | ok next ↦ elim (ltb (length batch) batch_size) [
              | true ↦ some (ok next, t)
              | false ↦ replay_loop fuel consumer source batch_size next.last_cursor next t
            ]
          ]
    ]

-- The events of the log that `fetch_after` chooses from.
abbrev pub events_after : ℤ → Projection → List SourcedEvent
events_after start source = filter (λ e. is_negative (start -ℤ e.cursor)) source.event_log

-- `Projector::replay`, with one round for each event of the log and one more.
unfoldable pub replay_events :
    Text
    → Projection
    → ReplayFrom
    → ℕ
    → Projection
    → Option (Result ProjectorError ReplayReport × Projection)
unfolding replay_loop
replay_events consumer source from batch_size s =
    replay_loop (suc (length source.event_log)) consumer source batch_size (first_cursor from)
      (empty_report (first_cursor from)) s
