-- ===== src/Projector/Replay/Ascending.antt =====
-- crates/projector/src/projector.rs: the batches of an ordered log.
use iron_ledger.Prelude.{
  Bool, Bool-cases, List, [], all, arith, drop, false, filter, inl, inr, length, ltb, refl, suc,
  sym, take, true, zero, ℕ, ◌++◌, ◌∙◌, ◌∷◌, ◌≡◌, ◌≤◌,
}
use iron_ledger.Prelude.Int.{ℤ}
use iron_ledger.Projector.{Projection, SourcedEvent, fetch_after}
use iron_ledger.Projector.Replay.{events_after}
use iron_ledger.Projector.Replay.Batch.{last_of}
use iron_ledger.Projector.Replay.Ends.{
  all-take-filter, is_above, is_above_self, is_above_trans, last-IsLater,
}

-- The order in which a durable log hands out its cursors.
abbrev pub IsAscending : List SourcedEvent → Type 0
IsAscending [] = Unit
IsAscending (e ∷ log) = (all (is_above e.cursor) log ≡ true) × IsAscending log

filter-all :
    (p : SourcedEvent → Bool) (log : List SourcedEvent) → all p log ≡ true → filter p log ≡ log
filter-all p [] h = refl
filter-all p (e ∷ log) h = let ih = filter-all p log in ground arith

all-above_trans :
    (start : ℤ) (d : SourcedEvent) (log : List SourcedEvent)
    → is_above start d ≡ true
    → all (is_above d.cursor) log ≡ true
    → all (is_above start) log ≡ true
all-above_trans start d [] h k = refl
all-above_trans start d (e ∷ log) h k =
    let ih = all-above_trans start d log h in let over = is_above_trans start d e h in ground arith

module _ (p : SourcedEvent → Bool) where
  all-take : (n : ℕ) (log : List SourcedEvent) → all p log ≡ true → all p (take n log) ≡ true
  all-take zero log h = refl
  all-take (suc n) [] h = refl
  all-take (suc n) (e ∷ log) h = let ih = all-take n log in ground arith

  all-filter :
      (q : SourcedEvent → Bool) (log : List SourcedEvent)
      → all p log ≡ true
      → all p (filter q log) ≡ true
  all-filter q [] h = refl
  all-filter q (e ∷ log) h = let ih = all-filter q log in ground arith

-- In an ascending log, the events after a cursor of a batch are the log without the batch.
filter-last :
    (start : ℤ) (n : ℕ) (log : List SourcedEvent)
    → IsAscending log
    → length (take (suc n) log) ≡ suc n
    → filter (is_above (last_of start (take (suc n) log))) log ≡ drop (suc n) log
filter-last start n [] sorted full = absurd (omega arith)
filter-last start zero (e ∷ log) sorted full =
    let rest = filter-all (is_above e.cursor) log sorted.0 in
    let self = is_above_self e in ground arith
filter-last start (suc n) (e ∷ log) sorted full =
    let ih = filter-last e.cursor n log sorted.1 (omega arith) in
    let later =
      last-IsLater e.cursor (take (suc n) log) (all-take (is_above e.cursor) (suc n) log sorted.0)
        e in
    let self = is_above_self e in
    let last = last_of e.cursor (take (suc n) log) in
    elim (Bool-cases (is_above last e)) [
      | inl over ↦ absurd (let bad = later over in ground arith)
      | inr passed ↦ ground arith
    ]

filter-filter :
    (start cursor : ℤ) (log : List SourcedEvent)
    → ((e : SourcedEvent) → is_above cursor e ≡ true → is_above start e ≡ true)
    → filter (is_above cursor) (filter (is_above start) log) ≡ filter (is_above cursor) log
filter-filter start cursor [] later = refl
filter-filter start cursor (e ∷ log) later =
    let ih = filter-filter start cursor log later in let over = later e in ground arith

filter-IsAscending :
    (start : ℤ) (log : List SourcedEvent)
    → IsAscending log
    → IsAscending (filter (is_above start) log)
filter-IsAscending start [] sorted = tt
filter-IsAscending start (e ∷ log) sorted =
    let ih = filter-IsAscending start log sorted.1 in
    let kept = all-filter (is_above e.cursor) (is_above start) log sorted.0 in
    elim (Bool-cases (is_above start e)) [
      | inl over ↦ rw over (kept, ih)
      | inr passed ↦ rw passed ih
    ]

pub fetch_after_whole :
    (start : ℤ) (n : ℕ) (source : Projection)
    → fetch_after start n source ≡ take n (events_after start source)
unfolding fetch_after
fetch_after_whole start n source = refl

pub take-drop : (n : ℕ) (log : List SourcedEvent) → take n log ++ drop n log ≡ log
take-drop zero log = refl
take-drop (suc n) [] = refl
take-drop (suc n) (e ∷ log) = let ih = take-drop n log in cc

pub take-short :
    (n : ℕ) (log : List SourcedEvent) → ltb (length (take n log)) n ≡ true → take n log ≡ log
take-short zero log h = absurd (ground arith)
take-short (suc n) [] h = refl
take-short (suc n) (e ∷ log) h = let ih = take-short n log in ground arith

length-take : (n : ℕ) (log : List SourcedEvent) → length (take n log) ≤ n
length-take zero log = omega arith
length-take (suc n) [] = omega arith
length-take (suc n) (e ∷ log) = omega (arith, length-take n log)

-- What is left of an ascending log after a full batch.
pub events_after_batch :
    (start : ℤ) (n : ℕ) (source : Projection)
    → IsAscending source.event_log
    → ltb (length (take (suc n) (events_after start source))) (suc n) ≡ false
    → events_after (last_of start (take (suc n) (events_after start source))) source
      ≡ drop (suc n) (events_after start source)
events_after_batch start n source sorted full =
    let log = source.event_log in
    let batch = take (suc n) (events_after start source) in
    let at_most = length-take (suc n) (events_after start source) in
    let later = last-IsLater start batch (all-take-filter (is_above start) (suc n) log) in
    let same_rest = filter-filter start (last_of start batch) log later in
    let rest =
      filter-last start n (events_after start source) (filter-IsAscending start log sorted)
        (ground arith) in
    sym same_rest ∙ rest

take-nothing : (n : ℕ) (log : List SourcedEvent) → take (suc n) log ≡ [] → log ≡ []
take-nothing n [] h = refl
take-nothing n (e ∷ log) h = absurd (ground arith)
