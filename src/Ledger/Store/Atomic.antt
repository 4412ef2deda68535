-- ===== src/Ledger/Store/Atomic.antt =====
-- The two halves of a commit, and its errors (`LedgerRepo::commit` of crates/ledger/src/memory.rs).
use iron_ledger.Domain.Ids.{Timestamp}
use iron_ledger.Ledger.Error.{LedgerError}
use iron_ledger.Ledger.Idempotency.{IdempotencyRecord}
use iron_ledger.Ledger.Port.{CommitOutcome, JournalCommit, committed, duplicate_idempotency_key}
use iron_ledger.Ledger.Store.{State, record_events, record_key, record_order}
use iron_ledger.Ledger.Store.Commit.{apply_postings, commit_entry, finish_commit}
use iron_ledger.Ledger.Store.Frame.{SameButBalances, apply_postings_frame}
use iron_ledger.Prelude.{Option, Option-cases, [], ap, arith, inl, inr, none, some, ◌++◌, ◌∷◌, ◌≡◌}
use iron_ledger.Prelude.Map.{get, insert, remove-insert}
use iron_ledger.Prelude.Result.{Result, Result-cases, err, ok}

-- The state with the idempotency record of a commit.
abbrev pub with_record : IdempotencyRecord → State → State
with_record r s = record s { idempotency = insert record_order (record_key r) r s.idempotency }

abbrev pub used : IdempotencyRecord → State → Option IdempotencyRecord
used r s = get record_order (record_key r) s.idempotency

finish_commit_undo :
    (commit : JournalCommit) (s : State) (e : LedgerError)
    (x : Result LedgerError (Unit {0}) × State)
    → used commit.idempotency s ≡ none
    → SameButBalances (with_record commit.idempotency s) x.1
    → (finish_commit commit s.balances x).0 ≡ err e
    → (finish_commit commit s.balances x).1 ≡ s
unfolding finish_commit
finish_commit_undo commit s e (err d, t) absent frame h = ground (
  arith,
  remove-insert record_order (record_key commit.idempotency) commit.idempotency s.idempotency,
)
finish_commit_undo commit s e (ok u, t) absent frame h = cc

-- A commit under an unused key, in its two halves.
pub commit_entry_unused :
    (now : Timestamp) (commit : JournalCommit) (s : State)
    → used commit.idempotency s ≡ none
    → commit_entry now commit s
      ≡ finish_commit commit s.balances
          (apply_postings now commit.entry.postings (with_record commit.idempotency s))
unfolding commit_entry
commit_entry_unused now commit s absent = ground arith

-- A commit under a used key reports the duplicate and changes nothing.
pub commit_entry-used :
    (now : Timestamp) (commit : JournalCommit) (s : State) (r : IdempotencyRecord)
    → used commit.idempotency s ≡ some r
    → commit_entry now commit s ≡ (ok duplicate_idempotency_key, s)
unfolding commit_entry
commit_entry-used now commit s r present = ground arith

-- A commit that returns an error has changed nothing: balances, idempotency records, entries and
-- outbox are those of before, also where some postings had been applied.
pub commit_entry_atomic :
    (now : Timestamp) (commit : JournalCommit) (s : State) (e : LedgerError)
    → (commit_entry now commit s).0 ≡ err e
    → (commit_entry now commit s).1 ≡ s
commit_entry_atomic now commit s e h = elim (Option-cases (used commit.idempotency s)) [
  | inl absent ↦ rw (commit_entry_unused now commit s absent) (
      finish_commit_undo commit s e
        (apply_postings now commit.entry.postings (with_record commit.idempotency s)) absent
        (apply_postings_frame now commit.entry.postings (with_record commit.idempotency s))
        (rw (commit_entry_unused now commit s absent) at h))
  | inr (r, present) ↦
      ap (λ (x : Result LedgerError CommitOutcome × State). x.1)
        (commit_entry-used now commit s r present)
]

-- The state in which the postings of a commit were applied.
abbrev pub applied_state : Timestamp → JournalCommit → State → State
applied_state now commit s =
    (apply_postings now commit.entry.postings (with_record commit.idempotency s)).1

-- A commit under an unused key that succeeds has applied its postings, and then appends the entry
-- and enqueues the events.
pub commit_entry_done :
    (now : Timestamp) (commit : JournalCommit) (s : State) (outcome : CommitOutcome)
    → used commit.idempotency s ≡ none
    → (commit_entry now commit s).0 ≡ ok outcome
    → ((apply_postings now commit.entry.postings (with_record commit.idempotency s)).0 ≡ ok tt)
      × (commit_entry now commit s ≡ (
        ok committed,
        record_events commit.events (record (applied_state now commit s) {
          entries = (applied_state now commit s).entries ++ commit.entry ∷ [];
        }),
      ))
unfolding finish_commit
commit_entry_done now commit s outcome absent h =
    let step = commit_entry_unused now commit s absent in
    elim (Result-cases
      (apply_postings now commit.entry.postings (with_record commit.idempotency s)).0) [
        | inl (u, good) ↦ (good, ground (arith, step))
        | inr (e, bad) ↦ absurd (ground (arith, step))
      ]
