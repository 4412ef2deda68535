-- ===== src/Ledger/Store/Reach.antt =====
-- The states that the operations of the in-memory adapter can reach.
use iron_ledger.Domain.Ids.{Timestamp}
use iron_ledger.Domain.Journal.{validate_balanced}
use iron_ledger.Ledger.Port.{AccountCommit, JournalCommit}
use iron_ledger.Ledger.Store.{State, empty_state}
use iron_ledger.Ledger.Store.Accounts.{create_account}
use iron_ledger.Ledger.Store.Commit.{commit_entry}
use iron_ledger.Ledger.Store.Opening.{create_account-IsSound}
use iron_ledger.Ledger.Store.Outbox.{claim, mark_failed, mark_published}
use iron_ledger.Ledger.Store.Queries.{purge_created_before}
use iron_ledger.Ledger.Store.Sound.{
  IsSound, SameBooks, SameBooks-IsSound, commit_entry-IsSound, empty_state-IsSound,
}
use iron_ledger.Prelude.{List, none, refl, ℕ, ◌≡◌}
use iron_ledger.Prelude.Map.{get}
use iron_ledger.Prelude.Order.{nat_order}
use iron_ledger.Prelude.Result.{Result, err, ok}
use iron_ledger.Prelude.Text.{Text}

-- A step of the adapter. Entries are those that `JournalEntry::new` accepts, and identifiers of new
-- accounts are unused.
pub data Step : State → State → Type 0 where
  posts :
      (now : Timestamp) (c : JournalCommit) (s : State)
      → validate_balanced c.entry.postings ≡ ok tt
      → Step s (commit_entry now c s).1
  opens :
      (c : AccountCommit) (s : State)
      → get nat_order c.account.id s.accounts ≡ none
      → Step s (create_account c s).1
  leases :
      (limit : ℕ) (duration : Result Text ℕ) (now : Timestamp) (s : State)
      → Step s (claim limit duration now s).1
  publishes : (ids : List ℕ) (now : Timestamp) (s : State) → Step s (mark_published ids now s).1
  fails : (id : ℕ) (error : Text) (s : State) → Step s (mark_failed id error s)
  purges : (cutoff : Timestamp) (s : State) → Step s (purge_created_before cutoff s).1

-- The states that a sequence of steps reaches from the empty store.
pub data Reach : State → Type 0 where
  initially : Reach empty_state
  after : {s t : State} → Reach s → Step s t → Reach t

pub claim-SameBooks :
    (limit : ℕ) (duration : Result Text ℕ) (now : Timestamp) (s : State)
    → SameBooks s (claim limit duration now s).1
unfolding claim
claim-SameBooks limit (err e) now s = (refl, refl, refl)
claim-SameBooks limit (ok d) now s = (refl, refl, refl)

Step-IsSound : {s t : State} → Step s t → IsSound s → IsSound t
unfolding mark_published mark_failed purge_created_before
Step-IsSound (posts now c s balanced) h = commit_entry-IsSound now c s balanced h
Step-IsSound (opens c s fresh) h = create_account-IsSound c s fresh h
Step-IsSound (leases limit duration now s) h =
    SameBooks-IsSound s _ (claim-SameBooks limit duration now s) h
Step-IsSound (publishes ids now s) h = SameBooks-IsSound s _ (refl, refl, refl) h
Step-IsSound (fails id error s) h = SameBooks-IsSound s _ (refl, refl, refl) h
Step-IsSound (purges cutoff s) h = SameBooks-IsSound s _ (refl, refl, refl) h

-- In every state that commits of balanced entries, openings of accounts under unused identifiers,
-- and outbox and purge operations can reach, in any order and with any failures: no account under
-- the non-negative policy is below zero, nothing is booked on an unknown account, the balances of
-- every asset sum to zero, and every balance is the sum of its postings in the journal.
pub Reach-IsSound : {s : State} → Reach s → IsSound s
Reach-IsSound initially = empty_state-IsSound
Reach-IsSound (after r step) = Step-IsSound step (Reach-IsSound r)
