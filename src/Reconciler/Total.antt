-- ===== src/Reconciler/Total.antt =====
-- Rebuilding the journal of a reachable ledger (`rebuild` of crates/reconciler/src/reconciler.rs).
use mathlib.Core.Path.{subst}
use iron_ledger.Domain.Amount.{AtomicAmount, checked_add}
use iron_ledger.Domain.Amount.Exact.{checked_add-eq}
use iron_ledger.Domain.Ids.{Timestamp}
use iron_ledger.Domain.Journal.{JournalEntry, Posting}
use iron_ledger.Domain.Journal.Slots.{amount_in, amount_in-insert}
use iron_ledger.Domain.Journal.Sums.{BalanceKey, key_of, key_order}
use iron_ledger.Ledger.Port.{AccountCommit, JournalCommit}
use iron_ledger.Ledger.Store.{State}
use iron_ledger.Ledger.Store.Accounts.{create_account, seed_account}
use iron_ledger.Ledger.Store.Applied.{amount_at, apply_posting-IsApplied, posting_amount}
use iron_ledger.Ledger.Store.Atomic.{
  applied_state, commit_entry-used, commit_entry_atomic, commit_entry_done, used, with_record,
}
use iron_ledger.Ledger.Store.Commit.{apply_posting, apply_postings, commit_entry}
use iron_ledger.Ledger.Store.Frame.{apply_postings_frame}
use iron_ledger.Ledger.Store.Opening.{create_account_branches}
use iron_ledger.Ledger.Store.Outbox.{mark_failed, mark_published}
use iron_ledger.Ledger.Store.Postings.{apply_postings_next, apply_postings_stop}
use iron_ledger.Ledger.Store.Queries.{purge_created_before}
use iron_ledger.Ledger.Store.Reach.{Reach, Reach-IsSound, Step, after, claim-SameBooks, initially}
use iron_ledger.Ledger.Store.Sound.{IsSound, record_events-SameBooks}
use iron_ledger.Prelude.{
  List, Option-cases, [], ap, arith, inl, inr, refl, sym, ◌++◌, ◌∙◌, ◌∷◌, ◌≡◌,
}
use iron_ledger.Prelude.Int.{ℤ, ◌+ℤ◌}
use iron_ledger.Prelude.Map.{Map, get, insert}
use iron_ledger.Prelude.Result.{Result-cases, ok, succeeded_bind}
use iron_ledger.Reconciler.{rebuild, rebuild_entry, rebuild_from}
use iron_ledger.Reconciler.Rebuilt.{rebuild-eq-sum}

-- The totals are the balances of the store.
abbrev Matches : Map BalanceKey AtomicAmount → State → Type 0
Matches totals s = (key : BalanceKey) → amount_in key totals ≡ amount_at key s.balances

abbrev RebuildsEntry : Map BalanceKey AtomicAmount → List Posting → Type 0
RebuildsEntry totals ps = (t : Map BalanceKey AtomicAmount) × (rebuild_entry totals ps ≡ ok t)

-- An accepted posting was added to its balance without an overflow.
apply_posting_added :
    (now : Timestamp) (p : Posting) (s : State)
    → (apply_posting now p s).0 ≡ ok tt
    → (amount : AtomicAmount) × (checked_add (amount_at (key_of p) s.balances) p.amount ≡ ok amount)
unfolding apply_posting
apply_posting_added now p s h =
    elim (Result-cases (checked_add (amount_at (key_of p) s.balances) p.amount)) [
      | inl (amount, good) ↦ (amount, good)
      | inr (e, bad) ↦ absurd (elim (Option-cases (get key_order (key_of p) s.balances)) [
        | inl absent ↦ ground arith
        | inr (r, present) ↦ ground arith
      ])
    ]

rebuild_entry_next :
    (p : Posting) (ps : List Posting) (totals t : Map BalanceKey AtomicAmount)
    (amount : AtomicAmount)
    → checked_add (amount_in (key_of p) totals) p.amount ≡ ok amount
    → rebuild_entry (insert key_order (key_of p) amount totals) ps ≡ ok t
    → rebuild_entry totals (p ∷ ps) ≡ ok t
unfolding rebuild_entry
rebuild_entry_next p ps totals t amount added rest = ground arith

applied-RebuildsEntry :
    (now : Timestamp) (ps : List Posting) (s : State) (totals : Map BalanceKey AtomicAmount)
    → Matches totals s
    → (apply_postings now ps s).0 ≡ ok tt
    → RebuildsEntry totals ps
applied-RebuildsEntry now [] s totals same h = (totals, unfold rebuild_entry in refl)
applied-RebuildsEntry now (p ∷ ps) s totals same h = elim (Result-cases (apply_posting now p s).0) [
  | inr (e, bad) ↦ absurd (ground (arith, apply_postings_stop now p ps s e bad))
  | inl (u, good) ↦
      let (amount, added) = apply_posting_added now p s good in
      let in_totals = rw (← same (key_of p)) at added in
      let next = (apply_posting now p s).1 in
      let matched : Matches (insert key_order (key_of p) amount totals) next = (λ key.
        amount_in-insert key p amount totals
          (checked_add-eq (amount_in (key_of p) totals) p.amount in_totals)
        ∙ ap (λ (z : ℤ). z +ℤ posting_amount key p) (same key)
        ∙ sym ((apply_posting-IsApplied now p s good).moved key)) in
      let (t, rest) =
        applied-RebuildsEntry now ps next (insert key_order (key_of p) amount totals) matched
          (rw (apply_postings_next now p ps s u good) at h) in
      (t, rebuild_entry_next p ps totals t amount in_totals rest)
]

rebuild_from_snoc :
    (entries : List JournalEntry) (entry : JournalEntry) (m t u : Map BalanceKey AtomicAmount)
    → rebuild_from m entries ≡ ok t
    → rebuild_entry t entry.postings ≡ ok u
    → rebuild_from m (entries ++ entry ∷ []) ≡ ok u
unfolding rebuild_from
rebuild_from_snoc [] entry m t u h added = ground arith
rebuild_from_snoc (e ∷ es) entry m t u h added =
    let (n, first, rest) = succeeded_bind (rebuild_entry m e.postings) _ h in
    rw first (rebuild_from_snoc es entry n t u rest added)

abbrev Rebuilds : List JournalEntry → Type 0
Rebuilds entries = (t : Map BalanceKey AtomicAmount) × (rebuild entries ≡ ok t)

commit_entry-Rebuilds :
    (now : Timestamp) (commit : JournalCommit) (s : State)
    → IsSound s
    → Rebuilds s.entries
    → Rebuilds (commit_entry now commit s).1.entries
unfolding rebuild
commit_entry-Rebuilds now commit s sound (totals, built) =
    elim (Result-cases (commit_entry now commit s).0) [
      | inr (e, bad) ↦ rw (commit_entry_atomic now commit s e bad) (totals, built)
      | inl (outcome, good) ↦ elim (Option-cases (used commit.idempotency s)) [
        | inr (r, present) ↦ rw (commit_entry-used now commit s r present) (totals, built)
        | inl absent ↦
            let (fine, done) = commit_entry_done now commit s outcome absent good in
            let t = applied_state now commit s in
            let booked = record t { entries = t.entries ++ commit.entry ∷ [] } in
            let frame =
              apply_postings_frame now commit.entry.postings (with_record commit.idempotency s) in
            let matched : Matches totals (with_record commit.idempotency s) =
              (λ key. rebuild-eq-sum s.entries totals built key ∙ sym (sound.history key)) in
            let (u, added) =
              applied-RebuildsEntry now commit.entry.postings (with_record commit.idempotency s)
                totals matched fine in
            rw done (
              rw ((record_events-SameBooks commit.events booked).1) (
                subst (λ (es : List JournalEntry). Rebuilds (es ++ commit.entry ∷ [])) (sym frame.1)
                  (u, rebuild_from_snoc s.entries commit.entry [] totals u built added)))
      ]
    ]

create_account-same_entries :
    (commit : AccountCommit) (s : State) → (create_account commit s).1.entries ≡ s.entries
unfolding seed_account
create_account-same_entries commit s = elim (create_account_branches commit s) [
  | inl (r, present, e) ↦ rw e refl
  | inr (absent, inl (taken, e)) ↦ rw e refl
  | inr (absent, inr (free, e)) ↦
      rw e
        (record_events-SameBooks commit.events
          (seed_account commit.account (with_record commit.idempotency s))).1
]

Step-Rebuilds : {s t : State} → Step s t → IsSound s → Rebuilds s.entries → Rebuilds t.entries
unfolding mark_published mark_failed purge_created_before
Step-Rebuilds (Step.posts now c s balanced) sound h = commit_entry-Rebuilds now c s sound h
Step-Rebuilds (Step.opens c s fresh) sound h =
    subst Rebuilds (sym (create_account-same_entries c s)) h
Step-Rebuilds (Step.leases limit duration now s) sound h =
    subst Rebuilds (sym (claim-SameBooks limit duration now s).1) h
Step-Rebuilds (Step.publishes ids now s) sound h = h
Step-Rebuilds (Step.fails id error s) sound h = h
Step-Rebuilds (Step.purges cutoff s) sound h = h

-- The journal of a reachable store is rebuilt without an overflow.
pub Reach-Rebuilds : {s : State} → Reach s → Rebuilds s.entries
unfolding rebuild rebuild_from
Reach-Rebuilds initially = ([], refl)
Reach-Rebuilds (after r step) = Step-Rebuilds step (Reach-IsSound r) (Reach-Rebuilds r)
