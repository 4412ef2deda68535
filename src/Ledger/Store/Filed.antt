-- ===== src/Ledger/Store/Filed.antt =====
-- The order of the balances, and the keys that they are stored under.
use mathlib.Core.Path.{subst}
use iron_ledger.Domain.Account.{allows_negative, is_active}
use iron_ledger.Domain.Amount.{AtomicAmount, checked_add, is_negative}
use iron_ledger.Domain.Ids.{Timestamp}
use iron_ledger.Domain.Journal.{Posting}
use iron_ledger.Domain.Journal.Sums.{BalanceKey, key_of, key_order}
use iron_ledger.Ledger.Port.{AccountCommit, BalanceRecord, JournalCommit}
use iron_ledger.Ledger.Store.{State, balance_or_new}
use iron_ledger.Ledger.Store.Accounts.{create_account, seed_account}
use iron_ledger.Ledger.Store.Atomic.{
  applied_state, commit_entry-used, commit_entry_atomic, commit_entry_done, used, with_record,
}
use iron_ledger.Ledger.Store.Commit.{apply_posting, apply_postings, commit_entry}
use iron_ledger.Ledger.Store.Opening.{create_account_branches}
use iron_ledger.Ledger.Store.Outbox.{mark_failed, mark_published}
use iron_ledger.Ledger.Store.Postings.{apply_postings_next, apply_postings_stop}
use iron_ledger.Ledger.Store.Queries.{purge_created_before}
use iron_ledger.Ledger.Store.Reach.{Reach, Step, after, claim-SameBooks, initially}
use iron_ledger.Ledger.Store.Sound.{record_events-SameBooks}
use iron_ledger.Prelude.{
  All, Bool-cases, List, Option-cases, [], arith, inl, inr, not, refl, some, sym, ◌&&◌, ◌++◌, ◌∷◌,
  ◌≡◌, ◌⊎◌,
}
use iron_ledger.Prelude.Map.{All-insert, Map, get, insert}
use iron_ledger.Prelude.Order.{equals, equals_sound, nat_order}
use iron_ledger.Prelude.Result.{Result-cases}
use iron_ledger.Prelude.Sorted.{IsSorted, insert-IsSorted}

abbrev pub own_key : BalanceRecord → BalanceKey
own_key r = (r.account_id, r.asset)

abbrev pub IsFiled : Map BalanceKey BalanceRecord → Type 0
IsFiled m = All (λ e. own_key e.1 ≡ e.0) m × IsSorted key_order m

insert-IsFiled :
    (k : BalanceKey) (r : BalanceRecord) (m : Map BalanceKey BalanceRecord)
    → own_key r ≡ k
    → IsFiled m
    → IsFiled (insert key_order k r m)
insert-IsFiled k r m own (keyed, sorted) = (
  All-insert key_order (λ e. own_key e.1 ≡ e.0) k r m keyed own,
  insert-IsSorted key_order k r m sorted,
)

get-own_key :
    (k : BalanceKey) (r : BalanceRecord) (m : Map BalanceKey BalanceRecord)
    → All (λ (e : BalanceKey × BalanceRecord). own_key e.1 ≡ e.0) m
    → get key_order k m ≡ some r
    → own_key r ≡ k
unfolding get
get-own_key k r [] h found = cc
get-own_key k r ((j, w) ∷ m) h found = elim (Bool-cases (equals key_order k j)) [
  | inl same ↦ rw (equals_sound key_order k j same) (let e : w ≡ r = ground arith in rw (← e) h.0)
  | inr differ ↦ get-own_key k r m h.1 (ground arith)
]

balance_or_new_key :
    (now : Timestamp) (k : BalanceKey) (m : Map BalanceKey BalanceRecord)
    → IsFiled m
    → own_key (balance_or_new now k m) ≡ k
balance_or_new_key now k m h = elim (Option-cases (get key_order k m)) [
  | inl absent ↦ rw absent refl
  | inr (r, present) ↦ rw present (get-own_key k r m h.0 present)
]

-- What a posting may make of the balances.
apply_posting_cases :
    (now : Timestamp) (p : Posting) (s : State)
    → let balance = balance_or_new now (key_of p) s.balances in
      let opened = insert key_order (key_of p) balance s.balances in
      ((apply_posting now p s).1.balances ≡ s.balances)
      ⊎ (((apply_posting now p s).1.balances ≡ opened)
          ⊎ ((amount : AtomicAmount) × ((apply_posting now p s).1.balances
                ≡ insert key_order
                    (key_of p)
                    (record balance { amount = amount; updated_at = now })
                    opened)))
unfolding apply_posting
apply_posting_cases now p s =
    let balance = balance_or_new now (key_of p) s.balances in
    elim (Option-cases (get nat_order p.account_id s.accounts)) [
      | inl absent ↦ inl (ground arith)
      | inr (account, present) ↦ elim (Bool-cases (is_active account)) [
        | inr inactive ↦ inl (ground arith)
        | inl running ↦ elim (Result-cases (checked_add balance.amount p.amount)) [
          | inr (e, bad) ↦ inr (inl (ground arith))
          | inl (amount, added) ↦
              elim (Bool-cases (is_negative amount && not (allows_negative account.policy))) [
                | inl refused ↦ inr (inl (ground arith))
                | inr allowed ↦ inr (inr (amount, ground arith))
              ]
        ]
      ]
    ]

apply_posting-IsFiled :
    (now : Timestamp) (p : Posting) (s : State)
    → IsFiled s.balances
    → IsFiled (apply_posting now p s).1.balances
apply_posting-IsFiled now p s h =
    let balance = balance_or_new now (key_of p) s.balances in
    let own = balance_or_new_key now (key_of p) s.balances h in
    let opened = insert-IsFiled (key_of p) balance s.balances own h in
    elim (apply_posting_cases now p s) [
      | inl same ↦ subst IsFiled (sym same) h
      | inr (inl one) ↦ subst IsFiled (sym one) opened
      | inr (inr (amount, two)) ↦ subst IsFiled (sym two) (
          insert-IsFiled (key_of p) (record balance { amount = amount; updated_at = now })
            (insert key_order (key_of p) balance s.balances) own opened)
    ]

apply_postings-IsFiled :
    (now : Timestamp) (ps : List Posting) (s : State)
    → IsFiled s.balances
    → IsFiled (apply_postings now ps s).1.balances
apply_postings-IsFiled now [] s h = unfold apply_postings in h
apply_postings-IsFiled now (p ∷ ps) s h =
    let one = apply_posting-IsFiled now p s h in
    elim (Result-cases (apply_posting now p s).0) [
      | inl (u, good) ↦
          rw (apply_postings_next now p ps s u good)
            (apply_postings-IsFiled now ps (apply_posting now p s).1 one)
      | inr (e, bad) ↦ rw (apply_postings_stop now p ps s e bad) one
    ]

commit_entry-IsFiled :
    (now : Timestamp) (commit : JournalCommit) (s : State)
    → IsFiled s.balances
    → IsFiled (commit_entry now commit s).1.balances
commit_entry-IsFiled now commit s h = elim (Result-cases (commit_entry now commit s).0) [
  | inr (e, bad) ↦ rw (commit_entry_atomic now commit s e bad) h
  | inl (outcome, good) ↦ elim (Option-cases (used commit.idempotency s)) [
    | inr (r, present) ↦ rw (commit_entry-used now commit s r present) h
    | inl absent ↦
        let t = applied_state now commit s in
        let booked = record t { entries = t.entries ++ commit.entry ∷ [] } in
        rw ((commit_entry_done now commit s outcome absent good).1) (
          rw ((record_events-SameBooks commit.events booked).2)
            (apply_postings-IsFiled now commit.entry.postings (with_record commit.idempotency s) h))
  ]
]

create_account-same_balances :
    (commit : AccountCommit) (s : State) → (create_account commit s).1.balances ≡ s.balances
unfolding seed_account
create_account-same_balances commit s = elim (create_account_branches commit s) [
  | inl (r, present, e) ↦ rw e refl
  | inr (absent, inl (taken, e)) ↦ rw e refl
  | inr (absent, inr (free, e)) ↦
      rw e
        (record_events-SameBooks commit.events
          (seed_account commit.account (with_record commit.idempotency s))).2
]

Step-IsFiled : {s t : State} → Step s t → IsFiled s.balances → IsFiled t.balances
unfolding mark_published mark_failed purge_created_before
Step-IsFiled (Step.posts now c s balanced) h = commit_entry-IsFiled now c s h
Step-IsFiled (Step.opens c s fresh) h = subst IsFiled (sym (create_account-same_balances c s)) h
Step-IsFiled (Step.leases limit duration now s) h =
    subst IsFiled (sym (claim-SameBooks limit duration now s).2) h
Step-IsFiled (Step.publishes ids now s) h = h
Step-IsFiled (Step.fails id error s) h = h
Step-IsFiled (Step.purges cutoff s) h = h

-- In every reachable state the balances are in ascending order, each under its own account and
-- asset.
pub Reach-IsFiled : {s : State} → Reach s → IsFiled s.balances
Reach-IsFiled initially = (tt, tt)
Reach-IsFiled (after r step) = Step-IsFiled step (Reach-IsFiled r)
