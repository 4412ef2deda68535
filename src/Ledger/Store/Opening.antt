-- ===== src/Ledger/Store/Opening.antt =====
-- `AccountRepo::create`: every branch, and what it does to the books.
use iron_ledger.Domain.Account.{Account}
use iron_ledger.Ledger.Idempotency.{IdempotencyRecord}
use iron_ledger.Ledger.Port.{AccountCommit, committed, duplicate_idempotency_key}
use iron_ledger.Ledger.Store.{State, record_events, record_key, record_order}
use iron_ledger.Ledger.Store.Accounts.{create_account, name_conflict, name_taken, seed_account}
use iron_ledger.Ledger.Store.Atomic.{used, with_record}
use iron_ledger.Ledger.Store.Queries.{find_record}
use iron_ledger.Ledger.Store.Sound.{IsSound, SameBooks-IsSound, record_events-SameBooks}
use iron_ledger.Prelude.{
  Bool-cases, Option-cases, arith, false, inl, inr, none, refl, some, true, ◌≡◌, ◌⊎◌,
}
use iron_ledger.Prelude.Map.{get, get-insert}
use iron_ledger.Prelude.Order.{equals_refl, nat_order}
use iron_ledger.Prelude.Result.{err, ok}

-- The three outcomes of `create`: a used key changes nothing; a taken name is a conflict, which
-- keeps the idempotency record; otherwise the account, the record and the events are in.
pub create_account_branches :
    (commit : AccountCommit) (s : State)
    → ((r : IdempotencyRecord) × (used commit.idempotency s ≡ some r)
        × (create_account commit s ≡ (ok duplicate_idempotency_key, s)))
      ⊎ ((used commit.idempotency s ≡ none)
          × (((name_taken commit.account.name s.accounts ≡ true)
                × (create_account commit s
                    ≡ (err (name_conflict commit.account.name), with_record commit.idempotency s)))
              ⊎ ((name_taken commit.account.name s.accounts ≡ false)
                  × (create_account commit s ≡ (
                    ok committed,
                    record_events commit.events
                        (seed_account commit.account (with_record commit.idempotency s)),
                  )))))
unfolding create_account
create_account_branches commit s = elim (Option-cases (used commit.idempotency s)) [
  | inr (r, present) ↦ inl (r, present, ground arith)
  | inl absent ↦ inr (
    absent,
    (elim (Bool-cases (name_taken commit.account.name s.accounts)) [
      | inl taken ↦ inl (taken, ground arith)
      | inr free ↦ inr (free, ground arith)
    ]),
  )
]

seed_account-IsSound :
    (account : Account) (s : State)
    → get nat_order account.id s.accounts ≡ none
    → IsSound s
    → IsSound (seed_account account s)
unfolding seed_account
seed_account-IsSound account s fresh h = record {
  solvent = λ key a found strict. grind (
    arith,
    get-insert nat_order key.0 account.id account s.accounts,
    h.solvent key a,
    h.owned key,
  );
  owned = λ key absent.
      ground (arith, get-insert nat_order key.0 account.id account s.accounts, h.owned key);
  conserved = h.conserved;
  history = h.history;
}

-- An account opened under an unused identifier keeps the books sound, also if its name is taken.
pub create_account-IsSound :
    (commit : AccountCommit) (s : State)
    → get nat_order commit.account.id s.accounts ≡ none
    → IsSound s
    → IsSound (create_account commit s).1
create_account-IsSound commit s fresh h =
    let base = SameBooks-IsSound s (with_record commit.idempotency s) (refl, refl, refl) h in
    elim (create_account_branches commit s) [
      | inl (r, present, e) ↦ rw e h
      | inr (absent, inl (taken, e)) ↦ rw e base
      | inr (absent, inr (free, e)) ↦
          let opened = seed_account commit.account (with_record commit.idempotency s) in
          rw e (
            SameBooks-IsSound opened (record_events commit.events opened)
              (record_events-SameBooks commit.events opened)
              (seed_account-IsSound commit.account (with_record commit.idempotency s) fresh base))
    ]

-- A conflict on the name is not atomic: the idempotency record of the failed command stays, so the
-- same command is answered from it afterwards although no account was opened.
pub create_account_conflict_keeps_record :
    (commit : AccountCommit) (s : State)
    → used commit.idempotency s ≡ none
    → name_taken commit.account.name s.accounts ≡ true
    → ((create_account commit s).0 ≡ err (name_conflict commit.account.name))
      × (find_record commit.idempotency.scope commit.idempotency.key (create_account commit s).1
          ≡ some commit.idempotency)
      × ((create_account commit s).1.accounts ≡ s.accounts)
unfolding create_account find_record
create_account_conflict_keeps_record commit s absent taken = ground (
  arith,
  get-insert record_order (record_key commit.idempotency) (record_key commit.idempotency)
      commit.idempotency s.idempotency,
  equals_refl record_order (record_key commit.idempotency),
)
