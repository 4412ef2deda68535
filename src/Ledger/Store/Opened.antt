-- ===== src/Ledger/Store/Opened.antt =====
-- `AccountRepo::create`: what is found after an account was opened.
use iron_ledger.Domain.Account.{Account}
use iron_ledger.Domain.Event.{LedgerEvent}
use iron_ledger.Domain.Ids.{AccountId, Uuid}
use iron_ledger.Ledger.Port.{AccountCommit, committed}
use iron_ledger.Ledger.Store.{State, record_event, record_events, record_key, record_order}
use iron_ledger.Ledger.Store.Accounts.{
  create_account, find_account, find_by_name, first_named, name_conflict, name_taken, seed_account,
}
use iron_ledger.Ledger.Store.Atomic.{used, with_record}
use iron_ledger.Ledger.Store.Opening.{create_account_branches, create_account_conflict_keeps_record}
use iron_ledger.Ledger.Store.Queries.{find_record}
use iron_ledger.Prelude.{
  List, [], ap, arith, false, inl, inr, none, refl, some, true, ◌==◌, ◌∙◌, ◌∷◌, ◌≡◌,
}
use iron_ledger.Prelude.Map.{Map, get-insert, insert}
use iron_ledger.Prelude.Order.{equals, equals_refl, nat_order, text_order}
use iron_ledger.Prelude.Result.{err, ok}
use iron_ledger.Prelude.Text.{Text}

-- No event that is recorded touches the accounts.
record_events_accounts :
    (events : List LedgerEvent) (s : State) → (record_events events s).accounts ≡ s.accounts
unfolding record_events
record_events_accounts [] s = refl
record_events_accounts (event ∷ events) s =
    let ih = record_events_accounts events (record_event event s) in
    unfold record_event in ground arith

pub record_events_idempotency :
    (events : List LedgerEvent) (s : State) → (record_events events s).idempotency ≡ s.idempotency
unfolding record_events
record_events_idempotency [] s = refl
record_events_idempotency (event ∷ events) s =
    ground (arith, record_events_idempotency events (record_event event s))

-- An account whose name no other has is the one that its name finds.
first_named-insert :
    (account : Account) (m : Map Uuid Account)
    → name_taken account.name m ≡ false
    → first_named account.name (insert nat_order account.id account m) ≡ some account
unfolding first_named name_taken insert
first_named-insert account [] free = ground (arith, equals_refl text_order account.name)
first_named-insert account ((id, a) ∷ m) free =
    ground (arith, equals_refl text_order account.name, first_named-insert account m)

-- A name that finds an account is taken.
name_taken-first_named :
    (name : Text) (account : Account) (m : Map Uuid Account)
    → first_named name m ≡ some account
    → name_taken name m ≡ true
unfolding first_named name_taken
name_taken-first_named name account [] found = absurd (ground arith)
name_taken-first_named name account ((id, a) ∷ m) found =
    ground (arith, name_taken-first_named name account m)

-- An account that is opened is found by its identifier and by its name, and the command's record under
-- its key; every other identifier finds what it found before. In the state it leaves, opening
-- any account of that name under an unused key is a conflict on the name, which changes no account.
pub create_account_opened :
    (commit : AccountCommit) (s t : State)
    → create_account commit s ≡ (ok committed, t)
    → (find_account commit.account.id t ≡ some commit.account)
      × (find_by_name commit.account.name t ≡ some commit.account)
      × (find_record commit.idempotency.scope commit.idempotency.key t ≡ some commit.idempotency)
      × ((id : AccountId) → commit.account.id == id ≡ false → find_account id t ≡ find_account id s)
      × ((later : AccountCommit)
          → used later.idempotency t ≡ none
          → later.account.name ≡ commit.account.name
          → ((create_account later t).0 ≡ err (name_conflict commit.account.name))
            × ((create_account later t).1.accounts ≡ t.accounts))
unfolding find_account find_by_name find_record seed_account
create_account_opened commit s t done = elim (create_account_branches commit s) [
  | inl (r, present, e) ↦ absurd (ground arith)
  | inr (absent, inl (taken, e)) ↦ absurd (ground arith)
  | inr (absent, inr (free, e)) ↦
      let opened = seed_account commit.account (with_record commit.idempotency s) in
      let last : t ≡ record_events commit.events opened = ground arith in
      let accounts = record_events_accounts commit.events opened in
      let records = record_events_idempotency commit.events opened in
      let named = first_named-insert commit.account s.accounts free in
      let filed : t.accounts ≡ insert nat_order commit.account.id commit.account s.accounts =
        rw last accounts in
      let key = record_key commit.idempotency in
      (
        rw
            (
              filed,
              get-insert nat_order commit.account.id commit.account.id commit.account s.accounts,
              equals_refl nat_order commit.account.id,
            )
            refl,
        rw filed named,
        rw
            (
              last,
              records,
              get-insert record_order key key commit.idempotency s.idempotency,
              equals_refl record_order key,
            )
            refl,
        λ id apart.
            let differs : equals nat_order id commit.account.id ≡ false = ground arith in
            rw (filed, get-insert nat_order id commit.account.id commit.account s.accounts, differs)
              refl,
        λ later fresh same_name.
            let taken : name_taken later.account.name t.accounts ≡ true =
              rw (same_name, filed)
                (name_taken-first_named commit.account.name commit.account
                  (insert nat_order commit.account.id commit.account s.accounts) named) in
            let (refused, _, kept) = create_account_conflict_keeps_record later t fresh taken in
            (refused ∙ ap (λ (name : Text). err (name_conflict name)) same_name, kept),
      )
]
