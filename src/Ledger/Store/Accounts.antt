-- ===== src/Ledger/Store/Accounts.antt =====
-- The account repository of crates/ledger/src/memory.rs.
use iron_ledger.Domain.Account.{Account}
use iron_ledger.Domain.Ids.{AccountId, Uuid}
use iron_ledger.Ledger.Error.{LedgerError, conflict}
use iron_ledger.Ledger.Port.{
  AccountCommit, CommitOutcome, Page, committed, duplicate_idempotency_key,
}
use iron_ledger.Ledger.Store.{State, insert_idempotency, record_events}
use iron_ledger.Prelude.{
  Bool, List, Option, Ordering, [], drop, false, if◌then◌else◌, none, some, take, ◌++◌, ◌||◌, ◌∷◌,
}
use iron_ledger.Prelude.Map.{Map, get, insert, values}
use iron_ledger.Prelude.Order.{equals, list_cmp, nat_order, text_order}
use iron_ledger.Prelude.Result.{Result, err, ok}
use iron_ledger.Prelude.Text.{Text, codes}

-- `InMemoryLedger::seed_account`
unfoldable pub seed_account : Account → State → State
seed_account account s = record s { accounts = insert nat_order account.id account s.accounts }

unfoldable pub name_taken : Text → Map Uuid Account → Bool
name_taken name [] = false
name_taken name ((id, account) ∷ accounts) =
    equals text_order account.name name || name_taken name accounts

abbrev pub name_conflict : Text → LedgerError
name_conflict name = conflict (codes "account name '" ++ (name ++ codes "' is already taken"))

-- The part of `AccountRepo::create` after the idempotency record is in. A conflict leaves the record.
unfoldable pub add_account : AccountCommit → State → Result LedgerError CommitOutcome × State
unfolding seed_account name_taken
add_account commit s =
    if name_taken commit.account.name s.accounts
    then (err (name_conflict commit.account.name), s)
    else (ok committed, record_events commit.events (seed_account commit.account s))

-- `AccountRepo::create`
unfoldable pub create_account : AccountCommit → State → Result LedgerError CommitOutcome × State
unfolding add_account insert_idempotency
create_account commit s =
    let (outcome, s') = insert_idempotency commit.idempotency s in
    elim outcome [
      | duplicate_idempotency_key ↦ (ok duplicate_idempotency_key, s')
      | committed ↦ add_account commit s'
    ]

-- `AccountRepo::find`
unfoldable pub find_account : AccountId → State → Option Account
find_account id s = get nat_order id s.accounts

unfoldable pub first_named : Text → Map Uuid Account → Option Account
first_named name [] = none
first_named name ((id, account) ∷ accounts) =
    if equals text_order account.name name then some account else first_named name accounts

-- `AccountRepo::find_by_name`; of several accounts with the name, the source returns any and this
-- the one with the least identifier.
unfoldable pub find_by_name : Text → State → Option Account
unfolding first_named
find_by_name name s = first_named name s.accounts

-- `AccountRepo::load_many`
unfoldable pub load_many : List AccountId → State → List Account
load_many [] s = []
load_many (id ∷ ids) s =
    let rest = load_many ids s in
    elim (get nat_order id s.accounts) [ none ↦ rest | some account ↦ account ∷ rest ]

-- The stable sort by name, one account at a time.
unfoldable pub insert_by_name : Account → List Account → List Account
insert_by_name account [] = account ∷ []
insert_by_name account (a ∷ as') =
    let later = a ∷ insert_by_name account as' in
    elim (list_cmp account.name a.name) [ Ordering.gt ↦ later | _ ↦ account ∷ a ∷ as' ]

unfoldable pub sort_by_name : List Account → List Account
unfolding insert_by_name
sort_by_name [] = []
sort_by_name (account ∷ accounts) = insert_by_name account (sort_by_name accounts)

-- `AccountRepo::list`
unfoldable pub list_accounts : Page → State → List Account
unfolding sort_by_name
list_accounts page s = take page.limit (drop page.offset (sort_by_name (values s.accounts)))
