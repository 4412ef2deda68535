-- ===== src/Ledger/Tests.antt =====
-- Runs of the store's theorems on concrete values.
mod Calls
use mathlib.Core.Path.{subst}
use iron_ledger.Domain.Account.{
  Account, allow_negative, customer_available, deposit_clearing, new_account, non_negative,
}
use iron_ledger.Domain.Amount.{checked_add}
use iron_ledger.Domain.Asset.{btc}
use iron_ledger.Domain.Error.{insufficient_balance}
use iron_ledger.Domain.Event.{LedgerEventPayload, wrap}
use iron_ledger.Domain.Flow.Effect.{credit_of, debit_of}
use iron_ledger.Domain.Ids.{AccountId}
use iron_ledger.Domain.Journal.{
  JournalEntry, add_totals, asset_totals, check_totals, posted, validate_balanced,
}
use iron_ledger.Ledger.Chart.{
  customer_accounts, customer_available_name, customer_locked_name, full_chart,
}
use iron_ledger.Ledger.Error.{domain, not_found}
use iron_ledger.Ledger.Idempotency.{Hashing, IdempotencyRecord, compute}
use iron_ledger.Ledger.Idempotency.Fingerprint.{compute-Reordered}
use iron_ledger.Ledger.Json.{Fields, Value}
use iron_ledger.Ledger.Json.Canonical.{Reordered, ReorderedFields}
use iron_ledger.Ledger.Port.{AccountCommit, JournalCommit}
use iron_ledger.Ledger.Service.{Ambient}
use iron_ledger.Ledger.Service.Query.{ReadPorts, get_balances, get_transaction, memory_reads}
use iron_ledger.Ledger.Store.{OutboxRow, State, default_topic, empty_state, record_events}
use iron_ledger.Ledger.Store.Accounts.{
  create_account, find_account, find_by_name, name_conflict, name_taken,
}
use iron_ledger.Ledger.Store.Atomic.{commit_entry_atomic, used, with_record}
use iron_ledger.Ledger.Store.Claims.{claim_hands_out, claimable, messages}
use iron_ledger.Ledger.Store.Commit.{apply_posting, apply_postings, commit_entry}
use iron_ledger.Ledger.Store.Numbered.{IsNumbered, Reach-IsNumbered}
use iron_ledger.Ledger.Store.Opened.{create_account_opened}
use iron_ledger.Ledger.Store.Opening.{create_account_conflict_keeps_record}
use iron_ledger.Ledger.Store.Outbox.{claim}
use iron_ledger.Ledger.Store.Queries.{find_entry, find_record, get_balance}
use iron_ledger.Ledger.Store.Reach.{Reach, Reach-IsSound, Step, after, initially}
use iron_ledger.Ledger.Store.Sound.{IsSound, commit_entry-IsSound, empty_state-IsSound}
use iron_ledger.Prelude.{
  [], arith, drop, false, length, map, none, refl, some, take, ℕ, ◌==◌, ◌∷◌, ◌≡◌,
}
use iron_ledger.Prelude.Int.{negate, negsuc, pos, ◌+ℤ◌}
use iron_ledger.Prelude.Map.{get, insert}
use iron_ledger.Prelude.Result.{err, ok}
use iron_ledger.Prelude.Text.{codes}

abbrev customer : Account
customer = new_account 90 10 (codes "customer") customer_available non_negative

abbrev clearing : Account
clearing = new_account 90 20 (codes "clearing") deposit_clearing allow_negative

-- A store with the two accounts.
abbrev pub two_accounts : State
two_accounts = record empty_state { accounts = (10, customer) ∷ (20, clearing) ∷ [] }

-- Five from the first account to the second, and from the second to the first.
abbrev pub entry_of : AccountId → AccountId → JournalEntry
entry_of from to = record {
  id = 1;
  idempotency_key = codes "key-1";
  description = codes "deposit";
  postings = credit_of from btc (pos 5) ∷ debit_of to btc (pos 5) ∷ [];
  status = posted;
  correlation_id = 3;
  causation_id = 4;
  created_at = 100;
}

abbrev stored_record : IdempotencyRecord
stored_record = record {
  scope = codes "record_deposit";
  key = codes "key-1";
  request_hash = codes "hash";
  response = Value.null;
  created_at = 100;
}

abbrev commit_between : AccountId → AccountId → JournalCommit
commit_between from to = record {
  entry = entry_of from to;
  events = [];
  idempotency = stored_record;
}

abbrev used_store : State
used_store = with_record stored_record two_accounts

abbrev pub plain_hashing : Hashing
plain_hashing = record { print = λ v. []; sha256_hex = λ text. codes "hash" }

abbrev pub plain_ambient : Ambient
plain_ambient = record {
  transaction_id = 1;
  account_id = 10;
  event_id = λ i. i;
  entry_time = 100;
  event_time = λ i. 100;
  record_time = 100;
}

abbrev opening_commit : AccountCommit
opening_commit = record { account = customer; events = []; idempotency = stored_record }

balanced_example : validate_balanced (entry_of 20 10).postings ≡ ok tt
unfolding validate_balanced asset_totals add_totals checked_add ◌+ℤ◌ get negate insert check_totals
balanced_example = refl

commit_entry_atomic_example :
    (commit_entry 100 (commit_between 10 20) two_accounts).1 ≡ two_accounts
unfolding commit_entry get apply_postings apply_posting checked_add ◌+ℤ◌ negate
commit_entry_atomic_example =
    commit_entry_atomic 100 (commit_between 10 20) two_accounts
      (domain (insufficient_balance 10 btc (pos 0) (negsuc 4))) refl

commit_entry-IsSound_example : IsSound (commit_entry 100 (commit_between 20 10) empty_state).1
commit_entry-IsSound_example =
    commit_entry-IsSound 100 (commit_between 20 10) empty_state balanced_example empty_state-IsSound

-- The empty store, then the two accounts opened, each with an event, and five posted between them.
abbrev pub opening_of : ℕ → Account → AccountCommit
opening_of n account = record {
  account = account;
  events =
      wrap 100 n 1 none 3 4 (codes "") (LedgerEventPayload.account_created account.id account.name)
      ∷ [];
  idempotency = record stored_record { scope = codes "create_account"; key = n ∷ [] };
}

abbrev pub one_opened : State
one_opened = (create_account (opening_of 1 customer) empty_state).1

abbrev pub both_opened : State
both_opened = (create_account (opening_of 2 clearing) one_opened).1

abbrev five_posted : State
five_posted = (commit_entry 100 (commit_between 20 10) both_opened).1

opened_reached : Reach both_opened
unfolding create_account get insert name_taken record_events
opened_reached =
    after (after initially (Step.opens (opening_of 1 customer) empty_state refl))
      (Step.opens (opening_of 2 clearing) one_opened refl)

five_posted_reached : Reach five_posted
five_posted_reached =
    after opened_reached (Step.posts 100 (commit_between 20 10) both_opened balanced_example)

five_posted_test :
    (length five_posted.entries ≡ 1)
    × (length five_posted.outbox ≡ 2)
    × (get_balance 10 btc five_posted
        ≡ some (record { account_id = 10; asset = btc; amount = pos 5; updated_at = 100 }))
unfolding commit_entry get create_account record_events insert wrap apply_postings apply_posting
    checked_add ◌+ℤ◌ negate get_balance
five_posted_test = (refl, refl, refl)

Reach-IsSound_example : IsSound five_posted
Reach-IsSound_example = Reach-IsSound five_posted_reached

Reach-IsNumbered_example : IsNumbered (claim 1 (ok 30) 200 five_posted).1
Reach-IsNumbered_example =
    Reach-IsNumbered (after five_posted_reached (Step.leases 1 (ok 30) 200 five_posted))

create_account_conflict_keeps_record_example :
    ((create_account opening_commit two_accounts).0 ≡ err (name_conflict (codes "customer")))
    × (find_record
          (codes "record_deposit")
          (codes "key-1")
          (create_account opening_commit two_accounts).1
        ≡ some stored_record)
    × ((create_account opening_commit two_accounts).1.accounts ≡ two_accounts.accounts)
unfolding get name_taken
create_account_conflict_keeps_record_example =
    create_account_conflict_keeps_record opening_commit two_accounts refl refl

abbrev row_of : ℕ → OutboxRow
row_of id = record {
  message = record {
    id = id;
    topic = default_topic;
    partition_key = 1;
    event =
        wrap 100 id 1 none 3 4 (codes "")
          (LedgerEventPayload.account_created 10 (codes "customer"));
    attempts = 0;
    created_at = 100;
    published_at = none;
    last_error = none;
  };
  leased_until = none;
}

abbrev two_rows : State
two_rows = record empty_state { outbox = row_of 1 ∷ row_of 2 ∷ []; next_outbox_id = 2 }

claim_hands_out_example :
    ((claim 1 (ok 30) 200 two_rows).0 ≡ ok (messages (take 1 (claimable 200 two_rows.outbox))))
    × (claimable 200 (claim 1 (ok 30) 200 two_rows).1.outbox
        ≡ drop 1 (claimable 200 two_rows.outbox))
    × (messages (claim 1 (ok 30) 200 two_rows).1.outbox ≡ messages two_rows.outbox)
claim_hands_out_example = claim_hands_out 1 30 200 two_rows (omega arith)

abbrev amount_first : Value
amount_first = Value.object (
    Fields.field (codes "amount") (Value.string (codes "5"))
      (Fields.field (codes "asset") (Value.string (codes "BTC")) Fields.end))

abbrev asset_first : Value
asset_first = Value.object (
    Fields.field (codes "asset") (Value.string (codes "BTC"))
      (Fields.field (codes "amount") (Value.string (codes "5")) Fields.end))

compute-Reordered_example :
    compute plain_hashing (codes "record_deposit") (ok amount_first)
    ≡ compute plain_hashing (codes "record_deposit") (ok asset_first)
compute-Reordered_example =
    compute-Reordered plain_hashing (codes "record_deposit") amount_first asset_first
      (Reordered.in_object (ReorderedFields.exchanged refl))

abbrev memory_queries : ReadPorts State
memory_queries = memory_reads (λ span. span) 0

get_transaction_missing_test :
    get_transaction memory_queries 9 used_store ≡ err (not_found (codes "transaction") 9)
unfolding get_transaction memory_reads find_entry
get_transaction_missing_test = refl

get_balances_missing_test :
    get_balances memory_queries 99 none used_store ≡ err (not_found (codes "account") 99)
unfolding get_balances memory_reads find_account get
get_balances_missing_test = refl

chart_size_test :
    map (λ spec. spec.name) (drop 5 (full_chart (codes "alice" ∷ [])))
    ≡ codes "customer:alice:available" ∷ codes "customer:alice:locked" ∷ []
unfolding full_chart customer_accounts customer_available_name customer_locked_name
chart_size_test = refl

abbrev newcomer : AccountCommit
newcomer = record {
  account = new_account 90 30 (codes "newcomer") customer_available non_negative;
  events = [];
  idempotency = stored_record;
}

create_account_opened_example :
    (find_account 30 (create_account newcomer two_accounts).1 ≡ some newcomer.account)
    × (find_by_name (codes "newcomer") (create_account newcomer two_accounts).1
        ≡ some newcomer.account)
    × (find_record (codes "record_deposit") (codes "key-1") (create_account newcomer two_accounts).1
        ≡ some stored_record)
    × ((id : AccountId)
        → 30 == id ≡ false
        → find_account id (create_account newcomer two_accounts).1 ≡ find_account id two_accounts)
    × ((later : AccountCommit)
        → used later.idempotency (create_account newcomer two_accounts).1 ≡ none
        → later.account.name ≡ codes "newcomer"
        → ((create_account later (create_account newcomer two_accounts).1).0
            ≡ err (name_conflict (codes "newcomer")))
          × ((create_account later (create_account newcomer two_accounts).1).1.accounts
              ≡ (create_account newcomer two_accounts).1.accounts))
unfolding create_account get
create_account_opened_example =
    create_account_opened newcomer two_accounts (create_account newcomer two_accounts).1 refl
