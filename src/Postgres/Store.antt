-- ===== src/Postgres/Store.antt =====
-- crates/storage-postgres/src/store.rs over the tables of migrations/001_init.sql. A table is a
-- map from its primary key, and one with a serial key the list of its rows in that order. A
-- transaction is a function on the tables, and a rollback gives the tables of its start. The
-- database itself does not fail: only the constraints of the tables do.
pub mod Represents
pub mod Refines
pub mod Commits
pub mod Found
use iron_ledger.Domain.Account.{Account}
use iron_ledger.Domain.Amount.{AtomicAmount, amount_zero, checked_add, is_negative}
use iron_ledger.Domain.Error.{account_not_active, insufficient_balance}
use iron_ledger.Domain.Event.{LedgerEvent}
use iron_ledger.Domain.Ids.{AccountId, Timestamp, TransactionId, Uuid}
use iron_ledger.Domain.Journal.{JournalEntry, Posting}
use iron_ledger.Domain.Journal.Sums.{BalanceKey, key_of, key_order}
use iron_ledger.Ledger.Error.{LedgerError}
use iron_ledger.Ledger.Idempotency.{IdempotencyRecord}
use iron_ledger.Ledger.Json.{Value}
use iron_ledger.Ledger.Port.{
  AccountCommit, CommitOutcome, JournalCommit, committed, duplicate_idempotency_key,
}
use iron_ledger.Ledger.Store.{RecordKey, default_topic, record_key, record_order}
use iron_ledger.Ledger.Store.Accounts.{name_conflict}
use iron_ledger.Postgres.Convert.{
  AccountRow, EntryRow, PostingRow, StorageError, account_from_row, account_row, amount_to_str,
  column_amount, database, entry_from_row, entry_row, json, ledger_error_of, posting_row,
}
use iron_ledger.Prelude.{
  Bool, List, Option, [], any, false, if◌then◌else◌, is_some, none, not, some, ◌&&◌, ◌++◌, ◌==◌,
  ◌||◌, ◌∷◌,
}
use iron_ledger.Prelude.Map.{Map, get, insert}
use iron_ledger.Prelude.Order.{equals, nat_order, text_order}
use iron_ledger.Prelude.Result.{Result, err, map_err, ok, reject_if, ◌>>=◌, ◌>>◌}
use iron_ledger.Prelude.Text.{Text, codes}

-- A row of the table `balances`, without its key
pub record BalanceRow : Type 0 where
  pub amount_atomic : Text
  pub updated_at : Timestamp

-- A row of the table `outbox` as it is inserted
pub record QueuedRow : Type 0 where
  pub event_id : Uuid
  pub topic : Text
  pub partition_key : Uuid
  pub payload : Value
  pub created_at : Timestamp

pub record Tables : Type 0 where
  pub accounts : Map Uuid AccountRow
  pub journal_entries : Map Uuid EntryRow
  pub postings : List PostingRow
  pub balances : Map BalanceKey BalanceRow
  pub idempotency_keys : Map RecordKey IdempotencyRecord
  pub outbox : List QueuedRow

-- The configured topic of `PostgresStore`, `serde_json::to_value` with its error rendered, what sqlx
-- renders for the violation of a unique constraint, and what a TIMESTAMPTZ column keeps of an instant,
-- which has nanoseconds where the column has microseconds
pub record Driver : Type 0 where
  pub to_value : LedgerEvent → Result Text Value
  pub unique_violation : Text → Text
  pub default_topic : Text
  pub kept : Timestamp → Timestamp

abbrev pub record_row : Driver → IdempotencyRecord → IdempotencyRecord
record_row driver r = record r { created_at = driver.kept r.created_at }

-- `PostgresStore::insert_idempotency`
unfoldable pub insert_key : Driver → IdempotencyRecord → Tables → CommitOutcome × Tables
insert_key driver r t =
    if is_some (get record_order (record_key r) t.idempotency_keys)
    then (duplicate_idempotency_key, t)
    else (
      committed,
      record t {
        idempotency_keys =
            insert record_order (record_key r) (record_row driver r) t.idempotency_keys;
      },
    )

abbrev pub has_queued : Uuid → List QueuedRow → Bool
has_queued event_id = any (λ row. row.event_id == event_id)

abbrev pub queue : Driver → Value → LedgerEvent → Tables → Tables
queue driver payload event t = record t {
  outbox =
      if has_queued event.event_id t.outbox
      then t.outbox
      else t.outbox
        ++ record {
          event_id = event.event_id;
          topic = driver.default_topic;
          partition_key = event.aggregate_id;
          payload = payload;
          created_at = driver.kept event.created_at;
        }
          ∷ [];
}

-- `PostgresStore::insert_outbox`
unfoldable pub insert_outbox : Driver → List LedgerEvent → Tables → Result StorageError Tables
insert_outbox driver [] t = ok t
insert_outbox driver (event ∷ events) t = elim (driver.to_value event) [
  | err e ↦ err (json e)
  | ok payload ↦ insert_outbox driver events (queue driver payload event t)
]

-- The balance that was selected, or zero.
unfoldable pub current_amount : Option BalanceRow → Result LedgerError AtomicAmount
unfolding ledger_error_of column_amount
current_amount none = ok amount_zero
current_amount (some row) = map_err ledger_error_of (column_amount row.amount_atomic)

-- The update or the insertion of a balance, and the insertion of the posting
abbrev pub write_posting : Driver → Timestamp → Uuid → Posting → AtomicAmount → Tables → Tables
write_posting driver now entry_id posting updated t = record t {
  balances =
      insert key_order (key_of posting)
        (record { amount_atomic = amount_to_str updated; updated_at = driver.kept now }) t.balances;
  postings = t.postings ++ posting_row entry_id posting ∷ [];
}

-- The end of the loop's body, on the balance that was read.
unfoldable pub update_balance :
    Driver
    → Timestamp
    → Uuid
    → Posting
    → AccountRow
    → AtomicAmount
    → Tables
    → Result LedgerError Tables
update_balance driver now entry_id posting account current t = do
  updated ← map_err LedgerError.domain (checked_add current posting.amount)
  reject_if (is_negative updated && equals text_order account.policy (codes "non_negative")) (
      LedgerError.domain
        (insufficient_balance posting.account_id posting.asset current posting.amount))
  ok (write_posting driver now entry_id posting updated t)

-- The body of the loop of `apply_postings_tx`
unfoldable pub apply_posting_tx :
    Driver → Timestamp → Uuid → Posting → Tables → Result LedgerError Tables
unfolding current_amount update_balance
apply_posting_tx driver now entry_id posting t =
    elim (get nat_order posting.account_id t.accounts) [
      | none ↦ err (LedgerError.not_found (codes "account") posting.account_id)
      | some account ↦ do
        reject_if (not (equals text_order account.status (codes "active")))
            (LedgerError.domain (account_not_active posting.account_id account.status))
        current ← current_amount (get key_order (key_of posting) t.balances)
        update_balance driver now entry_id posting account current t
    ]

-- `PostgresStore::apply_postings_tx`
unfoldable pub apply_postings_tx :
    Driver → Timestamp → Uuid → List Posting → Tables → Result LedgerError Tables
unfolding apply_posting_tx
apply_postings_tx driver now entry_id [] t = ok t
apply_postings_tx driver now entry_id (posting ∷ postings) t =
    elim (apply_posting_tx driver now entry_id posting t) [
      | err e ↦ err e
      | ok u ↦ apply_postings_tx driver now entry_id postings u
    ]

-- The insertion into `journal_entries`, whose key is unique
unfoldable pub insert_entry : Driver → JournalEntry → Tables → Result StorageError Tables
insert_entry driver entry t =
    if is_some (get nat_order entry.id t.journal_entries)
    then err (database (driver.unique_violation (codes "journal_entries_pkey")))
    else ok (record t {
      journal_entries = insert nat_order entry.id (entry_row driver.kept entry) t.journal_entries;
    })

-- The transaction of `LedgerRepo::commit` after the key is in
unfoldable pub run_commit : Driver → Timestamp → JournalCommit → Tables → Result LedgerError Tables
unfolding insert_entry apply_postings_tx insert_outbox
run_commit driver now commit t = do
  u ← map_err ledger_error_of (insert_entry driver commit.entry t)
  v ← apply_postings_tx driver now commit.entry.id commit.entry.postings u
  map_err ledger_error_of (insert_outbox driver commit.events v)

-- `LedgerRepo::commit`, called at `now`
unfoldable pub commit_tx :
    Driver → Timestamp → JournalCommit → Tables → Result LedgerError CommitOutcome × Tables
unfolding insert_key run_commit
commit_tx driver now commit t =
    let (outcome, u) = insert_key driver commit.idempotency t in
    elim outcome [
      | duplicate_idempotency_key ↦ (ok duplicate_idempotency_key, t)
      | committed ↦ elim (run_commit driver now commit u) [
        | err e ↦ (err e, t)
        | ok v ↦ (ok committed, v)
      ]
    ]

-- The constraint `accounts_name_key`
unfoldable pub has_name : Text → Map Uuid AccountRow → Bool
has_name name [] = false
has_name name ((id, row) ∷ rows) = equals text_order row.name name || has_name name rows

-- The transaction of `AccountRepo::create` after the key is in
unfoldable pub run_create : Driver → AccountCommit → Tables → Result LedgerError Tables
unfolding insert_outbox has_name
run_create driver commit t =
    if is_some (get nat_order commit.account.id t.accounts)
    then err (ledger_error_of (database (driver.unique_violation (codes "accounts_pkey"))))
    else if has_name commit.account.name t.accounts
    then err (name_conflict commit.account.name)
    else map_err ledger_error_of (
        insert_outbox driver commit.events (record t {
          accounts =
              insert nat_order commit.account.id (account_row driver.kept commit.account)
                t.accounts;
        }))

-- `AccountRepo::create`
unfoldable pub create_tx :
    Driver → AccountCommit → Tables → Result LedgerError CommitOutcome × Tables
unfolding insert_key run_create
create_tx driver commit t =
    let (outcome, u) = insert_key driver commit.idempotency t in
    elim outcome [
      | duplicate_idempotency_key ↦ (ok duplicate_idempotency_key, t)
      | committed ↦ elim (run_create driver commit u) [
        | err e ↦ (err e, t)
        | ok v ↦ (ok committed, v)
      ]
    ]

-- `AccountRepo::find` and `LedgerRepo::find_entry`
unfoldable pub find_account_row : AccountId → Tables → Result StorageError (Option Account)
unfolding account_from_row
find_account_row id t = elim (get nat_order id t.accounts) [
  | none ↦ ok none
  | some row ↦ do account ← account_from_row id row; ok (some account)
]

-- `load_entry`, on what the table has under the identifier
unfoldable pub read_entry :
    TransactionId → List PostingRow → Option EntryRow → Result StorageError (Option JournalEntry)
unfolding entry_from_row
read_entry id rows none = ok none
read_entry id rows (some row) = do entry ← entry_from_row id row rows; ok (some entry)

unfoldable pub find_entry_row : TransactionId → Tables → Result StorageError (Option JournalEntry)
unfolding read_entry
find_entry_row id t = read_entry id t.postings (get nat_order id t.journal_entries)
