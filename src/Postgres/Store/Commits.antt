-- ===== src/Postgres/Store/Commits.antt =====
-- crates/storage-postgres/src/store.rs: `commit` against crates/ledger/src/memory.rs.
use iron_ledger.Domain.Event.{LedgerEvent}
use iron_ledger.Domain.Ids.{Timestamp}
use iron_ledger.Ledger.Error.{LedgerError}
use iron_ledger.Ledger.Json.{Value}
use iron_ledger.Ledger.Port.{CommitOutcome, JournalCommit}
use iron_ledger.Ledger.Store.{State, record_key, record_order}
use iron_ledger.Postgres.Convert.{entry_row}
use iron_ledger.Postgres.Store.{Driver, Tables, record_row}
use iron_ledger.Postgres.Store.Represents.{Represents}
use iron_ledger.Prelude.{none, ◌≡◌}
use iron_ledger.Prelude.Map.{get, insert}
use iron_ledger.Prelude.Order.{nat_order}
use iron_ledger.Prelude.Result.{Result, ok}

-- Every event can be written as JSON.
abbrev pub Encodes : Driver → Type 0
Encodes driver = (event : LedgerEvent) → (payload : Value) × (driver.to_value event ≡ ok payload)

-- What a commit leaves, in both.
abbrev pub SameOutcome :
    Driver
    → Result LedgerError CommitOutcome × Tables
    → Result LedgerError CommitOutcome × State
    → Type 0
SameOutcome driver x y = (x.0 ≡ y.0) × Represents driver x.1 y.1

module _ (driver : Driver) (now : Timestamp) (commit : JournalCommit) (t : Tables) (s : State)
    (encodes : Encodes driver) (h : Represents driver t s)
    (fresh : get nat_order commit.entry.id t.journal_entries ≡ none) where
  abbrev keyed : Tables
  keyed = record t {
    idempotency_keys =
        insert record_order (record_key commit.idempotency) (record_row driver commit.idempotency)
          t.idempotency_keys;
  }

  abbrev filed : Tables
  filed = record keyed {
    journal_entries =
        insert nat_order commit.entry.id (entry_row driver.kept commit.entry) t.journal_entries;
  }
