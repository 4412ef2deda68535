-- ===== src/Ledger/Port.antt =====
-- crates/ledger/src/port.rs: what the handlers and their adapters exchange.
use iron_ledger.Domain.Account.{Account}
use iron_ledger.Domain.Amount.{AtomicAmount}
use iron_ledger.Domain.Asset.{AssetCode}
use iron_ledger.Domain.Event.{LedgerEvent}
use iron_ledger.Domain.Ids.{AccountId, Timestamp, Uuid}
use iron_ledger.Domain.Journal.{JournalEntry}
use iron_ledger.Ledger.Idempotency.{IdempotencyRecord}
use iron_ledger.Prelude.{List, Option, if◌then◌else◌, leb, min, suc, zero, ℕ}
use iron_ledger.Prelude.Text.{Text}

pub data CommitOutcome : Type 0 where
  committed duplicate_idempotency_key : CommitOutcome

pub record Page : Type 0 where
  pub limit : ℕ
  pub offset : ℕ

-- `Page::MAX_LIMIT` and `Page::DEFAULT_LIMIT`
abbrev pub max_limit : ℕ
max_limit = 500

abbrev pub default_limit : ℕ
default_limit = 50

-- `Page::new`
unfoldable pub new_page : ℕ → ℕ → Page
new_page zero offset = record { limit = default_limit; offset = offset }
new_page (suc limit) offset = record { limit = min (suc limit) max_limit; offset = offset }

abbrev pub i64_max : ℕ
i64_max = 9223372036854775807

-- `Page::offset_i64`
unfoldable pub offset_i64 : Page → ℕ
offset_i64 page = if leb page.offset i64_max then page.offset else i64_max

pub record AccountCommit : Type 0 where
  pub account : Account
  pub events : List LedgerEvent
  pub idempotency : IdempotencyRecord

pub record JournalCommit : Type 0 where
  pub entry : JournalEntry
  pub events : List LedgerEvent
  pub idempotency : IdempotencyRecord

pub record BalanceRecord : Type 0 where
  pub account_id : AccountId
  pub asset : AssetCode
  pub amount : AtomicAmount
  pub updated_at : Timestamp

pub record OutboxMessage : Type 0 where
  pub id : ℕ
  pub topic : Text
  pub partition_key : Uuid
  pub event : LedgerEvent
  pub attempts : ℕ
  pub created_at : Timestamp
  pub published_at : Option Timestamp
  pub last_error : Option Text

pub record OutboxStats : Type 0 where
  pub pending : ℕ
  pub published : ℕ
  pub in_flight : ℕ
  pub retrying : ℕ
  pub oldest_pending_age_seconds : Option ℕ
