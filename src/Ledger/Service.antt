-- ===== src/Ledger/Service.antt =====
-- crates/ledger/src/service.rs: the pipeline of the handlers, over abstract ports. The clock, the
-- drawn identifiers, serde and SHA-256 are arguments.
pub mod Checks
pub mod Guard
pub mod Post
pub mod Handlers
pub mod CreateAccount
pub mod Memory
pub mod Replay
pub mod Balanced
pub mod Serve
pub mod Served
pub mod Query
use iron_ledger.Domain.Account.{Account}
use iron_ledger.Domain.Event.{EventId, LedgerEvent, LedgerEventPayload, journal_posted, wrap}
use iron_ledger.Domain.Ids.{AccountId, Timestamp, TransactionId}
use iron_ledger.Domain.Journal.{JournalEntry}
use iron_ledger.Ledger.Error.{LedgerError, validation}
use iron_ledger.Prelude.{
  Bool, List, Option, [], false, if◌then◌else◌, ltb, none, some, suc, true, ℕ, ◌++◌, ◌||◌, ◌∷◌,
}
use iron_ledger.Prelude.Result.{Result, ok, reject_if, ◌>>=◌, ◌>>◌}
use iron_ledger.Prelude.Text.{Text, byte_len, codes, is_empty, trim}

-- The longest reference, account name and description
abbrev pub max_reference_len : ℕ
max_reference_len = 256

abbrev pub max_account_name_len : ℕ
max_account_name_len = 128

abbrev pub max_description_len : ℕ
max_description_len = 512

pub record Outcome (A : Type 0) : Type 0 where
  pub value : A
  pub replayed : Bool

-- `Outcome::fresh` and `Outcome::replayed`
abbrev pub fresh_outcome : {A : Type 0} → A → Outcome A
fresh_outcome value = record { value = value; replayed = false }

abbrev pub replayed_outcome : {A : Type 0} → A → Outcome A
replayed_outcome value = record { value = value; replayed = true }

pub record AccountCreated : Type 0 where
  pub account : Account

pub record EntryPosted : Type 0 where
  pub transaction_id : TransactionId
  pub description : Text
  pub posted_at : Timestamp

-- What the clock and the random generator give during one call of a handler; `event_id i` and
-- `event_time i` are those of the call's event `i`.
pub record Ambient : Type 0 where
  pub transaction_id : TransactionId
  pub account_id : AccountId
  pub event_id : ℕ → EventId
  pub entry_time : Timestamp
  pub event_time : ℕ → Timestamp
  pub record_time : Timestamp

-- The trimmed reference, unless it is missing or empty
abbrev pub usable_reference : Option Text → Option Text
usable_reference none = none
usable_reference (some reference) =
    if is_empty (trim reference) then none else some (trim reference)

append_reference : JournalEntry → Option Text → Result LedgerError JournalEntry
append_reference entry none = ok entry
append_reference entry (some reference) = do
  reject_if (ltb max_reference_len (byte_len reference))
      (validation (codes "reference must not exceed 256 characters"))
  ok (record entry { description = entry.description ++ (codes ": " ++ reference) })

-- `annotate`
unfoldable pub annotate : JournalEntry → Option Text → Result LedgerError JournalEntry
unfolding append_reference
annotate entry reference = append_reference entry (usable_reference reference)

unfoldable pub validated_description : Text → Result LedgerError Text
validated_description raw = do
  let description = trim raw
  reject_if (is_empty description || ltb max_description_len (byte_len description))
      (validation (codes "description must be 1..=512 characters"))
  ok description

-- The events of an entry after the first, numbered from `i`.
unfoldable pub wrap_payloads :
    Ambient → JournalEntry → ℕ → List LedgerEventPayload → List LedgerEvent
wrap_payloads ambient entry i [] = []
wrap_payloads ambient entry i (payload ∷ payloads) =
    wrap (ambient.event_time i) (ambient.event_id i) entry.id none entry.correlation_id
      entry.causation_id (codes "") payload
    ∷ wrap_payloads ambient entry (suc i) payloads

-- The vector of events that `post_entry` commits.
unfoldable pub entry_events : Ambient → JournalEntry → List LedgerEventPayload → List LedgerEvent
unfolding wrap_payloads
entry_events ambient entry extra = wrap_payloads ambient entry 0 (journal_posted entry ∷ extra)
