-- ===== src/Projector.antt =====
-- crates/projector/src: the in-memory projection and the projector over it.
pub mod Projected
pub mod Replay
mod Tests
use iron_ledger.Domain.Amount.{AtomicAmount, checked_add, is_negative, is_zero}
use iron_ledger.Domain.Asset.{AssetCode}
use iron_ledger.Domain.Error.{DomainError}
use iron_ledger.Domain.Event.{
  EventId, LedgerEvent, LedgerEventPayload, account_created, admin_adjusted, journal_posted,
}
use iron_ledger.Domain.Ids.{AccountId, Uuid}
use iron_ledger.Domain.Journal.{JournalEntry, Posting}
use iron_ledger.Domain.Journal.Slots.{amount_in}
use iron_ledger.Domain.Journal.Sums.{BalanceKey, key_of, key_order}
use iron_ledger.Prelude.{
  Bool, List, Option, [], filter, if◌then◌else◌, is_some, none, not, some, take, ℕ, ◌&&◌, ◌++◌, ◌∷◌,
}
use iron_ledger.Prelude.Int.{ℤ, ◌-ℤ◌}
use iron_ledger.Prelude.Map.{Map, get, insert}
use iron_ledger.Prelude.Order.{Order, equals, nat_order, pair_order, text_order}
use iron_ledger.Prelude.Result.{Result, err, ok}
use iron_ledger.Prelude.Text.{Text}

-- `ProjectorError`; rendered texts are kept as texts.
pub data ProjectorError : Type 0 where
  domain : DomainError → ProjectorError
  store : Text → ProjectorError
  malformed_event : Text → ProjectorError
  unknown_account : Text → Text → ProjectorError

pub data ApplyOutcome : Type 0 where
  applied duplicate ignored : ApplyOutcome

pub record StreamPosition : Type 0 where
  pub topic : Text
  pub partition : ℤ
  pub offset : ℤ

pub record SourcedEvent : Type 0 where
  pub cursor : ℤ
  pub event : LedgerEvent

-- Keys of a consumer and an event.
abbrev pub processed_order : Order (Text × Uuid)
processed_order = pair_order text_order nat_order

-- `State` of crates/projector/src/memory.rs. The positions are a list with one
-- entry for each consumer, topic and partition.
pub record Projection : Type 0 where
  pub balances : Map BalanceKey AtomicAmount
  pub processed : Map (Text × Uuid) (Unit {0})
  pub positions : List (Text × StreamPosition)
  pub event_log : List SourcedEvent

abbrev pub empty_projection : Projection
empty_projection = record { balances = []; processed = []; positions = []; event_log = [] }

-- `append_event`
abbrev pub append_event : ℤ → LedgerEvent → Projection → Projection
append_event cursor event s = record s {
  event_log = s.event_log ++ record { cursor = cursor; event = event } ∷ [];
}

-- `balance`
abbrev pub projected_balance : AccountId → AssetCode → Projection → AtomicAmount
projected_balance account asset s = amount_in (account, asset) s.balances

-- The loop of `apply_journal`: what was added before an overflow stays, and so does the slot.
unfoldable pub add_postings :
    List Posting
    → Map BalanceKey AtomicAmount
    → Result DomainError (Unit {0}) × Map BalanceKey AtomicAmount
add_postings [] balances = (ok tt, balances)
add_postings (posting ∷ postings) balances =
    let slot = amount_in (key_of posting) balances in
    elim (checked_add slot posting.amount) [
      | ok amount ↦ add_postings postings (insert key_order (key_of posting) amount balances)
      | err e ↦ (err e, insert key_order (key_of posting) slot balances)
    ]

-- The end of `apply_journal`, on the outcome of the loop.
unfoldable pub finish_journal :
    Text × Uuid
    → Projection
    → Result DomainError (Unit {0}) × Map BalanceKey AtomicAmount
    → Result ProjectorError ApplyOutcome × Projection
finish_journal key s (ok _, balances) = (
  ok applied,
  record s { balances = balances; processed = insert processed_order key tt s.processed },
)
finish_journal key s (err e, balances) = (err (domain e), record s { balances = balances })

-- `ProjectionStore::apply_journal`
unfoldable pub apply_journal :
    Text → EventId → JournalEntry → Projection → Result ProjectorError ApplyOutcome × Projection
unfolding finish_journal
apply_journal consumer event_id entry s =
    if is_some (get processed_order (consumer, event_id) s.processed)
    then (ok duplicate, s)
    else finish_journal (consumer, event_id) s (add_postings entry.postings s.balances)

-- `ProjectionStore::reset`; the balances of every consumer are cleared
unfoldable pub retain_others : Text → Map (Text × Uuid) (Unit {0}) → Map (Text × Uuid) (Unit {0})
retain_others consumer [] = []
retain_others consumer ((key, u) ∷ processed) =
    let rest = retain_others consumer processed in
    if equals text_order key.0 consumer then rest else (key, u) ∷ rest

unfoldable pub reset_projection : Text → Projection → Projection
unfolding retain_others
reset_projection consumer s = record s {
  processed = retain_others consumer s.processed;
  positions = filter (λ entry. not (equals text_order entry.0 consumer)) s.positions;
  balances = [];
}

-- `EventSource::fetch_after`
unfoldable pub fetch_after : ℤ → ℕ → Projection → List SourcedEvent
fetch_after start limit s = take limit (filter (λ e. is_negative (start -ℤ e.cursor)) s.event_log)

abbrev pub is_position : Text → Text → ℤ → Text × StreamPosition → Bool
is_position consumer topic partition entry =
    equals text_order entry.0 consumer
    && (equals text_order entry.1.topic topic && is_zero (entry.1.partition -ℤ partition))

-- `ProjectionStore::record_position`
unfoldable pub record_position : Text → StreamPosition → Projection → Projection
record_position consumer position s = record s {
  positions =
      (consumer, position)
      ∷ filter (λ entry. not (is_position consumer position.topic position.partition entry))
          s.positions;
}

-- `ProjectionStore::load_position`
unfoldable pub load_in : Text → Text → ℤ → List (Text × StreamPosition) → Option ℤ
load_in consumer topic partition [] = none
load_in consumer topic partition (entry ∷ entries) =
    if is_position consumer topic partition entry
    then some entry.1.offset
    else load_in consumer topic partition entries

unfoldable pub load_position : Text → Text → ℤ → Projection → Option ℤ
unfolding load_in
load_position consumer topic partition s = load_in consumer topic partition s.positions

-- `Projector::apply`, without its metrics
unfoldable pub apply_payload :
    Text
    → EventId
    → LedgerEventPayload
    → Projection
    → Result ProjectorError ApplyOutcome × Projection
unfolding apply_journal
apply_payload consumer event_id (journal_posted entry) s = apply_journal consumer event_id entry s
apply_payload consumer event_id (account_created id name) s = (ok ignored, s)
apply_payload consumer event_id (admin_adjusted id audit) s = (ok ignored, s)

unfoldable pub apply_event :
    Text → LedgerEvent → Projection → Result ProjectorError ApplyOutcome × Projection
unfolding apply_payload
apply_event consumer event s = apply_payload consumer event.event_id event.payload s

-- `Projector::apply_sourced`
unfoldable pub finish_sourced :
    Text
    → StreamPosition
    → Result ProjectorError ApplyOutcome × Projection
    → Result ProjectorError ApplyOutcome × Projection
unfolding record_position
finish_sourced consumer position (err e, s) = (err e, s)
finish_sourced consumer position (ok ignored, s) = (ok ignored, s)
finish_sourced consumer position (ok applied, s) = (ok applied, record_position consumer position s)
finish_sourced consumer position (ok duplicate, s) =
    (ok duplicate, record_position consumer position s)

unfoldable pub apply_sourced :
    Text → Text → ℤ → SourcedEvent → Projection → Result ProjectorError ApplyOutcome × Projection
unfolding finish_sourced apply_event
apply_sourced consumer topic partition sourced s =
    finish_sourced consumer
      (record { topic = topic; partition = partition; offset = sourced.cursor })
      (apply_event consumer sourced.event s)
