-- ===== src/Postgres/Tests.antt =====
-- Runs of the theorems on the PostgreSQL adapter on concrete values.
use iron_ledger.Domain.Account.{
  Account, allow_negative, customer_available, deposit_clearing, new_account, non_negative,
}
use iron_ledger.Domain.Amount.{checked_add, show_amount}
use iron_ledger.Domain.Asset.{btc, new_asset_code}
use iron_ledger.Domain.Flow.Effect.{credit_of, debit_of}
use iron_ledger.Domain.Ids.{Timestamp, TransactionId, new_idempotency_key}
use iron_ledger.Domain.Journal.{posted}
use iron_ledger.Ledger.Json.{Value}
use iron_ledger.Ledger.Port.{JournalCommit}
use iron_ledger.Ledger.Store.{State, empty_state}
use iron_ledger.Postgres.Balances.{
  all_entries_rows, list_balance_rows, projection_view, snapshot_view,
}
use iron_ledger.Postgres.Convert.{account_row, amount_to_str, posting_from_row}
use iron_ledger.Postgres.Projection.{
  ProjectionTables, apply_journal_tx, load_position_row, record_position_row, reset_tables,
  slot_amount,
}
use iron_ledger.Postgres.Projection.Follows.{Follows, SameProjected, apply_journal_tx-SameProjected}
use iron_ledger.Postgres.Store.{Driver, Tables, commit_tx, find_entry_row}
use iron_ledger.Postgres.Store.Found.{IsStorableEntry, commit_tx_found, stored_entry}
use iron_ledger.Postgres.Store.Represents.{Represents}
use iron_ledger.Prelude.{[], arith, false, map, refl, some, ◌*◌, ◌/◌, ◌==◌, ◌∷◌, ◌≡◌}
use iron_ledger.Prelude.Int.{negate, pos, ◌+ℤ◌, ◌-ℤ◌}
use iron_ledger.Prelude.Map.{get, insert, values}
use iron_ledger.Prelude.Numeral.{parse_i128, show_ℕ}
use iron_ledger.Prelude.Result.{Result, collect, map_err, ok}
use iron_ledger.Prelude.Text.{codes}
use iron_ledger.Projector.{
  ApplyOutcome, ProjectorError, StreamPosition, applied, apply_journal, duplicate, empty_projection,
}

abbrev payer : Account
payer = new_account 90 10 (codes "payer") deposit_clearing allow_negative

abbrev payee : Account
payee = new_account 90 20 (codes "payee") customer_available non_negative

abbrev two_known : State
two_known = record empty_state { accounts = (10, payer) ∷ (20, payee) ∷ [] }

-- Nanoseconds cut to whole microseconds
abbrev to_micros : Timestamp → Timestamp
to_micros instant = instant / 1000 * 1000

abbrev two_known_rows : Tables
two_known_rows = record {
  accounts = (10, account_row to_micros payer) ∷ (20, account_row to_micros payee) ∷ [];
  journal_entries = [];
  postings = [];
  balances = [];
  idempotency_keys = [];
  outbox = [];
}

abbrev payment : JournalCommit
payment = record {
  entry = record {
    id = 1;
    idempotency_key = codes "key-1";
    description = codes "deposit";
    postings = credit_of 10 btc (pos 5) ∷ debit_of 20 btc (pos 5) ∷ [];
    status = posted;
    correlation_id = 3;
    causation_id = 4;
    created_at = 1234;
  };
  events = [];
  idempotency = record {
    scope = codes "record_deposit";
    key = codes "key-1";
    request_hash = codes "hash";
    response = Value.null;
    created_at = 100;
  };
}

abbrev plain_driver : Driver
plain_driver = record {
  to_value = λ event. ok Value.null;
  unique_violation = λ name. name;
  default_topic = codes "ledger";
  kept = to_micros;
}

payment_storable : IsStorableEntry payment.entry
unfolding new_asset_code negate new_idempotency_key
payment_storable = record {
  postings = ((refl, (omega arith, omega arith)), ((refl, (omega arith, omega arith)), tt));
  key = refl;
}

abbrev paid : Tables
paid = (commit_tx plain_driver 2345 payment two_known_rows).1

commit_tx_found_example :
    (find_entry_row 1 paid ≡ ok (some (stored_entry plain_driver payment.entry)))
    × ((id : TransactionId)
        → 1 == id ≡ false
        → find_entry_row id paid ≡ find_entry_row id two_known_rows)
unfolding get commit_tx checked_add ◌+ℤ◌ negate insert
commit_tx_found_example =
    commit_tx_found plain_driver 2345 payment two_known_rows paid payment_storable refl refl refl

abbrev no_slots : ProjectionTables
no_slots = record { projection_balances = []; processed_events = []; consumer_offsets = [] }

abbrev first_apply : Result ProjectorError ApplyOutcome × ProjectionTables
first_apply = apply_journal_tx 100 101 (codes "c") 7 payment.entry no_slots

first_apply_test : first_apply.0 ≡ ok applied
unfolding apply_journal_tx get checked_add ◌+ℤ◌ negate insert
first_apply_test = refl

first_apply_slots_test :
    map (λ slot. slot.amount_atomic) (values first_apply.1.projection_balances)
    ≡ codes "-5" ∷ codes "5" ∷ []
unfolding apply_journal_tx get checked_add ◌+ℤ◌ negate insert amount_to_str show_amount show_ℕ
first_apply_slots_test = refl

second_apply_test :
    apply_journal_tx 200 201 (codes "c") 7 payment.entry first_apply.1
    ≡ (ok duplicate, first_apply.1)
unfolding apply_journal_tx get checked_add ◌+ℤ◌ negate insert
second_apply_test = refl

other_consumer_test :
    (apply_journal_tx 200 201 (codes "d") 7 payment.entry first_apply.1).0 ≡ ok applied
unfolding apply_journal_tx get checked_add ◌+ℤ◌ negate insert
other_consumer_test = refl

reset_tables_test :
    reset_tables (codes "c") (apply_journal_tx 200 201 (codes "d") 7 payment.entry first_apply.1).1
    ≡ (apply_journal_tx 200 201 (codes "d") 7 payment.entry no_slots).1
unfolding apply_journal_tx reset_tables get checked_add ◌+ℤ◌ negate insert
reset_tables_test = refl

abbrev third_position : StreamPosition
third_position = record { topic = codes "t"; partition = pos 0; offset = pos 3 }

position_test :
    load_position_row
      (codes "c")
      (codes "t")
      (pos 0)
      (record_position_row (codes "c") third_position no_slots)
    ≡ some (pos 3)
unfolding load_position_row record_position_row ◌-ℤ◌
position_test = refl

no_slots-Follows : Follows (codes "c") no_slots empty_projection
unfolding slot_amount get
no_slots-Follows = record { slots = λ key. refl; processed = λ event_id. refl }

apply_journal_tx-SameProjected_example :
    SameProjected
      (codes "c")
      no_slots
      (apply_journal_tx 100 101 (codes "c") 7 payment.entry no_slots)
      (apply_journal (codes "c") 7 payment.entry empty_projection)
apply_journal_tx-SameProjected_example =
    apply_journal_tx-SameProjected 100 101 (codes "c") 7 payment.entry no_slots empty_projection
      no_slots-Follows

all_entries_test : all_entries_rows paid ≡ ok (stored_entry plain_driver payment.entry ∷ [])
unfolding all_entries_rows commit_tx get checked_add ◌+ℤ◌ negate insert collect posting_from_row
    new_asset_code parse_i128 amount_to_str show_amount show_ℕ new_idempotency_key
all_entries_test = refl

snapshot_test :
    map_err (λ e. tt) (list_balance_rows 20 paid)
    ≡ ok (record { account_id = 20; asset = btc; amount = pos 5; updated_at = 2000 } ∷ [])
unfolding list_balance_rows collect commit_tx get checked_add ◌+ℤ◌ negate insert parse_i128
    amount_to_str show_amount show_ℕ
snapshot_test = refl

views_agree_test :
    projection_view (codes "c") (apply_journal_tx 2000 2000 (codes "c") 7 payment.entry no_slots).1
    ≡ snapshot_view paid
unfolding snapshot_view projection_view commit_tx apply_journal_tx get checked_add ◌+ℤ◌ negate
    insert
views_agree_test = refl
