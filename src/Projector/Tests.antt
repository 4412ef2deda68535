-- ===== src/Projector/Tests.antt =====
-- Runs of the projection's theorems on concrete values.
use iron_ledger.Domain.Amount.{checked_add}
use iron_ledger.Domain.Asset.{AssetCode, btc}
use iron_ledger.Domain.Error.{amount_overflow}
use iron_ledger.Domain.Event.{
  EventId, LedgerEvent, LedgerEventPayload, account_created, journal_posted,
}
use iron_ledger.Domain.Flow.Effect.{credit_of, debit_of}
use iron_ledger.Domain.Ids.{AccountId}
use iron_ledger.Domain.Journal.{JournalEntry, posted}
use iron_ledger.Domain.Journal.Slots.{amount_in}
use iron_ledger.Domain.Journal.Sums.{posting_sum}
use iron_ledger.Prelude.{[], none, refl, some, ◌||◌, ◌∷◌, ◌≡◌}
use iron_ledger.Prelude.Int.{negate, negsuc, pos, ◌+ℤ◌, ◌-ℤ◌}
use iron_ledger.Prelude.Map.{get, insert}
use iron_ledger.Prelude.Numeral.{i128_max}
use iron_ledger.Prelude.Order.{equals}
use iron_ledger.Prelude.Result.{err, ok}
use iron_ledger.Prelude.Text.{Text, codes}
use iron_ledger.Projector.{
  Projection, add_postings, append_event, apply_event, apply_journal, domain, duplicate,
  empty_projection, fetch_after, processed_order, projected_balance,
}
use iron_ledger.Projector.Projected.{apply_journal_applied, apply_journal_partial, is_processed}
use iron_ledger.Projector.Replay.{
  ReplayReport, beginning, empty_report, events_after, replay_batch, replay_events,
}
use iron_ledger.Projector.Replay.Again.{replay_events_again}
use iron_ledger.Projector.Replay.Ends.{EndsCounted, replay_events_ends}
use iron_ledger.Projector.Replay.Whole.{replay_events_whole}

abbrev seven : JournalEntry
seven = record {
  id = 1;
  idempotency_key = codes "key-1";
  description = codes "deposit";
  postings = credit_of 20 btc (pos 7) ∷ debit_of 10 btc (pos 7) ∷ [];
  status = posted;
  correlation_id = 3;
  causation_id = 4;
  created_at = 100;
}

abbrev reader : Text
reader = codes "reader"

apply_journal_applied_example :
    ((account : AccountId) (asset : AssetCode)
      → projected_balance account asset (apply_journal reader 5 seven empty_projection).1
        ≡ projected_balance account asset empty_projection
          +ℤ posting_sum (account, asset) seven.postings)
    × ((other_consumer : Text) (event : EventId)
        → is_processed other_consumer event (apply_journal reader 5 seven empty_projection).1 ≡ (
            equals processed_order (other_consumer, event) (reader, 5)
            || is_processed other_consumer event empty_projection))
    × ((again : JournalEntry)
        → apply_journal reader 5 again (apply_journal reader 5 seven empty_projection).1
          ≡ (ok duplicate, (apply_journal reader 5 seven empty_projection).1))
unfolding apply_journal add_postings checked_add ◌+ℤ◌ negate get insert
apply_journal_applied_example = apply_journal_applied reader 5 seven empty_projection refl

-- The second account already holds the greatest amount.
abbrev nearly_full : Projection
nearly_full = record empty_projection { balances = ((10, btc), pos i128_max) ∷ [] }

apply_journal_partial_example :
    ((apply_journal reader 5 seven nearly_full).0 ≡ err (domain amount_overflow))
    × (amount_in (20, btc) (apply_journal reader 5 seven nearly_full).1.balances ≡ negsuc 6)
    × ((apply_journal reader 5 seven nearly_full).1.processed ≡ [])
unfolding get insert checked_add ◌+ℤ◌ negate
apply_journal_partial_example =
    apply_journal_partial reader 5 seven nearly_full (credit_of 20 btc (pos 7))
      (debit_of 10 btc (pos 7)) [] (negsuc 6) amount_overflow refl refl refl refl refl

abbrev event_of : EventId → LedgerEventPayload → LedgerEvent
event_of event_id payload = record {
  event_id = event_id;
  event_type = codes "t";
  schema_version = 1;
  aggregate_id = 1;
  sequence = none;
  created_at = 100;
  correlation_id = 3;
  causation_id = 4;
  trace_context = [];
  payload = payload;
}

-- Three events with ascending cursors; the third repeats the first.
abbrev three_events : Projection
three_events = append_event (pos 4) (event_of 5 (journal_posted seven)) (
    append_event (pos 2) (event_of 6 (account_created 10 (codes "a")))
      (append_event (pos 1) (event_of 5 (journal_posted seven)) empty_projection))

replay_events_ends_example :
    EndsCounted (replay_events reader three_events beginning 2 empty_projection)
replay_events_ends_example = replay_events_ends reader three_events beginning 2 empty_projection

replay_events_whole_example :
    replay_events reader three_events beginning 2 empty_projection
    ≡ some (
        replay_batch reader
          (events_after (pos 0) three_events)
          (empty_report (pos 0))
          empty_projection)
unfolding ◌-ℤ◌
replay_events_whole_example =
    replay_events_whole reader three_events beginning 1 empty_projection (refl, (refl, (refl, tt)))

abbrev seven_projected : Projection
seven_projected = (apply_journal reader 5 seven empty_projection).1

abbrev seven_report : ReplayReport
seven_report = record { scanned = 3; applied = 1; duplicates = 1; ignored = 1; last_cursor = pos 4 }

replay_events_again_example :
    (again : ReplayReport) × (replay_events reader three_events beginning 1 seven_projected
      ≡ some (ok again, seven_projected))
    × (again.applied ≡ 0)
unfolding ◌-ℤ◌ replay_events fetch_after replay_batch apply_event get add_postings checked_add ◌+ℤ◌
    negate insert
replay_events_again_example =
    replay_events_again reader three_events beginning 1 0 empty_projection seven_projected
      seven_report (refl, (refl, (refl, tt))) refl
