-- ===== src/Ledger/Service/Post.antt =====
-- `create_account` and `post_entry`: the handlers' common path, over the ports.
use iron_ledger.Domain.Event.{LedgerEventPayload}
use iron_ledger.Domain.Ids.{IdempotencyKey}
use iron_ledger.Domain.Journal.{JournalEntry}
use iron_ledger.Ledger.Action.{Action, Ports, fail, lift, pure, ◌>>=◌, ◌>>◌}
use iron_ledger.Ledger.Command.{Command, fingerprint}
use iron_ledger.Ledger.Error.{LedgerError, storage}
use iron_ledger.Ledger.Idempotency.{
  Codec, Hashing, IdempotencyRecord, RequestHash, new_record, replay,
}
use iron_ledger.Ledger.Port.{CommitOutcome, committed, duplicate_idempotency_key}
use iron_ledger.Ledger.Service.{
  Ambient, EntryPosted, Outcome, entry_events, fresh_outcome, replayed_outcome,
}
use iron_ledger.Ledger.Service.Guard.{guard_postings}
use iron_ledger.Prelude.{List, none, some}
use iron_ledger.Prelude.Result.{Result}
use iron_ledger.Prelude.Text.{Text, codes}

abbrev pub vanished : LedgerError
vanished = storage (codes "idempotency row vanished between commit and read")

module _ {S : Type 0} (ports : Ports S) where
  -- `require_record`
  unfoldable pub require_record : Text → IdempotencyKey → Action S IdempotencyRecord
  require_record scope key = do
    found ← ports.find_record scope key
    elim found [ none ↦ fail vanished | some r ↦ pure r ]

  -- `Outcome::replayed(record.replay(&hash)?)`
  unfoldable pub replay_outcome :
      {A : Type 0} → Codec A → RequestHash → IdempotencyRecord → Action S (Outcome A)
  replay_outcome codec hash r = do value ← lift (replay codec r hash); pure (replayed_outcome value)

  -- What follows the commit of a command whose response is `value`.
  unfoldable pub conclude :
      {A : Type 0}
      → Codec A
      → Text
      → IdempotencyKey
      → RequestHash
      → A
      → CommitOutcome
      → Action S (Outcome A)
  unfolding require_record replay_outcome
  conclude codec scope key hash value committed = pure (fresh_outcome value)
  conclude codec scope key hash value duplicate_idempotency_key = do
    r ← require_record scope key
    replay_outcome codec hash r

-- The response to a posted entry.
abbrev pub response_of : JournalEntry → EntryPosted
response_of entry = record {
  transaction_id = entry.id;
  description = entry.description;
  posted_at = entry.created_at;
}

module _ {S : Type 0} (ports : Ports S) (hashing : Hashing) (ambient : Ambient) where
  -- The part of `post_entry` that runs when no record is stored under the key.
  unfoldable pub post_new :
      {C : Type 0}
      → Codec EntryPosted
      → Command C
      → IdempotencyKey
      → RequestHash
      → (C → Result LedgerError (JournalEntry × List LedgerEventPayload))
      → C
      → Action S (Outcome EntryPosted)
  unfolding guard_postings conclude entry_events new_record
  post_new codec iface key hash build command = do
    built ← lift (build command)
    guard_postings ports built.0
    let entry = built.0
    let response = response_of entry
    stored ← lift (new_record codec ambient.record_time iface.scope key hash response)
    outcome ← ports.commit (record {
      entry = entry;
      events = entry_events ambient entry built.1;
      idempotency = stored;
    })
    conclude ports codec iface.scope key hash response outcome

  -- `post_entry`
  unfoldable pub post_entry :
      {C : Type 0}
      → Codec EntryPosted
      → Command C
      → (C → Result LedgerError (JournalEntry × List LedgerEventPayload))
      → C
      → Action S (Outcome EntryPosted)
  unfolding post_new replay_outcome fingerprint
  post_entry codec iface build command = do
    let key = (iface.meta_of command).idempotency_key
    hash ← lift (fingerprint hashing iface command)
    found ← ports.find_record iface.scope key
    elim found [
      | some r ↦ replay_outcome ports codec hash r
      | none ↦ post_new codec iface key hash build command
    ]
