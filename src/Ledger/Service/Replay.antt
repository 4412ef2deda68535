-- ===== src/Ledger/Service/Replay.antt =====
-- What a second call under a used idempotency key gives.
use mathlib.Core.Path.{subst}
use iron_ledger.Domain.Event.{LedgerEventPayload}
use iron_ledger.Domain.Ids.{IdempotencyKey, Timestamp}
use iron_ledger.Domain.Journal.{JournalEntry}
use iron_ledger.Ledger.Action.{Ports}
use iron_ledger.Ledger.Command.{Command, fingerprint}
use iron_ledger.Ledger.Error.{LedgerError, idempotency_conflict, serialization}
use iron_ledger.Ledger.Idempotency.{
  Codec, Hashing, IdempotencyRecord, RequestHash, new_record, replay,
}
use iron_ledger.Ledger.Json.{Value}
use iron_ledger.Ledger.Port.{CommitOutcome, JournalCommit, committed}
use iron_ledger.Ledger.Service.{Ambient, EntryPosted, Outcome, replayed_outcome}
use iron_ledger.Ledger.Service.Memory.{
  PostOutcome, commit_of, memory_ports, new_record_key, post_new-PostOutcome, stored_unused,
}
use iron_ledger.Ledger.Service.Post.{post_entry, post_new, replay_outcome, response_of}
use iron_ledger.Ledger.Store.{RecordKey, State, record_key, record_order}
use iron_ledger.Ledger.Store.Atomic.{applied_state, commit_entry_done, used, with_record}
use iron_ledger.Ledger.Store.Commit.{commit_entry}
use iron_ledger.Ledger.Store.Frame.{apply_postings_frame}
use iron_ledger.Ledger.Store.Opened.{record_events_idempotency}
use iron_ledger.Ledger.Store.Queries.{find_record}
use iron_ledger.Prelude.{
  Bool-cases, List, [], ap, arith, if◌then◌else◌, inl, inr, none, refl, some, sym, ◌++◌, ◌∙◌, ◌∷◌,
  ◌≡◌,
}
use iron_ledger.Prelude.Map.{get, get-insert}
use iron_ledger.Prelude.Order.{equals, equals_refl, text_order}
use iron_ledger.Prelude.Result.{Result, Result-cases, err, ok}
use iron_ledger.Prelude.Text.{Text}

-- The answer from a stored record: the stored response if the request is the same, else a conflict.
unfoldable pub answer_of :
    {A : Type 0} → Codec A → RequestHash → IdempotencyRecord → Result LedgerError (Outcome A)
answer_of codec hash r =
    if equals text_order r.request_hash hash
    then elim (codec.from_value r.response) [
      | ok value ↦ ok (replayed_outcome value)
      | err e ↦ err (serialization e)
    ]
    else err (idempotency_conflict r.scope r.key)

-- Replaying a stored response reads the record alone.
pub replay_outcome_lem :
    {S A : Type 0} (ports : Ports S) (codec : Codec A) (hash : RequestHash) (r : IdempotencyRecord)
    (s : S)
    → replay_outcome ports codec hash r s ≡ (answer_of codec hash r, s)
unfolding replay_outcome replay answer_of
replay_outcome_lem ports codec hash r s =
    elim (Bool-cases (equals text_order r.request_hash hash)) [
      | inl same ↦ elim (Result-cases (codec.from_value r.response)) [
        | inl (value, good) ↦ ground arith
        | inr (e, bad) ↦ ground arith
      ]
      | inr differ ↦ ground arith
    ]

module _ {S C : Type 0} (ports : Ports S) (hashing : Hashing) (ambient : Ambient)
    (codec : Codec EntryPosted) (iface : Command C)
    (build : C → Result LedgerError (JournalEntry × List LedgerEventPayload)) (command : C) where
  -- A handler that posts an entry, called under a key that has a record, calls no port but the
  -- lookup, whatever it was built from: a request with the stored hash gets the stored response,
  -- marked as replayed, and any other request is an idempotency conflict.
  pub post_entry_answers :
      (s t : S) (hash : RequestHash) (r : IdempotencyRecord)
      → fingerprint hashing iface command ≡ ok hash
      → ports.find_record iface.scope (iface.meta_of command).idempotency_key s ≡ (ok (some r), t)
      → post_entry ports hashing ambient codec iface build command s ≡ (answer_of codec hash r, t)
  unfolding post_entry
  post_entry_answers s t hash r printed found =
      rw (printed, found) (replay_outcome_lem ports codec hash r t)

-- A commit under an unused key that succeeds leaves its record under the key.
commit_entry_recorded :
    (now : Timestamp) (commit : JournalCommit) (s : State) (outcome : CommitOutcome)
    → used commit.idempotency s ≡ none
    → (commit_entry now commit s).0 ≡ ok outcome
    → used commit.idempotency (commit_entry now commit s).1 ≡ some commit.idempotency
commit_entry_recorded now commit s outcome absent good =
    let (fine, done) = commit_entry_done now commit s outcome absent good in
    let frame = apply_postings_frame now commit.entry.postings (with_record commit.idempotency s) in
    let t = applied_state now commit s in
    let booked = record t { entries = t.entries ++ commit.entry ∷ [] } in
    rw done (
      rw (record_events_idempotency commit.events booked, frame.2)
        (ground (
          arith,
          get-insert record_order (record_key commit.idempotency) (record_key commit.idempotency)
              commit.idempotency s.idempotency,
          equals_refl record_order (record_key commit.idempotency),
        )))

abbrev pub RoundTrips : {A : Type 0} → Codec A → Type 0
RoundTrips {A} codec =
    (value : A) (v : Value) → codec.to_value value ≡ ok v → codec.from_value v ≡ ok value

new_record_answer :
    {A : Type 0} (codec : Codec A) (now : Timestamp) (scope : Text) (key : IdempotencyKey)
    (hash : RequestHash) (response : A) (stored : IdempotencyRecord)
    → RoundTrips codec
    → new_record codec now scope key hash response ≡ ok stored
    → answer_of codec hash stored ≡ ok (replayed_outcome response)
unfolding new_record answer_of
new_record_answer codec now scope key hash response stored trips h =
    elim (Result-cases (codec.to_value response)) [
      | inl (v, good) ↦ ground (arith, trips response v good, equals_refl text_order hash)
      | inr (e, bad) ↦ absurd (ground arith)
    ]

stored_found :
    (scope : Text) (key : IdempotencyKey) (stored : IdempotencyRecord) (s : State)
    → record_key stored ≡ (scope, key)
    → used stored s ≡ some stored
    → find_record scope key s ≡ some stored
unfolding find_record
stored_found scope key stored s names h =
    subst (λ (k : RecordKey). get record_order k s.idempotency ≡ some stored) names h

module _ {C : Type 0} (hashing : Hashing) (codec : Codec EntryPosted) (iface : Command C)
    (command : C) where
  pub post_entry_first :
      (now : Timestamp) (ambient : Ambient)
      (build : C → Result LedgerError (JournalEntry × List LedgerEventPayload)) (s : State)
      (hash : RequestHash)
      → fingerprint hashing iface command ≡ ok hash
      → find_record iface.scope (iface.meta_of command).idempotency_key s ≡ none
      → post_entry (memory_ports now) hashing ambient codec iface build command s
        ≡ post_new
            (memory_ports now)
            hashing
            ambient
            codec
            iface
            (iface.meta_of command).idempotency_key
            hash
            build
            command
            s
  unfolding post_entry
  post_entry_first now ambient build s hash printed absent = rw (printed, absent) refl

  pub post_entry_unprinted :
      (now : Timestamp) (ambient : Ambient)
      (build : C → Result LedgerError (JournalEntry × List LedgerEventPayload)) (s : State)
      (e : LedgerError)
      → fingerprint hashing iface command ≡ err e
      → post_entry (memory_ports now) hashing ambient codec iface build command s ≡ (err e, s)
  unfolding post_entry
  post_entry_unprinted now ambient build s e bad = rw bad refl

  -- What a call under an unused key that succeeds leaves in the store: a record of its response.
  post_entry_stored :
      (now : Timestamp) (ambient : Ambient)
      (build : C → Result LedgerError (JournalEntry × List LedgerEventPayload)) (s t : State)
      (outcome : Outcome EntryPosted) (hash : RequestHash)
      → fingerprint hashing iface command ≡ ok hash
      → find_record iface.scope (iface.meta_of command).idempotency_key s ≡ none
      → post_entry (memory_ports now) hashing ambient codec iface build command s ≡ (ok outcome, t)
      → (stored : IdempotencyRecord) × (new_record codec ambient.record_time iface.scope
            (iface.meta_of command).idempotency_key
            hash
            outcome.value
          ≡ ok stored)
        × (find_record iface.scope (iface.meta_of command).idempotency_key t ≡ some stored)
  post_entry_stored now ambient build s t outcome hash printed absent h =
      let key = (iface.meta_of command).idempotency_key in
      let (built, stored, _, made, good, e, fresh) =
        subst (PostOutcome now hashing ambient codec iface key hash build command s)
          (sym (post_entry_first now ambient build s hash printed absent) ∙ h)
          (post_new-PostOutcome now hashing ambient codec iface key hash build command s absent) in
      let (names, same) =
        new_record_key codec ambient.record_time iface.scope key hash (response_of built.0) stored
          made in
      let unused =
        stored_unused now hashing ambient codec iface key hash build command s built stored absent
          made in
      let kept =
        commit_entry_recorded now
          (commit_of now hashing ambient codec iface key hash build command built stored) s
          committed unused good in
      (
        stored,
        rw fresh made,
        stored_found iface.scope key stored t names
            (subst (λ (x : State). used stored x ≡ some stored) (sym e) kept),
      )

  -- If a call over the in-memory adapter under an unused key succeeds, then every later call with
  -- the same command in the state that it leaves returns the response of the first, marked as
  -- replayed, and changes nothing, whatever the clock, the identifiers and the builder then are.
  -- The codec of the response reads back what it has written.
  pub post_entry_retry :
      (now later : Timestamp) (ambient ambient' : Ambient)
      (build build' : C → Result LedgerError (JournalEntry × List LedgerEventPayload)) (s t : State)
      (outcome : Outcome EntryPosted)
      → RoundTrips codec
      → find_record iface.scope (iface.meta_of command).idempotency_key s ≡ none
      → post_entry (memory_ports now) hashing ambient codec iface build command s ≡ (ok outcome, t)
      → post_entry (memory_ports later) hashing ambient' codec iface build' command t
        ≡ (ok (replayed_outcome outcome.value), t)
  post_entry_retry now later ambient ambient' build build' s t outcome trips absent h =
      elim (Result-cases (fingerprint hashing iface command)) [
        | inr (e, bad) ↦ absurd (let fails = post_entry_unprinted now ambient build s e bad in cc)
        | inl (hash, printed) ↦
            let (stored, made, found) =
              post_entry_stored now ambient build s t outcome hash printed absent h in
            rw
              (post_entry_answers (memory_ports later) hashing ambient' codec iface build' command t
                t hash stored printed (ap (λ x. (ok x, t)) found))
              (rw
                (new_record_answer codec ambient.record_time iface.scope
                  (iface.meta_of command).idempotency_key hash outcome.value stored trips made)
                refl)
      ]
