-- ===== src/Ledger/Service/Memory.antt =====
-- The service over the in-memory adapter (`InMemoryLedger::service` in crates/ledger/src/memory.rs):
-- the ports, and what a handler does to the store.
use mathlib.Core.Path.{subst}
use iron_ledger.Domain.Account.{Account}
use iron_ledger.Domain.Amount.{AtomicAmount}
use iron_ledger.Domain.Event.{LedgerEventPayload}
use iron_ledger.Domain.Ids.{IdempotencyKey, Timestamp, Uuid}
use iron_ledger.Domain.Journal.{JournalEntry}
use iron_ledger.Domain.Journal.Sums.{BalanceKey}
use iron_ledger.Ledger.Action.{Action, Ports, continue, lift, reads, ◌>>=◌}
use iron_ledger.Ledger.Command.{Command}
use iron_ledger.Ledger.Error.{LedgerError}
use iron_ledger.Ledger.Idempotency.{Codec, Hashing, IdempotencyRecord, RequestHash, new_record}
use iron_ledger.Ledger.Port.{CommitOutcome, JournalCommit, committed}
use iron_ledger.Ledger.Service.{Ambient, EntryPosted, Outcome, entry_events, fresh_outcome}
use iron_ledger.Ledger.Service.Checks.{add_deltas, check_accounts, collect_by_id, dedup}
use iron_ledger.Ledger.Service.Guard.{check_deltas, guard_postings}
use iron_ledger.Ledger.Service.Post.{conclude, post_new, response_of}
use iron_ledger.Ledger.Store.{State, record_key}
use iron_ledger.Ledger.Store.Accounts.{create_account, find_by_name, load_many}
use iron_ledger.Ledger.Store.Atomic.{commit_entry_atomic, commit_entry_done, used}
use iron_ledger.Ledger.Store.Commit.{commit_entry}
use iron_ledger.Ledger.Store.Queries.{find_record, get_balance}
use iron_ledger.Prelude.{List, [], ap, arith, inl, inr, map, none, refl, sym, ◌∷◌, ◌≡◌}
use iron_ledger.Prelude.Map.{Map, keys}
use iron_ledger.Prelude.Result.{Result, Result-cases, err, ok}
use iron_ledger.Prelude.Text.{Text}

-- The adapter's ports; a commit reads the clock at `now`.
abbrev pub memory_ports : Timestamp → Ports State
memory_ports now = record {
  find_record = λ scope key. reads (find_record scope key);
  find_by_name = λ name. reads (find_by_name name);
  create = create_account;
  load_many = λ ids. reads (load_many ids);
  get_balance = λ account asset. reads (get_balance account asset);
  commit = commit_entry now;
}

check_deltas_reads :
    (now : Timestamp) (accounts : Map Uuid Account) (deltas : Map BalanceKey AtomicAmount)
    (s : State)
    → (check_deltas (memory_ports now) accounts deltas s).1 ≡ s
unfolding check_deltas
check_deltas_reads now accounts [] s = refl
check_deltas_reads now accounts ((key, delta) ∷ deltas) s =
    let ih = check_deltas_reads now accounts deltas s in ground (arith, ih)

-- The check before the commit changes nothing.
pub guard_postings_reads :
    (now : Timestamp) (entry : JournalEntry) (s : State)
    → (guard_postings (memory_ports now) entry s).1 ≡ s
unfolding guard_postings
guard_postings_reads now entry s = elim (Result-cases (add_deltas [] entry.postings)) [
  | inr (e, bad) ↦ rw bad refl
  | inl (deltas, good) ↦
      let ids = dedup (map (λ (key : BalanceKey). key.0) (keys deltas)) in
      elim (Result-cases (check_accounts (collect_by_id [] (load_many ids s)) ids)) [
        | inr (e, bad) ↦ rw (good, bad) refl
        | inl (u, fine) ↦
            rw (good, fine) (check_deltas_reads now (collect_by_id [] (load_many ids s)) deltas s)
      ]
]

bind_ok :
    {S A B : Type 0} (m : Action S A) (f : A → Action S B) (s t : S) (a : A)
    → m s ≡ (ok a, t)
    → (m >>= f) s ≡ f a t
bind_ok m f s t a h = ap (continue f) h

bind_err :
    {S A B : Type 0} (m : Action S A) (f : A → Action S B) (s t : S) (e : LedgerError)
    → m s ≡ (err e, t)
    → (m >>= f) s ≡ (err e, t)
bind_err m f s t e h = ap (continue f) h

guard_passed :
    (now : Timestamp) (entry : JournalEntry) (s : State) (u : Unit {0})
    → (guard_postings (memory_ports now) entry s).0 ≡ ok u
    → guard_postings (memory_ports now) entry s ≡ (ok u, s)
guard_passed now entry s u h = let kept = guard_postings_reads now entry s in cc

guard_failed :
    (now : Timestamp) (entry : JournalEntry) (s : State) (e : LedgerError)
    → (guard_postings (memory_ports now) entry s).0 ≡ err e
    → guard_postings (memory_ports now) entry s ≡ (err e, s)
guard_failed now entry s e h = let kept = guard_postings_reads now entry s in cc

pub new_record_key :
    {A : Type 0} (codec : Codec A) (now : Timestamp) (scope : Text) (key : IdempotencyKey)
    (hash : RequestHash) (response : A) (stored : IdempotencyRecord)
    → new_record codec now scope key hash response ≡ ok stored
    → (record_key stored ≡ (scope, key)) × (stored.request_hash ≡ hash)
unfolding new_record
new_record_key codec now scope key hash response stored h =
    elim (Result-cases (codec.to_value response)) [
      | inl (v, good) ↦ (ground arith, ground arith)
      | inr (e, bad) ↦ absurd (ground arith)
    ]

failed_commit :
    (now : Timestamp) (commit : JournalCommit) (s : State) (e : LedgerError)
    → (commit_entry now commit s).0 ≡ err e
    → commit_entry now commit s ≡ (err e, s)
failed_commit now commit s e bad = let kept = commit_entry_atomic now commit s e bad in cc

module _ {C : Type 0} (now : Timestamp) (hashing : Hashing) (ambient : Ambient)
    (codec : Codec EntryPosted) (iface : Command C) (key : IdempotencyKey) (hash : RequestHash)
    (build : C → Result LedgerError (JournalEntry × List LedgerEventPayload)) (command : C) where
  -- The commit that `post_entry` makes of what was built.
  abbrev pub commit_of : JournalEntry × List LedgerEventPayload → IdempotencyRecord → JournalCommit
  commit_of built stored = record {
    entry = built.0;
    events = entry_events ambient built.0 built.1;
    idempotency = stored;
  }

  -- What happened in `post_new`: it failed and nothing changed, or one commit of the built entry
  -- succeeded and its response is fresh.
  abbrev pub PostOutcome : State → Result LedgerError (Outcome EntryPosted) × State → Type 0
  PostOutcome s (err e, t) = t ≡ s
  PostOutcome s (ok outcome, t) =
      (built : JournalEntry × List LedgerEventPayload) × (stored : IdempotencyRecord) × (build
          command
        ≡ ok built)
      × (new_record codec ambient.record_time iface.scope key hash (response_of built.0)
          ≡ ok stored)
      × ((commit_entry now (commit_of built stored) s).0 ≡ ok committed)
      × (t ≡ (commit_entry now (commit_of built stored) s).1)
      × (outcome ≡ fresh_outcome (response_of built.0))

  post_tail : JournalEntry × List LedgerEventPayload → Action State (Outcome EntryPosted)
  post_tail built = do
    stored ← lift (new_record codec ambient.record_time iface.scope key hash (response_of built.0))
    outcome ← (memory_ports now).commit (commit_of built stored)
    conclude (memory_ports now) codec iface.scope key hash (response_of built.0) outcome

  post_new_built :
      (s : State) (built : JournalEntry × List LedgerEventPayload)
      → build command ≡ ok built
      → post_new (memory_ports now) hashing ambient codec iface key hash build command s
        ≡ (guard_postings (memory_ports now) built.0 >>= λ u. post_tail built) s
  unfolding post_new post_tail
  post_new_built s built good = rw good refl

  post_tail_stored :
      (s : State) (built : JournalEntry × List LedgerEventPayload) (stored : IdempotencyRecord)
      → new_record codec ambient.record_time iface.scope key hash (response_of built.0) ≡ ok stored
      → post_tail built s
        ≡ continue
            (conclude (memory_ports now) codec iface.scope key hash (response_of built.0))
            (commit_entry now (commit_of built stored) s)
  unfolding post_tail
  post_tail_stored s built stored h = rw h refl

  post_tail_fails :
      (s : State) (built : JournalEntry × List LedgerEventPayload) (e : LedgerError)
      → new_record codec ambient.record_time iface.scope key hash (response_of built.0) ≡ err e
      → post_tail built s ≡ (err e, s)
  unfolding post_tail
  post_tail_fails s built e h = rw h refl

  post_new_unbuilt :
      (s : State) (e : LedgerError)
      → build command ≡ err e
      → post_new (memory_ports now) hashing ambient codec iface key hash build command s
        ≡ (err e, s)
  unfolding post_new
  post_new_unbuilt s e bad = rw bad refl

  pub stored_unused :
      (s : State) (built : JournalEntry × List LedgerEventPayload) (stored : IdempotencyRecord)
      → find_record iface.scope key s ≡ none
      → new_record codec ambient.record_time iface.scope key hash (response_of built.0) ≡ ok stored
      → used stored s ≡ none
  unfolding find_record
  stored_unused s built stored absent made =
      rw
        (new_record_key codec ambient.record_time iface.scope key hash (response_of built.0) stored
          made).0
        absent

  committed_outcome :
      (s : State) (built : JournalEntry × List LedgerEventPayload) (stored : IdempotencyRecord)
      → find_record iface.scope key s ≡ none
      → build command ≡ ok built
      → new_record codec ambient.record_time iface.scope key hash (response_of built.0) ≡ ok stored
      → PostOutcome s (
          continue
            (conclude (memory_ports now) codec iface.scope key hash (response_of built.0))
            (commit_entry now (commit_of built stored) s))
  unfolding conclude
  committed_outcome s built stored absent good made =
      let commit = commit_of built stored in
      elim (Result-cases (commit_entry now commit s).0) [
        | inl (outcome, done) ↦
            let step =
              (commit_entry_done now commit s outcome (stored_unused s built stored absent made)
                done).1 in
            subst
              (λ (x : Result LedgerError CommitOutcome × State). PostOutcome s (
                continue
                  (conclude (memory_ports now) codec iface.scope key hash (response_of built.0)) x))
              (sym step)
              (
                built,
                stored,
                good,
                made,
                ap (λ (x : Result LedgerError CommitOutcome × State). x.0) step,
                sym (ap (λ (x : Result LedgerError CommitOutcome × State). x.1) step),
                refl,
              )
        | inr (e, bad) ↦
            subst
              (λ (x : Result LedgerError CommitOutcome × State). PostOutcome s (
                continue
                  (conclude (memory_ports now) codec iface.scope key hash (response_of built.0)) x))
              (sym (failed_commit now commit s e bad)) refl
      ]

  post_tail-PostOutcome :
      (s : State) (built : JournalEntry × List LedgerEventPayload)
      → find_record iface.scope key s ≡ none
      → build command ≡ ok built
      → PostOutcome s (post_tail built s)
  post_tail-PostOutcome s built absent good =
      elim (Result-cases
        (new_record codec ambient.record_time iface.scope key hash (response_of built.0))) [
          | inr (e, bad) ↦ rw (post_tail_fails s built e bad) refl
          | inl (stored, made) ↦
              rw (post_tail_stored s built stored made)
                (committed_outcome s built stored absent good made)
        ]

  -- The part of `post_entry` that runs under an unused key fails and changes nothing, or makes one
  -- commit, which succeeds, of the entry that was built and of a record of its response, and
  -- returns that response as fresh.
  pub post_new-PostOutcome :
      (s : State)
      → find_record iface.scope key s ≡ none
      → PostOutcome s
          (post_new (memory_ports now) hashing ambient codec iface key hash build command s)
  post_new-PostOutcome s absent = elim (Result-cases (build command)) [
    | inr (e, bad) ↦ rw (post_new_unbuilt s e bad) refl
    | inl (built, good) ↦
        rw (post_new_built s built good)
          (elim (Result-cases (guard_postings (memory_ports now) built.0 s).0) [
            | inr (e, bad) ↦
                rw
                  (bind_err (guard_postings (memory_ports now) built.0) (λ u. post_tail built) s s e
                    (guard_failed now built.0 s e bad))
                  refl
            | inl (u, passed) ↦
                rw
                  (bind_ok (guard_postings (memory_ports now) built.0) (λ u. post_tail built) s s u
                    (guard_passed now built.0 s u passed))
                  (post_tail-PostOutcome s built absent good)
          ])
  ]
