-- ===== src/Ledger/Service/Serve.antt =====
-- What a call of a handler does to the in-memory adapter.
use iron_ledger.Domain.Account.{Account, new_account}
use iron_ledger.Domain.Event.{LedgerEventPayload, wrap}
use iron_ledger.Domain.Ids.{IdempotencyKey, Timestamp}
use iron_ledger.Ledger.Action.{Action, continue}
use iron_ledger.Ledger.Command.{Command, CommandMeta, CreateAccountCommand, fingerprint}
use iron_ledger.Ledger.Error.{LedgerError}
use iron_ledger.Ledger.Idempotency.{Codec, Hashing, IdempotencyRecord, RequestHash, new_record}
use iron_ledger.Ledger.Json.{Value}
use iron_ledger.Ledger.Port.{
  AccountCommit, CommitOutcome, JournalCommit, committed, duplicate_idempotency_key,
}
use iron_ledger.Ledger.Service.{AccountCreated, Ambient, EntryPosted, Outcome, max_account_name_len}
use iron_ledger.Ledger.Service.Balanced.{
  IsValidated, PostingCommand, build_entry, build_entry-IsValidated, complete_withdrawal,
  record_admin_adjustment, record_deposit, record_trade_settlement, record_trading_fee,
  reject_withdrawal, request_withdrawal, submit_journal,
}
use iron_ledger.Ledger.Service.CreateAccount.{handle_create_account, open_new}
use iron_ledger.Ledger.Service.Memory.{PostOutcome, commit_of, memory_ports, post_new-PostOutcome}
use iron_ledger.Ledger.Service.Post.{conclude, post_entry, post_new, require_record}
use iron_ledger.Ledger.Service.Replay.{
  post_entry_answers, post_entry_first, post_entry_unprinted, replay_outcome_lem,
}
use iron_ledger.Ledger.Store.{State}
use iron_ledger.Ledger.Store.Accounts.{create_account, find_by_name}
use iron_ledger.Ledger.Store.Commit.{commit_entry}
use iron_ledger.Ledger.Store.Queries.{find_record}
use iron_ledger.Prelude.{
  Bool-cases, Option-cases, [], ap, inl, inr, is_some, ltb, none, refl, ◌||◌, ◌∷◌, ◌≡◌, ◌⊎◌,
}
use iron_ledger.Prelude.Result.{Result, Result-cases, err, ok}
use iron_ledger.Prelude.Text.{Text, byte_len, codes, is_empty, trim}

abbrev pub scope_of : PostingCommand → Text
scope_of (submit_journal _) = codes "submit_journal_entry"
scope_of (record_deposit _) = codes "record_deposit"
scope_of (request_withdrawal _) = codes "request_withdrawal"
scope_of (complete_withdrawal _) = codes "complete_withdrawal"
scope_of (reject_withdrawal _) = codes "reject_withdrawal"
scope_of (record_trade_settlement _) = codes "record_trade_settlement"
scope_of (record_trading_fee _) = codes "record_trading_fee"
scope_of (record_admin_adjustment _) = codes "record_admin_adjustment"

abbrev pub meta_of_command : PostingCommand → CommandMeta
meta_of_command (submit_journal c) = c.meta
meta_of_command (record_deposit c) = c.meta
meta_of_command (request_withdrawal c) = c.meta
meta_of_command (complete_withdrawal c) = c.meta
meta_of_command (reject_withdrawal c) = c.meta
meta_of_command (record_trade_settlement c) = c.meta
meta_of_command (record_trading_fee c) = c.meta
meta_of_command (record_admin_adjustment c) = c.meta

-- The interface that the handler of `command` uses; `payload` is the derived `Serialize`.
abbrev pub posting_interface :
    (PostingCommand → Result Text Value) → PostingCommand → Command PostingCommand
posting_interface payload command = record {
  scope = scope_of command;
  meta_of = meta_of_command;
  payload = payload;
}

module _ (now : Timestamp) (hashing : Hashing) (ambient : Ambient) where
  -- A handler's call that posts an entry.
  abbrev pub handle_posting :
      Codec EntryPosted
      → (PostingCommand → Result Text Value)
      → PostingCommand
      → Action State (Outcome EntryPosted)
  handle_posting codec payload command =
      post_entry (memory_ports now) hashing ambient codec (posting_interface payload command)
        (build_entry ambient.entry_time ambient.transaction_id) command

  posted_state :
      (codec : Codec EntryPosted) (payload : PostingCommand → Result Text Value)
      (command : PostingCommand) (hash : Text) (s : State)
      (x : Result LedgerError (Outcome EntryPosted) × State)
      → PostOutcome now hashing ambient codec
          (posting_interface payload command)
          (meta_of_command command).idempotency_key
          hash
          (build_entry ambient.entry_time ambient.transaction_id)
          command
          s
          x
      → (x.1 ≡ s) ⊎ ((c : JournalCommit) × IsValidated c.entry × (x.1 ≡ (commit_entry now c s).1))
  posted_state codec payload command hash s (err e, t) h = inl h
  posted_state codec payload command hash s (ok outcome, t) (built, stored, good, _, _, e, _) =
      inr (
        commit_of now hashing ambient codec (posting_interface payload command)
            (meta_of_command command).idempotency_key hash
            (build_entry ambient.entry_time ambient.transaction_id) command built stored,
        build_entry-IsValidated ambient.entry_time ambient.transaction_id command built good,
        e,
      )

  -- The state after the call is that before, or that after one commit of a validated entry.
  pub handle_posting_state :
      (codec : Codec EntryPosted) (payload : PostingCommand → Result Text Value)
      (command : PostingCommand) (s : State)
      → ((handle_posting codec payload command s).1 ≡ s)
        ⊎ ((c : JournalCommit) × IsValidated c.entry
            × ((handle_posting codec payload command s).1 ≡ (commit_entry now c s).1))
  handle_posting_state codec payload command s =
      let iface = posting_interface payload command in
      let key = (meta_of_command command).idempotency_key in
      let build = build_entry ambient.entry_time ambient.transaction_id in
      elim (Result-cases (fingerprint hashing iface command)) [
        | inr (e, bad) ↦ inl (
            ap (λ (x : Result LedgerError (Outcome EntryPosted) × State). x.1)
              (post_entry_unprinted hashing codec iface command now ambient build s e bad))
        | inl (hash, printed) ↦ elim (Option-cases (find_record iface.scope key s)) [
          | inr (r, present) ↦ inl (
              ap (λ (x : Result LedgerError (Outcome EntryPosted) × State). x.1)
                (post_entry_answers (memory_ports now) hashing ambient codec iface build command s s
                  hash r printed (ap (λ x. (ok x, s)) present)))
          | inl absent ↦
              rw
                (post_entry_first hashing codec iface command now ambient build s hash printed
                  absent)
                (posted_state codec payload command hash s
                  (post_new (memory_ports now) hashing ambient codec iface key hash build command s)
                  (post_new-PostOutcome now hashing ambient codec iface key hash build command s
                    absent))
        ]
      ]

conclude_state :
    {A : Type 0} (now : Timestamp) (codec : Codec A) (scope : Text) (key : IdempotencyKey)
    (hash : RequestHash) (value : A) (x : Result LedgerError CommitOutcome × State)
    → (continue (conclude (memory_ports now) codec scope key hash value) x).1 ≡ x.1
unfolding conclude require_record
conclude_state now codec scope key hash value (err e, t) = refl
conclude_state now codec scope key hash value (ok committed, t) = refl
conclude_state {A = A} now codec scope key hash value (ok duplicate_idempotency_key, t) =
    elim (Option-cases (find_record scope key t)) [
      | inl absent ↦ rw absent refl
      | inr (r, present) ↦ rw present (
          ap (λ (x : Result LedgerError (Outcome A) × State). x.1)
            (replay_outcome_lem (memory_ports now) codec hash r t))
    ]

-- The state after an account was opened, or not.
abbrev pub Opened : Timestamp → Ambient → State → State → Type 0
Opened now ambient s t =
    (t ≡ s)
    ⊎ ((c : AccountCommit) × (c.account.id ≡ ambient.account_id) × (t ≡ (create_account c s).1))

-- The commit that an opening makes.
abbrev opening : Ambient → CreateAccountCommand → Account → IdempotencyRecord → AccountCommit
opening ambient command account stored = record {
  account = account;
  events =
      wrap (ambient.event_time 0) (ambient.event_id 0) account.id none command.meta.correlation_id
        command.meta.causation_id (codes "")
        (LedgerEventPayload.account_created account.id account.name)
      ∷ [];
  idempotency = stored;
}

open_new_state :
    (now : Timestamp) (hashing : Hashing) (ambient : Ambient) (codec : Codec AccountCreated)
    (scope : Text) (key : IdempotencyKey) (hash : RequestHash) (command : CreateAccountCommand)
    (s : State)
    → Opened now ambient s
        (open_new (memory_ports now) hashing ambient codec scope key hash command s).1
unfolding open_new
open_new_state now hashing ambient codec scope key hash command s =
    let name = trim command.name in
    elim (Bool-cases (is_empty name || ltb max_account_name_len (byte_len name))) [
      | inl bad ↦ inl (rw bad refl)
      | inr usable ↦ elim (Bool-cases (is_some (find_by_name name s))) [
        | inl taken ↦ inl (rw (usable, taken) refl)
        | inr free ↦
            let account =
              new_account ambient.entry_time ambient.account_id name command.kind command.policy in
            elim (Result-cases (
              new_record codec ambient.record_time scope key hash (record { account = account }))) [
                | inr (e, bad) ↦ inl (rw (usable, free, bad) refl)
                | inl (stored, made) ↦ inr (
                  opening ambient command account stored,
                  refl,
                  rw (usable, free, made)
                      (conclude_state now codec scope key hash (record { account = account })
                        (create_account (opening ambient command account stored) s)),
                )
              ]
      ]
    ]

-- A call of the handler that opens accounts leaves the store alone, or is one opening under the
-- identifier that was drawn.
pub create_account_state :
    (now : Timestamp) (hashing : Hashing) (ambient : Ambient) (codec : Codec AccountCreated)
    (iface : Command CreateAccountCommand) (command : CreateAccountCommand) (s : State)
    → Opened now ambient s
        (handle_create_account (memory_ports now) hashing ambient codec iface command s).1
unfolding handle_create_account
create_account_state now hashing ambient codec iface command s =
    elim (Result-cases (fingerprint hashing iface command)) [
      | inr (e, bad) ↦ inl (rw bad refl)
      | inl (hash, printed) ↦
          let key = command.meta.idempotency_key in
          elim (Option-cases (find_record iface.scope key s)) [
            | inr (r, present) ↦ inl (
                rw (printed, present)
                  (ap (λ (x : Result LedgerError (Outcome AccountCreated) × State). x.1)
                    (replay_outcome_lem (memory_ports now) codec hash r s)))
            | inl absent ↦
                rw (printed, absent)
                  (open_new_state now hashing ambient codec iface.scope key hash command s)
          ]
    ]
