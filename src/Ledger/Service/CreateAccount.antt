-- ===== src/Ledger/Service/CreateAccount.antt =====
-- `LedgerService::create_account` (crates/ledger/src/service.rs), over the ports.
use iron_ledger.Domain.Account.{new_account}
use iron_ledger.Domain.Event.{LedgerEventPayload, wrap}
use iron_ledger.Domain.Ids.{IdempotencyKey}
use iron_ledger.Ledger.Action.{Action, Ports, lift, ◌>>=◌, ◌>>◌}
use iron_ledger.Ledger.Command.{Command, CreateAccountCommand, fingerprint}
use iron_ledger.Ledger.Error.{LedgerError, validation}
use iron_ledger.Ledger.Idempotency.{Codec, Hashing, RequestHash, new_record}
use iron_ledger.Ledger.Service.{AccountCreated, Ambient, Outcome, max_account_name_len}
use iron_ledger.Ledger.Service.Post.{conclude, replay_outcome}
use iron_ledger.Ledger.Store.Accounts.{name_conflict}
use iron_ledger.Prelude.{[], is_some, ltb, none, some, ◌||◌, ◌∷◌}
use iron_ledger.Prelude.Result.{reject_if}
use iron_ledger.Prelude.Text.{Text, byte_len, codes, is_empty, trim}

abbrev pub invalid_name : LedgerError
invalid_name = validation (codes "account name must be 1..=128 characters")

module _ {S : Type 0} (ports : Ports S) (hashing : Hashing) (ambient : Ambient) where
  -- The part that runs when no record is stored under the key.
  unfoldable pub open_new :
      Codec AccountCreated
      → Text
      → IdempotencyKey
      → RequestHash
      → CreateAccountCommand
      → Action S (Outcome AccountCreated)
  unfolding conclude new_record
  open_new codec scope key hash command = do
    let name = trim command.name
    lift (reject_if (is_empty name || ltb max_account_name_len (byte_len name)) invalid_name)
    taken ← ports.find_by_name name
    lift (reject_if (is_some taken) (name_conflict name))
    let account = new_account ambient.entry_time ambient.account_id name command.kind command.policy
    let event =
        wrap (ambient.event_time 0) (ambient.event_id 0) account.id none command.meta.correlation_id
          command.meta.causation_id (codes "")
          (LedgerEventPayload.account_created account.id account.name)
    stored ←
        lift (new_record codec ambient.record_time scope key hash (record { account = account }))
    outcome ← ports.create (record { account = account; events = event ∷ []; idempotency = stored })
    conclude ports codec scope key hash (record { account = account }) outcome

  -- `create_account`
  unfoldable pub handle_create_account :
      Codec AccountCreated
      → Command CreateAccountCommand
      → CreateAccountCommand
      → Action S (Outcome AccountCreated)
  unfolding open_new replay_outcome fingerprint
  handle_create_account codec iface command = do
    hash ← lift (fingerprint hashing iface command)
    let key = command.meta.idempotency_key
    found ← ports.find_record iface.scope key
    elim found [
      | some r ↦ replay_outcome ports codec hash r
      | none ↦ open_new codec iface.scope key hash command
    ]
