-- ===== src/Ledger/Service/Served.antt =====
-- Sequences of calls on the service over the in-memory adapter.
use mathlib.Core.Path.{subst}
use iron_ledger.Domain.Ids.{Timestamp}
use iron_ledger.Ledger.Command.{CreateAccountCommand, create_account_command}
use iron_ledger.Ledger.Idempotency.{Codec, Hashing}
use iron_ledger.Ledger.Json.{Value}
use iron_ledger.Ledger.Service.{AccountCreated, Ambient, EntryPosted}
use iron_ledger.Ledger.Service.Balanced.{PostingCommand}
use iron_ledger.Ledger.Service.CreateAccount.{handle_create_account}
use iron_ledger.Ledger.Service.Memory.{memory_ports}
use iron_ledger.Ledger.Service.Serve.{create_account_state, handle_posting, handle_posting_state}
use iron_ledger.Ledger.Store.{State, empty_state}
use iron_ledger.Ledger.Store.Outbox.{claim, mark_failed, mark_published}
use iron_ledger.Ledger.Store.Queries.{purge_created_before}
use iron_ledger.Ledger.Store.Reach.{Reach, Reach-IsSound, Step, after, initially}
use iron_ledger.Ledger.Store.Sound.{IsSound}
use iron_ledger.Prelude.{List, inl, inr, none, sym, ℕ, ◌≡◌}
use iron_ledger.Prelude.Map.{get}
use iron_ledger.Prelude.Order.{nat_order}
use iron_ledger.Prelude.Result.{Result}
use iron_ledger.Prelude.Text.{Text}

-- A call on the running program: of a handler, or of the adapter by the relay and by maintenance.
-- An account's identifier is drawn unused.
pub data Call : State → State → Type 0 where
  posts_entry :
      (now : Timestamp) (hashing : Hashing) (ambient : Ambient) (codec : Codec EntryPosted)
      (payload : PostingCommand → Result Text Value) (command : PostingCommand) (s : State)
      → Call s (handle_posting now hashing ambient codec payload command s).1
  opens_account :
      (now : Timestamp) (hashing : Hashing) (ambient : Ambient) (codec : Codec AccountCreated)
      (payload : CreateAccountCommand → Result Text Value) (command : CreateAccountCommand)
      (s : State)
      → get nat_order ambient.account_id s.accounts ≡ none
      → Call s
          (handle_create_account
            (memory_ports now)
            hashing
            ambient
            codec
            (create_account_command payload)
            command
            s).1
  leases_outbox :
      (limit : ℕ) (duration : Result Text ℕ) (now : Timestamp) (s : State)
      → Call s (claim limit duration now s).1
  acknowledges : (ids : List ℕ) (now : Timestamp) (s : State) → Call s (mark_published ids now s).1
  reports_failure : (id : ℕ) (error : Text) (s : State) → Call s (mark_failed id error s)
  purges_records : (cutoff : Timestamp) (s : State) → Call s (purge_created_before cutoff s).1

pub data Served : State → Type 0 where
  at_start : Served empty_state
  then_call : {s t : State} → Served s → Call s t → Served t

Reach-equal : {s t : State} → t ≡ s → Reach s → Reach t
Reach-equal e r = subst Reach (sym e) r

Call-Reach : {s t : State} → Call s t → Reach s → Reach t
Call-Reach (posts_entry now hashing ambient codec payload command s) r =
    elim (handle_posting_state now hashing ambient codec payload command s) [
      | inl same ↦ Reach-equal same r
      | inr (c, valid, e) ↦ Reach-equal e (after r (Step.posts now c s valid))
    ]
Call-Reach (opens_account now hashing ambient codec payload command s fresh) r =
    elim (create_account_state now hashing ambient codec (create_account_command payload) command
      s) [
        | inl same ↦ Reach-equal same r
        | inr (c, named, e) ↦ Reach-equal e (after r (Step.opens c s (rw named fresh)))
      ]
Call-Reach (leases_outbox limit duration now s) r = after r (Step.leases limit duration now s)
Call-Reach (acknowledges ids now s) r = after r (Step.publishes ids now s)
Call-Reach (reports_failure id error s) r = after r (Step.fails id error s)
Call-Reach (purges_records cutoff s) r = after r (Step.purges cutoff s)

Served-Reach : {s : State} → Served s → Reach s
Served-Reach at_start = initially
Served-Reach (then_call h call) = Call-Reach call (Served-Reach h)

-- The service over the in-memory adapter, from the empty store on: after any sequence of handler
-- calls and of the relay's and maintenance's calls, whatever each returned, where the identifier
-- drawn for a new account is unused: no account under the non-negative policy is below zero, nothing
-- is booked on an unknown account, the balances of every asset sum to zero, and every balance is the
-- sum of its postings in the journal.
pub Served-IsSound : {s : State} → Served s → IsSound s
Served-IsSound h = Reach-IsSound (Served-Reach h)
