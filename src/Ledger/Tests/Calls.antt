-- ===== src/Ledger/Tests/Calls.antt =====
-- Runs of the handlers' theorems on concrete values.
use iron_ledger.Ledger.Service.Served.{opens_account}
use iron_ledger.Ledger.Service.Served.{posts_entry}
use iron_ledger.Ledger.Tests.{clearing}
use iron_ledger.Ledger.Tests.{customer}
use mathlib.Core.Path.{subst}
use iron_ledger.Domain.Account.{Account}
use iron_ledger.Domain.Amount.{checked_add, checked_neg, require_positive}
use iron_ledger.Domain.Asset.{btc}
use iron_ledger.Domain.Event.{wrap}
use iron_ledger.Domain.Flow.{deposit_entry, mirror_custody, transfer_pair}
use iron_ledger.Domain.Ids.{AccountId}
use iron_ledger.Domain.Journal.{
  add_totals, asset_totals, check_totals, credit, debit, new_entry, new_posting, validate_balanced,
}
use iron_ledger.Ledger.Command.{CreateAccountCommand, create_account_command, fingerprint}
use iron_ledger.Ledger.Error.{LedgerError}
use iron_ledger.Ledger.Idempotency.{Codec, Hashing, canonical_json, compute, new_record, replay}
use iron_ledger.Ledger.Json.{Items, Value, canonicalize, insert_field}
use iron_ledger.Ledger.Service.{
  AccountCreated, Ambient, EntryPosted, Outcome, annotate, entry_events, fresh_outcome,
  replayed_outcome, wrap_payloads,
}
use iron_ledger.Ledger.Service.Balanced.{
  PostingCommand, build_entry, build_entry-IsValidated, record_deposit,
}
use iron_ledger.Ledger.Service.Checks.{
  add_deltas, check_account, check_accounts, check_balance, collect_by_id, dedup,
}
use iron_ledger.Ledger.Service.CreateAccount.{handle_create_account, open_new}
use iron_ledger.Ledger.Service.Guard.{check_deltas, guard_postings}
use iron_ledger.Ledger.Service.Handlers.{build_record_deposit}
use iron_ledger.Ledger.Service.Memory.{PostOutcome, memory_ports, post_new-PostOutcome}
use iron_ledger.Ledger.Service.Post.{conclude, post_entry, post_new, replay_outcome, require_record}
use iron_ledger.Ledger.Service.Replay.{RoundTrips, post_entry_retry}
use iron_ledger.Ledger.Service.Serve.{handle_posting, posting_interface}
use iron_ledger.Ledger.Service.Served.{Served, Served-IsSound, at_start, then_call}
use iron_ledger.Ledger.Store.{State, empty_state, record_events}
use iron_ledger.Ledger.Store.Accounts.{
  create_account, find_by_name, first_named, load_many, name_taken,
}
use iron_ledger.Ledger.Store.Commit.{apply_posting, apply_postings, commit_entry}
use iron_ledger.Ledger.Store.Queries.{find_record, get_balance}
use iron_ledger.Ledger.Store.Sound.{IsSound}
use iron_ledger.Ledger.Tests.{entry_of, plain_ambient, plain_hashing, two_accounts}
use iron_ledger.Prelude.{[], none, refl, some, ◌+◌, ◌∷◌, ◌≡◌}
use iron_ledger.Prelude.Int.{negate, pos, ◌+ℤ◌}
use iron_ledger.Prelude.Map.{get, insert}
use iron_ledger.Prelude.Result.{Result, err, ok, ok_injective}
use iron_ledger.Prelude.Text.{Text, byte_len, codes, is_whitespace, trim, trim_start}

abbrev encode : EntryPosted → Value
encode response = Value.array (
    Items.cons (Value.string (response.transaction_id ∷ response.posted_at ∷ response.description))
      Items.nil)

abbrev decode : Value → Result Text EntryPosted
decode (Value.array (Items.cons (Value.string (id ∷ time ∷ description)) Items.nil)) =
    ok (record { transaction_id = id; description = description; posted_at = time })
decode _ = err (codes "unexpected shape")

abbrev plain_codec : Codec EntryPosted
plain_codec = record { to_value = λ response. ok (encode response); from_value = decode }

plain_codec-RoundTrips : RoundTrips plain_codec
plain_codec-RoundTrips response v h =
    subst (λ (x : Value). decode x ≡ ok response) (ok_injective h) refl

abbrev deposit_command : PostingCommand
deposit_command = record_deposit (record {
  meta = record { idempotency_key = codes "key-1"; correlation_id = 3; causation_id = 4 };
  customer_available = 10;
  deposit_clearing = 20;
  hot_wallet = none;
  asset = btc;
  amount = pos 5;
  external_reference = none;
})

abbrev plain_payload : PostingCommand → Result Text Value
plain_payload command = ok Value.null

abbrev first_call : State → Result LedgerError (Outcome EntryPosted) × State
first_call =
    handle_posting 100 plain_hashing plain_ambient plain_codec plain_payload deposit_command

abbrev posted_response : EntryPosted
posted_response = record {
  transaction_id = 1;
  description = codes "confirmed_deposit";
  posted_at = 100;
}

first_call_succeeds :
    first_call two_accounts ≡ (ok (fresh_outcome posted_response), (first_call two_accounts).1)
unfolding post_entry find_record get insert load_many wrap mirror_custody transfer_pair new_posting
    fingerprint canonical_json compute new_record replay canonicalize insert_field add_deltas
    check_account check_accounts check_balance collect_by_id dedup check_deltas guard_postings
    conclude post_new replay_outcome require_record annotate entry_events wrap_payloads byte_len
    is_whitespace trim trim_start build_record_deposit deposit_entry credit debit new_entry
    validate_balanced asset_totals add_totals check_totals checked_add checked_neg negate ◌+ℤ◌
    require_positive get_balance commit_entry apply_postings apply_posting
first_call_succeeds = refl

post_entry_retry_example :
    handle_posting 200 plain_hashing plain_ambient plain_codec plain_payload deposit_command
      (first_call two_accounts).1
    ≡ (ok (replayed_outcome posted_response), (first_call two_accounts).1)
unfolding find_record get
post_entry_retry_example =
    post_entry_retry plain_hashing plain_codec (posting_interface plain_payload deposit_command)
      deposit_command 100 200 plain_ambient plain_ambient (build_entry 100 1) (build_entry 100 1)
      two_accounts (first_call two_accounts).1 (fresh_outcome posted_response)
      plain_codec-RoundTrips refl first_call_succeeds

post_new-PostOutcome_example :
    PostOutcome 100 plain_hashing plain_ambient plain_codec
      (posting_interface plain_payload deposit_command)
      (codes "key-1")
      (codes "hash")
      (build_entry 100 1)
      deposit_command
      two_accounts
      (post_new
        (memory_ports 100)
        plain_hashing
        plain_ambient
        plain_codec
        (posting_interface plain_payload deposit_command)
        (codes "key-1")
        (codes "hash")
        (build_entry 100 1)
        deposit_command
        two_accounts)
unfolding find_record get
post_new-PostOutcome_example =
    post_new-PostOutcome 100 plain_hashing plain_ambient plain_codec
      (posting_interface plain_payload deposit_command) (codes "key-1") (codes "hash")
      (build_entry 100 1) deposit_command two_accounts refl

build_entry-IsValidated_example :
    validate_balanced (record (entry_of 20 10) { description = codes "confirmed_deposit" }).postings
    ≡ ok tt
unfolding build_record_deposit deposit_entry require_positive credit checked_neg negate debit
    new_entry validate_balanced asset_totals add_totals checked_add ◌+ℤ◌ get insert check_totals
build_entry-IsValidated_example =
    build_entry-IsValidated 100 1 deposit_command
      (record (entry_of 20 10) { description = codes "confirmed_deposit" }, []) refl

-- The two accounts opened through the handler, and five deposited
abbrev account_codec : Codec AccountCreated
account_codec = record { to_value = λ created. ok Value.null; from_value = λ v. err [] }

abbrev ambient_of : AccountId → Ambient
ambient_of id = record plain_ambient { account_id = id; event_id = λ i. 100 + id + i }

abbrev opening_command : Account → CreateAccountCommand
opening_command account = record {
  meta = record { idempotency_key = account.name; correlation_id = 3; causation_id = 4 };
  name = account.name;
  kind = account.kind;
  policy = account.policy;
}

abbrev open_call : Account → State → Result LedgerError (Outcome AccountCreated) × State
open_call account =
    handle_create_account (memory_ports 90) plain_hashing (ambient_of account.id) account_codec
      (create_account_command (λ c. ok Value.null)) (opening_command account)

abbrev customer_served : State
customer_served = (open_call customer empty_state).1

abbrev both_served : State
both_served = (open_call clearing customer_served).1

both_served_reached : Served both_served
unfolding get handle_create_account find_record trim byte_len find_by_name create_account
    record_events insert
both_served_reached =
    then_call
      (then_call at_start (
        opens_account 90 plain_hashing (ambient_of 10) account_codec (λ c. ok Value.null)
          (opening_command customer) empty_state refl))
      (opens_account 90 plain_hashing (ambient_of 20) account_codec (λ c. ok Value.null)
        (opening_command clearing) customer_served refl)

served_deposit_test : (first_call both_served).0 ≡ ok (fresh_outcome posted_response)
unfolding post_entry find_record get insert load_many wrap mirror_custody transfer_pair new_posting
    fingerprint canonical_json compute new_record replay canonicalize insert_field add_deltas
    check_account check_accounts check_balance collect_by_id dedup check_deltas guard_postings
    conclude post_new replay_outcome require_record annotate entry_events wrap_payloads byte_len
    is_whitespace trim trim_start build_record_deposit deposit_entry credit debit new_entry
    validate_balanced asset_totals add_totals check_totals checked_add checked_neg negate ◌+ℤ◌
    require_positive get_balance commit_entry apply_postings apply_posting handle_create_account
    find_by_name create_account record_events open_new first_named name_taken
served_deposit_test = refl

Served-IsSound_example : IsSound (first_call both_served).1
Served-IsSound_example = Served-IsSound (
    then_call both_served_reached (
      posts_entry 100 plain_hashing plain_ambient plain_codec plain_payload deposit_command
        both_served))

-- A payload that tells commands apart by their reference, and a hash that keeps it
abbrev reference_payload : PostingCommand → Result Text Value
reference_payload (record_deposit c) = elim c.external_reference [
  | none ↦ ok Value.null
  | some reference ↦ ok (Value.string reference)
]
reference_payload _ = ok Value.null

abbrev text_of : Value → Text
text_of (Value.string text) = text
text_of _ = []

abbrev echo_hashing : Hashing
echo_hashing = record { print = text_of; sha256_hex = λ text. text }

abbrev deposit_under : Text → PostingCommand
deposit_under reference = record_deposit (record {
  meta = record { idempotency_key = codes "key-1"; correlation_id = 3; causation_id = 4 };
  customer_available = 10;
  deposit_clearing = 20;
  hot_wallet = none;
  asset = btc;
  amount = pos 5;
  external_reference = some reference;
})

abbrev echo_post : Text → State → Result LedgerError (Outcome EntryPosted) × State
echo_post reference =
    handle_posting 100 echo_hashing plain_ambient plain_codec reference_payload
      (deposit_under reference)

abbrev echoed : State
echoed = (echo_post (codes "a") two_accounts).1

abbrev echo_response : EntryPosted
echo_response = record {
  transaction_id = 1;
  description = codes "confirmed_deposit: a";
  posted_at = 100;
}
