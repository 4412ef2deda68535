-- ===== src/Grpc/Tests.antt =====
-- A run of the theorem on the gRPC messages on concrete values.
use iron_ledger.Domain.Asset.{btc, new_asset_code}
use iron_ledger.Domain.Flow.Effect.{credit_of, debit_of}
use iron_ledger.Domain.Journal.{JournalEntry, posted}
use iron_ledger.Grpc.Mapping.{Rendering, map_posting_inputs}
use iron_ledger.Grpc.Messages.{ProtoEntry}
use iron_ledger.Grpc.Resubmitted.{ReadsIds, get_transaction_rpc_resubmitted, input_of}
use iron_ledger.Grpc.Server.{Services, get_transaction_rpc}
use iron_ledger.Ledger.Error.{LedgerError}
use iron_ledger.Prelude.{[], arith, length, map, refl, replicate, some, suc, zero, ◌∷◌, ◌≡◌}
use iron_ledger.Prelude.Int.{negate, pos}
use iron_ledger.Prelude.Result.{Result, err, ok}
use iron_ledger.Prelude.Text.{codes}

-- An identifier is shown as that many letters.
abbrev letters : Rendering
letters = record {
  show_uuid = λ id. replicate id 97;
  read_uuid = λ text. some (length text);
  to_rfc3339 = λ at. [];
  show_ledger_error = λ e. [];
  show_domain_error = λ e. [];
}

abbrev shown_entry : JournalEntry
shown_entry = record {
  id = 1;
  idempotency_key = codes "key-1";
  description = codes "deposit";
  postings = credit_of 10 btc (pos 5) ∷ debit_of 20 btc (pos 5) ∷ [];
  status = posted;
  correlation_id = 3;
  causation_id = 4;
  created_at = 100;
}

letters_read : ReadsIds letters
letters_read zero = refl
letters_read (suc id) = let ih = letters_read id in ground arith

abbrev unused : {C A : Type 0} → C → Unit {0} → Result LedgerError A × Unit {0}
unused c s = (err (LedgerError.unavailable []), s)

-- A service that holds the one entry.
abbrev one_entry : Services (Unit {0})
one_entry = record {
  create_account = unused;
  submit_journal_entry = unused;
  record_deposit = unused;
  request_withdrawal = unused;
  complete_withdrawal = unused;
  reject_withdrawal = unused;
  record_trade_settlement = unused;
  record_trading_fee = unused;
  record_admin_adjustment = unused;
  get_transaction = λ id s. ok shown_entry;
  get_balances = λ id asset s. ok [];
  list_account_entries = λ id page s. ok [];
}

get_transaction_rpc_resubmitted_example :
    (shown : ProtoEntry) × (get_transaction_rpc letters one_entry (codes "a") tt ≡ ok shown)
    × (map_posting_inputs letters shown.postings ≡ ok (map input_of shown_entry.postings))
unfolding new_asset_code negate
get_transaction_rpc_resubmitted_example =
    get_transaction_rpc_resubmitted letters one_entry 1 shown_entry tt letters_read refl
      ((refl, (omega arith, omega arith)), ((refl, (omega arith, omega arith)), tt))
