-- ===== src/Ledger/Service/Query.antt =====
-- The queries of crates/ledger/src/service.rs, over the reads of the ports.
use iron_ledger.Domain.Account.{Account}
use iron_ledger.Domain.Asset.{AssetCode}
use iron_ledger.Domain.Ids.{AccountId, Timestamp, TransactionId, Uuid}
use iron_ledger.Domain.Journal.{JournalEntry}
use iron_ledger.Ledger.Error.{LedgerError, not_found}
use iron_ledger.Ledger.Port.{BalanceRecord, OutboxMessage, OutboxStats, Page}
use iron_ledger.Ledger.Store.{State}
use iron_ledger.Ledger.Store.Accounts.{find_account, find_by_name, list_accounts}
use iron_ledger.Ledger.Store.Outbox.{outbox_stats, pending_outbox}
use iron_ledger.Ledger.Store.Queries.{
  find_entry, get_balance, list_account_entries, list_for_account,
}
use iron_ledger.Prelude.{List, Option, [], none, some, ℕ, ◌∷◌}
use iron_ledger.Prelude.Result.{Result, err, ok, ◌>>=◌}
use iron_ledger.Prelude.Text.{Text, codes}

-- The reads of the ports that the queries call
pub record ReadPorts (S : Type 0) : Type 0 where
  pub read_entry : TransactionId → S → Result LedgerError (Option JournalEntry)
  pub read_account : AccountId → S → Result LedgerError (Option Account)
  pub read_account_named : Text → S → Result LedgerError (Option Account)
  pub read_accounts : Page → S → Result LedgerError (List Account)
  pub read_balance : AccountId → AssetCode → S → Result LedgerError (Option BalanceRecord)
  pub read_balances : AccountId → S → Result LedgerError (List BalanceRecord)
  pub read_account_entries : AccountId → Page → S → Result LedgerError (List JournalEntry)
  pub read_stats : S → Result LedgerError OutboxStats
  pub read_pending : Page → S → Result LedgerError (List OutboxMessage)

-- `ok_or_else` with the error for a missing `entity`
unfoldable pub found_or : {A : Type 0} → Text → Uuid → Option A → Result LedgerError A
found_or entity id none = err (not_found entity id)
found_or entity id (some found) = ok found

-- `Option::into_iter().collect()`
unfoldable pub collected : {A : Type 0} → Option A → List A
collected none = []
collected (some found) = found ∷ []

module _ {S : Type 0} (ports : ReadPorts S) where
  -- `LedgerService::get_transaction`
  unfoldable pub get_transaction : TransactionId → S → Result LedgerError JournalEntry
  unfolding found_or
  get_transaction id s = ports.read_entry id s >>= found_or (codes "transaction") id

  -- The balances that `LedgerService::get_balances` returns for an account that exists
  unfoldable pub balances_of :
      AccountId → Option AssetCode → S → Result LedgerError (List BalanceRecord)
  unfolding collected
  balances_of account_id none s = ports.read_balances account_id s
  balances_of account_id (some asset) s = do
    found ← ports.read_balance account_id asset s
    ok (collected found)

  -- `LedgerService::get_balances`
  unfoldable pub get_balances :
      AccountId → Option AssetCode → S → Result LedgerError (List BalanceRecord)
  unfolding found_or balances_of
  get_balances account_id asset s = do
    account ← ports.read_account account_id s
    _ ← found_or (codes "account") account_id account
    balances_of account_id asset s

-- The reads of the in-memory adapter, which never fail; `seconds` and `now` are those of the counters.
unfoldable pub memory_reads : (ℕ → ℕ) → Timestamp → ReadPorts State
memory_reads seconds now = record {
  read_entry = λ id s. ok (find_entry id s);
  read_account = λ id s. ok (find_account id s);
  read_account_named = λ name s. ok (find_by_name name s);
  read_accounts = λ page s. ok (list_accounts page s);
  read_balance = λ account_id asset s. ok (get_balance account_id asset s);
  read_balances = λ account_id s. ok (list_for_account account_id s);
  read_account_entries = λ account_id page s. ok (list_account_entries account_id page s);
  read_stats = λ s. ok (outbox_stats seconds now s);
  read_pending = λ page s. ok (pending_outbox page s);
}
