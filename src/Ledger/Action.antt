-- ===== src/Ledger/Action.antt =====
-- A call of a port: it reads and changes the store, and may fail. An adapter may also change the
-- store between two calls, as other writers do.
use iron_ledger.Domain.Account.{Account}
use iron_ledger.Domain.Asset.{AssetCode}
use iron_ledger.Domain.Ids.{AccountId, IdempotencyKey}
use iron_ledger.Ledger.Error.{LedgerError}
use iron_ledger.Ledger.Idempotency.{IdempotencyRecord}
use iron_ledger.Ledger.Port.{AccountCommit, BalanceRecord, CommitOutcome, JournalCommit}
use iron_ledger.Prelude.{List, Option}
use iron_ledger.Prelude.Result.{Result, err, ok}
use iron_ledger.Prelude.Text.{Text}

abbrev pub Action : Type 0 → Type 0 → Type 0
Action S A = S → Result LedgerError A × S

abbrev pub pure : {S A : Type 0} → A → Action S A
pure a s = (ok a, s)

abbrev pub fail : {S A : Type 0} → LedgerError → Action S A
fail e s = (err e, s)

-- A result that does not touch the store.
abbrev pub lift : {S A : Type 0} → Result LedgerError A → Action S A
lift r s = (r, s)

abbrev pub reads : {S A : Type 0} → (S → A) → Action S A
reads f s = (ok (f s), s)

-- What follows a call in a chain: the rest, unless the call failed.
abbrev pub continue :
    {S A B : Type 0} → (A → Action S B) → Result LedgerError A × S → Result LedgerError B × S
continue f (ok a, s) = f a s
continue f (err e, s) = (err e, s)

infixl 5 ◌>>=◌ ◌>>◌
abbrev pub ◌>>=◌ : {S A B : Type 0} → Action S A → (A → Action S B) → Action S B
◌>>=◌ m f s = continue f (m s)

abbrev pub ◌>>◌ : {S B : Type 0} → Action S (Unit {0}) → Action S B → Action S B
m >> k = m >>= λ _. k

-- The ports that the command handlers call.
pub record Ports (S : Type 0) : Type 0 where
  pub find_record : Text → IdempotencyKey → Action S (Option IdempotencyRecord)
  pub find_by_name : Text → Action S (Option Account)
  pub create : AccountCommit → Action S CommitOutcome
  pub load_many : List AccountId → Action S (List Account)
  pub get_balance : AccountId → AssetCode → Action S (Option BalanceRecord)
  pub commit : JournalCommit → Action S CommitOutcome
