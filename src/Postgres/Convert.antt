-- ===== src/Postgres/Convert.antt =====
-- crates/storage-postgres/src/{error,convert}.rs: errors, and domain values as columns.
pub mod Columns
use iron_ledger.Domain.Account.{
  Account, AccountKind, AccountPolicy, AccountStatus, active, allow_negative, closed,
  customer_available, customer_locked, deposit_clearing, exchange_cold_wallet, exchange_hot_wallet,
  fee_revenue, frozen, non_negative, other, withdrawal_clearing,
}
use iron_ledger.Domain.Amount.{AtomicAmount, show_amount}
use iron_ledger.Domain.Asset.{new_asset_code}
use iron_ledger.Domain.Error.{DomainError, invalid_money_format, invariant}
use iron_ledger.Domain.Ids.{AccountId, Timestamp, Uuid, new_idempotency_key}
use iron_ledger.Domain.Journal.{
  EntryStatus, JournalEntry, Posting, PostingSide, credit_side, debit_side, posted, voided,
}
use iron_ledger.Ledger.Error.{LedgerError, storage}
use iron_ledger.Prelude.{List, [], filter, if◌then◌else◌, none, some, ◌++◌, ◌==◌, ◌∷◌}
use iron_ledger.Prelude.Numeral.{parse_i128}
use iron_ledger.Prelude.Order.{equals, text_order}
use iron_ledger.Prelude.Result.{Result, collect, err, map_err, ok, ◌>>=◌, ◌>>◌}
use iron_ledger.Prelude.Text.{Text, codes}
use iron_ledger.Projector.{ProjectorError}
use iron_ledger.Reconciler.{ReconcileError}

-- `StorageError`; the errors of sqlx and serde are kept as the texts they render to.
pub data StorageError : Type 0 where
  database migrate json : Text → StorageError
  decode : DomainError → StorageError

-- The rendered error of a variant; the transparent one is never rendered here
abbrev pub storage_text : StorageError → Text
storage_text (database e) = codes "database error: " ++ e
storage_text (migrate e) = codes "migration error: " ++ e
storage_text (json e) = codes "json error: " ++ e
storage_text (decode e) = []

-- `From<StorageError> for LedgerError`
unfoldable pub ledger_error_of : StorageError → LedgerError
ledger_error_of (decode e) = LedgerError.domain e
ledger_error_of e = storage (storage_text e)

-- `From<StorageError> for ProjectorError`
unfoldable pub projector_error_of : StorageError → ProjectorError
projector_error_of (decode e) = ProjectorError.domain e
projector_error_of e = ProjectorError.store (storage_text e)

-- `From<StorageError> for ReconcileError`
unfoldable pub reconcile_error_of : StorageError → ReconcileError
reconcile_error_of (decode e) = ReconcileError.domain e
reconcile_error_of e = ReconcileError.store (storage_text e)

unfoldable pub amount_to_str : AtomicAmount → Text
amount_to_str amount = show_amount amount

-- `amount_from_str` of convert.rs, which does not trim
unfoldable pub column_amount : Text → Result StorageError AtomicAmount
column_amount text = elim (parse_i128 text) [
  | none ↦ err (decode (invalid_money_format text))
  | some raw ↦ ok raw
]

abbrev pub kind_to_str : AccountKind → Text
kind_to_str customer_available = codes "customer_available"
kind_to_str customer_locked = codes "customer_locked"
kind_to_str exchange_hot_wallet = codes "exchange_hot_wallet"
kind_to_str exchange_cold_wallet = codes "exchange_cold_wallet"
kind_to_str fee_revenue = codes "fee_revenue"
kind_to_str withdrawal_clearing = codes "withdrawal_clearing"
kind_to_str deposit_clearing = codes "deposit_clearing"
kind_to_str other = codes "other"

abbrev pub policy_to_str : AccountPolicy → Text
policy_to_str non_negative = codes "non_negative"
policy_to_str allow_negative = codes "allow_negative"

abbrev pub status_to_str : AccountStatus → Text
status_to_str active = codes "active"
status_to_str frozen = codes "frozen"
status_to_str closed = codes "closed"

abbrev pub side_to_str : PostingSide → Text
side_to_str debit_side = codes "debit"
side_to_str credit_side = codes "credit"

-- `match` on the text of a column: the first of the choices whose text it is.
unfoldable pub choose : {A : Type 0} → Text → List (Text × A) → Text → Result StorageError A
choose what [] text =
    err (decode (invariant (codes "unknown " ++ (what ++ (codes " '" ++ (text ++ codes "'"))))))
choose what ((name, value) ∷ choices) text =
    if equals text_order text name then ok value else choose what choices text

unfoldable pub kind_from_str : Text → Result StorageError AccountKind
unfolding choose
kind_from_str = choose (codes "account kind") (
    (codes "customer_available", customer_available)
    ∷ (codes "customer_locked", customer_locked)
    ∷ (codes "exchange_hot_wallet", exchange_hot_wallet)
    ∷ (codes "exchange_cold_wallet", exchange_cold_wallet)
    ∷ (codes "fee_revenue", fee_revenue)
    ∷ (codes "withdrawal_clearing", withdrawal_clearing)
    ∷ (codes "deposit_clearing", deposit_clearing)
    ∷ (codes "other", other)
    ∷ [])

unfoldable pub policy_from_str : Text → Result StorageError AccountPolicy
unfolding choose
policy_from_str =
    choose (codes "account policy")
      ((codes "non_negative", non_negative) ∷ (codes "allow_negative", allow_negative) ∷ [])

unfoldable pub status_from_str : Text → Result StorageError AccountStatus
unfolding choose
status_from_str =
    choose (codes "account status")
      ((codes "active", active) ∷ (codes "frozen", frozen) ∷ (codes "closed", closed) ∷ [])

-- The match on the side in `load_postings`
unfoldable pub side_from_str : Text → Result StorageError PostingSide
unfolding choose
side_from_str =
    choose (codes "posting side") ((codes "debit", debit_side) ∷ (codes "credit", credit_side) ∷ [])

-- A row of the table `accounts`, without its key `id`
pub record AccountRow : Type 0 where
  pub name : Text
  pub kind : Text
  pub policy : Text
  pub status : Text
  pub created_at : Timestamp

-- The columns that `create` binds; `kept` is what a TIMESTAMPTZ column keeps of an instant.
abbrev pub account_row : (Timestamp → Timestamp) → Account → AccountRow
account_row kept a = record {
  name = a.name;
  kind = kind_to_str a.kind;
  policy = policy_to_str a.policy;
  status = status_to_str a.status;
  created_at = kept a.created_at;
}

unfoldable pub account_from_row : AccountId → AccountRow → Result StorageError Account
unfolding kind_from_str policy_from_str status_from_str
account_from_row id row = do
  kind ← kind_from_str row.kind
  policy ← policy_from_str row.policy
  status ← status_from_str row.status
  ok (record {
    id = id;
    name = row.name;
    kind = kind;
    policy = policy;
    status = status;
    created_at = row.created_at;
  })

-- A row of the table `postings`; its serial `id` is its place in the list.
pub record PostingRow : Type 0 where
  pub entry_id : Uuid
  pub account_id : Uuid
  pub asset : Text
  pub amount_atomic : Text
  pub side : Text

abbrev pub posting_row : Uuid → Posting → PostingRow
posting_row entry_id p = record {
  entry_id = entry_id;
  account_id = p.account_id;
  asset = p.asset;
  amount_atomic = amount_to_str p.amount;
  side = side_to_str p.side;
}

-- The turn of the loop of `load_postings`
unfoldable pub posting_from_row : PostingRow → Result StorageError Posting
unfolding side_from_str
posting_from_row row = do
  side ← side_from_str row.side
  asset ← map_err decode (new_asset_code row.asset)
  amount ← column_amount row.amount_atomic
  ok (record { account_id = row.account_id; asset = asset; amount = amount; side = side })

-- `load_postings`
abbrev pub load_postings : Uuid → List PostingRow → Result StorageError (List Posting)
load_postings entry_id rows =
    collect posting_from_row (filter (λ row. row.entry_id == entry_id) rows)

-- A row of the table `journal_entries`, without its key `id`
pub record EntryRow : Type 0 where
  pub idempotency_key : Text
  pub description : Text
  pub status : Text
  pub correlation_id : Uuid
  pub causation_id : Uuid
  pub created_at : Timestamp

-- The columns that `commit` binds; `kept` is as for `account_row`.
abbrev pub entry_row : (Timestamp → Timestamp) → JournalEntry → EntryRow
entry_row kept entry = record {
  idempotency_key = entry.idempotency_key;
  description = entry.description;
  status = codes "posted";
  correlation_id = entry.correlation_id;
  causation_id = entry.causation_id;
  created_at = kept entry.created_at;
}

unfoldable pub entry_status_from_str : Text → Result StorageError EntryStatus
unfolding choose
entry_status_from_str =
    choose (codes "entry status") ((codes "posted", posted) ∷ (codes "voided", voided) ∷ [])

-- `load_entry`, on the row that was found
unfoldable pub entry_from_row : Uuid → EntryRow → List PostingRow → Result StorageError JournalEntry
unfolding entry_status_from_str
entry_from_row id row rows = do
  postings ← load_postings id rows
  status ← entry_status_from_str row.status
  key ← map_err decode (new_idempotency_key row.idempotency_key)
  ok (record {
    id = id;
    idempotency_key = key;
    description = row.description;
    postings = postings;
    status = status;
    correlation_id = row.correlation_id;
    causation_id = row.causation_id;
    created_at = row.created_at;
  })
