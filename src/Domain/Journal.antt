-- ===== src/Domain/Journal.antt =====
-- crates/domain/src/journal.rs: postings, journal entries, and the rule that an entry balances.
pub mod Sums
pub mod Slots
pub mod Totals
pub mod Balanced
pub mod Cancels
use iron_ledger.Domain.Amount.{
  AtomicAmount, amount_zero, checked_add, checked_neg, is_positive, is_zero, require_positive,
}
use iron_ledger.Domain.Asset.{AssetCode}
use iron_ledger.Domain.Error.{
  DomainError, insufficient_postings, non_positive_amount, unbalanced_entry,
}
use iron_ledger.Domain.Ids.{
  AccountId, CausationId, CorrelationId, IdempotencyKey, Timestamp, TransactionId,
}
use iron_ledger.Prelude.{List, [], get_or, if◌then◌else◌, length, ltb, ◌∷◌}
use iron_ledger.Prelude.Int.{pos}
use iron_ledger.Prelude.Map.{Map, get, insert}
use iron_ledger.Prelude.Order.{text_order}
use iron_ledger.Prelude.Result.{Result, err, ok, reject_if, ◌>>=◌, ◌>>◌}
use iron_ledger.Prelude.Text.{Text}

pub data PostingSide : Type 0 where
  debit_side credit_side : PostingSide

pub record Posting : Type 0 where
  pub account_id : AccountId
  pub asset : AssetCode
  pub amount : AtomicAmount
  pub side : PostingSide

-- `Posting::new`
unfoldable pub new_posting : AccountId → AssetCode → AtomicAmount → Result DomainError Posting
new_posting account_id asset amount = do
  reject_if (is_zero amount) (non_positive_amount (pos 0))
  ok (record {
    account_id = account_id;
    asset = asset;
    amount = amount;
    side = if is_positive amount then debit_side else credit_side;
  })

-- `Posting::debit`
unfoldable pub debit : AccountId → AssetCode → AtomicAmount → Result DomainError Posting
unfolding require_positive new_posting
debit account_id asset amount = do
  positive ← require_positive amount
  new_posting account_id asset positive

-- `Posting::credit`
unfoldable pub credit : AccountId → AssetCode → AtomicAmount → Result DomainError Posting
unfolding require_positive new_posting
credit account_id asset amount = do
  positive ← require_positive amount
  negated ← checked_neg positive
  new_posting account_id asset negated

pub data EntryStatus : Type 0 where
  posted voided : EntryStatus

pub record JournalEntry : Type 0 where
  pub id : TransactionId
  pub idempotency_key : IdempotencyKey
  pub description : Text
  pub postings : List Posting
  pub status : EntryStatus
  pub correlation_id : CorrelationId
  pub causation_id : CausationId
  pub created_at : Timestamp

-- The loop of `asset_totals`; `or_insert` and the update are one insertion, since an overflow ends
-- the call.
unfoldable pub add_totals :
    Map AssetCode AtomicAmount → List Posting → Result DomainError (Map AssetCode AtomicAmount)
add_totals totals [] = ok totals
add_totals totals (posting ∷ postings) = do
  total ← checked_add (get_or (get text_order posting.asset totals) amount_zero) posting.amount
  add_totals (insert text_order posting.asset total totals) postings

-- `JournalEntry::asset_totals`
unfoldable pub asset_totals : List Posting → Result DomainError (Map AssetCode AtomicAmount)
asset_totals postings = add_totals [] postings

-- The loop of `validate_balanced` over the totals, in the order of the assets.
unfoldable pub check_totals : Map AssetCode AtomicAmount → Result DomainError (Unit {0})
check_totals [] = ok tt
check_totals ((asset, total) ∷ totals) =
    if is_zero total then check_totals totals else err (unbalanced_entry asset total)

unfoldable pub validate_balanced : List Posting → Result DomainError (Unit {0})
validate_balanced postings = do
  reject_if (ltb (length postings) 2) (insufficient_postings (length postings))
  totals ← asset_totals postings
  check_totals totals

-- `JournalEntry::new`, called at `now`
unfoldable pub new_entry :
    Timestamp
    → TransactionId
    → IdempotencyKey
    → Text
    → List Posting
    → CorrelationId
    → CausationId
    → Result DomainError JournalEntry
new_entry now id idempotency_key description postings correlation_id causation_id = do
  validate_balanced postings
  ok (record {
    id = id;
    idempotency_key = idempotency_key;
    description = description;
    postings = postings;
    status = posted;
    correlation_id = correlation_id;
    causation_id = causation_id;
    created_at = now;
  })
