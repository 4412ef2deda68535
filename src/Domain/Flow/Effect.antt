-- ===== src/Domain/Flow/Effect.antt =====
-- The postings that the builders of crates/domain/src/flow.rs share, and what they move.
use iron_ledger.Domain.Amount.{AtomicAmount, checked_neg, require_positive}
use iron_ledger.Domain.Amount.Exact.{InRange}
use iron_ledger.Domain.Asset.{AssetCode}
use iron_ledger.Domain.Error.{DomainError}
use iron_ledger.Domain.Flow.{transfer_pair}
use iron_ledger.Domain.Ids.{
  AccountId, CausationId, CorrelationId, IdempotencyKey, Timestamp, TransactionId,
}
use iron_ledger.Domain.Journal.{
  JournalEntry, Posting, credit, credit_side, debit, debit_side, new_entry,
}
use iron_ledger.Domain.Journal.Cancels.{Cancels, validate_balanced_cancel}
use iron_ledger.Domain.Journal.Sums.{BalanceKey, key_order, posting_sum}
use iron_ledger.Prelude.{
  Bool, List, [], arith, false, if◌then◌else◌, length, refl, true, ◌∷◌, ◌≡◌, ◌≤◌,
}
use iron_ledger.Prelude.Int.{int_laws, negate, pos, ℤ, ◌+ℤ◌, ◌-ℤ◌, ◌≤ℤ◌}
use iron_ledger.Prelude.Numeral.{i128_max}
use iron_ledger.Prelude.Order.{equals}
use iron_ledger.Prelude.Result.{Ok, Result, ok, ◌>>=◌}
use iron_ledger.Prelude.Text.{Text}

-- The change of a balance when `amount` of `asset` goes from one account to another.
abbrev pub moves : AccountId → AccountId → AssetCode → AtomicAmount → BalanceKey → ℤ
moves from to asset amount key =
    (if equals key_order key (to, asset) then amount else pos 0)
    -ℤ (if equals key_order key (from, asset) then amount else pos 0)

-- The posting that `debit` builds from a positive amount.
abbrev pub debit_of : AccountId → AssetCode → AtomicAmount → Posting
debit_of account asset amount = record {
  account_id = account;
  asset = asset;
  amount = amount;
  side = debit_side;
}

-- The posting that `credit` builds from a positive amount.
abbrev pub credit_of : AccountId → AssetCode → AtomicAmount → Posting
credit_of account asset amount = record {
  account_id = account;
  asset = asset;
  amount = negate amount;
  side = credit_side;
}

-- A positive amount that an `i128` holds.
abbrev pub IsPositive : AtomicAmount → Type 0
IsPositive amount = (pos 1 ≤ℤ amount) × (amount ≤ℤ pos i128_max)

pub require_positive_lem :
    (amount : AtomicAmount) → IsPositive amount → require_positive amount ≡ ok amount
unfolding require_positive
require_positive_lem amount h = ground arith

pub debit_lem :
    (account : AccountId) (asset : AssetCode) (amount : AtomicAmount)
    → IsPositive amount
    → debit account asset amount ≡ ok (debit_of account asset amount)
unfolding debit
debit_lem account asset amount h = ground arith

pub credit_lem :
    (account : AccountId) (asset : AssetCode) (amount : AtomicAmount)
    → IsPositive amount
    → credit account asset amount ≡ ok (credit_of account asset amount)
unfolding credit checked_neg negate
credit_lem account asset amount h = ground arith

-- Credit and debit of one amount cancel in the loop of `add_totals`.

pub positive-InRange :
    (amount : AtomicAmount) → IsPositive amount → InRange (negate amount) × InRange amount
unfolding negate
positive-InRange amount h = ground arith

pub negate_cancel : (amount : AtomicAmount) → negate amount +ℤ amount ≡ pos 0
negate_cancel amount = omega int_laws

pub cancel_negate : (amount : AtomicAmount) → amount +ℤ negate amount ≡ pos 0
cancel_negate amount = omega int_laws

unfoldable pub transfer_of : AccountId → AccountId → AssetCode → AtomicAmount → List Posting
transfer_of from to asset amount = credit_of from asset amount ∷ debit_of to asset amount ∷ []

pub transfer_pair_lem :
    (from to : AccountId) (asset : AssetCode) (amount : AtomicAmount)
    → IsPositive amount
    → transfer_pair from to asset amount ≡ ok (transfer_of from to asset amount)
unfolding transfer_pair transfer_of
transfer_pair_lem from to asset amount h =
    rw (require_positive_lem amount h, credit_lem from asset amount h, debit_lem to asset amount h)

-- The sum of a credit and a debit.
pair_sum :
    (c d : Bool) (a : AtomicAmount)
    → (if c then negate a else pos 0) +ℤ ((if d then a else pos 0) +ℤ pos 0)
      ≡ (if d then a else pos 0) -ℤ (if c then a else pos 0)
pair_sum true true a = omega int_laws
pair_sum true false a = omega int_laws
pair_sum false true a = omega int_laws
pair_sum false false a = omega int_laws

-- An accepted entry with these postings.
abbrev pub Posts : (BalanceKey → ℤ) → Result DomainError JournalEntry → Type 0
Posts change r = Ok (λ entry. (key : BalanceKey) → posting_sum key entry.postings ≡ change key) r

pub new_entry-Posts :
    (now : Timestamp) (id : TransactionId) (k : IdempotencyKey) (description : Text)
    (ps : List Posting) (cor : CorrelationId) (cau : CausationId) (change : BalanceKey → ℤ)
    → 2 ≤ length ps
    → Cancels ps
    → ((key : BalanceKey) → posting_sum key ps ≡ change key)
    → Posts change (new_entry now id k description ps cor cau)
unfolding new_entry
new_entry-Posts now id k description ps cor cau change long h sums =
    rw (validate_balanced_cancel ps long h) sums

pub transfer_of-Cancels :
    (from to : AccountId) (asset : AssetCode) (amount : AtomicAmount)
    → IsPositive amount
    → Cancels (transfer_of from to asset amount)
unfolding transfer_of
transfer_of-Cancels from to asset amount h =
    (refl, (positive-InRange amount h).0, negate_cancel amount, tt)

transfer_of_sum :
    (from to : AccountId) (asset : AssetCode) (amount : AtomicAmount) (key : BalanceKey)
    → posting_sum key (transfer_of from to asset amount) ≡ moves from to asset amount key
unfolding transfer_of
transfer_of_sum from to asset amount key =
    pair_sum (equals key_order key (from, asset)) (equals key_order key (to, asset)) amount

-- The flows that are one transfer.
pub transfer-Posts :
    (now : Timestamp) (id : TransactionId) (k : IdempotencyKey) (description : Text)
    (cor : CorrelationId) (cau : CausationId) (from to : AccountId) (asset : AssetCode)
    (amount : AtomicAmount)
    → IsPositive amount
    → Posts
        (moves from to asset amount)
        (transfer_pair from to asset amount >>= λ ps. new_entry now id k description ps cor cau)
transfer-Posts now id k description cor cau from to asset amount h =
    rw (transfer_pair_lem from to asset amount h) (
      new_entry-Posts now id k description (transfer_of from to asset amount) cor cau
        (moves from to asset amount) (unfold transfer_of in omega arith)
        (transfer_of-Cancels from to asset amount h) (transfer_of_sum from to asset amount))
