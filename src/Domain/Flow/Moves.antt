-- ===== src/Domain/Flow/Moves.antt =====
-- The net effect of the flows of crates/domain/src/flow.rs on the balances.
use iron_ledger.Domain.Amount.{AtomicAmount, require_positive}
use iron_ledger.Domain.Asset.{AssetCode}
use iron_ledger.Domain.Error.{DomainError, non_positive_amount}
use iron_ledger.Domain.Flow.{
  adjustment_entry, deposit_entry, fee_entry, internal_transfer_entry, mirror_custody,
  settlement_entry, transfer_pair, withdrawal_completion_entry, withdrawal_rejection_entry,
  withdrawal_request_entry,
}
use iron_ledger.Domain.Flow.Effect.{
  IsPositive, Posts, cancel_negate, credit_lem, credit_of, debit_lem, debit_of, moves,
  negate_cancel, new_entry-Posts, positive-InRange, require_positive_lem, transfer-Posts,
  transfer_of, transfer_pair_lem,
}
use iron_ledger.Domain.Flow.Records.{
  AdminAdjustment, ConfirmedDeposit, InternalTransfer, TradeSettlement, TradingFee,
  WithdrawalCompletion, WithdrawalRejection, WithdrawalRequest,
}
use iron_ledger.Domain.Ids.{AccountId, Timestamp, TransactionId}
use iron_ledger.Domain.Journal.{JournalEntry}
use iron_ledger.Domain.Journal.Cancels.{Cancels}
use iron_ledger.Domain.Journal.Sums.{BalanceKey, key_order, posting_sum}
use iron_ledger.Prelude.{
  Bool, Option-cases, [], arith, false, get_or, if◌then◌else◌, inl, inr, refl, true, ◌∷◌, ◌≡◌,
}
use iron_ledger.Prelude.Int.{int_laws, negate, pos, ℤ, ◌+ℤ◌, ◌≤ℤ◌}
use iron_ledger.Prelude.Order.{equals}
use iron_ledger.Prelude.Result.{Result, err}

-- The flows that are a single transfer.
pub data TransferFlow : Type 0 where
  internal_transfer : InternalTransfer → TransferFlow
  trading_fee : TradingFee → TransferFlow
  withdrawal_request : WithdrawalRequest → TransferFlow
  withdrawal_rejection : WithdrawalRejection → TransferFlow
  admin_adjustment : AdminAdjustment → TransferFlow

abbrev pub build_transfer :
    Timestamp → TransactionId → TransferFlow → Result DomainError JournalEntry
build_transfer now id (internal_transfer flow) = internal_transfer_entry now id flow
build_transfer now id (trading_fee flow) = fee_entry now id flow
build_transfer now id (withdrawal_request flow) = withdrawal_request_entry now id flow
build_transfer now id (withdrawal_rejection flow) = withdrawal_rejection_entry now id flow
build_transfer now id (admin_adjustment flow) = adjustment_entry now id flow

abbrev pub amount_of : TransferFlow → AtomicAmount
amount_of (internal_transfer flow) = flow.amount
amount_of (trading_fee flow) = flow.amount
amount_of (withdrawal_request flow) = flow.amount
amount_of (withdrawal_rejection flow) = flow.amount
amount_of (admin_adjustment flow) = flow.amount

abbrev pub movement_of : TransferFlow → BalanceKey → ℤ
movement_of (internal_transfer flow) = moves flow.from flow.to flow.asset flow.amount
movement_of (trading_fee flow) =
    moves flow.customer_available flow.fee_revenue flow.asset flow.amount
movement_of (withdrawal_request flow) =
    moves flow.customer_available flow.customer_locked flow.asset flow.amount
movement_of (withdrawal_rejection flow) =
    moves flow.customer_locked flow.customer_available flow.asset flow.amount
movement_of (admin_adjustment flow) = moves flow.from flow.to flow.asset flow.amount

-- An internal transfer, a trading fee, a withdrawal request, a withdrawal rejection and an
-- administrative adjustment of a positive amount are always accepted, and the postings add up to
-- that amount from the flow's source to its destination and to nothing on every other balance.
pub transfer_flow-Posts :
    (now : Timestamp) (id : TransactionId) (flow : TransferFlow)
    → IsPositive (amount_of flow)
    → Posts (movement_of flow) (build_transfer now id flow)
unfolding internal_transfer_entry fee_entry withdrawal_request_entry withdrawal_rejection_entry
    adjustment_entry
transfer_flow-Posts now id (internal_transfer flow) h =
    transfer-Posts now id _ _ _ _ flow.from flow.to flow.asset flow.amount h
transfer_flow-Posts now id (trading_fee flow) h =
    transfer-Posts now id _ _ _ _ flow.customer_available flow.fee_revenue flow.asset flow.amount h
transfer_flow-Posts now id (withdrawal_request flow) h =
    transfer-Posts now id _ _ _ _ flow.customer_available flow.customer_locked flow.asset
      flow.amount h
transfer_flow-Posts now id (withdrawal_rejection flow) h =
    transfer-Posts now id _ _ _ _ flow.customer_locked flow.customer_available flow.asset
      flow.amount h
transfer_flow-Posts now id (admin_adjustment flow) h =
    transfer-Posts now id _ _ _ _ flow.from flow.to flow.asset flow.amount h

if_negate :
    (c : Bool) (a : AtomicAmount)
    → (if c then negate a else pos 0) ≡ negate (if c then a else pos 0)
if_negate true a = refl
if_negate false a = omega int_laws

mirrored_sum :
    (customer clearing hot : AccountId) (asset : AssetCode) (a : AtomicAmount) (key : BalanceKey)
    → posting_sum key (
        credit_of clearing asset a
        ∷ debit_of customer asset a
        ∷ debit_of clearing asset a
        ∷ credit_of hot asset a
        ∷ [])
      ≡ moves hot customer asset a key
mirrored_sum customer clearing hot asset a key =
    rw
      (
        if_negate (equals key_order key (clearing, asset)) a,
        if_negate (equals key_order key (hot, asset)) a,
      )
      (omega int_laws)

opposite_pairs-Cancels :
    (a b c d : AccountId) (asset : AssetCode) (amount : AtomicAmount)
    → IsPositive amount
    → Cancels (
        credit_of a asset amount
        ∷ debit_of b asset amount
        ∷ debit_of c asset amount
        ∷ credit_of d asset amount
        ∷ [])
opposite_pairs-Cancels a b c d asset amount h =
    let valid = positive-InRange amount h in
    (refl, valid.0, negate_cancel amount, (refl, valid.1, cancel_negate amount, tt))

passing_sum :
    (from through to : AccountId) (asset : AssetCode) (a : AtomicAmount) (key : BalanceKey)
    → posting_sum key (
        credit_of from asset a
        ∷ debit_of through asset a
        ∷ credit_of through asset a
        ∷ debit_of to asset a
        ∷ [])
      ≡ moves from to asset a key
passing_sum from through to asset a key =
    rw
      (
        if_negate (equals key_order key (from, asset)) a,
        if_negate (equals key_order key (through, asset)) a,
      )
      (omega int_laws)

swapped_sum :
    (flow : TradeSettlement) (a b : AtomicAmount) (key : BalanceKey)
    → posting_sum key (
        credit_of flow.seller_available flow.base_asset a
        ∷ debit_of flow.buyer_available flow.base_asset a
        ∷ credit_of flow.buyer_available flow.quote_asset b
        ∷ debit_of flow.seller_available flow.quote_asset b
        ∷ [])
      ≡ moves flow.seller_available flow.buyer_available flow.base_asset a key
        +ℤ moves flow.buyer_available flow.seller_available flow.quote_asset b key
swapped_sum flow a b key =
    rw
      (
        if_negate (equals key_order key (flow.seller_available, flow.base_asset)) a,
        if_negate (equals key_order key (flow.buyer_available, flow.quote_asset)) b,
      )
      (omega int_laws)

require_positive_err :
    (amount : AtomicAmount)
    → amount ≤ℤ pos 0
    → require_positive amount ≡ err (non_positive_amount amount)
unfolding require_positive
require_positive_err amount h = ground arith

-- A deposit of a positive amount is always accepted. Without a hot wallet it moves the amount from
-- deposit clearing to the customer; with one, from the hot wallet to the customer, and the clearing
-- account is left flat.
pub deposit-Posts :
    (now : Timestamp) (id : TransactionId) (flow : ConfirmedDeposit)
    → IsPositive flow.amount
    → Posts
        (moves
          (get_or flow.hot_wallet flow.deposit_clearing)
          flow.customer_available
          flow.asset
          flow.amount)
        (deposit_entry now id flow)
unfolding deposit_entry mirror_custody
deposit-Posts now id flow h = elim (Option-cases flow.hot_wallet) [
  | inl absent ↦
      rw (absent, require_positive_lem flow.amount h)
        (transfer-Posts now id _ _ _ _ flow.deposit_clearing flow.customer_available flow.asset
          flow.amount h)
  | inr (hot, present) ↦
      rw
        (
          present,
          require_positive_lem flow.amount h,
          transfer_pair_lem flow.deposit_clearing flow.customer_available flow.asset flow.amount h,
          debit_lem flow.deposit_clearing flow.asset flow.amount h,
          credit_lem hot flow.asset flow.amount h,
        )
        (unfold transfer_of in
          new_entry-Posts now id _ _ _ _ _ _ (omega arith)
            (opposite_pairs-Cancels flow.deposit_clearing flow.customer_available
              flow.deposit_clearing hot flow.asset flow.amount h)
            (mirrored_sum flow.customer_available flow.deposit_clearing hot flow.asset flow.amount))
]

-- A withdrawal completion of a positive amount is always accepted: it moves the amount from the
-- customer's locked account to the hot wallet and leaves the clearing account flat.
pub completion-Posts :
    (now : Timestamp) (id : TransactionId) (flow : WithdrawalCompletion)
    → IsPositive flow.amount
    → Posts
        (moves flow.customer_locked flow.hot_wallet flow.asset flow.amount)
        (withdrawal_completion_entry now id flow)
unfolding withdrawal_completion_entry
completion-Posts now id flow h =
    let a = flow.amount in
    let valid = positive-InRange a h in
    rw
      (
        require_positive_lem a h,
        credit_lem flow.customer_locked flow.asset a h,
        debit_lem flow.withdrawal_clearing flow.asset a h,
        credit_lem flow.withdrawal_clearing flow.asset a h,
        debit_lem flow.hot_wallet flow.asset a h,
      )
      (new_entry-Posts now id _ _ _ _ _ _ (omega arith)
        (refl, valid.0, negate_cancel a, (refl, valid.0, negate_cancel a, tt))
        (passing_sum flow.customer_locked flow.withdrawal_clearing flow.hot_wallet flow.asset a))

-- A trade settlement of two positive amounts is always accepted: the base amount moves from the
-- seller to the buyer and the quote amount from the buyer to the seller, and nothing else moves.
pub settlement-Posts :
    (now : Timestamp) (id : TransactionId) (flow : TradeSettlement)
    → IsPositive flow.base_amount
    → IsPositive flow.quote_amount
    → Posts
        (λ key.
          moves flow.seller_available flow.buyer_available flow.base_asset flow.base_amount key
          +ℤ moves flow.buyer_available flow.seller_available flow.quote_asset flow.quote_amount
              key)
        (settlement_entry now id flow)
unfolding settlement_entry
settlement-Posts now id flow h k =
    let a = flow.base_amount in
    let b = flow.quote_amount in
    rw
      (
        require_positive_lem a h,
        require_positive_lem b k,
        credit_lem flow.seller_available flow.base_asset a h,
        debit_lem flow.buyer_available flow.base_asset a h,
        credit_lem flow.buyer_available flow.quote_asset b k,
        debit_lem flow.seller_available flow.quote_asset b k,
      )
      (new_entry-Posts now id _ _ _ _ _ _ (omega arith)
        (
          refl,
          (positive-InRange a h).0,
          negate_cancel a,
          (refl, (positive-InRange b k).0, negate_cancel b, tt),
        )
        (swapped_sum flow a b))

-- An internal transfer, a trading fee, a withdrawal request, a withdrawal rejection and an
-- administrative adjustment of an amount that is zero or negative are refused with an error that
-- names the amount.
pub transfer_flow_not_positive :
    (now : Timestamp) (id : TransactionId) (flow : TransferFlow)
    → amount_of flow ≤ℤ pos 0
    → build_transfer now id flow ≡ err (non_positive_amount (amount_of flow))
unfolding internal_transfer_entry fee_entry withdrawal_request_entry withdrawal_rejection_entry
    adjustment_entry transfer_pair
transfer_flow_not_positive now id (internal_transfer flow) h =
    rw (require_positive_err flow.amount h)
transfer_flow_not_positive now id (trading_fee flow) h = rw (require_positive_err flow.amount h)
transfer_flow_not_positive now id (withdrawal_request flow) h =
    rw (require_positive_err flow.amount h)
transfer_flow_not_positive now id (withdrawal_rejection flow) h =
    rw (require_positive_err flow.amount h)
transfer_flow_not_positive now id (admin_adjustment flow) h =
    rw (require_positive_err flow.amount h)
