-- ===== src/Domain/Tests.antt =====
-- Runs of the domain's theorems on concrete values.
use iron_ledger.Domain.Amount.{amount_from_str, checked_add, checked_neg, checked_sub, show_amount}
use iron_ledger.Domain.Amount.Exact.{IsExact, checked_arithmetic-IsExact}
use iron_ledger.Domain.Amount.Printed.{amount_from_str-show_amount}
use iron_ledger.Domain.Asset.{btc, new_asset_code, usd}
use iron_ledger.Domain.Asset.Normal.{new_asset_code_normal}
use iron_ledger.Domain.Error.{non_positive_amount}
use iron_ledger.Domain.Flow.{
  ConfirmedDeposit, TradeSettlement, WithdrawalCompletion, deposit_entry, settlement_entry,
  withdrawal_completion_entry,
}
use iron_ledger.Domain.Flow.Effect.{Posts, credit_of, debit_of, moves}
use iron_ledger.Domain.Flow.Moves.{
  TransferFlow, build_transfer, completion-Posts, deposit-Posts, internal_transfer, movement_of,
  settlement-Posts, transfer_flow-Posts, transfer_flow_not_positive,
}
use iron_ledger.Domain.Journal.{Posting, validate_balanced}
use iron_ledger.Domain.Journal.Balanced.{IsVerdict, validate_balanced-IsVerdict}
use iron_ledger.Domain.Money.{parse_decimal}
use iron_ledger.Domain.Money.Parsed.{minus, parse_decimal_exact}
use iron_ledger.Domain.Money.Units.{Decimal}
use iron_ledger.Prelude.{List, [], all, arith, refl, some, true, ◌∷◌, ◌≡◌, ◌≤◌}
use iron_ledger.Prelude.Int.{negate, negsuc, pos, ℤ, ◌+ℤ◌, ◌-ℤ◌}
use iron_ledger.Prelude.Numeral.{digits_value}
use iron_ledger.Prelude.Result.{err, ok}
use iron_ledger.Prelude.Text.{byte_len, codes, is_ascii_alphanumeric, to_ascii_uppercase}

abbrev one_deposit : ConfirmedDeposit
one_deposit = record {
  idempotency_key = codes "deposit-1";
  customer_available = 10;
  deposit_clearing = 20;
  hot_wallet = some 30;
  asset = btc;
  amount = pos 5;
  correlation_id = 1;
  causation_id = 2;
}

abbrev one_completion : WithdrawalCompletion
one_completion = record {
  idempotency_key = codes "complete-1";
  customer_locked = 11;
  withdrawal_clearing = 21;
  hot_wallet = 30;
  asset = btc;
  amount = pos 5;
  correlation_id = 1;
  causation_id = 2;
}

abbrev one_settlement : TradeSettlement
one_settlement = record {
  idempotency_key = codes "trade-1";
  buyer_available = 10;
  seller_available = 12;
  base_asset = btc;
  base_amount = pos 1;
  quote_asset = usd;
  quote_amount = pos 900;
  correlation_id = 1;
  causation_id = 2;
}

abbrev transfer_of_amount : ℤ → TransferFlow
transfer_of_amount amount = internal_transfer (record {
  idempotency_key = codes "transfer-1";
  from = 10;
  to = 12;
  asset = btc;
  amount = amount;
  correlation_id = 1;
  causation_id = 2;
})

abbrev two_postings : List Posting
two_postings = credit_of 10 btc (pos 5) ∷ debit_of 12 btc (pos 5) ∷ []

checked_arithmetic-IsExact_example :
    IsExact (pos 7 +ℤ negsuc 2) (checked_add (pos 7) (negsuc 2))
    × IsExact (pos 7 -ℤ negsuc 2) (checked_sub (pos 7) (negsuc 2))
    × IsExact (negate (pos 7)) (checked_neg (pos 7))
checked_arithmetic-IsExact_example = checked_arithmetic-IsExact (pos 7) (negsuc 2)

validate_balanced-IsVerdict_example : IsVerdict two_postings (validate_balanced two_postings)
validate_balanced-IsVerdict_example = validate_balanced-IsVerdict two_postings

transfer_flow-Posts_example :
    Posts
      (movement_of (transfer_of_amount (pos 5)))
      (build_transfer 100 1 (transfer_of_amount (pos 5)))
transfer_flow-Posts_example =
    transfer_flow-Posts 100 1 (transfer_of_amount (pos 5)) (omega arith, omega arith)

transfer_flow_not_positive_example :
    build_transfer 100 1 (transfer_of_amount (pos 0)) ≡ err (non_positive_amount (pos 0))
transfer_flow_not_positive_example =
    transfer_flow_not_positive 100 1 (transfer_of_amount (pos 0)) (omega arith)

deposit-Posts_example : Posts (moves 30 10 btc (pos 5)) (deposit_entry 100 1 one_deposit)
deposit-Posts_example = deposit-Posts 100 1 one_deposit (omega arith, omega arith)

completion-Posts_example :
    Posts (moves 11 30 btc (pos 5)) (withdrawal_completion_entry 100 1 one_completion)
completion-Posts_example = completion-Posts 100 1 one_completion (omega arith, omega arith)

settlement-Posts_example :
    Posts
      (λ key. moves 12 10 btc (pos 1) key +ℤ moves 10 12 usd (pos 900) key)
      (settlement_entry 100 1 one_settlement)
settlement-Posts_example =
    settlement-Posts 100 1 one_settlement (omega arith, omega arith) (omega arith, omega arith)

new_asset_code_normal_example :
    (btc ≡ to_ascii_uppercase (codes "btc"))
    × (2 ≤ byte_len btc)
    × (byte_len btc ≤ 16)
    × (all is_ascii_alphanumeric btc ≡ true)
    × (new_asset_code btc ≡ ok btc)
unfolding new_asset_code
new_asset_code_normal_example = new_asset_code_normal (codes "btc") btc refl

amount_from_str-show_amount_example : amount_from_str (show_amount (negsuc 1233)) ≡ ok (negsuc 1233)
amount_from_str-show_amount_example =
    amount_from_str-show_amount (negsuc 1233) (omega arith, omega arith)

twelve_and_half : Decimal 8 (codes "12") (codes "5") 12 5
unfolding digits_value
twelve_and_half = record {
  some_digit = refl;
  whole_digits = refl;
  frac_digits = refl;
  whole_value = refl;
  frac_value = refl;
  fine_enough = omega arith;
  small_scale = omega arith;
}

parse_decimal_exact_example :
    parse_decimal btc 8 (codes "-12.5") ≡ ok (record { asset = btc; amount = negsuc 1249999999 })
unfolding negate
parse_decimal_exact_example =
    parse_decimal_exact btc minus 8 (codes "12") (codes "5") 12 5 twelve_and_half
