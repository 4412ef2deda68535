-- ===== src/Grpc/Requests.antt =====
-- crates/api-grpc/src/map.rs: requests as commands.
use iron_ledger.Domain.Account.{
  AccountKind, AccountPolicy, allow_negative, customer_available, customer_locked, deposit_clearing,
  exchange_cold_wallet, exchange_hot_wallet, fee_revenue, non_negative, other, withdrawal_clearing,
}
use iron_ledger.Domain.Ids.{CausationId, CorrelationId}
use iron_ledger.Grpc.Mapping.{
  Rendering, Status, invalid, map_posting_inputs, optional_text, optional_uuid, parse_amount,
  parse_asset, parse_uuid, read_context,
}
use iron_ledger.Grpc.Messages.{
  CompleteWithdrawalRequest, CreateAccountRequest, RecordAdminAdjustmentRequest,
  RecordDepositRequest, RecordTradeSettlementRequest, RecordTradingFeeRequest,
  RejectWithdrawalRequest, RequestWithdrawalRequest, SubmitJournalEntryRequest,
}
use iron_ledger.Ledger.Command.{
  CompleteWithdrawalCommand, CreateAccountCommand, RecordAdminAdjustmentCommand,
  RecordDepositCommand, RecordTradeSettlementCommand, RecordTradingFeeCommand,
  RejectWithdrawalCommand, RequestWithdrawalCommand, SubmitJournalCommand,
}
use iron_ledger.Prelude.{List, Option, [], none, some, suc, zero, ℕ, ◌++◌, ◌∷◌}
use iron_ledger.Prelude.Int.{negsuc, pos, ℤ}
use iron_ledger.Prelude.Map.{values}
use iron_ledger.Prelude.Result.{Result, err, ok, ◌>>=◌}
use iron_ledger.Prelude.Text.{Text, codes}

-- `ok_or_else` on a message that must be there
abbrev pub required : {A : Type 0} → Text → Option A → Result Status A
required label none = err (invalid (label ++ codes " required"))
required label (some a) = ok a

-- `try_from` on the number of an enumeration, whose numbers start at 1
abbrev pub nth : {A : Type 0} → List A → ℕ → Option A
nth [] n = none
nth (a ∷ rest) zero = none
nth (a ∷ rest) (suc zero) = some a
nth (a ∷ rest) (suc (suc n)) = nth rest (suc n)

abbrev pub numbered : {A : Type 0} → List A → ℤ → Option A
numbered values (pos n) = nth values n
numbered values (negsuc n) = none

abbrev pub all_kinds : List AccountKind
all_kinds =
    customer_available ∷ customer_locked ∷ exchange_hot_wallet ∷ exchange_cold_wallet ∷ fee_revenue
    ∷ withdrawal_clearing ∷ deposit_clearing ∷ other ∷ []

abbrev pub all_policies : List AccountPolicy
all_policies = non_negative ∷ allow_negative ∷ []

-- `create_account`
unfoldable pub read_create_account :
    Rendering
    → CorrelationId
    → CausationId
    → CreateAccountRequest
    → Result Status CreateAccountCommand
unfolding read_context
read_create_account r drawn drawn' req = do
  context ← required (codes "context") req.context
  meta ← read_context r drawn drawn' context
  kind ← required (codes "kind") (numbered all_kinds req.kind)
  policy ← required (codes "policy") (numbered all_policies req.policy)
  ok (record { meta = meta; name = req.name; kind = kind; policy = policy })

-- `record_deposit`
unfoldable pub read_record_deposit :
    Rendering
    → CorrelationId
    → CausationId
    → RecordDepositRequest
    → Result Status RecordDepositCommand
unfolding read_context parse_uuid parse_asset parse_amount
read_record_deposit r drawn drawn' req = do
  context ← required (codes "context") req.context
  meta ← read_context r drawn drawn' context
  available ← parse_uuid r req.customer_available_account_id (codes "customer")
  clearing ← parse_uuid r req.deposit_clearing_account_id (codes "clearing")
  hot_wallet ← optional_uuid r req.hot_wallet_account_id (codes "hot_wallet")
  asset ← parse_asset r req.asset
  amount ← parse_amount req.amount_atomic (codes "amount")
  ok (record {
    meta = meta;
    customer_available = available;
    deposit_clearing = clearing;
    hot_wallet = hot_wallet;
    asset = asset;
    amount = amount;
    external_reference = optional_text req.external_reference;
  })

-- `request_withdrawal`
unfoldable pub read_request_withdrawal :
    Rendering
    → CorrelationId
    → CausationId
    → RequestWithdrawalRequest
    → Result Status RequestWithdrawalCommand
unfolding read_context parse_uuid parse_asset parse_amount
read_request_withdrawal r drawn drawn' req = do
  context ← required (codes "context") req.context
  meta ← read_context r drawn drawn' context
  available ← parse_uuid r req.customer_available_account_id (codes "available")
  locked ← parse_uuid r req.customer_locked_account_id (codes "locked")
  asset ← parse_asset r req.asset
  amount ← parse_amount req.amount_atomic (codes "amount")
  ok (record {
    meta = meta;
    customer_available = available;
    customer_locked = locked;
    asset = asset;
    amount = amount;
    destination_reference = optional_text req.destination_reference;
  })

-- `complete_withdrawal`
unfoldable pub read_complete_withdrawal :
    Rendering
    → CorrelationId
    → CausationId
    → CompleteWithdrawalRequest
    → Result Status CompleteWithdrawalCommand
unfolding read_context parse_uuid parse_asset parse_amount
read_complete_withdrawal r drawn drawn' req = do
  context ← required (codes "context") req.context
  meta ← read_context r drawn drawn' context
  locked ← parse_uuid r req.customer_locked_account_id (codes "locked")
  clearing ← parse_uuid r req.withdrawal_clearing_account_id (codes "withdrawal_clearing")
  hot_wallet ← parse_uuid r req.hot_wallet_account_id (codes "hot_wallet")
  asset ← parse_asset r req.asset
  amount ← parse_amount req.amount_atomic (codes "amount")
  ok (record {
    meta = meta;
    customer_locked = locked;
    withdrawal_clearing = clearing;
    hot_wallet = hot_wallet;
    asset = asset;
    amount = amount;
    settlement_reference = optional_text req.settlement_reference;
  })

-- `reject_withdrawal`
unfoldable pub read_reject_withdrawal :
    Rendering
    → CorrelationId
    → CausationId
    → RejectWithdrawalRequest
    → Result Status RejectWithdrawalCommand
unfolding read_context parse_uuid parse_asset parse_amount
read_reject_withdrawal r drawn drawn' req = do
  context ← required (codes "context") req.context
  meta ← read_context r drawn drawn' context
  locked ← parse_uuid r req.customer_locked_account_id (codes "locked")
  available ← parse_uuid r req.customer_available_account_id (codes "available")
  asset ← parse_asset r req.asset
  amount ← parse_amount req.amount_atomic (codes "amount")
  ok (record {
    meta = meta;
    customer_locked = locked;
    customer_available = available;
    asset = asset;
    amount = amount;
    reason = req.reason;
  })

-- `trade_settlement`
unfoldable pub read_trade_settlement :
    Rendering
    → CorrelationId
    → CausationId
    → RecordTradeSettlementRequest
    → Result Status RecordTradeSettlementCommand
unfolding read_context parse_uuid parse_asset parse_amount
read_trade_settlement r drawn drawn' req = do
  context ← required (codes "context") req.context
  meta ← read_context r drawn drawn' context
  buyer_available ← parse_uuid r req.buyer_available_account_id (codes "buyer")
  seller_available ← parse_uuid r req.seller_available_account_id (codes "seller")
  base_asset ← parse_asset r req.base_asset
  base_amount ← parse_amount req.base_amount_atomic (codes "base_amount")
  quote_asset ← parse_asset r req.quote_asset
  quote_amount ← parse_amount req.quote_amount_atomic (codes "quote_amount")
  ok (record {
    meta = meta;
    buyer_available = buyer_available;
    seller_available = seller_available;
    base_asset = base_asset;
    base_amount = base_amount;
    quote_asset = quote_asset;
    quote_amount = quote_amount;
    trade_reference = optional_text req.trade_reference;
  })

-- `trading_fee`
unfoldable pub read_trading_fee :
    Rendering
    → CorrelationId
    → CausationId
    → RecordTradingFeeRequest
    → Result Status RecordTradingFeeCommand
unfolding read_context parse_uuid parse_asset parse_amount
read_trading_fee r drawn drawn' req = do
  context ← required (codes "context") req.context
  meta ← read_context r drawn drawn' context
  available ← parse_uuid r req.customer_available_account_id (codes "customer")
  revenue ← parse_uuid r req.fee_revenue_account_id (codes "fee_revenue")
  asset ← parse_asset r req.asset
  amount ← parse_amount req.amount_atomic (codes "amount")
  ok (record {
    meta = meta;
    customer_available = available;
    fee_revenue = revenue;
    asset = asset;
    amount = amount;
  })

-- `admin_adjustment`
unfoldable pub read_admin_adjustment :
    Rendering
    → CorrelationId
    → CausationId
    → RecordAdminAdjustmentRequest
    → Result Status RecordAdminAdjustmentCommand
unfolding read_context parse_uuid parse_asset parse_amount
read_admin_adjustment r drawn drawn' req = do
  context ← required (codes "context") req.context
  audit ← required (codes "audit") req.audit
  meta ← read_context r drawn drawn' context
  from ← parse_uuid r req.from_account_id (codes "from")
  to ← parse_uuid r req.to_account_id (codes "to")
  asset ← parse_asset r req.asset
  amount ← parse_amount req.amount_atomic (codes "amount")
  ok (record {
    meta = meta;
    from = from;
    to = to;
    asset = asset;
    amount = amount;
    audit = record {
      actor = audit.actor;
      reason = audit.reason;
      ticket_id = optional_text audit.ticket_id;
    };
  })

-- `submit_journal`
unfoldable pub read_submit_journal :
    Rendering
    → CorrelationId
    → CausationId
    → SubmitJournalEntryRequest
    → Result Status SubmitJournalCommand
unfolding read_context map_posting_inputs
read_submit_journal r drawn drawn' req = do
  context ← required (codes "context") req.context
  meta ← read_context r drawn drawn' context
  postings ← map_posting_inputs r req.postings
  ok (record { meta = meta; description = req.description; postings = postings })
