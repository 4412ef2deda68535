-- ===== src/Ledger/Chart.antt =====
-- crates/ledger/src/chart.rs: the accounts of the demo exchange.
use iron_ledger.Domain.Account.{
  AccountKind, AccountPolicy, allow_negative, customer_available, customer_locked, deposit_clearing,
  exchange_cold_wallet, exchange_hot_wallet, fee_revenue, non_negative, withdrawal_clearing,
}
use iron_ledger.Prelude.{List, [], ◌++◌, ◌∷◌}
use iron_ledger.Prelude.Text.{Text, codes}

abbrev pub exchange_hot_wallet_name : Text
exchange_hot_wallet_name = codes "exchange:hot-wallet"

abbrev pub exchange_cold_wallet_name : Text
exchange_cold_wallet_name = codes "exchange:cold-wallet"

abbrev pub deposit_clearing_name : Text
deposit_clearing_name = codes "exchange:deposit-clearing"

abbrev pub withdrawal_clearing_name : Text
withdrawal_clearing_name = codes "exchange:withdrawal-clearing"

abbrev pub fee_revenue_name : Text
fee_revenue_name = codes "exchange:fee-revenue"

pub record AccountSpec : Type 0 where
  pub name : Text
  pub kind : AccountKind
  pub policy : AccountPolicy

-- `AccountSpec::new`
abbrev pub new_spec : Text → AccountKind → AccountPolicy → AccountSpec
new_spec name kind policy = record { name = name; kind = kind; policy = policy }

unfoldable pub customer_available_name : Text → Text
customer_available_name customer = codes "customer:" ++ customer ++ codes ":available"

unfoldable pub customer_locked_name : Text → Text
customer_locked_name customer = codes "customer:" ++ customer ++ codes ":locked"

abbrev pub exchange_accounts : List AccountSpec
exchange_accounts =
    new_spec exchange_hot_wallet_name exchange_hot_wallet allow_negative
    ∷ new_spec exchange_cold_wallet_name exchange_cold_wallet allow_negative
    ∷ new_spec deposit_clearing_name deposit_clearing allow_negative
    ∷ new_spec withdrawal_clearing_name withdrawal_clearing allow_negative
    ∷ new_spec fee_revenue_name fee_revenue non_negative
    ∷ []

unfoldable pub customer_accounts : Text → List AccountSpec
customer_accounts customer =
    new_spec (customer_available_name customer) customer_available non_negative
    ∷ new_spec (customer_locked_name customer) customer_locked non_negative
    ∷ []

-- The `for` loop of `full_chart`
unfoldable pub extend_chart : List Text → List AccountSpec
extend_chart [] = []
extend_chart (customer ∷ customers) = customer_accounts customer ++ extend_chart customers

unfoldable pub full_chart : List Text → List AccountSpec
unfolding extend_chart
full_chart customers = exchange_accounts ++ extend_chart customers
