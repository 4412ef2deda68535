-- ===== src/Domain/Account.antt =====
-- crates/domain/src/account.rs
use iron_ledger.Domain.Ids.{AccountId, Timestamp}
use iron_ledger.Prelude.{Bool, false, true}
use iron_ledger.Prelude.Text.{Text, codes}

pub data AccountKind : Type 0 where
  customer_available customer_locked exchange_hot_wallet exchange_cold_wallet : AccountKind
  fee_revenue withdrawal_clearing deposit_clearing other : AccountKind

pub data AccountPolicy : Type 0 where
  non_negative allow_negative : AccountPolicy

pub data AccountStatus : Type 0 where
  active frozen closed : AccountStatus

-- `AccountStatus::as_str`
abbrev pub status_text : AccountStatus → Text
status_text active = codes "active"
status_text frozen = codes "frozen"
status_text closed = codes "closed"

pub record Account : Type 0 where
  pub id : AccountId
  pub name : Text
  pub kind : AccountKind
  pub policy : AccountPolicy
  pub status : AccountStatus
  pub created_at : Timestamp

-- `Account::new`, called at `now`
abbrev pub new_account : Timestamp → AccountId → Text → AccountKind → AccountPolicy → Account
new_account now id name kind policy = record {
  id = id;
  name = name;
  kind = kind;
  policy = policy;
  status = active;
  created_at = now;
}

abbrev pub is_active_status : AccountStatus → Bool
is_active_status active = true
is_active_status frozen = false
is_active_status closed = false

-- `Account::is_active`
abbrev pub is_active : Account → Bool
is_active account = is_active_status account.status

-- `policy == AccountPolicy::AllowNegative`
abbrev pub allows_negative : AccountPolicy → Bool
allows_negative non_negative = false
allows_negative allow_negative = true
