-- ===== src/Postgres/Convert/Columns.antt =====
-- crates/storage-postgres/src/convert.rs: values that are written to columns and read back.
use iron_ledger.Domain.Account.{
  Account, AccountKind, AccountPolicy, AccountStatus, active, allow_negative, closed,
  customer_available, customer_locked, deposit_clearing, exchange_cold_wallet, exchange_hot_wallet,
  fee_revenue, frozen, non_negative, other, withdrawal_clearing,
}
use iron_ledger.Domain.Amount.{AtomicAmount}
use iron_ledger.Domain.Amount.Exact.{InRange}
use iron_ledger.Domain.Amount.Printed.{parse_i128-show_amount}
use iron_ledger.Domain.Asset.{new_asset_code}
use iron_ledger.Domain.Ids.{Timestamp, Uuid}
use iron_ledger.Domain.Journal.{Posting, PostingSide, credit_side, debit_side}
use iron_ledger.Postgres.Convert.{
  PostingRow, account_from_row, account_row, amount_to_str, column_amount, kind_from_str,
  kind_to_str, load_postings, policy_from_str, policy_to_str, posting_from_row, posting_row,
  side_from_str, side_to_str, status_from_str, status_to_str,
}
use iron_ledger.Prelude.{
  All, List, [], any, arith, false, filter, map, refl, ◌++◌, ◌==◌, ◌∙◌, ◌∷◌, ◌≡◌,
}
use iron_ledger.Prelude.Result.{collect, ok}

kind_from_str-kind_to_str : (kind : AccountKind) → kind_from_str (kind_to_str kind) ≡ ok kind
unfolding kind_from_str
kind_from_str-kind_to_str customer_available = refl
kind_from_str-kind_to_str customer_locked = refl
kind_from_str-kind_to_str exchange_hot_wallet = refl
kind_from_str-kind_to_str exchange_cold_wallet = refl
kind_from_str-kind_to_str fee_revenue = refl
kind_from_str-kind_to_str withdrawal_clearing = refl
kind_from_str-kind_to_str deposit_clearing = refl
kind_from_str-kind_to_str other = refl

policy_from_str-policy_to_str :
    (policy : AccountPolicy) → policy_from_str (policy_to_str policy) ≡ ok policy
unfolding policy_from_str
policy_from_str-policy_to_str non_negative = refl
policy_from_str-policy_to_str allow_negative = refl

status_from_str-status_to_str :
    (status : AccountStatus) → status_from_str (status_to_str status) ≡ ok status
unfolding status_from_str
status_from_str-status_to_str active = refl
status_from_str-status_to_str frozen = refl
status_from_str-status_to_str closed = refl

side_from_str-side_to_str : (side : PostingSide) → side_from_str (side_to_str side) ≡ ok side
unfolding side_from_str
side_from_str-side_to_str debit_side = refl
side_from_str-side_to_str credit_side = refl

-- An account is read back from its row, with its instant as the column keeps it.
pub account_from_row-account_row :
    (kept : Timestamp → Timestamp) (a : Account)
    → account_from_row a.id (account_row kept a) ≡ ok (record a { created_at = kept a.created_at })
unfolding account_from_row
account_from_row-account_row kept a =
    rw
      (
        kind_from_str-kind_to_str a.kind,
        policy_from_str-policy_to_str a.policy,
        status_from_str-status_to_str a.status,
      )
      refl

-- A column is read back as the amount that was written to it.
pub column_amount-amount_to_str :
    (a : AtomicAmount) → InRange a → column_amount (amount_to_str a) ≡ ok a
unfolding column_amount amount_to_str
column_amount-amount_to_str a h = let parsed = parse_i128-show_amount a h in ground arith

-- A posting whose asset code and amount are valid.
abbrev pub IsStorable : Posting → Type 0
IsStorable p = (new_asset_code p.asset ≡ ok p.asset) × InRange p.amount

pub posting_from_row-posting_row :
    (entry_id : Uuid) (p : Posting)
    → IsStorable p
    → posting_from_row (posting_row entry_id p) ≡ ok p
unfolding posting_from_row
posting_from_row-posting_row entry_id p (code, small) =
    rw (side_from_str-side_to_str p.side, code, column_amount-amount_to_str p.amount small) refl

collect-posting_row :
    (entry_id : Uuid) (ps : List Posting)
    → All IsStorable ps
    → collect posting_from_row (map (posting_row entry_id) ps) ≡ ok ps
unfolding collect
collect-posting_row entry_id [] h = refl
collect-posting_row entry_id (p ∷ ps) (first, rest) =
    rw (posting_from_row-posting_row entry_id p first, collect-posting_row entry_id ps rest) refl

own_rows :
    (entry_id : Uuid) (ps : List Posting)
    → filter (λ row. row.entry_id == entry_id) (map (posting_row entry_id) ps)
      ≡ map (posting_row entry_id) ps
own_rows entry_id [] = refl
own_rows entry_id (p ∷ ps) = let ih = own_rows entry_id ps in ground arith

other_rows :
    (entry_id : Uuid) (rows more : List PostingRow)
    → any (λ row. row.entry_id == entry_id) rows ≡ false
    → filter (λ row. row.entry_id == entry_id) (rows ++ more)
      ≡ filter (λ row. row.entry_id == entry_id) more
other_rows entry_id [] more h = refl
other_rows entry_id (row ∷ rows) more h = let ih = other_rows entry_id rows more in ground arith

-- The postings of an entry are read back from behind those of other entries.
pub load_postings-posting_row :
    (entry_id : Uuid) (rows : List PostingRow) (ps : List Posting)
    → any (λ row. row.entry_id == entry_id) rows ≡ false
    → All IsStorable ps
    → load_postings entry_id (rows ++ map (posting_row entry_id) ps) ≡ ok ps
load_postings-posting_row entry_id rows ps fresh storable =
    let left =
      other_rows entry_id rows (map (posting_row entry_id) ps) fresh ∙ own_rows entry_id ps in
    rw left (collect-posting_row entry_id ps storable)
