-- ===== src/Postgres/Balances.antt =====
-- The reads of balances in crates/storage-postgres/src/store.rs and history.rs, and of the whole
-- journal in history.rs. A table is in the order of its key, which is the order that the queries of
-- balances ask for, if the database compares asset codes as texts of ASCII characters.
use iron_ledger.Domain.Asset.{AssetCode, new_asset_code}
use iron_ledger.Domain.Ids.{AccountId, Uuid}
use iron_ledger.Domain.Journal.{JournalEntry}
use iron_ledger.Domain.Journal.Sums.{BalanceKey, key_order}
use iron_ledger.Ledger.Error.{LedgerError}
use iron_ledger.Ledger.Port.{BalanceRecord}
use iron_ledger.Postgres.Convert.{
  EntryRow, StorageError, column_amount, decode, ledger_error_of, reconcile_error_of,
}
use iron_ledger.Postgres.Projection.{ProjectionTables, SlotKey}
use iron_ledger.Postgres.Store.{BalanceRow, Tables, find_entry_row}
use iron_ledger.Prelude.{List, Option, [], filter, if◌then◌else◌, ltb, none, some, ◌==◌, ◌∷◌}
use iron_ledger.Prelude.Map.{Map, get}
use iron_ledger.Prelude.Order.{equals, text_order}
use iron_ledger.Prelude.Result.{Result, collect, map_err, ok, ◌>>=◌}
use iron_ledger.Prelude.Text.{Text}
use iron_ledger.Reconciler.{ReconcileError}

-- The closures that read a row of a balance
unfoldable pub balance_from_row : BalanceKey × BalanceRow → Result StorageError BalanceRecord
unfolding new_asset_code column_amount
balance_from_row ((account_id, asset), row) = do
  code ← map_err decode (new_asset_code asset)
  amount ← column_amount row.amount_atomic
  ok (record {
    account_id = account_id;
    asset = code;
    amount = amount;
    updated_at = row.updated_at;
  })

-- `BalanceRepo::get`, on the row that is found
unfoldable pub read_balance_row :
    AccountId → AssetCode → Option BalanceRow → Result LedgerError (Option BalanceRecord)
unfolding column_amount ledger_error_of
read_balance_row account_id asset none = ok none
read_balance_row account_id asset (some row) = do
  amount ← map_err ledger_error_of (column_amount row.amount_atomic)
  ok (
      some (record {
        account_id = account_id;
        asset = asset;
        amount = amount;
        updated_at = row.updated_at;
      }))

-- `BalanceRepo::get`
unfoldable pub get_balance_row :
    AccountId → AssetCode → Tables → Result LedgerError (Option BalanceRecord)
unfolding read_balance_row
get_balance_row account_id asset t =
    read_balance_row account_id asset (get key_order (account_id, asset) t.balances)

-- `BalanceRepo::list_for_account`
unfoldable pub list_balance_rows : AccountId → Tables → Result LedgerError (List BalanceRecord)
unfolding balance_from_row ledger_error_of
list_balance_rows account_id t =
    map_err ledger_error_of
      (collect balance_from_row (filter (λ slot. slot.0.0 == account_id) t.balances))

-- `BalanceRepo::snapshot`
unfoldable pub snapshot_rows : Tables → Result LedgerError (List BalanceRecord)
unfolding balance_from_row ledger_error_of
snapshot_rows t = map_err ledger_error_of (collect balance_from_row t.balances)

-- `PostgresBalanceViews::snapshot`
unfoldable pub snapshot_view : Tables → Result ReconcileError (List BalanceRecord)
unfolding balance_from_row reconcile_error_of
snapshot_view t = map_err reconcile_error_of (collect balance_from_row t.balances)

-- The rows of one consumer
unfoldable pub slots_of : Text → Map SlotKey BalanceRow → Map BalanceKey BalanceRow
slots_of consumer [] = []
slots_of consumer ((key, row) ∷ slots) =
    let rest = slots_of consumer slots in
    if equals text_order key.0 consumer then (key.1, row) ∷ rest else rest

-- `PostgresBalanceViews::projection_snapshot`
unfoldable pub projection_view :
    Text → ProjectionTables → Result ReconcileError (List BalanceRecord)
unfolding slots_of balance_from_row reconcile_error_of
projection_view consumer t =
    map_err reconcile_error_of (collect balance_from_row (slots_of consumer t.projection_balances))

-- `ORDER BY created_at ASC, id ASC`: the rows are in the order of their ids, so a stable sort by time
unfoldable pub insert_by_time : Uuid × EntryRow → List (Uuid × EntryRow) → List (Uuid × EntryRow)
insert_by_time row [] = row ∷ []
insert_by_time row (later ∷ rows) =
    let rest = insert_by_time row rows in
    if ltb later.1.created_at row.1.created_at then later ∷ rest else row ∷ later ∷ rows

unfoldable pub sort_by_time : List (Uuid × EntryRow) → List (Uuid × EntryRow)
unfolding insert_by_time
sort_by_time [] = []
sort_by_time (row ∷ rows) = insert_by_time row (sort_by_time rows)

-- The loop of `all_entries`
unfoldable pub load_entries :
    List (Uuid × EntryRow) → Tables → Result StorageError (List JournalEntry)
unfolding find_entry_row
load_entries [] t = ok []
load_entries ((id, row) ∷ rows) t = do
  found ← find_entry_row id t
  entries ← load_entries rows t
  ok (elim found [ none ↦ entries | some entry ↦ entry ∷ entries ])

-- `PostgresHistory::all_entries`
unfoldable pub all_entries_rows : Tables → Result ReconcileError (List JournalEntry)
unfolding sort_by_time load_entries reconcile_error_of
all_entries_rows t = map_err reconcile_error_of (load_entries (sort_by_time t.journal_entries) t)
