-- ===== src/Ledger/Store/Commit.antt =====
-- `State::apply_postings` and the commit of a journal entry (crates/ledger/src/memory.rs).
use iron_ledger.Domain.Account.{Account, allows_negative, is_active, status_text}
use iron_ledger.Domain.Amount.{checked_add, is_negative}
use iron_ledger.Domain.Error.{account_not_active, insufficient_balance}
use iron_ledger.Domain.Ids.{Timestamp}
use iron_ledger.Domain.Journal.{Posting}
use iron_ledger.Domain.Journal.Sums.{BalanceKey, key_of, key_order}
use iron_ledger.Ledger.Error.{LedgerError, domain, not_found}
use iron_ledger.Ledger.Port.{
  BalanceRecord, CommitOutcome, JournalCommit, committed, duplicate_idempotency_key,
}
use iron_ledger.Ledger.Store.{
  State, balance_or_new, insert_idempotency, record_events, record_key, record_order,
}
use iron_ledger.Ledger.Store.Queries.{snapshot}
use iron_ledger.Prelude.{List, Option, [], if◌then◌else◌, none, not, some, ◌&&◌, ◌++◌, ◌∷◌}
use iron_ledger.Prelude.Map.{Map, get, insert, remove}
use iron_ledger.Prelude.Order.{nat_order}
use iron_ledger.Prelude.Result.{Result, err, ok}
use iron_ledger.Prelude.Text.{codes}

-- What a posting may change of an account that was found: the checks of the loop's body, on the
-- balance that `or_insert_with` left.
unfoldable pub apply_to :
    Timestamp → Posting → Account → BalanceRecord → State → Result LedgerError (Unit {0}) × State
apply_to now posting account balance s = elim (checked_add balance.amount posting.amount) [
  | err e ↦ (err (domain e), s)
  | ok updated ↦
      if is_negative updated && not (allows_negative account.policy)
      then (
        err (domain (insufficient_balance account.id posting.asset balance.amount posting.amount)),
        s,
      )
      else (
        ok tt,
        record s {
          balances =
              insert key_order (key_of posting)
                (record balance { amount = updated; updated_at = now }) s.balances;
        },
      )
]

-- The body of the loop, on the account that was looked up.
unfoldable pub apply_known :
    Timestamp → Posting → Option Account → State → Result LedgerError (Unit {0}) × State
unfolding apply_to
apply_known now posting none s = (err (not_found (codes "account") posting.account_id), s)
apply_known now posting (some account) s =
    let balance = balance_or_new now (key_of posting) s.balances in
    if is_active account
    then apply_to now posting account balance
        (record s { balances = insert key_order (key_of posting) balance s.balances })
    else (err (domain (account_not_active account.id (status_text account.status))), s)

unfoldable pub apply_posting : Timestamp → Posting → State → Result LedgerError (Unit {0}) × State
unfolding apply_known
apply_posting now posting s =
    apply_known now posting (get nat_order posting.account_id s.accounts) s

-- `State::apply_postings`; what was changed before an error stays changed.
unfoldable pub apply_postings :
    Timestamp → List Posting → State → Result LedgerError (Unit {0}) × State
apply_postings now [] s = (ok tt, s)
apply_postings now (posting ∷ postings) s =
    let (r, s') = apply_posting now posting s in
    let rest = apply_postings now postings s' in elim r [ ok _ ↦ rest | err e ↦ (err e, s') ]

-- The end of a commit: on an error the balances and the idempotency records are put back.
unfoldable pub finish_commit :
    JournalCommit
    → Map BalanceKey BalanceRecord
    → Result LedgerError (Unit {0}) × State
    → Result LedgerError CommitOutcome × State
finish_commit commit snapshot (err e, s) = (
  err e,
  record s {
    balances = snapshot;
    idempotency = remove record_order (record_key commit.idempotency) s.idempotency;
  },
)
finish_commit commit snapshot (ok _, s) = (
  ok committed,
  record_events commit.events (record s { entries = s.entries ++ commit.entry ∷ [] }),
)

-- `LedgerRepo::commit`, called at `now`
unfoldable pub commit_entry :
    Timestamp → JournalCommit → State → Result LedgerError CommitOutcome × State
unfolding finish_commit insert_idempotency
commit_entry now commit s =
    let (outcome, s') = insert_idempotency commit.idempotency s in
    let applied = apply_postings now commit.entry.postings s' in
    elim outcome [
      | duplicate_idempotency_key ↦ (ok duplicate_idempotency_key, s')
      | committed ↦ finish_commit commit s'.balances applied
    ]
