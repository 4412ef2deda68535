-- ===== src/Reconciler/Tests.antt =====
-- Runs of the reconciler's theorems on concrete values.
use iron_ledger.Domain.Account.{
  AccountPolicy, allow_negative, customer_available, new_account, non_negative,
}
use iron_ledger.Domain.Amount.{AtomicAmount, checked_add}
use iron_ledger.Domain.Asset.{btc}
use iron_ledger.Domain.Flow.Effect.{credit_of, debit_of}
use iron_ledger.Domain.Ids.{AccountId}
use iron_ledger.Domain.Journal.{
  JournalEntry, add_totals, asset_totals, check_totals, posted, validate_balanced,
}
use iron_ledger.Domain.Journal.Slots.{amount_in}
use iron_ledger.Domain.Journal.Sums.{BalanceKey}
use iron_ledger.Ledger.Json.{Value}
use iron_ledger.Ledger.Port.{AccountCommit, BalanceRecord, JournalCommit}
use iron_ledger.Ledger.Store.{State, empty_state, record_events}
use iron_ledger.Ledger.Store.Accounts.{create_account}
use iron_ledger.Ledger.Store.Commit.{commit_entry}
use iron_ledger.Ledger.Store.Queries.{snapshot}
use iron_ledger.Ledger.Store.Reach.{Reach, Step, initially}
use iron_ledger.Ledger.Store.Sound.{entries_sum}
use iron_ledger.Prelude.{List, [], length, refl, ◌↔◌, ◌∷◌, ◌≡◌}
use iron_ledger.Prelude.Int.{negate, negsuc, pos, ◌+ℤ◌}
use iron_ledger.Prelude.Map.{Map, get, insert}
use iron_ledger.Prelude.Result.{ok}
use iron_ledger.Prelude.Text.{codes}
use iron_ledger.Reconciler.{compare_maps, count_postings, rebuild, reconcile}
use iron_ledger.Reconciler.Clean.{reconcile_reachable}
use iron_ledger.Reconciler.Compared.{Agrees, compare_maps-Agrees}
use iron_ledger.Reconciler.Rebuilt.{rebuild-eq-sum}

abbrev seven : JournalEntry
seven = record {
  id = 1;
  idempotency_key = codes "key-1";
  description = codes "deposit";
  postings = credit_of 20 btc (pos 7) ∷ debit_of 10 btc (pos 7) ∷ [];
  status = posted;
  correlation_id = 3;
  causation_id = 4;
  created_at = 100;
}

abbrev seven_totals : Map BalanceKey AtomicAmount
seven_totals = ((10, btc), pos 7) ∷ ((20, btc), negsuc 6) ∷ []

rebuild-eq-sum_example : amount_in (20, btc) seven_totals ≡ entries_sum (20, btc) (seven ∷ [])
unfolding rebuild checked_add ◌+ℤ◌ negate get insert
rebuild-eq-sum_example = rebuild-eq-sum (seven ∷ []) seven_totals refl (20, btc)

abbrev wrong_view : List BalanceRecord
wrong_view = record { account_id = 10; asset = btc; amount = pos 6; updated_at = 100 } ∷ []

compare_maps-Agrees_example :
    (compare_maps seven_totals wrong_view (codes "projection") ≡ [])
    ↔ Agrees seven_totals wrong_view
compare_maps-Agrees_example = compare_maps-Agrees seven_totals wrong_view (codes "projection")

abbrev opening : AccountId → AccountPolicy → AccountCommit
opening id policy = record {
  account = new_account 90 id (id ∷ []) customer_available policy;
  events = [];
  idempotency = record {
    scope = codes "create_account";
    key = id ∷ [];
    request_hash = codes "hash";
    response = Value.null;
    created_at = 90;
  };
}

abbrev posting_seven : JournalCommit
posting_seven = record {
  entry = seven;
  events = [];
  idempotency = record {
    scope = codes "record_deposit";
    key = codes "key-1";
    request_hash = codes "hash";
    response = Value.null;
    created_at = 100;
  };
}

-- Two accounts are opened, and seven units move.
abbrev first_opened : State
first_opened = (create_account (opening 10 non_negative) empty_state).1

abbrev both_opened : State
both_opened = (create_account (opening 20 allow_negative) first_opened).1

abbrev after_seven : State
after_seven = (commit_entry 100 posting_seven both_opened).1

after_seven-Reach : Reach after_seven
unfolding validate_balanced asset_totals add_totals checked_add ◌+ℤ◌ get negate insert check_totals
    create_account record_events
after_seven-Reach =
    Reach.after
      (Reach.after (Reach.after initially (Step.opens (opening 10 non_negative) empty_state refl))
        (Step.opens (opening 20 allow_negative) first_opened refl))
      (Step.posts 100 posting_seven both_opened refl)

reconcile_reachable_example :
    reconcile 100 after_seven.entries (snapshot after_seven) (codes "authoritative_balances")
    ≡ ok (record {
      finished_at = 100;
      entries_scanned = length after_seven.entries;
      postings_applied = count_postings after_seven.entries;
      discrepancies = [];
    })
reconcile_reachable_example =
    reconcile_reachable 100 (codes "authoritative_balances") after_seven after_seven-Reach
