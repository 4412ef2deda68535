-- ===== src/Reconciler/Rebuilt.antt =====
-- The totals of `rebuild` (crates/reconciler/src/reconciler.rs).
use iron_ledger.Domain.Amount.{AtomicAmount, checked_add}
use iron_ledger.Domain.Amount.Exact.{checked_add-eq}
use iron_ledger.Domain.Journal.{JournalEntry, Posting}
use iron_ledger.Domain.Journal.Slots.{amount_in, amount_in-insert}
use iron_ledger.Domain.Journal.Sums.{BalanceKey, key_of, key_order, posting_sum}
use iron_ledger.Ledger.Store.Sound.{entries_sum}
use iron_ledger.Prelude.{List, [], arith, inl, inr, ◌∷◌, ◌≡◌}
use iron_ledger.Prelude.Int.{int_laws, ◌+ℤ◌}
use iron_ledger.Prelude.Map.{Map, get, insert}
use iron_ledger.Prelude.Result.{Result-cases, ok, ok_injective, succeeded_bind}
use iron_ledger.Reconciler.{rebuild, rebuild_entry, rebuild_from}

rebuild_entry_sum :
    (key : BalanceKey) (m t : Map BalanceKey AtomicAmount) (ps : List Posting)
    → rebuild_entry m ps ≡ ok t
    → amount_in key t ≡ amount_in key m +ℤ posting_sum key ps
unfolding rebuild_entry
rebuild_entry_sum key m t [] h = rw (← ok_injective h) (omega int_laws)
rebuild_entry_sum key m t (p ∷ ps) h =
    elim (Result-cases (checked_add (amount_in (key_of p) m) p.amount)) [
      | inr (e, bad) ↦ absurd (ground arith)
      | inl (total, added) ↦
          let ih =
            rebuild_entry_sum key (insert key_order (key_of p) total m) t ps (ground arith) in
          let step =
            amount_in-insert key p total m
              (checked_add-eq (amount_in (key_of p) m) p.amount added) in
          rw (ih, step) (omega int_laws)
    ]

rebuild_from_sum :
    (key : BalanceKey) (m t : Map BalanceKey AtomicAmount) (entries : List JournalEntry)
    → rebuild_from m entries ≡ ok t
    → amount_in key t ≡ amount_in key m +ℤ entries_sum key entries
unfolding rebuild_from
rebuild_from_sum key m t [] h = rw (← ok_injective h) (omega int_laws)
rebuild_from_sum key m t (entry ∷ entries) h =
    let (added, first, rest) = succeeded_bind (rebuild_entry m entry.postings) _ h in
    let ih = rebuild_from_sum key added t entries rest in
    let step = rebuild_entry_sum key m added entry.postings first in rw (ih, step) (omega int_laws)

-- A history that is rebuilt without an overflow gives, for every account and asset, the sum of the
-- postings to it in all entries.
pub rebuild-eq-sum :
    (entries : List JournalEntry) (totals : Map BalanceKey AtomicAmount)
    → rebuild entries ≡ ok totals
    → (key : BalanceKey) → amount_in key totals ≡ entries_sum key entries
unfolding rebuild
rebuild-eq-sum entries totals h key =
    rw (rebuild_from_sum key [] totals entries h) (unfold get in omega int_laws)
