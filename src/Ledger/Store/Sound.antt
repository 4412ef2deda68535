-- ===== src/Ledger/Store/Sound.antt =====
-- The books of a state: what every operation of the adapter keeps.
use mathlib.Core.Path.{subst}
use iron_ledger.Domain.Account.{Account}
use iron_ledger.Domain.Asset.{AssetCode}
use iron_ledger.Domain.Event.{LedgerEvent}
use iron_ledger.Domain.Ids.{Timestamp, Uuid}
use iron_ledger.Domain.Journal.{JournalEntry, validate_balanced}
use iron_ledger.Domain.Journal.Balanced.{validate_balanced-IsVerdict}
use iron_ledger.Domain.Journal.Sums.{BalanceKey, posting_sum}
use iron_ledger.Ledger.Port.{JournalCommit}
use iron_ledger.Ledger.Store.{State, empty_state, record_event, record_events}
use iron_ledger.Ledger.Store.Applied.{amount_at, asset_total}
use iron_ledger.Ledger.Store.Atomic.{
  applied_state, commit_entry_atomic, commit_entry_done, commit_entry-used, used, with_record,
}
use iron_ledger.Ledger.Store.Commit.{commit_entry}
use iron_ledger.Ledger.Store.Frame.{apply_postings_frame}
use iron_ledger.Ledger.Store.Postings.{AreApplied, HasOwners, IsSolvent, apply_postings-AreApplied}
use iron_ledger.Prelude.{List, Option-cases, [], arith, inl, inr, refl, sym, ◌++◌, ◌∷◌, ◌≡◌}
use iron_ledger.Prelude.Int.{int_laws, pos, ℤ, ◌+ℤ◌}
use iron_ledger.Prelude.Map.{Map, get}
use iron_ledger.Prelude.Result.{Result-cases, ok}

-- What the journal says of one balance.
abbrev pub entries_sum : BalanceKey → List JournalEntry → ℤ
entries_sum key [] = pos 0
entries_sum key (entry ∷ entries) = posting_sum key entry.postings +ℤ entries_sum key entries

pub entries_sum_snoc :
    (key : BalanceKey) (entries : List JournalEntry) (entry : JournalEntry)
    → entries_sum key (entries ++ entry ∷ [])
      ≡ entries_sum key entries +ℤ posting_sum key entry.postings
entries_sum_snoc key [] entry = omega int_laws
entries_sum_snoc key (e ∷ es) entry = rw (entries_sum_snoc key es entry) (omega int_laws)

pub record IsSound (s : State) : Type 0 where
  -- no account that must not be negative is
  pub solvent : IsSolvent s.accounts s.balances
  -- nothing is booked on an unknown account
  pub owned : HasOwners s.accounts s.balances
  -- the balances of an asset sum to zero
  pub conserved : (asset : AssetCode) → asset_total asset s.balances ≡ pos 0
  -- every balance is the sum of its postings in the journal
  pub history : (key : BalanceKey) → amount_at key s.balances ≡ entries_sum key s.entries

-- Soundness reads the accounts, the entries and the balances alone.
abbrev pub SameBooks : State → State → Type 0
SameBooks s t = (t.accounts ≡ s.accounts) × (t.entries ≡ s.entries) × (t.balances ≡ s.balances)

pub SameBooks-IsSound : (s t : State) → SameBooks s t → IsSound s → IsSound t
SameBooks-IsSound s t (a, e, b) h = record {
  solvent = rw (a, b) h.solvent;
  owned = rw (a, b) h.owned;
  conserved = λ asset. rw b (h.conserved asset);
  history = λ key. rw (b, e) (h.history key);
}

pub record_events-SameBooks :
    (events : List LedgerEvent) (s : State) → SameBooks s (record_events events s)
unfolding record_events
record_events-SameBooks [] s = (refl, refl, refl)
record_events-SameBooks (event ∷ events) s =
    ground (arith, record_events-SameBooks events (record_event event s))

pub empty_state-IsSound : IsSound empty_state
unfolding get
empty_state-IsSound = record {
  solvent = λ key account found strict. omega arith;
  owned = λ key absent. refl;
  conserved = λ asset. refl;
  history = λ key. refl;
}

-- The books after accepted postings of a balanced entry.
posted-IsSound :
    (entry : JournalEntry) (s t : State)
    → AreApplied entry.postings s t
    → t.accounts ≡ s.accounts
    → validate_balanced entry.postings ≡ ok tt
    → IsSound s
    → IsSound (record t { entries = s.entries ++ entry ∷ [] })
posted-IsSound entry s t applied same balanced h = record {
  solvent =
      subst (λ (a : Map Uuid Account). IsSolvent a t.balances) (sym same)
        (applied.solvent h.solvent);
  owned =
      subst (λ (a : Map Uuid Account). HasOwners a t.balances) (sym same) (applied.owned h.owned);
  conserved = λ asset.
      rw
        (
          applied.total asset,
          h.conserved asset,
          (rw balanced at (validate_balanced-IsVerdict entry.postings)).1 asset,
        )
        (omega int_laws);
  history = λ key. rw (entries_sum_snoc key s.entries entry, applied.moved key, h.history key);
}

-- A commit of a balanced entry keeps the books sound, whether it succeeds, fails or is a duplicate.
pub commit_entry-IsSound :
    (now : Timestamp) (commit : JournalCommit) (s : State)
    → validate_balanced commit.entry.postings ≡ ok tt
    → IsSound s
    → IsSound (commit_entry now commit s).1
commit_entry-IsSound now commit s balanced h = elim (Result-cases (commit_entry now commit s).0) [
  | inr (e, bad) ↦ rw (commit_entry_atomic now commit s e bad) h
  | inl (outcome, good) ↦ elim (Option-cases (used commit.idempotency s)) [
    | inr (r, present) ↦ rw (commit_entry-used now commit s r present) h
    | inl absent ↦
        let (fine, done) = commit_entry_done now commit s outcome absent good in
        let t = applied_state now commit s in
        let frame =
          apply_postings_frame now commit.entry.postings (with_record commit.idempotency s) in
        let applied =
          apply_postings-AreApplied now commit.entry.postings (with_record commit.idempotency s)
            fine in
        let booked = record t { entries = t.entries ++ commit.entry ∷ [] } in
        rw done (
          SameBooks-IsSound booked (record_events commit.events booked)
            (record_events-SameBooks commit.events booked)
            (subst
              (λ (es : List JournalEntry). IsSound (record t { entries = es ++ commit.entry ∷ [] }))
              (sym frame.1)
              (posted-IsSound commit.entry (with_record commit.idempotency s) t applied frame.0
                balanced
                (SameBooks-IsSound s (with_record commit.idempotency s) (refl, refl, refl) h))))
  ]
]
