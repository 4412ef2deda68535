-- ===== src/Ledger/Store/Frame.antt =====
-- What the steps of a commit leave alone.
use iron_ledger.Domain.Ids.{Timestamp}
use iron_ledger.Domain.Journal.{Posting}
use iron_ledger.Ledger.Store.{State}
use iron_ledger.Ledger.Store.Commit.{apply_posting, apply_postings}
use iron_ledger.Prelude.{List, [], arith, refl, ◌∷◌, ◌≡◌}

-- The two states differ in their balances at most.
abbrev pub SameButBalances : State → State → Type 0
SameButBalances s t =
    (t.accounts ≡ s.accounts)
    × (t.entries ≡ s.entries)
    × (t.idempotency ≡ s.idempotency)
    × (t.outbox ≡ s.outbox)
    × (t.next_outbox_id ≡ s.next_outbox_id)

pub apply_posting_frame :
    (now : Timestamp) (p : Posting) (s : State) → SameButBalances s (apply_posting now p s).1
unfolding apply_posting
apply_posting_frame now p s = ground arith

pub apply_postings_frame :
    (now : Timestamp) (ps : List Posting) (s : State)
    → SameButBalances s (apply_postings now ps s).1
unfolding apply_postings
apply_postings_frame now [] s = (refl, refl, refl, refl, refl)
apply_postings_frame now (p ∷ ps) s =
    ground
      (arith, apply_posting_frame now p s, apply_postings_frame now ps (apply_posting now p s).1)
