-- ===== src/Ledger/Store/Claims.antt =====
-- `claim` (crates/ledger/src/memory.rs) and what can be claimed.
use iron_ledger.Domain.Ids.{Timestamp}
use iron_ledger.Ledger.Port.{OutboxMessage}
use iron_ledger.Ledger.Store.{OutboxRow, State}
use iron_ledger.Ledger.Store.Outbox.{claim, claim_rows, is_claimable}
use iron_ledger.Prelude.{
  Bool-cases, List, [], ap, arith, drop, false, filter, inl, inr, map, refl, some, suc, take, zero,
  ℕ, ◌+◌, ◌<◌, ◌∷◌, ◌≡◌,
}
use iron_ledger.Prelude.Result.{ok}

-- The rows that can be handed out at an instant, in the order of the outbox.
abbrev pub claimable : Timestamp → List OutboxRow → List OutboxRow
claimable now rows = filter (is_claimable now) rows

abbrev pub messages : List OutboxRow → List OutboxMessage
messages rows = map (λ row. row.message) rows

abbrev pub leased : Timestamp → OutboxRow → OutboxRow
leased until row = record row { leased_until = some until }

leased-not_claimable :
    (now until : Timestamp) (row : OutboxRow)
    → now < until
    → is_claimable now (leased until row) ≡ false
leased-not_claimable now until row h = ground arith

pub claim_rows_taken :
    (room now until : ℕ) (rows : List OutboxRow)
    → (claim_rows room now until rows).0 ≡ messages (take room (claimable now rows))
unfolding claim_rows
claim_rows_taken zero now until [] = refl
claim_rows_taken (suc room) now until [] = refl
claim_rows_taken zero now until (row ∷ rows) = refl
claim_rows_taken (suc room) now until (row ∷ rows) = elim (Bool-cases (is_claimable now row)) [
  | inl free ↦ ground (arith, claim_rows_taken room now until rows)
  | inr taken ↦ ground (arith, claim_rows_taken (suc room) now until rows)
]

claim_rows_left :
    (room now until : ℕ) (rows : List OutboxRow)
    → now < until
    → claimable now (claim_rows room now until rows).1 ≡ drop room (claimable now rows)
unfolding claim_rows
claim_rows_left zero now until [] h = refl
claim_rows_left (suc room) now until [] h = refl
claim_rows_left zero now until (row ∷ rows) h = refl
claim_rows_left (suc room) now until (row ∷ rows) h = elim (Bool-cases (is_claimable now row)) [
  | inl free ↦
      ground (arith, claim_rows_left room now until rows h, leased-not_claimable now until row h)
  | inr taken ↦ ground (arith, claim_rows_left (suc room) now until rows h)
]

claim_rows_kept :
    (room now until : ℕ) (rows : List OutboxRow)
    → messages (claim_rows room now until rows).1 ≡ messages rows
unfolding claim_rows
claim_rows_kept room now until [] = refl
claim_rows_kept zero now until (row ∷ rows) = refl
claim_rows_kept (suc room) now until (row ∷ rows) = elim (Bool-cases (is_claimable now row)) [
  | inl free ↦ ground (arith, claim_rows_kept room now until rows)
  | inr taken ↦ ground (arith, claim_rows_kept (suc room) now until rows)
]

-- A claim with a positive lease returns the first `limit` messages, in the order of the outbox, of
-- the rows that are neither published nor leased at that instant. The rest of these rows, and no
-- others, can be claimed at that instant afterwards, and no row's message is changed or lost.
pub claim_hands_out :
    (limit lease : ℕ) (now : Timestamp) (s : State)
    → 0 < lease
    → ((claim limit (ok lease) now s).0 ≡ ok (messages (take limit (claimable now s.outbox))))
      × (claimable now (claim limit (ok lease) now s).1.outbox
          ≡ drop limit (claimable now s.outbox))
      × (messages (claim limit (ok lease) now s).1.outbox ≡ messages s.outbox)
unfolding claim
claim_hands_out limit lease now s h = (
  ap ok (claim_rows_taken limit now (now + lease) s.outbox),
  claim_rows_left limit now (now + lease) s.outbox (omega arith),
  claim_rows_kept limit now (now + lease) s.outbox,
)
