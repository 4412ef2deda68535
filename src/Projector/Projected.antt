-- ===== src/Projector/Projected.antt =====
-- What the projection makes of an entry.
use iron_ledger.Domain.Amount.{AtomicAmount, checked_add}
use iron_ledger.Domain.Amount.Exact.{checked_add-eq}
use iron_ledger.Domain.Asset.{AssetCode}
use iron_ledger.Domain.Error.{DomainError}
use iron_ledger.Domain.Event.{EventId}
use iron_ledger.Domain.Ids.{AccountId}
use iron_ledger.Domain.Journal.{JournalEntry, Posting}
use iron_ledger.Domain.Journal.Slots.{amount_in, amount_in-insert}
use iron_ledger.Domain.Journal.Sums.{BalanceKey, key_of, key_order, posting_sum}
use iron_ledger.Prelude.{
  Bool, Bool-cases, List, [], arith, false, inl, inr, is_some, true, ◌||◌, ◌∷◌, ◌≡◌,
}
use iron_ledger.Prelude.Int.{int_laws, ◌+ℤ◌}
use iron_ledger.Prelude.Map.{Map, get, get-insert, insert}
use iron_ledger.Prelude.Order.{equals, equals_refl}
use iron_ledger.Prelude.Result.{Result-cases, err, ok}
use iron_ledger.Prelude.Text.{Text}
use iron_ledger.Projector.{
  Projection, add_postings, applied, apply_journal, domain, duplicate, processed_order,
  projected_balance,
}

pub add_postings_step :
    (p : Posting) (ps : List Posting) (m : Map BalanceKey AtomicAmount) (amount : AtomicAmount)
    → checked_add (amount_in (key_of p) m) p.amount ≡ ok amount
    → add_postings (p ∷ ps) m ≡ add_postings ps (insert key_order (key_of p) amount m)
unfolding add_postings
add_postings_step p ps m amount added = ground arith

pub add_postings_stop :
    (p : Posting) (ps : List Posting) (m : Map BalanceKey AtomicAmount) (e : DomainError)
    → checked_add (amount_in (key_of p) m) p.amount ≡ err e
    → add_postings (p ∷ ps) m ≡ (err e, insert key_order (key_of p) (amount_in (key_of p) m) m)
unfolding add_postings
add_postings_stop p ps m e bad = ground arith

add_postings_sum :
    (ps : List Posting) (m : Map BalanceKey AtomicAmount)
    → (add_postings ps m).0 ≡ ok tt
    → (key : BalanceKey)
    → amount_in key (add_postings ps m).1 ≡ amount_in key m +ℤ posting_sum key ps
add_postings_sum [] m h key = unfold add_postings in omega int_laws
add_postings_sum (p ∷ ps) m h key =
    elim (Result-cases (checked_add (amount_in (key_of p) m) p.amount)) [
      | inr (e, bad) ↦ absurd (let stop = add_postings_stop p ps m e bad in cc)
      | inl (amount, added) ↦
          let step =
            amount_in-insert key p amount m
              (checked_add-eq (amount_in (key_of p) m) p.amount added) in
          let next = add_postings_step p ps m amount added in
          let ih = add_postings_sum ps (insert key_order (key_of p) amount m) (rw next at h) key in
          rw (next, ih, step) (omega int_laws)
    ]

abbrev pub is_processed : Text → EventId → Projection → Bool
is_processed consumer event_id s = is_some (get processed_order (consumer, event_id) s.processed)

-- The projection after an entry that was applied.
abbrev projected : Text → EventId → JournalEntry → Projection → Projection
projected consumer event_id entry s = record s {
  balances = (add_postings entry.postings s.balances).1;
  processed = insert processed_order (consumer, event_id) tt s.processed;
}

apply_journal_done :
    (consumer : Text) (event_id : EventId) (entry : JournalEntry) (s : Projection)
    → (apply_journal consumer event_id entry s).0 ≡ ok applied
    → ((add_postings entry.postings s.balances).0 ≡ ok tt)
      × (apply_journal consumer event_id entry s
          ≡ (ok applied, projected consumer event_id entry s))
unfolding apply_journal
apply_journal_done consumer event_id entry s h =
    elim (Bool-cases (is_processed consumer event_id s)) [
      | inl seen ↦ absurd (ground arith)
      | inr fresh ↦ elim (Result-cases (add_postings entry.postings s.balances).0) [
        | inl (u, good) ↦ (good, ground arith)
        | inr (e, bad) ↦ absurd (ground arith)
      ]
    ]

projected_processed :
    (consumer : Text) (event_id : EventId) (entry : JournalEntry) (s : Projection)
    (other_consumer : Text) (event : EventId)
    → is_processed other_consumer event (projected consumer event_id entry s) ≡ (
        equals processed_order (other_consumer, event) (consumer, event_id)
        || is_processed other_consumer event s)
projected_processed consumer event_id entry s other_consumer event =
    ground (
      arith,
      get-insert processed_order (other_consumer, event) (consumer, event_id) tt s.processed,
    )

pub apply_journal_seen :
    (consumer : Text) (event_id : EventId) (entry : JournalEntry) (s : Projection)
    → is_processed consumer event_id s ≡ true
    → apply_journal consumer event_id entry s ≡ (ok duplicate, s)
unfolding apply_journal
apply_journal_seen consumer event_id entry s seen = ground arith

-- An entry that is applied adds each of its postings to the slot of the posting's account and
-- asset and to no other, marks its event as processed by this consumer, and does nothing else to the
-- marks; applied again under the same event, it is a duplicate that changes nothing.
pub apply_journal_applied :
    (consumer : Text) (event_id : EventId) (entry : JournalEntry) (s : Projection)
    → (apply_journal consumer event_id entry s).0 ≡ ok applied
    → ((account : AccountId) (asset : AssetCode)
        → projected_balance account asset (apply_journal consumer event_id entry s).1
          ≡ projected_balance account asset s +ℤ posting_sum (account, asset) entry.postings)
      × ((other_consumer : Text) (event : EventId)
          → is_processed other_consumer event (apply_journal consumer event_id entry s).1 ≡ (
              equals processed_order (other_consumer, event) (consumer, event_id)
              || is_processed other_consumer event s))
      × ((again : JournalEntry)
          → apply_journal consumer event_id again (apply_journal consumer event_id entry s).1
            ≡ (ok duplicate, (apply_journal consumer event_id entry s).1))
apply_journal_applied consumer event_id entry s h =
    let (good, done) = apply_journal_done consumer event_id entry s h in
    let t = projected consumer event_id entry s in
    rw done (
      (λ account asset. add_postings_sum entry.postings s.balances good (account, asset)),
      (λ other_consumer event. projected_processed consumer event_id entry s other_consumer event),
      (λ again. apply_journal_seen consumer event_id again t (
          ground (
            arith,
            projected_processed consumer event_id entry s consumer event_id,
            equals_refl processed_order (consumer, event_id),
          ))),
    )

-- An overflow on the second posting of an entry, after the first was added: the call fails, but the
-- first posting stays in the projection, and the event is not marked, so that a retry adds the
-- first posting once more. The two postings go to different slots.
pub apply_journal_partial :
    (consumer : Text) (event_id : EventId) (entry : JournalEntry) (s : Projection) (p q : Posting)
    (rest : List Posting) (amount : AtomicAmount) (e : DomainError)
    → is_processed consumer event_id s ≡ false
    → entry.postings ≡ p ∷ q ∷ rest
    → equals key_order (key_of p) (key_of q) ≡ false
    → checked_add (amount_in (key_of p) s.balances) p.amount ≡ ok amount
    → checked_add (amount_in (key_of q) (insert key_order (key_of p) amount s.balances)) q.amount
      ≡ err e
    → ((apply_journal consumer event_id entry s).0 ≡ err (domain e))
      × (amount_in (key_of p) (apply_journal consumer event_id entry s).1.balances ≡ amount)
      × ((apply_journal consumer event_id entry s).1.processed ≡ s.processed)
unfolding apply_journal
apply_journal_partial consumer event_id entry s p q rest amount e fresh listed apart added bad =
    let m = insert key_order (key_of p) amount s.balances in
    let first = add_postings_step p (q ∷ rest) s.balances amount added in
    let second = add_postings_stop q rest m e bad in
    ground (
      arith,
      get-insert key_order (key_of p) (key_of q) (amount_in (key_of q) m) m,
      get-insert key_order (key_of p) (key_of p) amount s.balances,
      equals_refl key_order (key_of p),
    )
