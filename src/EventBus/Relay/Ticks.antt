-- ===== src/EventBus/Relay/Ticks.antt =====
-- crates/event-bus/src/relay.rs: one tick, and a run of ticks.
use iron_ledger.Domain.Ids.{Timestamp}
use iron_ledger.EventBus.Relay.{Instants, OutboxRelay, finish_tick, tick}
use iron_ledger.EventBus.Relay.Settled.{
  delivered_ids, fail_all, publish_claimed_rows, publish_rows_none, relay_rows, tick_rows,
  tick_rows_settled,
}
use iron_ledger.Ledger.Error.{LedgerError}
use iron_ledger.Ledger.Store.{State}
use iron_ledger.Ledger.Store.Claims.{claim_rows_taken, claimable, messages}
use iron_ledger.Ledger.Store.Numbered.{IsDistinct, row_ids}
use iron_ledger.Ledger.Store.Outbox.{claim, claim_rows, mark_published, publish_rows}
use iron_ledger.Prelude.{
  List, List-cases, [], arith, inl, inr, length, refl, take, ℕ, ◌+◌, ◌∷◌, ◌≡◌,
}
use iron_ledger.Prelude.Result.{ok}
use iron_ledger.Prelude.Text.{Text}

module _ (show_error : LedgerError → Text) (relay : OutboxRelay) where
  finish_tick_rows :
      (now : Timestamp) (ids : List ℕ) (s : State)
      → finish_tick now (ids, s) ≡ (
        ok (publish_rows now ids s.outbox).0,
        record s { outbox = (publish_rows now ids s.outbox).1 },
      )
  unfolding finish_tick mark_published
  finish_tick_rows now [] s = let nothing = publish_rows_none now s.outbox in ground arith
  finish_tick_rows now (id ∷ ids) s = refl

  -- A tick by the rows it claims.
  tick_claimed :
      (at : Instants) (s : State) (lease : ℕ)
      → relay.lease ≡ ok lease
      → tick show_error relay at s ≡ (
        ok (tick_rows relay at relay.batch_size (at.claimed_at + lease) s.outbox).0,
        record s {
          outbox = (tick_rows relay at relay.batch_size (at.claimed_at + lease) s.outbox).1;
        },
      )
  unfolding tick claim delivered_ids fail_all
  tick_claimed at s lease h =
      let (messages, rows) =
        claim_rows relay.batch_size at.claimed_at (at.claimed_at + lease) s.outbox in
      let t = record s { outbox = rows } in
      let none_left = publish_rows_none at.marked_at rows in
      let each = publish_claimed_rows relay messages t in
      let finished =
        finish_tick_rows at.marked_at (delivered_ids relay messages)
          (record s { outbox = fail_all relay messages rows }) in
      elim (List-cases messages) [
        | inl nothing ↦ ground arith
        | inr (m, ms, some_left) ↦ ground arith
      ]

  -- Where the rows have distinct ids and the relay's lease converts, a tick settles the first rows, up
  -- to the batch size, that are neither published nor leased when it claims, and no others: a row whose message the publisher
  -- takes is marked as published, any other counts one more attempt, keeps the error and is free
  -- again. It returns the number of messages that the publisher took, and changes nothing else.
  pub tick_settles :
      (at : Instants) (s : State) (lease : ℕ)
      → relay.lease ≡ ok lease
      → IsDistinct (row_ids s.outbox)
      → tick show_error relay at s ≡ (
        ok (
            length (
              delivered_ids relay
                (messages (take relay.batch_size (claimable at.claimed_at s.outbox))))),
        record s { outbox = relay_rows relay at relay.batch_size s.outbox },
      )
  tick_settles at s lease h distinct =
      let until = at.claimed_at + lease in
      let claimed = claim_rows_taken relay.batch_size at.claimed_at until s.outbox in
      let settled = tick_rows_settled relay at relay.batch_size until s.outbox distinct in
      rw (tick_claimed at s lease h, settled, claimed) refl
