-- ===== src/EventBus/Consumer/Attempts.antt =====
-- crates/event-bus/src/kafka.rs: the attempts that the consumer makes for one message.
use iron_ledger.Domain.Event.{LedgerEvent, from_bytes}
use iron_ledger.EventBus.{BusError, show_bus_error}
use iron_ledger.EventBus.Consumer.{
  Consumer, attempt_handler, consume_message, finish_message, send_dlq,
}
use iron_ledger.Prelude.{
  Bool, List, arith, false, inl, inr, refl, suc, true, ℕ, ◌+◌, ◌-◌, ◌<◌, ◌∙◌, ◌≡◌, ◌≤◌,
}
use iron_ledger.Prelude.Result.{Result, Result-cases, err, ok}

module _ {S : Type 0} (c : Consumer S) (event : LedgerEvent) where
  -- So many calls of the handler fail one after the other and lead from one state to another.
  pub data Fails : ℕ → S → S → Type 0 where
    no_failure : (s : S) → Fails 0 s s
    one_more :
        (n : ℕ) (s t u : S) (e : BusError)
        → c.handler event s ≡ (err e, t)
        → Fails n t u
        → Fails (suc n) s u

  attempt_step :
      (left attempt : ℕ) (s t : S) (e : BusError)
      → c.handler event s ≡ (err e, t)
      → attempt < 5
      → attempt_handler (suc left) attempt c event s ≡ attempt_handler left (attempt + 1) c event t
  unfolding attempt_handler
  attempt_step left attempt s t e failed early = ground arith

  attempt_done :
      (left attempt : ℕ) (s t : S)
      → c.handler event s ≡ (ok tt, t)
      → attempt_handler (suc left) attempt c event s ≡ (ok true, t)
  unfolding attempt_handler
  attempt_done left attempt s t good = ground arith

  abbrev sent_to_dlq : Result BusError (Unit {0}) × S → Result BusError Bool × S
  sent_to_dlq (ok _, s) = (ok false, s)
  sent_to_dlq (err e, s) = (err e, s)

  attempt_last :
      (left attempt : ℕ) (s t : S) (e : BusError)
      → c.handler event s ≡ (err e, t)
      → 5 ≤ attempt
      → attempt_handler (suc left) attempt c event s
        ≡ sent_to_dlq (send_dlq c event (show_bus_error e) t)
  unfolding attempt_handler
  attempt_last left attempt s t e failed late =
      elim (Result-cases (send_dlq c event (show_bus_error e) t).0) [
        | inl (u, good) ↦ ground arith
        | inr (x, bad) ↦ ground arith
      ]

  attempts_fail :
      {n : ℕ} {s t : S} (total left attempt last : ℕ)
      → Fails n s t
      → total ≡ n + left
      → last ≡ n + attempt
      → last ≤ 5
      → attempt_handler total attempt c event s ≡ attempt_handler left last c event t
  attempts_fail total left attempt last (no_failure s) all_left all_made few =
      let same_left : total ≡ left = omega arith in
      let same_made : last ≡ attempt = omega arith in rw (same_left, same_made) refl
  attempts_fail total left attempt last (one_more n s t u e failed more) all_left all_made few =
      let first = attempt_step (n + left) attempt s t e failed (omega arith) in
      let rest = attempts_fail (n + left) left (attempt + 1) last more refl (omega arith) few in
      let longer : total ≡ suc (n + left) = omega arith in rw longer (first ∙ rest)

  -- The consumer offers an event that it can decode to the handler up to six times. If the handler
  -- fails at most five times and then succeeds, the offset is stored, once; if it fails six times,
  -- the event is sent to the dead-letter topic, once, which ends it, with that call's result, and no
  -- offset is stored.
  pub consume_message_attempts :
      (payload : List ℕ) (n : ℕ) (s t u : S)
      → from_bytes c.decode payload ≡ ok event
      → Fails n s t
      → (n ≤ 5
          → c.handler event t ≡ (ok tt, u)
          → consume_message c payload s ≡ (ok tt, c.store_offset u))
        × ((e : BusError)
            → n ≡ 5
            → c.handler event t ≡ (err e, u)
            → consume_message c payload s ≡ send_dlq c event (show_bus_error e) u)
  unfolding consume_message finish_message
  consume_message_attempts payload n s t u decoded failed = (
    (λ few good.
        let made = attempts_fail 6 (suc (5 - n)) 0 n failed (omega arith) (omega arith) few in
        let offered = made ∙ attempt_done (5 - n) n t u good in ground arith),
    (λ e five bad.
        let made = attempts_fail 6 1 0 n failed (omega arith) (omega arith) (omega arith) in
        let last = attempt_last 0 n t u e bad (omega arith) in
        elim (Result-cases (send_dlq c event (show_bus_error e) u).0) [
          | inl (v, sent) ↦ ground arith
          | inr (x, lost) ↦ ground arith
        ]),
  )
