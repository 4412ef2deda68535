-- ===== src/EventBus/Backoff.antt =====
-- crates/event-bus/src/retry.rs. A `Duration` is its number of nanoseconds.
use native.Mathlib.Numerals.{unary_clauses}
use mathlib.Core.Path.{subst}
use iron_ledger.Prelude.{
  arith, if◌then◌else◌, leb, min, refl, suc, zero, ℕ, ◌%◌, ◌*◌, ◌+◌, ◌-◌, ◌/◌, ◌^◌, ◌∙◌, ◌≡◌, ◌≤◌,
}

abbrev pub Duration : Type 0
Duration = ℕ

abbrev pub as_millis : Duration → ℕ
as_millis d = d / 1000000

abbrev pub as_secs : Duration → ℕ
as_secs d = d / 1000000000

abbrev pub from_millis : ℕ → Duration
from_millis n = n * 1000000

abbrev pub saturating_u32 : ℕ → ℕ
saturating_u32 n = min n 4294967295

abbrev pub saturating_u128 : ℕ → ℕ
saturating_u128 n = min n 340282366920938463463374607431768211455

abbrev pub u64_max : ℕ
u64_max = 18446744073709551615

unfoldable pub backoff_delay : ℕ → Duration → Duration → Duration
backoff_delay attempt base longest =
    let exp = saturating_u32 (2 ^ min attempt 12) in
    let millis = saturating_u128 (as_millis base * exp) in
    let capped = min millis (as_millis longest) in
    let jitter = saturating_u128 (attempt % 7 * 13) in
    let delay = saturating_u128 (capped + jitter) in
    from_millis (if leb delay u64_max then delay else as_secs longest)

pow_two_suc : (k : ℕ) → 2 ^ suc k ≡ 2 ^ k * 2
pow_two_suc k = simp unary_clauses refl

one_le_pow : (k : ℕ) → 1 ≤ 2 ^ k
one_le_pow zero = omega arith
one_le_pow (suc k) = omega (arith, one_le_pow k, pow_two_suc k)

pow_le : (d k : ℕ) → k + d ≡ 12 → 2 ^ k ≤ 4096
pow_le zero k h =
    let twelve : 12 ≡ k = omega arith in subst (λ (n : ℕ). 2 ^ n ≤ 4096) twelve (omega arith)
pow_le (suc d) k h = omega (arith, pow_le d (suc k) (omega arith), pow_two_suc k)

scaled : (m e : ℕ) → 1 ≤ e → m ≤ m * e
scaled zero e h = omega arith
scaled (suc m) e h = omega (arith, scaled m e h)

-- The sums and bounds of the delay, for any product.
abbrev capped_delay : ℕ → ℕ → ℕ → ℕ
capped_delay product longest jitter =
    saturating_u128 (min (saturating_u128 product) longest + saturating_u128 jitter)

capped_delay_exact :
    (product longest jitter : ℕ)
    → longest + 78 ≤ u64_max
    → jitter ≤ 78
    → (capped_delay product longest jitter ≡ min product longest + jitter)
      × (capped_delay product longest jitter ≤ u64_max)
capped_delay_exact product longest jitter h small = (ground arith, ground arith)

from_millis_exact : (n : ℕ) → as_millis (from_millis n) ≡ n
from_millis_exact n = omega arith

delay_exact :
    (attempt : ℕ) (base longest : Duration)
    → saturating_u32 (2 ^ min attempt 12) ≡ 2 ^ min attempt 12
    → capped_delay (as_millis base * 2 ^ min attempt 12) (as_millis longest) (attempt % 7 * 13)
      ≤ u64_max
    → as_millis (backoff_delay attempt base longest)
      ≡ capped_delay (as_millis base * 2 ^ min attempt 12) (as_millis longest) (attempt % 7 * 13)
unfolding backoff_delay
delay_exact attempt base longest exact small_enough = rw exact (ground arith)

-- Where the longest delay is below the range of `u64` by more than the jitter, the delay in
-- milliseconds is the base doubled for each attempt, at most twelve times and at most up to the
-- longest delay, and up to 78 more: it is never below the lesser of the base and the longest delay.
pub backoff_delay_bounds :
    (attempt : ℕ) (base longest : Duration)
    → as_millis longest + 78 ≤ u64_max
    → (as_millis (backoff_delay attempt base longest)
        ≡ min (as_millis base * 2 ^ min attempt 12) (as_millis longest) + attempt % 7 * 13)
      × (as_millis (backoff_delay attempt base longest) ≤ as_millis longest + 78)
      × (min (as_millis base) (as_millis longest) ≤ as_millis (backoff_delay attempt base longest))
unfolding backoff_delay
backoff_delay_bounds attempt base longest h =
    let e = 2 ^ min attempt 12 in
    let m = as_millis base in
    let low = one_le_pow (min attempt 12) in
    let high = pow_le (12 - min attempt 12) (min attempt 12) (omega arith) in
    let grown = scaled m e low in
    let small : attempt % 7 * 13 ≤ 78 = omega arith in
    let (exact, small_enough) =
      capped_delay_exact (m * e) (as_millis longest) (attempt % 7 * 13) h small in
    let delay = delay_exact attempt base longest (omega arith) small_enough ∙ exact in
    rw delay (refl, omega arith, omega arith)
