-- ===== src/Ledger/Idempotency/Fingerprint.antt =====
-- The fingerprint of a request (`RequestHash::compute` of crates/ledger/src/idempotency.rs).
use iron_ledger.Ledger.Idempotency.{Hashing, compute}
use iron_ledger.Ledger.Json.{Value}
use iron_ledger.Ledger.Json.Canonical.{Reordered, canonicalize-Reordered}
use iron_ledger.Prelude.{ap, ◌≡◌, ◌++◌, ◌∷◌}
use iron_ledger.Prelude.Result.{ok}
use iron_ledger.Prelude.Text.{Text}

-- Payloads whose values differ in the order of the fields of objects alone, at any depth, have the
-- same fingerprint in every scope, whatever the printer and the digest are.
pub compute-Reordered :
    (hashing : Hashing) (scope : Text) (v w : Value)
    → Reordered v w
    → compute hashing scope (ok v) ≡ compute hashing scope (ok w)
unfolding compute
compute-Reordered hashing scope v w h =
    ap (λ (x : Value). ok (hashing.sha256_hex (scope ++ 0 ∷ hashing.print x)))
      (canonicalize-Reordered h)
