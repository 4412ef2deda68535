-- ===== src/Prelude/Result.antt =====
-- `Result<A, E>` and the `?` operator.
use mathlib.Core.Path.{◌≡◌, refl}
use mathlib.Core.Bool.{Bool, true, false}
use mathlib.Core.Logic.{◌⊎◌, inl, inr}
use mathlib.Core.List.{List, [], ◌∷◌}

pub data Result (E A : Type 0) : Type 0 where
  ok : A → Result E A
  err : E → Result E A

infixl 5 ◌>>=◌ ◌>>◌
abbrev pub ◌>>=◌ : {E A B : Type 0} → Result E A → (A → Result E B) → Result E B
err e >>= _ = err e
ok value >>= next = next value

abbrev pub ◌>>◌ : {E B : Type 0} → Result E (Unit {0}) → Result E B → Result E B
checks >> next = checks >>= λ passed. next

-- `if test { return Err(e) }`
abbrev pub reject_if : {E : Type 0} → Bool → E → Result E (Unit {0})
reject_if true e = err e
reject_if false e = ok tt

-- `map_err`, and the conversion that `?` applies to an error
abbrev pub map_err : {E F A : Type 0} → (E → F) → Result E A → Result F A
map_err f (ok a) = ok a
map_err f (err e) = err (f e)

-- `iter().map(f).collect::<Result<Vec<_>, _>>()`
unfoldable pub collect : {E A B : Type 0} → (A → Result E B) → List A → Result E (List B)
collect f [] = ok []
collect f (x ∷ xs) = do y ← f x; ys ← collect f xs; ok (y ∷ ys)

module _ {E A : Type 0} where
  -- The value of a success.
  abbrev pub Ok : (A → Type 0) → Result E A → Type 0
  Ok P (ok a) = P a
  Ok P (err _) = ⊥

  -- What holds of the value if there is one.
  abbrev pub WhenOk : (A → Type 0) → Result E A → Type 0
  WhenOk P (ok a) = P a
  WhenOk P (err _) = Unit {0}

  pub succeeded_bind :
      {B : Type 0} (first : Result E A) (next : A → Result E B) {last : B}
      → (first >>= next) ≡ ok last
      → (value : A) × (first ≡ ok value) × (next value ≡ ok last)
  succeeded_bind (err e) next h = cc
  succeeded_bind (ok value) next h = (value, refl, h)

  pub ok_injective : {a b : A} → ◌≡◌ {A = Result E A} (ok a) (ok b) → a ≡ b
  ok_injective h = cc

  pub err_injective : {d e : E} → ◌≡◌ {A = Result E A} (err d) (err e) → d ≡ e
  err_injective h = cc

  pub Result-cases : (r : Result E A) → ((a : A) × (r ≡ ok a)) ⊎ ((e : E) × (r ≡ err e))
  Result-cases (ok a) = inl (a, refl)
  Result-cases (err e) = inr (e, refl)
