-- ===== src/Prelude/Map.antt =====
-- Maps as key-ordered association lists, searched by comparison. `BTreeMap` iterates in this order;
-- of a `HashMap` the program uses only what does not depend on the order, or sorts it first.
use Prim.Native.Nat.{Ordering}
use mathlib.Core.Path.{◌≡◌}
use mathlib.Core.Option.{Option, none, some}
use mathlib.Core.List.{List, [], ◌∷◌, map}
use native.Mathlib.Omega.{arith}
use iron_ledger.Prelude.Tests.{if◌then◌else◌}
use iron_ledger.Prelude.Lists.{All}
use iron_ledger.Prelude.Int.{ℤ, pos, ◌+ℤ◌, int_laws}
use iron_ledger.Prelude.Order.{Order, equals}

abbrev pub Map : Type 0 → Type 0 → Type 0
Map K V = List (K × V)

abbrev pub keys : {K V : Type 0} → Map K V → List K
keys = map (λ e. e.0)

abbrev pub values : {K V : Type 0} → Map K V → List V
values = map (λ e. e.1)

-- The sum of a measure of the entries.
abbrev pub sum_entries : {K V : Type 0} → (K → V → ℤ) → Map K V → ℤ
sum_entries f [] = pos 0
sum_entries f ((k, v) ∷ m) = f k v +ℤ sum_entries f m

-- The measure of what is stored under a key.
abbrev pub sum_option : {V : Type 0} → (V → ℤ) → Option V → ℤ
sum_option f none = pos 0
sum_option f (some v) = f v

module _ {K V : Type 0} (o : Order K) where
  unfoldable pub get : K → Map K V → Option V
  get k [] = none
  get k ((j, w) ∷ m) = elim (o.cmp k j) [
    | Ordering.lt ↦ none
    | Ordering.eq ↦ some w
    | Ordering.gt ↦ get k m
  ]

  unfoldable pub insert : K → V → Map K V → Map K V
  insert k v [] = (k, v) ∷ []
  insert k v ((j, w) ∷ m) = elim (o.cmp k j) [
    | Ordering.lt ↦ (k, v) ∷ (j, w) ∷ m
    | Ordering.eq ↦ (k, v) ∷ m
    | Ordering.gt ↦ (j, w) ∷ insert k v m
  ]

  unfoldable pub remove : K → Map K V → Map K V
  remove k [] = []
  remove k ((j, w) ∷ m) = elim (o.cmp k j) [
    | Ordering.lt ↦ (j, w) ∷ m
    | Ordering.eq ↦ m
    | Ordering.gt ↦ (j, w) ∷ remove k m
  ]

  pub get-insert :
      (j k : K) (v : V) (m : Map K V)
      → get j (insert k v m) ≡ (if equals o j k then some v else get j m)
  unfolding get insert
  get-insert j k v [] = ground arith
  get-insert j k v ((i, w) ∷ m) = ground (
    arith,
    get-insert j k v m,
    o.cmp_trans j k i,
    o.cmp_trans i k j,
    o.cmp_eq j k,
    o.cmp_eq k i,
    o.cmp_eq j i,
    o.cmp_flip j k,
    o.cmp_flip k i,
    o.cmp_flip_lt k i,
    o.cmp_flip j i,
    o.cmp_flip_lt j i,
    o.cmp_flip_lt j k,
    o.cmp_flip_lt i j,
    o.cmp_refl j,
  )

  -- What was put under an unused key is taken out without a trace.
  pub remove-insert : (k : K) (v : V) (m : Map K V) → get k m ≡ none → remove k (insert k v m) ≡ m
  unfolding get insert remove
  remove-insert k v [] h = ground (arith, o.cmp_refl k)
  remove-insert k v ((i, w) ∷ m) h = ground (arith, remove-insert k v m, o.cmp_refl k)

  -- An insertion changes a sum by the difference of the new and the old entry.
  pub sum_entries-insert :
      (f : K → V → ℤ) (k : K) (v : V) (m : Map K V)
      → sum_entries f (insert k v m) +ℤ sum_option (f k) (get k m) ≡ sum_entries f m +ℤ f k v
  unfolding get insert
  sum_entries-insert f k v [] = omega int_laws
  sum_entries-insert f k v ((i, w) ∷ m) = grind (int_laws, sum_entries-insert f k v m, o.cmp_eq k i)

  pub All-insert :
      (P : K × V → Type 0) (k : K) (v : V) (m : Map K V) → All P m → P (k, v) → All P (insert k v m)
  unfolding insert
  All-insert P k v [] h p = (p, tt)
  All-insert P k v ((i, w) ∷ m) h p =
      elim (o.cmp k i)
        as (λ c. All P (elim c [
          | Ordering.lt ↦ (k, v) ∷ (i, w) ∷ m
          | Ordering.eq ↦ (k, v) ∷ m
          | Ordering.gt ↦ (i, w) ∷ insert k v m
        ])) [
          | Ordering.lt ↦ (p, h)
          | Ordering.eq ↦ (p, h.1)
          | Ordering.gt ↦ (h.0, All-insert P k v m h.1 p)
        ]
