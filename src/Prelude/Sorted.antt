-- ===== src/Prelude/Sorted.antt =====
-- Maps whose keys ascend, as every map built by `insert` from the empty one.
use Prim.Native.Nat.{Ordering}
use mathlib.Core.Path.{◌≡◌, refl}
use mathlib.Core.Option.{none, some}
use mathlib.Core.List.{[], ◌∷◌}
use native.Mathlib.Omega.{arith}
use iron_ledger.Prelude.Lists.{All}
use iron_ledger.Prelude.Order.{Order}
use iron_ledger.Prelude.Map.{Map, get, insert, All-insert}

module _ {K V : Type 0} (o : Order K) where
  -- Every key of the map comes after `k`.
  abbrev pub Above : K → Map K V → Type 0
  Above k m = All (λ e. o.cmp k e.0 ≡ Ordering.lt) m

  abbrev pub IsSorted : Map K V → Type 0
  IsSorted [] = Unit
  IsSorted ((k, v) ∷ m) = Above k m × IsSorted m

  pub Above-trans : (j k : K) (m : Map K V) → o.cmp j k ≡ Ordering.lt → Above k m → Above j m
  Above-trans j k [] h a = tt
  Above-trans j k ((i, v) ∷ m) h a = (o.cmp_trans j k i h a.0, Above-trans j k m h a.1)

  pub get_of_Above : (k : K) (m : Map K V) → Above k m → get o k m ≡ none
  unfolding get
  get_of_Above k [] a = refl
  get_of_Above k ((i, v) ∷ m) a = ground arith

  pub insert-IsSorted : (k : K) (v : V) (m : Map K V) → IsSorted m → IsSorted (insert o k v m)
  unfolding insert
  insert-IsSorted k v [] h = (tt, tt)
  insert-IsSorted k v ((i, w) ∷ m) h = at (o.cmp k i) refl (insert-IsSorted k v m h.1)
    where
      at :
          (c : Ordering)
          → o.cmp k i ≡ c
          → IsSorted (insert o k v m)
          → IsSorted (insert o k v ((i, w) ∷ m))
      at Ordering.lt e ih = rw (e, insert) ((e, Above-trans k i m e h.0), h)
      at Ordering.eq e ih = rw (e, insert) (rw (o.cmp_eq k i e) h.0, h.1)
      at Ordering.gt e ih =
          rw (e, insert)
            (All-insert o (λ x. o.cmp i x.0 ≡ Ordering.lt) k v m h.0 (o.cmp_flip k i e), ih)

  -- What is found in the tail of a sorted map is found in the map.
  pub get_of_tail :
      (j k : K) (v w : V) (m : Map K V)
      → Above k m
      → get o j m ≡ some v
      → get o j ((k, w) ∷ m) ≡ some v
  unfolding get
  get_of_tail j k v w m a h = at (o.cmp j k) refl
    where
      at : (c : Ordering) → o.cmp j k ≡ c → get o j ((k, w) ∷ m) ≡ some v
      at Ordering.lt e = cc (get_of_Above j m (Above-trans j k m e a), h)
      at Ordering.eq e = cc (get_of_Above j m (rw (o.cmp_eq j k e) a), h)
      at Ordering.gt e = rw (e, get) h
