-- ===== src/Prelude/Order.antt =====
-- Total orders, as the keys of an ordered map need them: `Ord::cmp` and its laws.
use Prim.Native.Nat.{ℕ, compare, Ordering}
use mathlib.Core.Path.{◌≡◌, refl}
use mathlib.Core.List.{List, [], ◌∷◌}
use mathlib.Core.Bool.{Bool, true, false}
use native.Mathlib.Omega.{arith}

pub record Order (K : Type 0) : Type 0 where
  pub cmp : K → K → Ordering
  pub cmp_refl : (a : K) → cmp a a ≡ Ordering.eq
  pub cmp_eq : (a b : K) → cmp a b ≡ Ordering.eq → a ≡ b
  pub cmp_trans :
      (a b c : K) → cmp a b ≡ Ordering.lt → cmp b c ≡ Ordering.lt → cmp a c ≡ Ordering.lt
  pub cmp_flip : (a b : K) → cmp a b ≡ Ordering.gt → cmp b a ≡ Ordering.lt
  pub cmp_flip_lt : (a b : K) → cmp a b ≡ Ordering.lt → cmp b a ≡ Ordering.gt

pub nat_trans :
    (a b c : ℕ) → compare a b ≡ Ordering.lt → compare b c ≡ Ordering.lt → compare a c ≡ Ordering.lt
nat_trans a b c h k = ground arith

pub nat_refl : (a : ℕ) → compare a a ≡ Ordering.eq
nat_refl a = ground arith

pub nat_eq : (a b : ℕ) → compare a b ≡ Ordering.eq → a ≡ b
nat_eq a b h = ground arith

pub nat_flip : (a b : ℕ) → compare a b ≡ Ordering.gt → compare b a ≡ Ordering.lt
nat_flip a b h = ground arith

pub nat_flip_lt : (a b : ℕ) → compare a b ≡ Ordering.lt → compare b a ≡ Ordering.gt
nat_flip_lt a b h = ground arith

abbrev pub nat_order : Order ℕ
nat_order = record {
  cmp = compare;
  cmp_refl = nat_refl;
  cmp_eq = nat_eq;
  cmp_trans = nat_trans;
  cmp_flip = nat_flip;
  cmp_flip_lt = nat_flip_lt;
}

-- `Ordering::then_with`
abbrev pub then_with : Ordering → Ordering → Ordering
then_with Ordering.lt o = Ordering.lt
then_with Ordering.eq o = o
then_with Ordering.gt o = Ordering.gt

-- The lexicographic order of lists of numbers, which is the order of texts.
abbrev pub list_cmp : List ℕ → List ℕ → Ordering
list_cmp [] [] = Ordering.eq
list_cmp [] (y ∷ ys) = Ordering.lt
list_cmp (x ∷ xs) [] = Ordering.gt
list_cmp (x ∷ xs) (y ∷ ys) = then_with (compare x y) (list_cmp xs ys)

pub list_refl : (a : List ℕ) → list_cmp a a ≡ Ordering.eq
list_refl [] = refl
list_refl (x ∷ xs) = ground (arith, list_refl xs)

pub list_eq : (a b : List ℕ) → list_cmp a b ≡ Ordering.eq → a ≡ b
list_eq [] [] h = refl
list_eq [] (y ∷ ys) h = cc
list_eq (x ∷ xs) [] h = cc
list_eq (x ∷ xs) (y ∷ ys) h = ground (arith, list_eq xs ys)

pub list_trans :
    (a b c : List ℕ)
    → list_cmp a b ≡ Ordering.lt
    → list_cmp b c ≡ Ordering.lt
    → list_cmp a c ≡ Ordering.lt
list_trans [] [] c h k = cc
list_trans [] (y ∷ ys) [] h k = cc
list_trans [] (y ∷ ys) (z ∷ zs) h k = refl
list_trans (x ∷ xs) [] c h k = cc
list_trans (x ∷ xs) (y ∷ ys) [] h k = cc
list_trans (x ∷ xs) (y ∷ ys) (z ∷ zs) h k = ground (arith, list_trans xs ys zs)

pub list_flip : (a b : List ℕ) → list_cmp a b ≡ Ordering.gt → list_cmp b a ≡ Ordering.lt
list_flip [] [] h = cc
list_flip [] (y ∷ ys) h = cc
list_flip (x ∷ xs) [] h = refl
list_flip (x ∷ xs) (y ∷ ys) h = ground (arith, list_flip xs ys)

pub list_flip_lt : (a b : List ℕ) → list_cmp a b ≡ Ordering.lt → list_cmp b a ≡ Ordering.gt
list_flip_lt [] [] h = cc
list_flip_lt [] (y ∷ ys) h = refl
list_flip_lt (x ∷ xs) [] h = cc
list_flip_lt (x ∷ xs) (y ∷ ys) h = ground (arith, list_flip_lt xs ys)

abbrev pub text_order : Order (List ℕ)
text_order = record {
  cmp = list_cmp;
  cmp_refl = list_refl;
  cmp_eq = list_eq;
  cmp_trans = list_trans;
  cmp_flip = list_flip;
  cmp_flip_lt = list_flip_lt;
}

-- Equality as the order decides it.
module _ {K : Type 0} (o : Order K) where
  abbrev pub equals : K → K → Bool
  equals a b = elim (o.cmp a b) [ Ordering.eq ↦ true | _ ↦ false ]

  pub equals_sound : (a b : K) → equals a b ≡ true → a ≡ b
  equals_sound a b h = ground (arith, o.cmp_eq a b)

  pub equals_refl : (a : K) → equals a a ≡ true
  equals_refl a = ground (arith, o.cmp_refl a)

module _ {K L : Type 0} (o : Order K) (p : Order L) where
  abbrev pub pair_cmp : K × L → K × L → Ordering
  pair_cmp a b = then_with (o.cmp a.0 b.0) (p.cmp a.1 b.1)

  pub pair_refl : (a : K × L) → pair_cmp a a ≡ Ordering.eq
  pair_refl a = ground (arith, o.cmp_refl a.0, p.cmp_refl a.1)

  pub pair_eq : (a b : K × L) → pair_cmp a b ≡ Ordering.eq → a ≡ b
  pair_eq a b h = ground (arith, o.cmp_eq a.0 b.0, p.cmp_eq a.1 b.1)

  pub pair_trans :
      (a b c : K × L)
      → pair_cmp a b ≡ Ordering.lt
      → pair_cmp b c ≡ Ordering.lt
      → pair_cmp a c ≡ Ordering.lt
  pair_trans a b c h k =
      ground (
        arith,
        o.cmp_trans a.0 b.0 c.0,
        p.cmp_trans a.1 b.1 c.1,
        o.cmp_eq a.0 b.0,
        o.cmp_eq b.0 c.0,
      )

  pub pair_flip : (a b : K × L) → pair_cmp a b ≡ Ordering.gt → pair_cmp b a ≡ Ordering.lt
  pair_flip a b h =
      ground (arith, o.cmp_flip a.0 b.0, p.cmp_flip a.1 b.1, o.cmp_eq a.0 b.0, o.cmp_refl b.0)

  pub pair_flip_lt : (a b : K × L) → pair_cmp a b ≡ Ordering.lt → pair_cmp b a ≡ Ordering.gt
  pair_flip_lt a b h =
      ground (arith, o.cmp_flip_lt a.0 b.0, p.cmp_flip_lt a.1 b.1, o.cmp_eq a.0 b.0, o.cmp_refl b.0)

  abbrev pub pair_order : Order (K × L)
  pair_order = record {
    cmp = pair_cmp;
    cmp_refl = pair_refl;
    cmp_eq = pair_eq;
    cmp_trans = pair_trans;
    cmp_flip = pair_flip;
    cmp_flip_lt = pair_flip_lt;
  }
