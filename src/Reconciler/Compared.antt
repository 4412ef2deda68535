-- ===== src/Reconciler/Compared.antt =====
-- `compare_maps` (crates/reconciler/src/reconciler.rs) and the agreement of two views.
use iron_ledger.Domain.Amount.{AtomicAmount, is_zero}
use iron_ledger.Domain.Journal.Slots.{amount_in}
use iron_ledger.Domain.Journal.Sums.{BalanceKey, key_order}
use iron_ledger.Ledger.Port.{BalanceRecord}
use iron_ledger.Ledger.Store.Queries.{snapshot}
use iron_ledger.Prelude.{
  Bool, Bool-cases, List, Option-cases, [], any, arith, inl, inr, is_some, refl, some, sym, true,
  ◌↔◌, ◌∙◌, ◌∷◌, ◌≡◌, ◌⊎◌,
}
use iron_ledger.Prelude.Int.{int_laws, pos, ℤ, ◌-ℤ◌}
use iron_ledger.Prelude.Map.{Map, get, get-insert, insert, keys}
use iron_ledger.Prelude.Order.{equals, equals_sound}
use iron_ledger.Prelude.Text.{Text}
use iron_ledger.Reconciler.{compare_maps, differences, extend_keys, observe}

abbrev lists : BalanceKey → List BalanceKey → Bool
lists key ks = any (equals key_order key) ks

get-lists :
    {V : Type 0} (key : BalanceKey) (m : Map BalanceKey V) (v : V)
    → get key_order key m ≡ some v
    → lists key (keys m) ≡ true
unfolding get
get-lists key [] v h = cc
get-lists key ((j, w) ∷ m) v h = elim (Bool-cases (equals key_order key j)) [
  | inl same ↦ ground arith
  | inr differ ↦ ground (arith, get-lists key m v)
]

extend_keys_kept :
    (key : BalanceKey) (ks : List BalanceKey) (seen : Map BalanceKey (Unit {0}))
    → is_some (get key_order key seen) ≡ true
    → is_some (get key_order key (extend_keys seen ks)) ≡ true
unfolding extend_keys
extend_keys_kept key [] seen h = h
extend_keys_kept key (k ∷ ks) seen h =
    extend_keys_kept key ks (insert key_order k tt seen)
      (ground (arith, get-insert key_order key k tt seen))

extend_keys_listed :
    (key : BalanceKey) (ks : List BalanceKey) (seen : Map BalanceKey (Unit {0}))
    → lists key ks ≡ true
    → is_some (get key_order key (extend_keys seen ks)) ≡ true
unfolding extend_keys
extend_keys_listed key [] seen h = cc
extend_keys_listed key (k ∷ ks) seen h = elim (Bool-cases (equals key_order key k)) [
  | inl same ↦
      extend_keys_kept key ks (insert key_order k tt seen)
        (ground (arith, get-insert key_order key k tt seen))
  | inr differ ↦ extend_keys_listed key ks (insert key_order k tt seen) (ground arith)
]

is_zero-eq : (a : ℤ) → is_zero a ≡ true → a ≡ pos 0
is_zero-eq a h = ground arith

difference_zero : (a b : ℤ) → is_zero (a -ℤ b) ≡ true → a ≡ b
difference_zero a b h = let e = is_zero-eq (a -ℤ b) h in grind (int_laws, e)

difference_self : (a : ℤ) → is_zero (a -ℤ a) ≡ true
difference_self a = let e : a -ℤ a ≡ pos 0 = omega int_laws in rw e refl

differences_none :
    (rebuilt observed : Map BalanceKey AtomicAmount) (view : Text) (ks : List BalanceKey)
    (key : BalanceKey)
    → differences rebuilt observed view ks ≡ []
    → lists key ks ≡ true
    → amount_in key rebuilt ≡ amount_in key observed
unfolding differences
differences_none rebuilt observed view [] key h listed = cc
differences_none rebuilt observed view (k ∷ ks) key h listed =
    let d = amount_in k rebuilt -ℤ amount_in k observed in
    elim (Bool-cases (is_zero d)) [
      | inr differ ↦ absurd (ground arith)
      | inl same ↦ elim (Bool-cases (equals key_order key k)) [
        | inl this ↦
            rw (equals_sound key_order key k this)
              (difference_zero (amount_in k rebuilt) (amount_in k observed) same)
        | inr another ↦ differences_none rebuilt observed view ks key (ground arith) (ground arith)
      ]
    ]

differences_equal :
    (rebuilt observed : Map BalanceKey AtomicAmount) (view : Text) (ks : List BalanceKey)
    → ((key : BalanceKey) → amount_in key rebuilt ≡ amount_in key observed)
    → differences rebuilt observed view ks ≡ []
unfolding differences
differences_equal rebuilt observed view [] same = refl
differences_equal rebuilt observed view (k ∷ ks) same =
    let ih = differences_equal rebuilt observed view ks same in
    rw (same k, difference_self (amount_in k observed)) ih

-- The view agrees with the rebuilt balances: an account and asset that one of the two lacks counts as
-- zero there. A comparison lists nothing exactly if the view agrees.
abbrev pub Agrees : Map BalanceKey AtomicAmount → List BalanceRecord → Type 0
Agrees rebuilt snapshot =
    (key : BalanceKey) → amount_in key rebuilt ≡ amount_in key (observe [] snapshot)

listed_or_zero :
    (m : Map BalanceKey AtomicAmount) (key : BalanceKey)
    → (lists key (keys m) ≡ true) ⊎ (amount_in key m ≡ pos 0)
listed_or_zero m key = elim (Option-cases (get key_order key m)) [
  | inl absent ↦ inr (rw absent refl)
  | inr (v, present) ↦ inl (get-lists key m v present)
]

union_lists :
    (key : BalanceKey) (xs ys : List BalanceKey)
    → (lists key xs ≡ true) ⊎ (lists key ys ≡ true)
    → lists key (keys (extend_keys (extend_keys [] xs) ys)) ≡ true
union_lists key xs ys h =
    let seen = extend_keys [] xs in
    let found : is_some (get key_order key (extend_keys seen ys)) ≡ true = elim h [
      | inl left ↦ extend_keys_kept key ys seen (extend_keys_listed key xs [] left)
      | inr right ↦ extend_keys_listed key ys seen right
    ] in
    elim (Option-cases (get key_order key (extend_keys seen ys))) [
      | inl absent ↦ absurd (ground arith)
      | inr (v, present) ↦ get-lists key (extend_keys seen ys) v present
    ]

-- The comparison of rebuilt balances with a snapshot lists nothing if and only if the two agree on
-- every account and asset, one that is missing on a side counting as zero there.
pub compare_maps-Agrees :
    (rebuilt : Map BalanceKey AtomicAmount) (snapshot : List BalanceRecord) (view : Text)
    → (compare_maps rebuilt snapshot view ≡ []) ↔ Agrees rebuilt snapshot
unfolding compare_maps
compare_maps-Agrees rebuilt snapshot view =
    let observed = observe [] snapshot in
    let ks = keys (extend_keys (extend_keys [] (keys rebuilt)) (keys observed)) in
    (
      (λ clean key. elim (listed_or_zero rebuilt key) [
        | inl left ↦
            differences_none rebuilt observed view ks key clean
              (union_lists key (keys rebuilt) (keys observed) (inl left))
        | inr zero_left ↦ elim (listed_or_zero observed key) [
          | inl right ↦
              differences_none rebuilt observed view ks key clean
                (union_lists key (keys rebuilt) (keys observed) (inr right))
          | inr zero_right ↦ zero_left ∙ sym zero_right
        ]
      ]),
      (λ same. differences_equal rebuilt observed view ks same),
    )
