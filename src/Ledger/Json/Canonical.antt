-- ===== src/Ledger/Json/Canonical.antt =====
-- `canonicalize` (crates/ledger/src/idempotency.rs) and the order of an object's fields.
use iron_ledger.Ledger.Json.{
  Fields, Items, Value, array, canonicalize, canonicalize_fields, canonicalize_items, cons, end,
  field, insert_field, nil, object,
}
use iron_ledger.Prelude.{ap, arith, false, refl, ◌∙◌, ◌≡◌}
use iron_ledger.Prelude.Order.{equals, list_eq, list_flip, list_flip_lt, list_trans, text_order}
use iron_ledger.Prelude.Text.{Text}

insert_field-swap :
    (k l : Text) (v u : Value) (fs : Fields)
    → equals text_order k l ≡ false
    → insert_field k v (insert_field l u fs) ≡ insert_field l u (insert_field k v fs)
unfolding insert_field
insert_field-swap k l v u end h =
    ground (arith, list_eq k l, list_flip k l, list_flip_lt k l, list_flip l k, list_flip_lt l k)
insert_field-swap k l v u (field j w fs) h = ground (
  arith,
  insert_field-swap k l v u fs h,
  list_eq k l,
  list_eq k j,
  list_eq l j,
  list_flip k l,
  list_flip_lt k l,
  list_flip l k,
  list_flip_lt l k,
  list_flip k j,
  list_flip_lt k j,
  list_flip l j,
  list_flip_lt l j,
  list_flip_lt j k,
  list_flip_lt j l,
  list_trans k l j,
  list_trans l k j,
  list_trans k j l,
  list_trans l j k,
  list_trans j k l,
  list_trans j l k,
)

-- The two values differ in the order of the fields of objects, at any depth; fields that change
-- places have different names.
mutual
  pub data Reordered : Value → Value → Type 0 where
    left_alone : (v : Value) → Reordered v v
    in_array : {is js : Items} → ReorderedItems is js → Reordered (array is) (array js)
    in_object : {fs gs : Fields} → ReorderedFields fs gs → Reordered (object fs) (object gs)

  pub data ReorderedItems : Items → Items → Type 0 where
    no_items : ReorderedItems nil nil
    each_item :
        {v w : Value} {is js : Items}
        → Reordered v w
        → ReorderedItems is js
        → ReorderedItems (cons v is) (cons w js)

  pub data ReorderedFields : Fields → Fields → Type 0 where
    no_fields : ReorderedFields end end
    each_field :
        {k : Text} {v w : Value} {fs gs : Fields}
        → Reordered v w
        → ReorderedFields fs gs
        → ReorderedFields (field k v fs) (field k w gs)
    exchanged :
        {k l : Text} {v u : Value} {fs : Fields}
        → equals text_order k l ≡ false
        → ReorderedFields (field k v (field l u fs)) (field l u (field k v fs))
    in_turn :
        {fs gs hs : Fields} → ReorderedFields fs gs → ReorderedFields gs hs → ReorderedFields fs hs

mutual
  unfolding canonicalize canonicalize_items canonicalize_fields

  pub canonicalize-Reordered : {v w : Value} → Reordered v w → canonicalize v ≡ canonicalize w
  canonicalize-Reordered (left_alone v) = refl
  canonicalize-Reordered (in_array h) = ap array (canonicalize_items-Reordered h)
  canonicalize-Reordered (in_object h) = ap object (canonicalize_fields-Reordered h)

  canonicalize_items-Reordered :
      {is js : Items} → ReorderedItems is js → canonicalize_items is ≡ canonicalize_items js
  canonicalize_items-Reordered no_items = refl
  canonicalize_items-Reordered (each_item h hs) =
      let a = canonicalize-Reordered h in let b = canonicalize_items-Reordered hs in cc

  canonicalize_fields-Reordered :
      {fs gs : Fields} → ReorderedFields fs gs → canonicalize_fields fs ≡ canonicalize_fields gs
  canonicalize_fields-Reordered no_fields = refl
  canonicalize_fields-Reordered (each_field h hs) =
      let a = canonicalize-Reordered h in let b = canonicalize_fields-Reordered hs in cc
  canonicalize_fields-Reordered (exchanged {k} {l} {v} {u} {fs} apart) =
      insert_field-swap k l (canonicalize v) (canonicalize u) (canonicalize_fields fs) apart
  canonicalize_fields-Reordered (in_turn h i) =
      canonicalize_fields-Reordered h ∙ canonicalize_fields-Reordered i
