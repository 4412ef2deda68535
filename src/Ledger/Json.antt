-- ===== src/Ledger/Json.antt =====
-- `serde_json::Value` as crates/ledger/src/idempotency.rs takes it apart, and `canonicalize`. An
-- object is the list of its fields in iteration order.
pub mod Canonical
use iron_ledger.Prelude.{Bool, Ordering}
use iron_ledger.Prelude.Order.{list_cmp}
use iron_ledger.Prelude.Text.{Text}

mutual
  pub data Value : Type 0 where
    null : Value
    boolean : Bool → Value
    number : Text → Value
    string : Text → Value
    array : Items → Value
    object : Fields → Value

  pub data Items : Type 0 where
    nil : Items
    cons : Value → Items → Items

  pub data Fields : Type 0 where
    end : Fields
    field : Text → Value → Fields → Fields

-- The place of a field in the stable `sort_by` on the keys: before the first greater key, with a
-- field that follows an equal key left behind it.
unfoldable pub insert_field : Text → Value → Fields → Fields
insert_field k v end = field k v end
insert_field k v (field j w fs) =
    let later = field j w (insert_field k v fs) in
    elim (list_cmp k j) [ Ordering.gt ↦ later | _ ↦ field k v (field j w fs) ]

-- The sort only reads the keys, so the values may be in canonical form before it.
unfoldable mutual
  pub canonicalize : Value → Value
  canonicalize null = null
  canonicalize (boolean b) = boolean b
  canonicalize (number n) = number n
  canonicalize (string s) = string s
  canonicalize (array items) = array (canonicalize_items items)
  canonicalize (object fields) = object (canonicalize_fields fields)

  pub canonicalize_items : Items → Items
  canonicalize_items nil = nil
  canonicalize_items (cons item items) = cons (canonicalize item) (canonicalize_items items)

  pub canonicalize_fields : Fields → Fields
  canonicalize_fields end = end
  canonicalize_fields (field key item fields) =
      insert_field key (canonicalize item) (canonicalize_fields fields)
