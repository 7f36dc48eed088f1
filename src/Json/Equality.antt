-- ===== src/Json/Equality.antt =====
-- Equality of values, and of their texts as `json.dumps(..., sort_keys=True)` writes them.
use dvk_claude.Common.{
  String, ◌≡◌, refl, Bool, true, false, ◌&&◌, ◌==◌, ◌=?◌, eq_refl, text_lt, arith, if◌then◌else◌,
}
use dvk_claude.Json.{
  ℤ, pos, negsuc, Value, null, boolean, integer, string, array, object, Items, nil, cons, Fields,
  end, field,
}

abbrev integer_eq : ℤ → ℤ → Bool
integer_eq (pos m) (pos n) = m =? n
integer_eq (negsuc m) (negsuc n) = m =? n
integer_eq _ _ = false

abbrev boolean_eq : Bool → Bool → Bool
boolean_eq true b = b
boolean_eq false true = false
boolean_eq false false = true

unfoldable mutual
  pub value_eq : Value → Value → Bool
  value_eq null null = true
  value_eq (boolean a) (boolean b) = boolean_eq a b
  value_eq (integer a) (integer b) = integer_eq a b
  value_eq (string s) (string t) = s == t
  value_eq (array vs) (array ws) = items_eq vs ws
  value_eq (object fs) (object gs) = fields_eq fs gs
  value_eq _ _ = false

  pub items_eq : Items → Items → Bool
  items_eq nil nil = true
  items_eq (cons v vs) (cons w ws) = value_eq v w && items_eq vs ws
  items_eq _ _ = false

  pub fields_eq : Fields → Fields → Bool
  fields_eq end end = true
  fields_eq (field k v fs) (field j w gs) = k == j && value_eq v w && fields_eq fs gs
  fields_eq _ _ = false

-- A field put in its place among fields whose keys rise.
unfoldable pub insert_field : String → Value → Fields → Fields
insert_field k v end = field k v end
insert_field k v (field j w fs) =
    if text_lt j k then field j w (insert_field k v fs) else field k v (field j w fs)

unfoldable mutual
  unfolding insert_field

  pub sort_keys : Value → Value
  sort_keys (array vs) = array (sort_items vs)
  sort_keys (object fs) = object (sort_fields fs)
  sort_keys v = v

  pub sort_items : Items → Items
  sort_items nil = nil
  sort_items (cons v vs) = cons (sort_keys v) (sort_items vs)

  pub sort_fields : Fields → Fields
  sort_fields end = end
  sort_fields (field k v fs) = insert_field k (sort_keys v) (sort_fields fs)

-- `json.dumps(a, sort_keys=True) == json.dumps(b, sort_keys=True)`
unfoldable pub same_json : Value → Value → Bool
unfolding value_eq sort_keys
same_json a b = value_eq (sort_keys a) (sort_keys b)

mutual
  unfolding value_eq

  value_eq_self : (v : Value) → value_eq v v ≡ true
  value_eq_self null = refl
  value_eq_self (boolean true) = refl
  value_eq_self (boolean false) = refl
  value_eq_self (integer (pos n)) = ground arith
  value_eq_self (integer (negsuc n)) = ground arith
  value_eq_self (string s) = eq_refl s
  value_eq_self (array vs) = items_eq_self vs
  value_eq_self (object fs) = fields_eq_self fs

  items_eq_self : (vs : Items) → items_eq vs vs ≡ true
  items_eq_self nil = refl
  items_eq_self (cons v vs) = ground (arith, value_eq_self v, items_eq_self vs)

  fields_eq_self : (fs : Fields) → fields_eq fs fs ≡ true
  fields_eq_self end = refl
  fields_eq_self (field k v fs) = ground (arith, eq_refl k, value_eq_self v, fields_eq_self fs)

-- A value has the text that it has.
pub same_json_self : (v : Value) → same_json v v ≡ true
unfolding same_json
same_json_self v = value_eq_self (sort_keys v)
