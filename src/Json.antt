-- ===== src/Json.antt =====
-- The values that `json.loads` returns: what tasks, envelopes and descriptors are made of.
-- Numbers with a fraction are left out: no field that is read here holds one.
pub mod Equality
use text.Mathlib.Text.{find?}
use dvk_claude.Common.{
  ℕ, ◌-◌, leb, String, Bool, true, false, not, ◌&&◌, ◌||◌, Option, none, some, List, [], ◌∷◌, ◌==◌,
  ◌=?◌, is_empty, is_some, any, all, member, if◌then◌else◌,
}
use dvk_claude.Result.{Result, ok, err, type_error, key_error}

-- `negsuc n` is -(n + 1).
pub data ℤ : Type 0 where
  pos : ℕ → ℤ
  negsuc : ℕ → ℤ

-- a - b, as an integer.
abbrev pub sub_ℕ : ℕ → ℕ → ℤ
sub_ℕ a b = if leb b a then pos (a - b) else negsuc (b - a - 1)

mutual
  pub data Value : Type 0 where
    null : Value
    boolean : Bool → Value
    integer : ℤ → Value
    string : String → Value
    array : Items → Value
    object : Fields → Value

  pub data Items : Type 0 where
    nil : Items
    cons : Value → Items → Items

  pub data Fields : Type 0 where
    end : Fields
    field : String → Value → Fields → Fields

abbrev pub to_list : Items → List Value
to_list nil = []
to_list (cons v vs) = v ∷ to_list vs

abbrev pub keys : Fields → List String
keys end = []
keys (field k v fs) = k ∷ keys fs

-- `d.get(key)`, with `none` for a key that is not there.
unfoldable pub get : String → Fields → Option Value
get k end = none
get k (field j v fs) = if j == k then some v else get k fs

-- `d.get(key, default)`
unfoldable pub get_or : String → Value → Fields → Value
unfolding get
get_or k v fs = elim (get k fs) [ none ↦ v | some w ↦ w ]

-- `d[key]`
unfoldable pub index : String → Fields → Result Value
unfolding get
index k fs = elim (get k fs) [ none ↦ err key_error | some v ↦ ok v ]

-- `key in d`
abbrev pub has : String → Fields → Bool
has k fs = is_some (get k fs)

-- `d[key] = v`
unfoldable pub put : String → Value → Fields → Fields
put k v end = field k v end
put k v (field j w fs) = if j == k then field j v fs else field j w (put k v fs)

-- `required.issubset(d)`
unfoldable pub has_all : List String → Fields → Bool
unfolding get
has_all [] fs = true
has_all (k ∷ ks) fs = has k fs && has_all ks fs

-- `isinstance(v, str) and v != ""`
unfoldable pub is_text : Value → Bool
is_text (string s) = not (is_empty s)
is_text v = false

abbrev pub text? : Value → Option String
text? (string s) = some s
text? v = none

-- `isinstance(v, dict)` and `isinstance(v, list)`
abbrev pub object? : Value → Option Fields
object? (object fs) = some fs
object? v = none

abbrev pub array? : Value → Option (List Value)
array? (array vs) = some (to_list vs)
array? v = none

-- A list whose items are all texts.
unfoldable pub texts? : List Value → Option (List String)
texts? [] = some []
texts? (v ∷ vs) = elim (text? v) [
  | none ↦ none
  | some s ↦ elim (texts? vs) [ none ↦ none | some ss ↦ some (s ∷ ss) ]
]

-- `bool(v)`
abbrev pub truthy : Value → Bool
truthy null = false
truthy (boolean b) = b
truthy (integer (pos n)) = not (n =? 0)
truthy (integer (negsuc n)) = true
truthy (string s) = not (is_empty s)
truthy (array nil) = false
truthy (array (cons v vs)) = true
truthy (object end) = false
truthy (object (field k v fs)) = true

-- `v == n` for an integer `n`; Python's `True` is 1 and `False` is 0.
abbrev pub is_number : ℕ → Value → Bool
is_number n (integer (pos m)) = m =? n
is_number n (boolean true) = n =? 1
is_number n (boolean false) = n =? 0
is_number n v = false

-- `v == s` for a text `s`
abbrev pub is_str : String → Value → Bool
is_str s (string t) = t == s
is_str s v = false

-- `v in {...}`: a list or an object cannot be hashed.
unfoldable pub in_set : Value → List String → Result Bool
unfolding member
in_set (string s) ss = ok (member s ss)
in_set (array vs) ss = err type_error
in_set (object fs) ss = err type_error
in_set v ss = ok false

-- `s in v`: an item of a list, a key of an object, a part of a text.
unfoldable pub contains : String → Value → Result Bool
unfolding any get
contains s (array vs) = ok (any (is_str s) (to_list vs))
contains s (object fs) = ok (has s fs)
contains s (string t) = ok (is_some (find? t s))
contains s v = err type_error

-- `d.get(key) == s` for a text `s`
abbrev pub is_given : Option Value → String → Bool
is_given none s = false
is_given (some v) s = is_str s v

-- `d[key]` where a text is wanted.
unfoldable pub index_text : String → Fields → Result String
unfolding get
index_text k fs = elim (get k fs) [
  | none ↦ err key_error
  | some (string s) ↦ ok s
  | some v ↦ err type_error
]
