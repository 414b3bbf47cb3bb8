-- ===== src/Json.antt =====
-- `serde_json::Value` and its maps, as far as the code uses them. A map is kept in the order of
-- its keys, as the library's `BTreeMap` does.
pub mod Map
pub mod Sorted
use lager_rs.Prelude.{
  ℕ, Bool, true, false, Option, none, some, List, [], ◌∷◌, Text, ℤ, text_eq, ltb, ◌==◌,
  if◌then◌else◌, ◌>>=?◌ as ◌>>=◌,
}

-- A float is its 64 bits. `neg n` is `-n - 1`.
pub data Number : Type 0 where
  pos_int neg_int float : ℕ → Number

mutual
  -- The entries of an object.
  pub data Fields : Type 0 where
    end : Fields
    field : Text → Value → Fields → Fields

  -- The elements of an array.
  pub data Items : Type 0 where
    nil : Items
    cons : Value → Items → Items

  pub data Value : Type 0 where
    object : Fields → Value
    array : Items → Value
    string : Text → Value
    number : Number → Value
    boolean : Bool → Value
    null : Value

abbrev pub items_list : Items → List Value
items_list nil = []
items_list (cons v vs) = v ∷ items_list vs

abbrev pub as_str : Value → Option Text
as_str (string s) = some s
as_str _ = none

-- `Value::as_bool`
abbrev pub boolean_of : Value → Option Bool
boolean_of (boolean b) = some b
boolean_of _ = none

abbrev pub as_object : Value → Option Fields
as_object (object m) = some m
as_object _ = none

abbrev pub as_array : Value → Option (List Value)
as_array (array vs) = some (items_list vs)
as_array _ = none

-- `Map::get`
unfoldable pub lookup : Text → Fields → Option Value
lookup k end = none
lookup k (field name v m) = let later = lookup k m in if text_eq name k then some v else later

-- `Value::get` with a key
abbrev pub get : Text → Value → Option Value
get k v = as_object v >>= lookup k

-- The order of strings: UTF-8 keeps that of the code points.
unfoldable pub text_lt : Text → Text → Bool
text_lt [] [] = false
text_lt [] (y ∷ ys) = true
text_lt (x ∷ xs) [] = false
text_lt (x ∷ xs) (y ∷ ys) = let rest = text_lt xs ys in if x == y then rest else ltb x y

-- `Map::insert`
unfoldable pub insert : Text → Value → Fields → Fields
unfolding text_lt
insert k v end = field k v end
insert k v (field name w m) =
    let later = insert k v m in
    if text_eq name k
    then field name v m
    else if text_lt k name
    then field k v (field name w m)
    else field name w later

-- `Map::remove`, the map without the entry
unfoldable pub remove : Text → Fields → Fields
remove k end = end
remove k (field name v m) =
    let later = remove k m in if text_eq name k then m else field name v later

-- `entry(k).or_insert_with(..)`: the value now under the key
abbrev pub or_insert : Value → Option Value → Value
or_insert v none = v
or_insert v (some w) = w

abbrev pub no_fields : Value
no_fields = object end

abbrev pub is_end : Fields → Bool
is_end end = true
is_end (field k v m) = false
