-- ===== src/Json.antt =====
-- JSON values as the code reads them (`serde_json::Value`). Numbers are never inspected, so they
-- are of any type `N`. The fields of an object are in their order.
use llm_proxy.Prelude.{
  String, ◌≡◌, refl, Bool, Option, none, some, arith, if◌then◌else◌, ◌==◌, pair_eq, string_eq,
  nat_eq,
}
use text.Mathlib.TextEquality.{eq_iff}

mutual
  pub data Value (N : Type 0) : Type 0 where
    null : Value N
    boolean : Bool → Value N
    number : N → Value N
    string : String → Value N
    array : Items N → Value N
    object : Fields N → Value N

  pub data Items (N : Type 0) : Type 0 where
    no_items : Items N
    item : Value N → Items N → Items N

  pub data Fields (N : Type 0) : Type 0 where
    no_fields : Fields N
    field : String → Value N → Fields N → Fields N

-- `Map::get`, `Map::insert` and `Map::remove`.
module _ {N : Type 0} where
  unfoldable pub get : String → Fields N → Option (Value N)
  get k no_fields = none
  get k (field j v fs) = if j == k then some v else get k fs

  unfoldable pub put : String → Value N → Fields N → Fields N
  put k v no_fields = field k v no_fields
  put k v (field j w fs) = let rest = put k v fs in if j == k then field k v fs else field j w rest

  unfoldable pub cut : String → Fields N → Fields N
  cut k no_fields = no_fields
  cut k (field j w fs) = let rest = cut k fs in if j == k then rest else field j w rest

  -- What every name holds after an insertion and after a removal.
  pub get-put :
      (k j : String) (v : Value N) (fs : Fields N)
      → get j (put k v fs) ≡ (if k == j then some v else get j fs)
  unfolding get put
  get-put k j v no_fields = refl
  get-put k j v (field n w fs) =
      ground (arith, get-put k j v fs, eq_iff n k, eq_iff n j, eq_iff k j)

  pub get-cut :
      (k j : String) (fs : Fields N) → get j (cut k fs) ≡ (if k == j then none else get j fs)
  unfolding get cut
  get-cut k j no_fields = ground arith
  get-cut k j (field n w fs) = ground (arith, get-cut k j fs, eq_iff n k, eq_iff n j, eq_iff k j)

module _ {N : Type 0} where
  -- `Value::get` of a field, `as_str` and `pointer` of two names.
  unfoldable pub value_get : String → Value N → Option (Value N)
  value_get name (object fs) = get name fs
  value_get name v = none

  abbrev pub as_str : Option (Value N) → Option String
  as_str (some (string s)) = some s
  as_str (some v) = none
  as_str none = none

  abbrev pub get_in : String → Option (Value N) → Option (Value N)
  get_in name none = none
  get_in name (some v) = value_get name v

  abbrev pub items_of : Option (Value N) → Items N
  items_of (some (array choices)) = choices
  items_of (some v) = no_items
  items_of none = no_items

  abbrev pub as_bool : Option (Value N) → Option Bool
  as_bool (some (boolean b)) = some b
  as_bool (some v) = none
  as_bool none = none

  abbrev pub as_object : Option (Value N) → Option (Fields N)
  as_object (some (object fs)) = some fs
  as_object (some v) = none
  as_object none = none

  abbrev pub as_array : Option (Value N) → Option (Items N)
  as_array (some (array xs)) = some xs
  as_array (some v) = none
  as_array none = none
