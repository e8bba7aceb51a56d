-- ===== src/Json/Access.antt =====
-- The accessors of `Json` in cli-cpp-legacy/src/json.cpp and json.hpp. A method that changes the
-- value returns the new value.
pub mod Laws
use expo_builder_local.Prelude.{
  ℕ, zero, suc, Bool, true, false, Bytes, bytes_eq, Option, none, some, ◌++◌, text, if◌then◌else◌,
}
use expo_builder_local.Prelude.Int.{ℤ}
use expo_builder_local.Exception.{Result, ok, err, json_error}
use expo_builder_local.Doubles.{Doubles}
use expo_builder_local.Json.Value.{
  Json, Items, Fields, null, boolean, number, string, array, object, nil, cons, end, field,
}

module _ {D : Type 0} where
  -- the loop over obj_ of `contains`, `at` and `get`
  unfoldable pub lookup : Bytes → Fields D → Option (Json D)
  lookup key end = none
  lookup key (field k v fs) = if bytes_eq k key then some v else lookup key fs

  unfoldable pub is_null : Json D → Bool
  is_null null = true
  is_null _ = false

  unfoldable pub is_object : Json D → Bool
  is_object (object fs) = true
  is_object _ = false

  unfoldable pub is_array : Json D → Bool
  is_array (array xs) = true
  is_array _ = false

  found : Option (Json D) → Bool
  found none = false
  found (some v) = true

  unfoldable pub contains : Bytes → Json D → Bool
  unfolding lookup found
  contains key (object fs) = found (lookup key fs)
  contains key _ = false

  at_key_found : Bytes → Option (Json D) → Result (Json D)
  at_key_found key none = err (json_error (text "Missing key: " ++ key))
  at_key_found key (some v) = ok v

  unfoldable pub at_key : Bytes → Json D → Result (Json D)
  unfolding lookup at_key_found
  at_key key (object fs) = at_key_found key (lookup key fs)
  at_key key _ = err (json_error (text "Json::at(key) called on a non-object value"))

  or_null : Option (Json D) → Json D
  or_null none = null
  or_null (some v) = v

  unfoldable pub get : Bytes → Json D → Json D
  unfolding lookup or_null
  get key (object fs) = or_null (lookup key fs)
  get key _ = null

  -- the loop of `set`, with the emplace_back behind it
  unfoldable pub set_field : Bytes → Json D → Fields D → Fields D
  set_field key value end = field key value end
  set_field key value (field k v fs) =
      if bytes_eq k key then field k value fs else field k v (set_field key value fs)

  unfoldable pub set : Bytes → Json D → Json D → Result (Json D)
  unfolding set_field
  set key value null = ok (object (set_field key value end))
  set key value (object fs) = ok (object (set_field key value fs))
  set key value _ = err (json_error (text "Json::set(key, value) called on a non-object value"))

  unfoldable pub count_items : Items D → ℕ
  count_items nil = 0
  count_items (cons x xs) = suc (count_items xs)

  unfoldable pub count_fields : Fields D → ℕ
  count_fields end = 0
  count_fields (field k v fs) = suc (count_fields fs)

  unfoldable pub size : Json D → ℕ
  unfolding count_items count_fields
  size (array xs) = count_items xs
  size (object fs) = count_fields fs
  size _ = 0

  at_item : Items D → ℕ → Result (Json D)
  at_item nil i = err (json_error (text "Array index out of range"))
  at_item (cons x xs) zero = ok x
  at_item (cons x xs) (suc i) = at_item xs i

  unfoldable pub at_index : ℕ → Json D → Result (Json D)
  unfolding at_item
  at_index idx (array xs) = at_item xs idx
  at_index idx _ = err (json_error (text "Json::at(index) called on a non-array value"))

  unfoldable pub push_item : Json D → Items D → Items D
  push_item value nil = cons value nil
  push_item value (cons x xs) = cons x (push_item value xs)

  unfoldable pub push_back : Json D → Json D → Result (Json D)
  unfolding push_item
  push_back value null = ok (array (push_item value nil))
  push_back value (array xs) = ok (array (push_item value xs))
  push_back value _ = err (json_error (text "Json::push_back called on a non-array value"))

  unfoldable pub as_string : Bytes → Json D → Bytes
  as_string def (string s) = s
  as_string def _ = def

  unfoldable pub as_bool : Bool → Json D → Bool
  as_bool def (boolean b) = b
  as_bool def _ = def

  unfoldable pub as_double : D → Json D → D
  as_double def (number n) = n
  as_double def _ = def

module _ (fp : Doubles) where
  unfoldable pub as_int : ℤ → Json fp.Double → ℤ
  as_int def (number n) = fp.to_int n
  as_int def _ = def
