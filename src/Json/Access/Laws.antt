-- ===== src/Json/Access/Laws.antt =====
-- What the accessors of `Json` do together.
use expo_builder_local.Prelude.{
  ℕ, zero, suc, ◌+◌, ◌<◌, ◌≡◌, refl, inl, inr, true, false, Bytes, bytes_eq, bytes_eq_iff, some,
  arith, if◌then◌else◌, Option-cases,
}
use expo_builder_local.Exception.{Exception, ok, err}
use expo_builder_local.Json.Value.{Json, Items, Fields, null, array, object, nil, cons, end, field}
use expo_builder_local.Json.Access.{
  lookup, contains, at_key, get, set_field, set, size, at_index, at_item, push_item, push_back,
  count_items, or_null, at_key_found, found,
}

module _ {D : Type 0} where
  pub lookup-set_field :
      (key k' : Bytes) (v : Json D) (fs : Fields D)
      → lookup k' (set_field key v fs) ≡ (if bytes_eq key k' then some v else lookup k' fs)
  unfolding lookup set_field
  lookup-set_field key k' v end = refl
  lookup-set_field key k' v (field k w fs) = ground (
    arith,
    lookup-set_field key k' v fs,
    bytes_eq_iff k key,
    bytes_eq_iff k k',
    bytes_eq_iff key k',
  )

  get_object : (key : Bytes) (fs : Fields D) → get key (object fs) ≡ or_null (lookup key fs)
  unfolding get
  get_object key fs = refl

  -- Where `set` does not throw, a `get` of any key then sees the new value at the key that was set,
  -- and what it saw before at every other key.
  pub get-set :
      (key k' : Bytes) (v j : Json D) {j' : Json D}
      → set key v j ≡ ok j'
      → get k' j' ≡ (if bytes_eq key k' then v else get k' j)
  unfolding get set or_null
  get-set key k' v null h = ground (arith, lookup-set_field key k' v end)
  get-set key k' v (object fs) h = ground (arith, lookup-set_field key k' v fs)
  get-set key k' v _ h = cc

  -- `contains`, `get` and `at` of a key agree: `at` returns what `get` returns if the object
  -- contains the key, and throws if not; a key that is not there reads as null.
  pub at_key-get :
      (key : Bytes) (j : Json D)
      → (contains key j ≡ true → at_key key j ≡ ok (get key j))
        × (contains key j ≡ false → (get key j ≡ null) × ((e : Exception) × (at_key key j ≡ err e)))
  unfolding contains at_key get at_key_found or_null found
  at_key-get key (object fs) = elim (Option-cases (lookup key fs)) [
    | inl e ↦ rw (e) ((λ p. cc), λ p. (refl, (_, refl)))
    | inr (v, e) ↦ rw (e) ((λ p. refl), λ p. cc)
  ]
  at_key-get key _ = ((λ p. cc), λ p. (refl, (_, refl)))

  count-push_item : (v : Json D) (xs : Items D) → count_items (push_item v xs) ≡ count_items xs + 1
  unfolding count_items push_item
  count-push_item v nil = omega arith
  count-push_item v (cons x xs) = omega (arith, count-push_item v xs)

  at_item-push_item : (v : Json D) (xs : Items D) → at_item (push_item v xs) (count_items xs) ≡ ok v
  unfolding at_item push_item count_items
  at_item-push_item v nil = refl
  at_item-push_item v (cons x xs) = at_item-push_item v xs

  at_item-push_item_lt :
      (v : Json D) (xs : Items D) (i : ℕ)
      → i < count_items xs
      → at_item (push_item v xs) i ≡ at_item xs i
  unfolding at_item push_item count_items
  at_item-push_item_lt v nil i h = absurd (omega arith)
  at_item-push_item_lt v (cons x xs) zero h = refl
  at_item-push_item_lt v (cons x xs) (suc i) h = at_item-push_item_lt v xs i (omega arith)

  -- After a `push_back` that does not throw the size is one more, the last index holds the new value, and every index
  -- below the old size holds what it held.
  push_back_lem :
      (v j : Json D) {j' : Json D}
      → push_back v j ≡ ok j'
      → (size j' ≡ size j + 1)
        × (at_index (size j) j' ≡ ok v)
        × ((i : ℕ) → i < size j → at_index i j' ≡ at_index i j)
  unfolding push_back size at_index push_item count_items at_item
  push_back_lem v null {j'} h =
      let e : array (cons v nil) ≡ j' = cc in rw (← e) (refl, refl, λ i lt. absurd (omega arith))
  push_back_lem v (array xs) {j'} h =
      let e : array (push_item v xs) ≡ j' = cc in
      rw (← e) (count-push_item v xs, at_item-push_item v xs, at_item-push_item_lt v xs)
  push_back_lem v _ h = cc
