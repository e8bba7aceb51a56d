-- ===== src/Json/Keys.antt =====
-- The invariant of the values that `set` and `push_back` build: no object has a key twice.
use expo_builder_local.Prelude.{
  ◌≡◌, refl, Bytes, bytes_eq, bytes_eq_iff, none, arith, Bool-cases, inl, inr,
}
use expo_builder_local.Exception.{ok}
use expo_builder_local.Json.Value.{Json, Items, Fields, null, array, object, nil, cons, end, field}
use expo_builder_local.Json.Access.{lookup, set_field, set, push_item, push_back}
use expo_builder_local.Json.Access.Laws.{lookup-set_field}

module _ {D : Type 0} where
  abbrev mutual
    pub HasUniqueKeys : Json D → Type 0
    HasUniqueKeys (array xs) = ItemsUnique xs
    HasUniqueKeys (object fs) = FieldsUnique fs
    HasUniqueKeys _ = Unit

    pub ItemsUnique : Items D → Type 0
    ItemsUnique nil = Unit
    ItemsUnique (cons x xs) = HasUniqueKeys x × ItemsUnique xs

    pub FieldsUnique : Fields D → Type 0
    FieldsUnique end = Unit
    FieldsUnique (field k v fs) = (lookup k fs ≡ none) × HasUniqueKeys v × FieldsUnique fs

  set_field-FieldsUnique :
      (key : Bytes) (v : Json D) (fs : Fields D)
      → HasUniqueKeys v
      → FieldsUnique fs
      → FieldsUnique (set_field key v fs)
  unfolding set_field
  set_field-FieldsUnique key v end hv h = unfold lookup in (refl, hv, tt)
  set_field-FieldsUnique key v (field k w fs) hv (hk, hw, h) = elim (Bool-cases (bytes_eq k key)) [
    | inl e ↦ rw (e, set_field) (hk, hv, h)
    | inr e ↦
        rw (e, set_field)
          (
            ground (arith, lookup-set_field key k v fs, bytes_eq_iff k key, bytes_eq_iff key k),
            hw,
            set_field-FieldsUnique key v fs hv h,
          )
  ]

  push_item-ItemsUnique :
      (v : Json D) (xs : Items D) → HasUniqueKeys v → ItemsUnique xs → ItemsUnique (push_item v xs)
  unfolding push_item
  push_item-ItemsUnique v nil hv h = (hv, tt)
  push_item-ItemsUnique v (cons x xs) hv (hx, h) = (hx, push_item-ItemsUnique v xs hv h)

  -- Where `set` does not throw, it keeps the keys of every object distinct, if they are distinct in
  -- the value that is set and in the object.
  pub set-HasUniqueKeys :
      (key : Bytes) (v j : Json D) {j' : Json D}
      → HasUniqueKeys v
      → HasUniqueKeys j
      → set key v j ≡ ok j'
      → HasUniqueKeys j'
  unfolding set
  set-HasUniqueKeys key v null {j'} hv h e =
      let p : object (set_field key v end) ≡ j' = cc in
      rw (← p) (set_field-FieldsUnique key v end hv tt)
  set-HasUniqueKeys key v (object fs) {j'} hv h e =
      let p : object (set_field key v fs) ≡ j' = cc in
      rw (← p) (set_field-FieldsUnique key v fs hv h)
  set-HasUniqueKeys key v _ hv h e = absurd (cc)

  -- Where `push_back` does not throw, it keeps the keys of every object distinct, if they are distinct
  -- in the value that is pushed and in the array.
  pub push_back-HasUniqueKeys :
      (v j : Json D) {j' : Json D}
      → HasUniqueKeys v
      → HasUniqueKeys j
      → push_back v j ≡ ok j'
      → HasUniqueKeys j'
  unfolding push_back
  push_back-HasUniqueKeys v null {j'} hv h e =
      let p : array (push_item v nil) ≡ j' = cc in rw (← p) (push_item-ItemsUnique v nil hv tt)
  push_back-HasUniqueKeys v (array xs) {j'} hv h e =
      let p : array (push_item v xs) ≡ j' = cc in rw (← p) (push_item-ItemsUnique v xs hv h)
  push_back-HasUniqueKeys v _ hv h e = absurd (cc)
