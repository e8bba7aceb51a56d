-- ===== src/Json/Parser/Steps.antt =====
-- Lemmas on one round of the loops of the parser, at printed text, and on the values built so far.
use expo_builder_local.Prelude.{
  ℕ, suc, ◌≡◌, refl, ap, false, Bytes, ◌∷◌, ◌++◌, none, ◌==◌, if◌then◌else◌, arith, bytes_eq,
  bytes_eq_iff, text,
}
use expo_builder_local.Exception.{Result, ok, err, json_error, ◌>>=◌}
use expo_builder_local.Doubles.{Doubles}
use expo_builder_local.Json.Value.{
  Json, Items, Fields, number, array, object, nil, cons, end, field,
}
use expo_builder_local.Json.Access.{lookup, set, set_field, push_back, push_item}
use expo_builder_local.Json.Access.Laws.{lookup-set_field}
use expo_builder_local.Json.Dump.{escape_string}
use expo_builder_local.Json.Parser.{is_ws, skip_ws, next, expect, array_loop, object_loop}
use expo_builder_local.Json.Parser.Strings.Laws.{parse_string-escape_string}
use expo_builder_local.Json.Parser.Numbers.{IsReadable}

module _ {D : Type 0} where
  pub join_items : Items D → Items D → Items D
  join_items nil ys = ys
  join_items (cons x xs) ys = cons x (join_items xs ys)

  pub join_push :
      (x : Json D) (acc xs : Items D) → join_items (push_item x acc) xs ≡ join_items acc (cons x xs)
  unfolding join_items push_item
  join_push x nil xs = refl
  join_push x (cons y acc) xs = ap (cons y) (join_push x acc xs)

  pub push_join : (x : Json D) (acc : Items D) → push_item x acc ≡ join_items acc (cons x nil)
  unfolding join_items push_item
  push_join x nil = refl
  push_join x (cons y acc) = ap (cons y) (push_join x acc)

  pub join-nil : (acc : Items D) → join_items acc nil ≡ acc
  unfolding join_items
  join-nil nil = refl
  join-nil (cons x acc) = ap (cons x) (join-nil acc)

  pub join_fields : Fields D → Fields D → Fields D
  join_fields end gs = gs
  join_fields (field k v fs) gs = field k v (join_fields fs gs)

  pub join-end : (acc : Fields D) → join_fields acc end ≡ acc
  unfolding join_fields
  join-end end = refl
  join-end (field k v acc) = ap (field k v) (join-end acc)

  -- `set` on an empty object, and behind one field.
  pub set_field-end :
      (k : Bytes) (v : Json D) (gs : Fields D) → join_fields (set_field k v end) gs ≡ field k v gs
  unfolding join_fields set_field
  set_field-end k v gs = refl

  pub join-cons : (x : Json D) (xs : Items D) → join_items (cons x nil) xs ≡ cons x xs
  unfolding join_items
  join-cons x xs = refl

  -- None of the keys of the second list stands in the first.
  abbrev pub Fresh : Fields D → Fields D → Type 0
  Fresh acc end = Unit
  Fresh acc (field k v fs) = (lookup k acc ≡ none) × Fresh acc fs

  pub set_field-join :
      (k : Bytes) (v : Json D) (acc gs : Fields D)
      → lookup k acc ≡ none
      → join_fields (set_field k v acc) gs ≡ join_fields acc (field k v gs)
  unfolding join_fields set_field lookup
  set_field-join k v end gs h = refl
  set_field-join k v (field j w acc) gs h = ground (arith, set_field-join k v acc gs)

  lookup_field_none :
      (k j : Bytes) (w : Json D) (fs : Fields D)
      → lookup k (field j w fs) ≡ none
      → (bytes_eq j k ≡ false) × (lookup k fs ≡ none)
  unfolding lookup
  lookup_field_none k j w fs h = ground arith

  pub set_field-Fresh :
      (k : Bytes) (v : Json D) (acc fs : Fields D)
      → lookup k fs ≡ none
      → Fresh acc fs
      → Fresh (set_field k v acc) fs
  set_field-Fresh k v acc end h f = tt
  set_field-Fresh k v acc (field j w fs) h (fj, f) =
      let (ne, rest) = lookup_field_none k j w fs h in
      (
        ground (arith, lookup-set_field k j v acc, bytes_eq_iff k j, bytes_eq_iff j k),
        set_field-Fresh k v acc fs rest f,
      )

  pub Fresh-end : (fs : Fields D) → Fresh end fs
  Fresh-end end = tt
  Fresh-end (field k v fs) = (unfold lookup in refl, Fresh-end fs)

module _ (fp : Doubles) where
  open fp use {Double}

  -- The values that JSON text can carry: no object has a key twice, and every number is readable.
  abbrev mutual
    pub IsPrintable : Json Double → Type 0
    IsPrintable (number n) = IsReadable fp n
    IsPrintable (array xs) = ItemsPrintable xs
    IsPrintable (object fs) = FieldsPrintable fs
    IsPrintable _ = Unit

    pub ItemsPrintable : Items Double → Type 0
    ItemsPrintable nil = Unit
    ItemsPrintable (cons x xs) = IsPrintable x × ItemsPrintable xs

    pub FieldsPrintable : Fields Double → Type 0
    FieldsPrintable end = Unit
    FieldsPrintable (field k v fs) = (lookup k fs ≡ none) × IsPrintable v × FieldsPrintable fs

  module _ (element : Bytes → Result (Json Double × Bytes)) where
    -- A round of `array_loop` behind its element, and a round of `object_loop` behind its value.
    pub after_item : ℕ → Json Double → Bytes → Result (Json Double × Bytes)
    after_item g arr s = do
      (c, s2) ← next (skip_ws s)
      let more = array_loop fp element g arr (skip_ws s2)
      if c == b']'
          then ok (arr, s2)
          else if c == b','
          then more
          else err (json_error (text "Expected ',' or ']' in array"))

    pub after_field : ℕ → Json Double → Bytes → Result (Json Double × Bytes)
    after_field g obj s = do
      (c, s4) ← next (skip_ws s)
      let more = object_loop fp element g obj s4
      if c == b'}'
          then ok (obj, s4)
          else if c == b','
          then more
          else err (json_error (text "Expected ',' or '}' in object"))

    pub array_loop_step :
        (g : ℕ) (acc : Items Double) (s rest : Bytes) (x : Json Double)
        → element s ≡ ok (x, rest)
        → array_loop fp element (suc g) (array acc) s ≡ after_item g (array (push_item x acc)) rest
    unfolding array_loop after_item push_back
    array_loop_step g acc s rest x e = rw e

    pub after_item_end :
        (g : ℕ) (arr : Json Double) (s : Bytes) → after_item g arr (b']' ∷ s) ≡ ok (arr, s)
    unfolding after_item next skip_ws is_ws
    after_item_end g arr s = refl

    pub after_item_more :
        (g : ℕ) (arr : Json Double) (s : Bytes)
        → after_item g arr (b',' ∷ s) ≡ array_loop fp element g arr (skip_ws s)
    unfolding after_item next skip_ws is_ws
    after_item_more g arr s = refl

    pub after_field_end :
        (g : ℕ) (obj : Json Double) (s : Bytes) → after_field g obj (b'}' ∷ s) ≡ ok (obj, s)
    unfolding after_field next skip_ws is_ws
    after_field_end g obj s = refl

    pub after_field_more :
        (g : ℕ) (obj : Json Double) (s : Bytes)
        → after_field g obj (b',' ∷ s) ≡ object_loop fp element g obj s
    unfolding after_field next skip_ws is_ws
    after_field_more g obj s = refl

    pub skip-escape_string : (k s : Bytes) → skip_ws (escape_string k ++ s) ≡ escape_string k ++ s
    unfolding skip_ws is_ws escape_string
    skip-escape_string k s = refl

    expect_colon : (s : Bytes) → expect b':' (skip_ws (b':' ∷ s)) ≡ ok (b':', s)
    unfolding expect next skip_ws is_ws
    expect_colon s = refl

    set_object :
        (k : Bytes) (v : Json Double) (fs : Fields Double)
        → set k v (object fs) ≡ ok (object (set_field k v fs))
    unfolding set
    set_object k v fs = refl

    pub object_loop_step :
        (g : ℕ) (acc : Fields Double) (k t rest : Bytes) (v : Json Double)
        → element t ≡ ok (v, rest)
        → object_loop fp element (suc g) (object acc) (escape_string k ++ (b':' ∷ t))
          ≡ after_field g (object (set_field k v acc)) rest
    unfolding object_loop after_field
    object_loop_step g acc k t rest v e =
        rw (skip-escape_string, parse_string-escape_string, expect_colon, e) (unfold set in refl)
