-- ===== src/Json/Parser/RoundTrip.antt =====
-- `Json::parse` reads back what `Json::dump` writes.
use expo_builder_local.Prelude.{
  ℕ, zero, suc, ◌<◌, ◌≤◌, ◌≡◌, refl, ap, ◌∙◌, true, false, Bytes, [], ◌∷◌, ◌++◌, append-nil, arith,
  length, length-append,
}
use expo_builder_local.Exception.{ok, ◌>>=◌}
use expo_builder_local.Doubles.{Doubles, PrintLaws}
use expo_builder_local.Json.Value.{
  Json, Items, Fields, null, boolean, number, string, array, object, nil, cons, end, field,
}
use expo_builder_local.Json.Access.{push_item, set_field}
use expo_builder_local.Json.Dump.{dump, dump_to, escape_string}
use expo_builder_local.Json.Parser.{parse_value, parse}
use expo_builder_local.Json.Parser.Numbers.{IsNumberEnd}
use expo_builder_local.Json.Parser.Steps.{
  IsPrintable, ItemsPrintable, FieldsPrintable, join_items, join_push, join_fields, Fresh,
  set_field-join, set_field-Fresh, Fresh-end, set_field-end, join-cons, after_item, after_field,
}
use expo_builder_local.Json.Parser.Total.{parse_lem}
use expo_builder_local.Json.Parser.Texts.{
  items_tail, fields_tail, items_tail_end, fields_tail_end, items_tail_cons, fields_tail_cons,
  array_text, object_text, parse_value_string, literals,
}
use expo_builder_local.Json.Parser.Rounds.{
  number_value, array_step, items_step, object_step, fields_step, empty_values, number_leaf,
  string_leaf, items_end, fields_end,
}

-- A claim about positive fuel holds for every fuel above a number.
with_fuel : (P : ℕ → Type 0) (n f : ℕ) → n < f → ((g : ℕ) → n ≤ g → P (suc g)) → P f
with_fuel P n zero lt k = absurd (omega arith)
with_fuel P n (suc f) lt k = k f (omega arith)

module _ (fp : Doubles) (laws : PrintLaws fp) where
  open fp use {Double}

  abbrev ReadsBack : Json Double → Bytes → ℕ → Type 0
  ReadsBack j rest f = parse_value fp f (dump_to fp j ++ rest) ≡ ok (j, rest)

  length-after : (s t : Bytes) → length t ≤ length (s ++ t)
  length-after s t = rw length-append (omega arith)

  items_lt :
      (x : Json Double) (xs : Items Double) (rest : Bytes)
      → length (dump_to fp x ++ items_tail fp laws xs rest)
        < length (items_tail fp laws (cons x xs) rest)
  items_lt x xs rest = rw (items_tail_cons fp laws x xs rest) (omega arith)

  fields_lt :
      (k : Bytes) (v : Json Double) (fs : Fields Double) (rest : Bytes)
      → length (dump_to fp v ++ fields_tail fp laws fs rest)
        < length (fields_tail fp laws (field k v fs) rest)
  fields_lt k v fs rest =
      let tail = b':' ∷ (dump_to fp v ++ fields_tail fp laws fs rest) in
      rw (fields_tail_cons fp laws k v fs rest) (omega (arith, length-after (escape_string k) tail))

  -- Each value, the elements of an array behind the first, and the fields of an object behind the
  -- first; `f` is the fuel of nested values, and `g` that of the loop.
  mutual
    value :
        (j : Json Double) (f : ℕ) (rest : Bytes)
        → IsPrintable fp j
        → IsNumberEnd rest
        → length (dump_to fp j ++ rest) ≤ f
        → ReadsBack j rest (suc f)
    value null f rest h e le = (literals fp laws f rest).0
    value (boolean true) f rest h e le = (literals fp laws f rest).1
    value (boolean false) f rest h e le = (literals fp laws f rest).2
    value (number n) f rest h e le = rw (number_leaf fp laws n) (number_value fp laws f n rest h e)
    value (string t) f rest h e le =
        rw (string_leaf fp laws t) (parse_value_string fp laws f t rest)
    value (array nil) f rest h e le = (empty_values fp laws f rest).0
    value (array (cons x xs)) f rest (hx, hxs) e le =
        let tail = items_tail fp laws xs rest in
        let lt : length (dump_to fp x ++ tail) < f = rw (array_text fp laws x xs rest) at le in
        let first : ReadsBack x tail f =
          with_fuel (ReadsBack x tail) _ f lt
            (λ g. value x g tail hx (items_tail_end fp laws xs rest)) in
        array_step fp laws f x xs rest hx first
        ∙ items xs (cons x nil) f _ rest hxs (omega (arith, length-after (dump_to fp x) tail))
            (omega (arith, length-after (dump_to fp x) tail))
        ∙ ap (λ l. ok (array l, rest)) (join-cons x xs)
    value (object end) f rest h e le = (empty_values fp laws f rest).1
    value (object (field k v fs)) f rest (hk, hv, hfs) e le =
        let tail = fields_tail fp laws fs rest in
        let lt : length (escape_string k ++ (b':' ∷ (dump_to fp v ++ tail))) < f =
          rw (object_text fp laws k v fs rest) at le in
        let inner = length-after (escape_string k) (b':' ∷ (dump_to fp v ++ tail)) in
        let first : ReadsBack v tail f =
          with_fuel (ReadsBack v tail) (length (dump_to fp v ++ tail)) f (omega (arith, inner))
            (λ g. value v g tail hv (fields_tail_end fp laws fs rest)) in
        object_step fp laws f k v fs rest first
        ∙ fields fs (set_field k v end) f _ rest hfs (set_field-Fresh k v end fs hk (Fresh-end fs))
            (omega (arith, inner, length-after (dump_to fp v) tail))
            (omega (arith, inner, length-after (dump_to fp v) tail))
        ∙ ap (λ l. ok (object l, rest)) (set_field-end k v fs)

    items :
        (xs : Items Double) (acc : Items Double) (f g : ℕ) (rest : Bytes)
        → ItemsPrintable fp xs
        → length (items_tail fp laws xs rest) ≤ f
        → length (items_tail fp laws xs rest) ≤ g
        → after_item fp (parse_value fp f) g (array acc) (items_tail fp laws xs rest)
          ≡ ok (array (join_items acc xs), rest)
    items nil acc f g rest h lf lg = items_end fp laws f g acc rest
    items (cons x xs) acc f zero rest (hx, hxs) lf lg = absurd (omega (arith, items_lt x xs rest))
    items (cons x xs) acc f (suc g) rest (hx, hxs) lf lg =
        let tail = items_tail fp laws xs rest in
        let inner = items_lt x xs rest in
        let first : ReadsBack x tail f =
          with_fuel (ReadsBack x tail) (length (dump_to fp x ++ tail)) f (omega (arith, inner))
            (λ h. value x h tail hx (items_tail_end fp laws xs rest)) in
        items_step fp laws f g x acc xs rest hx first
        ∙ items xs (push_item x acc) f g rest hxs
            (omega (arith, inner, length-after (dump_to fp x) tail))
            (omega (arith, inner, length-after (dump_to fp x) tail))
        ∙ ap (λ l. ok (array l, rest)) (join_push x acc xs)

    fields :
        (fs : Fields Double) (acc : Fields Double) (f g : ℕ) (rest : Bytes)
        → FieldsPrintable fp fs
        → Fresh acc fs
        → length (fields_tail fp laws fs rest) ≤ f
        → length (fields_tail fp laws fs rest) ≤ g
        → after_field fp (parse_value fp f) g (object acc) (fields_tail fp laws fs rest)
          ≡ ok (object (join_fields acc fs), rest)
    fields end acc f g rest h fr lf lg = fields_end fp laws f g acc rest
    fields (field k v fs) acc f zero rest (hk, hv, hfs) (ha, fr) lf lg =
        absurd (omega (arith, fields_lt k v fs rest))
    fields (field k v fs) acc f (suc g) rest (hk, hv, hfs) (ha, fr) lf lg =
        let tail = fields_tail fp laws fs rest in
        let inner = fields_lt k v fs rest in
        let first : ReadsBack v tail f =
          with_fuel (ReadsBack v tail) (length (dump_to fp v ++ tail)) f (omega (arith, inner))
            (λ h. value v h tail hv (fields_tail_end fp laws fs rest)) in
        fields_step fp laws f g k v acc fs rest first
        ∙ fields fs (set_field k v acc) f g rest hfs (set_field-Fresh k v acc fs hk fr)
            (omega (arith, inner, length-after (dump_to fp v) tail))
            (omega (arith, inner, length-after (dump_to fp v) tail))
        ∙ ap (λ l. ok (object l, rest)) (set_field-join k v acc fs ha)

  dump_lem : (j : Json Double) → dump fp j ≡ dump_to fp j
  unfolding dump
  dump_lem j = refl

  -- `Json::parse` reads back what `Json::dump` writes, for every value in which no object has a key
  -- twice and every number is finite, not -0.0 and not subnormal,
  -- where doubles keep what the C++ standard says of printing and reading them.
  pub parse-dump : (j : Json Double) → IsPrintable fp j → parse fp (dump fp j) ≡ ok j
  parse-dump j h =
      let whole : ReadsBack j [] (suc (length (dump_to fp j))) =
        value j (length (dump_to fp j)) [] h tt (rw append-nil (omega arith)) in
      rw (dump_lem, parse_lem) (ap (λ r. r >>= λ p. ok p.0) (rw append-nil at whole))
