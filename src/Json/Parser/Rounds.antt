-- ===== src/Json/Parser/Rounds.antt =====
-- Rounds of the parser's loops over printed text.
use expo_builder_local.Prelude.{ℕ, suc, ◌≡◌, refl, ◌∙◌, Bytes, ◌∷◌, ◌++◌, length}
use expo_builder_local.Exception.{ok}
use expo_builder_local.Doubles.{Doubles, PrintLaws}
use expo_builder_local.Json.Value.{
  Json, Items, Fields, number, string, array, object, nil, cons, end, field,
}
use expo_builder_local.Json.Access.{push_item, set_field}
use expo_builder_local.Json.Dump.{dump_to, escape_string, dump_number}
use expo_builder_local.Json.Parser.{is_ws, skip_ws, array_body, object_body, parse_value}
use expo_builder_local.Json.Parser.Numbers.{
  IsNumberEnd, IsReadable, IsNumeral-cons, dump_number-IsNumeral, parse_number-dump_number,
}
use expo_builder_local.Json.Parser.Steps.{
  IsPrintable, join_items, join-nil, join-end, join_fields, after_item, after_field,
  array_loop_step, after_item_end, after_item_more, after_field_end, after_field_more,
  object_loop_step,
}
use expo_builder_local.Json.Parser.Texts.{
  skip-dump_to, array_body-dump_to, items_tail, fields_tail, items_tail_nil, fields_tail_nil,
  items_tail_cons, fields_tail_cons, array_text, object_text, parse_value_array, parse_value_object,
  object_body_quote, parse_value_number,
}

module _ (fp : Doubles) (laws : PrintLaws fp) where
  open fp use {Double}

  pub number_value :
      (f : ℕ) (n : Double) (rest : Bytes)
      → IsReadable fp n
      → IsNumberEnd rest
      → parse_value fp (suc f) (dump_number fp n ++ rest) ≡ ok (number n, rest)
  number_value f n rest h e =
      let (c, s, p, q) = IsNumeral-cons (dump_number fp n) (dump_number-IsNumeral fp laws n h) in
      rw p (
        parse_value_number fp laws f c (s ++ rest) q
        ∙ rw p at (parse_number-dump_number fp laws n rest h e))

  pub array_step :
      (f : ℕ) (x : Json Double) (xs : Items Double) (rest : Bytes)
      → IsPrintable fp x
      → parse_value fp f (dump_to fp x ++ items_tail fp laws xs rest)
        ≡ ok (x, items_tail fp laws xs rest)
      → parse_value fp (suc f) (dump_to fp (array (cons x xs)) ++ rest)
        ≡ after_item fp
            (parse_value fp f)
            (suc (length (dump_to fp x ++ items_tail fp laws xs rest)))
            (array (cons x nil))
            (items_tail fp laws xs rest)
  unfolding push_item
  array_step f x xs rest hx e =
      rw (array_text fp laws x xs rest, parse_value_array fp laws, skip-dump_to fp laws x _ hx)
        (array_body-dump_to fp laws _ _ _ x hx ∙ array_loop_step fp _ _ nil _ _ x e)

  pub items_step :
      (f g : ℕ) (x : Json Double) (acc xs : Items Double) (rest : Bytes)
      → IsPrintable fp x
      → parse_value fp f (dump_to fp x ++ items_tail fp laws xs rest)
        ≡ ok (x, items_tail fp laws xs rest)
      → after_item fp (parse_value fp f) (suc g) (array acc) (items_tail fp laws (cons x xs) rest)
        ≡ after_item fp (parse_value fp f) g (array (push_item x acc)) (items_tail fp laws xs rest)
  items_step f g x acc xs rest hx e =
      rw (items_tail_cons fp laws x xs rest, after_item_more, skip-dump_to fp laws x _ hx)
        (array_loop_step fp _ g acc _ _ x e)

  pub object_step :
      (f : ℕ) (k : Bytes) (v : Json Double) (fs : Fields Double) (rest : Bytes)
      → parse_value fp f (dump_to fp v ++ fields_tail fp laws fs rest)
        ≡ ok (v, fields_tail fp laws fs rest)
      → parse_value fp (suc f) (dump_to fp (object (field k v fs)) ++ rest)
        ≡ after_field fp
            (parse_value fp f)
            (suc
              (length (escape_string k ++ (b':' ∷ (dump_to fp v ++ fields_tail fp laws fs rest)))))
            (object (set_field k v end))
            (fields_tail fp laws fs rest)
  object_step f k v fs rest e =
      rw (object_text fp laws k v fs rest, parse_value_object fp laws)
        (object_body_quote fp laws _ _ k _ ∙ object_loop_step fp _ _ end k _ _ v e)

  pub fields_step :
      (f g : ℕ) (k : Bytes) (v : Json Double) (acc fs : Fields Double) (rest : Bytes)
      → parse_value fp f (dump_to fp v ++ fields_tail fp laws fs rest)
        ≡ ok (v, fields_tail fp laws fs rest)
      → after_field fp
          (parse_value fp f)
          (suc g)
          (object acc)
          (fields_tail fp laws (field k v fs) rest)
        ≡ after_field fp
            (parse_value fp f)
            g
            (object (set_field k v acc))
            (fields_tail fp laws fs rest)
  fields_step f g k v acc fs rest e =
      rw (fields_tail_cons fp laws k v fs rest, after_field_more)
        (object_loop_step fp _ g acc k _ _ v e)

  pub empty_values :
      (f : ℕ) (rest : Bytes)
      → (parse_value fp (suc f) (dump_to fp (array nil) ++ rest) ≡ ok (array nil, rest))
        × (parse_value fp (suc f) (dump_to fp (object end) ++ rest) ≡ ok (object end, rest))
  unfolding dump_to array_body object_body skip_ws is_ws
  empty_values f rest = (parse_value_array fp laws f _, parse_value_object fp laws f _)

  pub number_leaf : (n : Double) → dump_to fp (number n) ≡ dump_number fp n
  unfolding dump_to
  number_leaf n = refl

  pub string_leaf : (t : Bytes) → dump_to fp (string t) ≡ escape_string t
  unfolding dump_to
  string_leaf t = refl

  pub items_end :
      (f g : ℕ) (acc : Items Double) (rest : Bytes)
      → after_item fp (parse_value fp f) g (array acc) (items_tail fp laws nil rest)
        ≡ ok (array (join_items acc nil), rest)
  items_end f g acc rest =
      rw (items_tail_nil fp laws rest, join-nil)
        (after_item_end fp (parse_value fp f) g (array acc) rest)

  pub fields_end :
      (f g : ℕ) (acc : Fields Double) (rest : Bytes)
      → after_field fp (parse_value fp f) g (object acc) (fields_tail fp laws end rest)
        ≡ ok (object (join_fields acc end), rest)
  fields_end f g acc rest =
      rw (fields_tail_nil fp laws rest, join-end)
        (after_field_end fp (parse_value fp f) g (object acc) rest)
