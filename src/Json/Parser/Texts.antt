-- ===== src/Json/Parser/Texts.antt =====
-- What the functions of the parser do at the front of printed text.
use expo_builder_local.Prelude.{
  ℕ, suc, ◌≡◌, refl, ap, ◌∙◌, ◌⊎◌, true, false, Bytes, [], ◌∷◌, ◌++◌, append_assoc, ◌==◌, arith,
  length,
}
use expo_builder_local.Exception.{Result, ok, ◌>>=◌}
use expo_builder_local.Doubles.{Doubles, PrintLaws}
use expo_builder_local.Decimal.{is_digit}
use expo_builder_local.Decimal.Laws.{IsDigit}
use expo_builder_local.Json.Value.{
  Json, Items, Fields, null, boolean, number, string, array, object, nil, cons, end, field,
}
use expo_builder_local.Json.Dump.{dump_to, dump_items, dump_fields, escape_string, dump_number}
use expo_builder_local.Json.Parser.{
  is_ws, skip_ws, next, expect, expect_literal, array_loop, array_body, parse_array, object_loop,
  object_body, parse_object, dispatch, parse_value, parse_number,
}
use expo_builder_local.Json.Parser.Strings.{parse_string}
use expo_builder_local.Json.Parser.Strings.Laws.{parse_string-escape_string}
use expo_builder_local.Json.Parser.Numbers.{IsNumberEnd, IsNumeral-cons, dump_number-IsNumeral}
use expo_builder_local.Json.Parser.Steps.{IsPrintable}

module _ (fp : Doubles) (laws : PrintLaws fp) where
  open fp use {Double}

  -- A printed value starts with a character that is no space and no closing bracket.
  dump_to-cons :
      (j : Json Double)
      → IsPrintable fp j
      → (c : ℕ) × (s : Bytes) × (dump_to fp j ≡ c ∷ s) × (is_ws c ≡ false) × ((c == b']') ≡ false)
  unfolding dump_to is_ws escape_string
  dump_to-cons null h = (_, _, refl, refl, refl)
  dump_to-cons (boolean true) h = (_, _, refl, refl, refl)
  dump_to-cons (boolean false) h = (_, _, refl, refl, refl)
  dump_to-cons (number n) h =
      let (c, s, p, q) = IsNumeral-cons (dump_number fp n) (dump_number-IsNumeral fp laws n h) in
      (c, s, p, ground arith, ground arith)
  dump_to-cons (string s) h = (_, _, refl, refl, refl)
  dump_to-cons (array xs) h = (_, _, refl, refl, refl)
  dump_to-cons (object fs) h = (_, _, refl, refl, refl)

  pub skip-dump_to :
      (j : Json Double) (s : Bytes)
      → IsPrintable fp j
      → skip_ws (dump_to fp j ++ s) ≡ dump_to fp j ++ s
  skip-dump_to j s h = let (c, t, p, ws, _) = dump_to-cons j h in rw p (unfold skip_ws in rw ws)

  pub array_body-dump_to :
      (element : Bytes → Result (Json Double × Bytes)) (whole s : Bytes) (j : Json Double)
      → IsPrintable fp j
      → array_body fp element whole (dump_to fp j ++ s)
        ≡ array_loop fp element (suc (length whole)) (array nil) (dump_to fp j ++ s)
  array_body-dump_to element whole s j h =
      let (c, t, p, _, ne) = dump_to-cons j h in rw p (unfold array_body in rw ne)

  -- What follows an element in printed text does not go on with a number.
  pub items_tail : Items Double → Bytes → Bytes
  items_tail xs rest = dump_items fp false xs ++ (b']' ∷ rest)

  pub fields_tail : Fields Double → Bytes → Bytes
  fields_tail fs rest = dump_fields fp false fs ++ (b'}' ∷ rest)

  pub items_tail_end : (xs : Items Double) (rest : Bytes) → IsNumberEnd (items_tail xs rest)
  unfolding items_tail dump_to is_digit
  items_tail_end nil rest = refl
  items_tail_end (cons x xs) rest = refl

  pub fields_tail_end : (fs : Fields Double) (rest : Bytes) → IsNumberEnd (fields_tail fs rest)
  unfolding fields_tail dump_to is_digit
  fields_tail_end end rest = refl
  fields_tail_end (field k v fs) rest = refl

  pub items_tail_nil : (rest : Bytes) → items_tail nil rest ≡ b']' ∷ rest
  unfolding items_tail dump_to
  items_tail_nil rest = refl

  pub fields_tail_nil : (rest : Bytes) → fields_tail end rest ≡ b'}' ∷ rest
  unfolding fields_tail dump_to
  fields_tail_nil rest = refl

  pub items_tail_cons :
      (x : Json Double) (xs : Items Double) (rest : Bytes)
      → items_tail (cons x xs) rest ≡ b',' ∷ (dump_to fp x ++ items_tail xs rest)
  unfolding items_tail dump_to
  items_tail_cons x xs rest =
      ap (λ l. b',' ∷ l) (append_assoc (dump_to fp x) (dump_items fp false xs) (b']' ∷ rest))

  pub fields_tail_cons :
      (k : Bytes) (v : Json Double) (fs : Fields Double) (rest : Bytes)
      → fields_tail (field k v fs) rest
        ≡ b',' ∷ (escape_string k ++ (b':' ∷ (dump_to fp v ++ fields_tail fs rest)))
  unfolding fields_tail dump_to
  fields_tail_cons k v fs rest =
      let tail = dump_fields fp false fs in
      ap (λ l. b',' ∷ l)
        (append_assoc (escape_string k) (b':' ∷ (dump_to fp v ++ tail)) (b'}' ∷ rest)
          ∙ ap (λ l. escape_string k ++ (b':' ∷ l))
              (append_assoc (dump_to fp v) tail (b'}' ∷ rest)))

  pub array_text :
      (x : Json Double) (xs : Items Double) (rest : Bytes)
      → dump_to fp (array (cons x xs)) ++ rest ≡ b'[' ∷ (dump_to fp x ++ items_tail xs rest)
  unfolding items_tail dump_to
  array_text x xs rest =
      let tail = dump_items fp false xs in
      ap (λ l. b'[' ∷ l)
        (append_assoc (dump_to fp x ++ tail) (b']' ∷ []) rest
          ∙ append_assoc (dump_to fp x) tail (b']' ∷ rest))

  pub object_text :
      (k : Bytes) (v : Json Double) (fs : Fields Double) (rest : Bytes)
      → dump_to fp (object (field k v fs)) ++ rest
        ≡ b'{' ∷ (escape_string k ++ (b':' ∷ (dump_to fp v ++ fields_tail fs rest)))
  unfolding fields_tail dump_to
  object_text k v fs rest =
      let tail = dump_fields fp false fs in
      ap (λ l. b'{' ∷ l)
        (append_assoc (escape_string k ++ (b':' ∷ (dump_to fp v ++ tail))) (b'}' ∷ []) rest
          ∙ append_assoc (escape_string k) (b':' ∷ (dump_to fp v ++ tail)) (b'}' ∷ rest)
          ∙ ap (λ l. escape_string k ++ (b':' ∷ l))
              (append_assoc (dump_to fp v) tail (b'}' ∷ rest)))

  -- What `parseValue` does at each first character.
  pub parse_value_array :
      (f : ℕ) (s : Bytes)
      → parse_value fp (suc f) (b'[' ∷ s) ≡ array_body fp (parse_value fp f) (b'[' ∷ s) (skip_ws s)
  unfolding parse_value dispatch parse_array expect next skip_ws is_ws
  parse_value_array f s = refl

  pub parse_value_object :
      (f : ℕ) (s : Bytes)
      → parse_value fp (suc f) (b'{' ∷ s) ≡ object_body fp (parse_value fp f) (b'{' ∷ s) (skip_ws s)
  unfolding parse_value dispatch parse_object expect next skip_ws is_ws
  parse_value_object f s = refl

  pub object_body_quote :
      (element : Bytes → Result (Json Double × Bytes)) (whole k s : Bytes)
      → object_body fp element whole (skip_ws (escape_string k ++ s))
        ≡ object_loop fp element (suc (length whole)) (object end) (escape_string k ++ s)
  unfolding object_body escape_string skip_ws is_ws
  object_body_quote element whole k s = refl

  pub parse_value_string :
      (f : ℕ) (t rest : Bytes)
      → parse_value fp (suc f) (escape_string t ++ rest) ≡ ok (string t, rest)
  parse_value_string f t rest =
      step ∙ ap (λ r. r >>= λ p. ok (string p.0, p.1)) (parse_string-escape_string t rest)
    where
      step :
          parse_value fp (suc f) (escape_string t ++ rest)
          ≡ (parse_string (escape_string t ++ rest) >>= λ p. ok (string p.0, p.1))
      step = unfold parse_value dispatch skip_ws is_ws escape_string in refl

  pub parse_value_number :
      (f : ℕ) (c : ℕ) (s : Bytes)
      → IsDigit c ⊎ (c ≡ b'-')
      → parse_value fp (suc f) (c ∷ s) ≡ parse_number fp (c ∷ s)
  unfolding parse_value dispatch skip_ws is_ws
  parse_value_number f c s h = ground arith

  pub literals :
      (f : ℕ) (rest : Bytes)
      → (parse_value fp (suc f) (dump_to fp null ++ rest) ≡ ok (null, rest))
        × (parse_value fp (suc f) (dump_to fp (boolean true) ++ rest) ≡ ok (boolean true, rest))
        × (parse_value fp (suc f) (dump_to fp (boolean false) ++ rest) ≡ ok (boolean false, rest))
  unfolding parse_value dispatch skip_ws is_ws dump_to expect_literal
  literals f rest = (refl, refl, refl)
