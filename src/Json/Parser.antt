-- ===== src/Json/Parser.antt =====
-- The class `Parser` of cli-cpp-legacy/src/json.cpp. The members s_ and i_ are the unread rest of
-- the text, which each function takes and returns. Recursion runs on fuel: `parse` gives more than
-- the text has bytes, and Json/Parser/Total.antt shows that the fuel is never used up.
pub mod Strings
pub mod Total
pub mod Numbers
pub mod Steps
pub mod Texts
pub mod Rounds
pub mod RoundTrip
use expo_builder_local.Prelude.{
  ℕ, zero, suc, ◌+◌, ◌-◌, ◌*◌, ◌%◌, ◌^◌, Bool, true, false, not, ◌&&◌, ◌||◌, Bytes, [], ◌∷◌, ◌++◌,
  Option, none, some, codes, text, ltb, leb, ◌==◌, if◌then◌else◌, length, take, drop, bytes_eq,
}
use expo_builder_local.Exception.{Result, ok, err, stuck, json_error, call, ◌>>=◌}
use expo_builder_local.Doubles.{Doubles}
use expo_builder_local.Decimal.{is_digit}
use expo_builder_local.Json.Value.{
  Json, Items, Fields, null, boolean, number, string, array, object, nil, end,
}
use expo_builder_local.Json.Access.{set, push_back}
use expo_builder_local.Json.Parser.Strings.{parse_string}

unfoldable pub is_ws : ℕ → Bool
is_ws c = c == b' ' || c == 9 || c == 10 || c == 13

unfoldable pub skip_ws : Bytes → Bytes
skip_ws [] = []
skip_ws (c ∷ s) = if is_ws c then skip_ws s else c ∷ s

next : Bytes → Result (ℕ × Bytes)
next [] = err (json_error (text "Unexpected end of JSON input"))
next (c ∷ s) = ok (c, s)

-- `expect`; it returns the character that it took.
expect : ℕ → Bytes → Result (ℕ × Bytes)
expect c s = do
  (got, rest) ← next s
  if got == c
      then ok (got, rest)
      else err (json_error (text "Expected '" ++ (c ∷ (text "' but got '" ++ (got ∷ text "'")))))

expect_literal : Bytes → Bytes → Result (ℕ × Bytes)
expect_literal lit s =
    if bytes_eq (take (length lit) s) lit
    then ok (0, drop (length lit) s)
    else err (json_error (text "Invalid literal, expected " ++ lit))

-- What the scanning loops of `parseNumber` take off the front, and the rest.
span_digits : Bytes → Bytes × Bytes
span_digits [] = ([], [])
span_digits (c ∷ s) =
    let (ds, rest) = span_digits s in if is_digit c then (c ∷ ds, rest) else ([], c ∷ s)

span_sign : Bytes → Bytes × Bytes
span_sign [] = ([], [])
span_sign (c ∷ s) = if c == b'-' || c == b'+' then (c ∷ [], s) else ([], c ∷ s)

span_fraction : Bytes → Bytes × Bytes
span_fraction [] = ([], [])
span_fraction (c ∷ s) =
    let (ds, rest) = span_digits s in if c == b'.' then (c ∷ ds, rest) else ([], c ∷ s)

span_exponent : Bytes → Bytes × Bytes
span_exponent [] = ([], [])
span_exponent (c ∷ s) =
    let (sign, s1) = span_sign s in
    let (ds, rest) = span_digits s1 in
    if c == b'e' || c == b'E' then (c ∷ (sign ++ ds), rest) else ([], c ∷ s)

span_number : Bytes → Bytes × Bytes
span_number s =
    let (sign, s1) = span_sign s in
    let (ds, s2) = span_digits s1 in
    let (fraction, s3) = span_fraction s2 in
    let (exponent, rest) = span_exponent s3 in (sign ++ (ds ++ (fraction ++ exponent)), rest)

module _ (fp : Doubles) where
  open fp use {Double}

  -- `std::stod` of the text that was scanned
  convert : Bytes → Bytes → Result (Json Double × Bytes)
  convert [] rest = err (json_error (text "Invalid number literal"))
  convert (c ∷ t) rest = do d ← call (fp.stod (c ∷ t)); ok (number d, rest)

  pub parse_number : Bytes → Result (Json Double × Bytes)
  parse_number s = let (t, rest) = span_number s in convert t rest

  -- `element` parses one value: it is `parseValue`, with what fuel is left.
  module _ (element : Bytes → Result (Json Double × Bytes)) where
    pub array_loop : ℕ → Json Double → Bytes → Result (Json Double × Bytes)
    array_loop zero arr s = stuck
    array_loop (suc f) arr s = do
      (x, s1) ← element s
      arr' ← push_back x arr
      (c, s2) ← next (skip_ws s1)
      let more = array_loop f arr' (skip_ws s2)
      if c == b']'
          then ok (arr', s2)
          else if c == b','
          then more
          else err (json_error (text "Expected ',' or ']' in array"))

    pub array_body : Bytes → Bytes → Result (Json Double × Bytes)
    array_body whole [] = err (json_error (text "Unexpected end of JSON input"))
    array_body whole (c ∷ s) =
        if c == b']' then ok (array nil, s) else array_loop (suc (length whole)) (array nil) (c ∷ s)

    pub parse_array : Bytes → Result (Json Double × Bytes)
    parse_array s = do (_, s1) ← expect b'[' s; array_body s (skip_ws s1)

    pub object_loop : ℕ → Json Double → Bytes → Result (Json Double × Bytes)
    object_loop zero obj s = stuck
    object_loop (suc f) obj s = do
      (key, s1) ← parse_string (skip_ws s)
      (_, s2) ← expect b':' (skip_ws s1)
      (v, s3) ← element s2
      obj' ← set key v obj
      (c, s4) ← next (skip_ws s3)
      let more = object_loop f obj' s4
      if c == b'}'
          then ok (obj', s4)
          else if c == b','
          then more
          else err (json_error (text "Expected ',' or '}' in object"))

    pub object_body : Bytes → Bytes → Result (Json Double × Bytes)
    object_body whole [] = err (json_error (text "Unexpected end of JSON input"))
    object_body whole (c ∷ s) =
        if c == b'}'
        then ok (object end, s)
        else object_loop (suc (length whole)) (object end) (c ∷ s)

    pub parse_object : Bytes → Result (Json Double × Bytes)
    parse_object s = do (_, s1) ← expect b'{' s; object_body s (skip_ws s1)

    pub dispatch : Bytes → Result (Json Double × Bytes)
    dispatch [] = err (json_error (text "Unexpected end of JSON input"))
    dispatch (c ∷ s) =
        if c == b'{'
        then parse_object (c ∷ s)
        else if c == b'['
        then parse_array (c ∷ s)
        else if c == b'"'
        then (do (t, rest) ← parse_string (c ∷ s); ok (string t, rest))
        else if c == b't'
        then (do (_, rest) ← expect_literal (codes "true") (c ∷ s); ok (boolean true, rest))
        else if c == b'f'
        then (do (_, rest) ← expect_literal (codes "false") (c ∷ s); ok (boolean false, rest))
        else if c == b'n'
        then (do (_, rest) ← expect_literal (codes "null") (c ∷ s); ok (null, rest))
        else parse_number (c ∷ s)

  pub parse_value : ℕ → Bytes → Result (Json Double × Bytes)
  parse_value zero s = stuck
  parse_value (suc f) s = dispatch (parse_value f) (skip_ws s)

  -- `Json::parse`: what stands behind the first value is not looked at.
  unfoldable pub parse : Bytes → Result (Json Double)
  unfolding is_ws skip_ws next expect expect_literal span_digits span_sign span_fraction
      span_exponent span_number convert parse_number array_loop array_body parse_array object_loop
      object_body parse_object dispatch parse_value parse_string set push_back is_digit
  parse s = do (j, rest) ← parse_value (suc (length s)) s; ok j
