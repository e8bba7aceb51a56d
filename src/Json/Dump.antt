-- ===== src/Json/Dump.antt =====
-- Serialization in cli-cpp-legacy/src/json.cpp. The functions of the source append to `out`; here
-- each returns the bytes that it appends.
use Prim.Native.Nat.{bit_and, bit_or}
use expo_builder_local.Prelude.{
  ℕ, ◌+◌, ◌-◌, ◌/◌, ◌%◌, ◌^◌, Bool, true, false, ◌&&◌, Bytes, [], ◌∷◌, ◌++◌, codes, ltb, leb, ◌==◌,
  if◌then◌else◌,
}
use expo_builder_local.Prelude.Int.{pos}
use expo_builder_local.Doubles.{Doubles}
use expo_builder_local.Decimal.{print_int}
use expo_builder_local.Json.Value.{
  Json, Items, Fields, null, boolean, number, string, array, object, nil, cons, end, field,
}

-- `cp` is an unsigned int; a cast to char keeps the low byte.
unfoldable pub append_utf8 : ℕ → Bytes
append_utf8 cp =
    if leb cp 0x7F
    then cp % 256 ∷ []
    else if leb cp 0x7FF
    then bit_or 0xC0 (cp / 2 ^ 6) % 256 ∷ bit_or 0x80 (bit_and cp 0x3F) % 256 ∷ []
    else if leb cp 0xFFFF
    then bit_or 0xE0 (cp / 2 ^ 12) % 256
      ∷ bit_or 0x80 (bit_and (cp / 2 ^ 6) 0x3F) % 256
      ∷ bit_or 0x80 (bit_and cp 0x3F) % 256
      ∷ []
    else bit_or 0xF0 (cp / 2 ^ 18) % 256
      ∷ bit_or 0x80 (bit_and (cp / 2 ^ 12) 0x3F) % 256
      ∷ bit_or 0x80 (bit_and (cp / 2 ^ 6) 0x3F) % 256
      ∷ bit_or 0x80 (bit_and cp 0x3F) % 256
      ∷ []

-- one digit of "%x"
unfoldable pub hex_digit : ℕ → ℕ
hex_digit n = if ltb n 10 then b'0' + n else b'a' + (n - 10)

-- what one round of the loop of `escapeStringTo` appends; "\u%04x" of a byte below 0x20
unfoldable pub escape_byte : ℕ → Bytes
unfolding hex_digit
escape_byte c =
    if c == b'"'
    then b'\\' ∷ b'"' ∷ []
    else if c == b'\\'
    then b'\\' ∷ b'\\' ∷ []
    else if c == 10
    then b'\\' ∷ b'n' ∷ []
    else if c == 13
    then b'\\' ∷ b'r' ∷ []
    else if c == 9
    then b'\\' ∷ b't' ∷ []
    else if ltb c 0x20
    then b'\\' ∷ b'u' ∷ b'0' ∷ b'0' ∷ hex_digit (c / 16) ∷ hex_digit (c % 16) ∷ []
    else c ∷ []

unfoldable pub escape_loop : Bytes → Bytes
unfolding escape_byte
escape_loop [] = []
escape_loop (c ∷ s) = escape_byte c ++ escape_loop s

unfoldable pub escape_string : Bytes → Bytes
unfolding escape_loop
escape_string s = b'"' ∷ (escape_loop s ++ b'"' ∷ [])

module _ (fp : Doubles) where
  open fp use {Double}

  unfoldable pub is_integral : Double → Bool
  is_integral n =
      fp.is_finite n && fp.eq n (fp.floor n) && fp.lt (fp.fabs n) (fp.of_int (pos (10 ^ 15)))

  unfoldable pub dump_number : Double → Bytes
  unfolding is_integral
  dump_number n = if is_integral n then print_int (fp.to_int n) else fp.print_g17 n

  -- `first` of the two loops is the argument of `dump_items` and `dump_fields`.
  unfoldable mutual
    unfolding dump_number

    pub dump_to : Json Double → Bytes
    dump_to null = codes "null"
    dump_to (boolean b) = if b then codes "true" else codes "false"
    dump_to (number n) = dump_number n
    dump_to (string s) = escape_string s
    dump_to (array xs) = b'[' ∷ (dump_items true xs ++ b']' ∷ [])
    dump_to (object fs) = b'{' ∷ (dump_fields true fs ++ b'}' ∷ [])

    pub dump_items : Bool → Items Double → Bytes
    dump_items first nil = []
    dump_items first (cons x xs) =
        (if first then [] else b',' ∷ []) ++ (dump_to x ++ dump_items false xs)

    pub dump_fields : Bool → Fields Double → Bytes
    dump_fields first end = []
    dump_fields first (field k v fs) =
        (if first then [] else b',' ∷ [])
        ++ (escape_string k ++ (b':' ∷ (dump_to v ++ dump_fields false fs)))

  unfoldable pub dump : Json Double → Bytes
  unfolding dump_to escape_string
  dump j = dump_to j
