-- ===== src/Json/Parser/Strings.antt =====
-- `parseString` and `parseHex4` of the class `Parser` in cli-cpp-legacy/src/json.cpp.
pub mod Laws
use expo_builder_local.Prelude.{
  ℕ, zero, suc, ◌+◌, ◌-◌, ◌*◌, ◌%◌, ◌^◌, Bool, true, false, ◌&&◌, ◌||◌, Bytes, [], ◌∷◌, ◌++◌,
  Option, none, some, text, ltb, leb, ◌==◌, if◌then◌else◌, length,
}
use expo_builder_local.Exception.{Result, ok, err, stuck, json_error, invalid_argument, ◌>>=◌}
use expo_builder_local.Decimal.{skip_space}
use expo_builder_local.Json.Dump.{append_utf8}

hex_value : ℕ → Option ℕ
hex_value c =
    if leb b'0' c && leb c b'9'
    then some (c - b'0')
    else if leb b'a' c && leb c b'f'
    then some (c - b'a' + 10)
    else if leb b'A' c && leb c b'F'
    then some (c - b'A' + 10)
    else none

hex_end : ℕ → Bool → Result ℕ
hex_end n seen = if seen then ok n else err invalid_argument

read_hex : ℕ → Bool → Bytes → Result ℕ
read_hex n seen [] = hex_end n seen
read_hex n seen (c ∷ s) = elim (hex_value c) [
  | none ↦ hex_end n seen
  | some d ↦ read_hex (n * 16 + d) true s
]

-- strtoul skips "0x" where a hexadecimal digit follows.
skip_0x : Bytes → Bytes
skip_0x (z ∷ x ∷ h ∷ s) = elim (hex_value h) [
  | none ↦ z ∷ x ∷ h ∷ s
  | some d ↦ if z == b'0' && (x == b'x' || x == b'X') then h ∷ s else z ∷ x ∷ h ∷ s
]
skip_0x s = s

stoul_sign : Bytes → Result ℕ
stoul_sign [] = err invalid_argument
stoul_sign (c ∷ s) =
    if c == b'-'
    then (do n ← read_hex 0 false (skip_0x s); ok ((2 ^ 64 - n) % 2 ^ 64))
    else if c == b'+'
    then read_hex 0 false (skip_0x s)
    else read_hex 0 false (skip_0x (c ∷ s))

-- std::stoul(text, nullptr, 16) of at most four bytes, whose value never overflows
stoul : Bytes → Result ℕ
stoul s = stoul_sign (skip_space s)

-- the cast to unsigned int keeps 32 bits
parse_hex4 : Bytes → Result (ℕ × Bytes)
parse_hex4 (a ∷ b ∷ c ∷ d ∷ s) = do n ← stoul (a ∷ b ∷ c ∷ d ∷ []); ok (n % 2 ^ 32, s)
parse_hex4 _ = err (json_error (text "Invalid \\u escape"))

-- 0x10000 + ((cp - 0xD800) << 10) + (low - 0xDC00), in unsigned int
join_surrogates : ℕ → ℕ → ℕ
join_surrogates cp low = (0x10000 + (cp - 0xD800) * 2 ^ 10 + (low + 2 ^ 32 - 0xDC00)) % 2 ^ 32

-- The code point behind "\u" and its first four digits: a second escape is joined to a high
-- surrogate.
second_half : ℕ → Bytes → Result (ℕ × Bytes)
second_half cp (b ∷ u ∷ s) =
    if leb 0xD800 cp && leb cp 0xDBFF && b == b'\\' && u == b'u'
    then (do (low, rest) ← parse_hex4 s; ok (join_surrogates cp low, rest))
    else ok (cp, b ∷ u ∷ s)
second_half cp s = ok (cp, s)

parse_unicode : Bytes → Result (Bytes × Bytes)
parse_unicode s = do
  (cp, s1) ← parse_hex4 s
  (cp', s2) ← second_half cp s1
  ok (append_utf8 cp', s2)

-- the switch on the character behind a backslash: what is appended to `out`, and the rest
parse_escape : Bytes → Result (Bytes × Bytes)
parse_escape [] = err (json_error (text "Unterminated escape sequence"))
parse_escape (e ∷ s) =
    if e == b'"' || e == b'\\' || e == b'/'
    then ok (e ∷ [], s)
    else if e == b'b'
    then ok (8 ∷ [], s)
    else if e == b'f'
    then ok (12 ∷ [], s)
    else if e == b'n'
    then ok (10 ∷ [], s)
    else if e == b'r'
    then ok (13 ∷ [], s)
    else if e == b't'
    then ok (9 ∷ [], s)
    else if e == b'u'
    then parse_unicode s
    else err (json_error (text "Invalid escape character in string"))

string_loop : ℕ → Bytes → Bytes → Result (Bytes × Bytes)
string_loop zero out s = stuck
string_loop (suc f) out [] = err (json_error (text "Unterminated string"))
string_loop (suc f) out (c ∷ s) =
    let plain = string_loop f (out ++ c ∷ []) s in
    let escaped : Result (Bytes × Bytes) = parse_escape s >>= λ p. string_loop f (out ++ p.0) p.1 in
    if c == b'"' then ok (out, s) else if c == b'\\' then escaped else plain

-- Each round takes a byte at least, so more rounds than bytes are enough.
unfoldable pub parse_string : Bytes → Result (Bytes × Bytes)
unfolding hex_value hex_end read_hex skip_0x stoul_sign stoul parse_hex4 join_surrogates second_half
    parse_unicode parse_escape string_loop skip_space append_utf8
parse_string [] = err (json_error (text "Unexpected end of JSON input"))
parse_string (c ∷ s) =
    if c == b'"'
    then string_loop (suc (length s)) [] s
    else err (json_error (text "Expected '" ++ (b'"' ∷ (text "' but got '" ++ (c ∷ text "'")))))
