-- ===== src/PipeHttp/Numbers.antt =====
-- std::stoull, of decimal and of hexadecimal numbers.
use expo_builder_local.Prelude.{
  ℕ, suc, ◌+◌, ◌-◌, ◌*◌, ◌^◌, Bytes, [], ◌∷◌, Bool, true, false, ◌&&◌, ◌||◌, ◌==◌, ltb, leb,
  if◌then◌else◌,
}
use expo_builder_local.Prelude.Int.{ℤ, pos, negsuc}
use expo_builder_local.Exception.{Result, ok, err, invalid_argument, out_of_range, ◌>>=◌}
use expo_builder_local.Decimal.{read_int, skip_space, neg, is_digit}

-- A number as an unsigned one of 64 bits: a negative number is negated in that type.
unfoldable pub unsigned : ℤ → Result ℕ
unsigned (pos n) = if ltb n (2 ^ 64) then ok n else err out_of_range
unsigned (negsuc n) = if ltb (suc n) (2 ^ 64) then ok (2 ^ 64 - suc n) else err out_of_range

unfoldable pub stoull : Bytes → Result ℕ
stoull s = do z ← read_int s; unsigned z

unfoldable pub is_hex_digit : ℕ → Bool
is_hex_digit c = is_digit c || (leb b'a' c && leb c b'f') || (leb b'A' c && leb c b'F')

unfoldable pub hex_value : ℕ → ℕ
hex_value c = if is_digit c then c - b'0' else if leb b'a' c then c - b'a' + 10 else c - b'A' + 10

-- The value of the digits in front; `seen` says that there are some.
unfoldable pub read_hex : ℕ → Bool → Bytes → Result ℕ
read_hex n seen [] = if seen then ok n else err invalid_argument
read_hex n seen (c ∷ s) =
    let more = read_hex (n * 16 + hex_value c) true s in
    let done = if seen then ok n else err invalid_argument in if is_hex_digit c then more else done

-- An optional "0x" in front of a digit.
unfoldable pub read_prefixed : Bytes → Result ℕ
read_prefixed (zero_digit ∷ x ∷ c ∷ s) =
    let whole = read_hex 0 false (zero_digit ∷ x ∷ c ∷ s) in
    let behind_prefix = read_hex 0 false (c ∷ s) in
    if zero_digit == b'0' && (x == b'x' || x == b'X') && is_hex_digit c
    then behind_prefix
    else whole
read_prefixed s = read_hex 0 false s

unfoldable pub read_signed : Bytes → Result ℤ
read_signed [] = err invalid_argument
read_signed (c ∷ s) =
    if c == b'-'
    then (do n ← read_prefixed s; ok (neg n))
    else if c == b'+'
    then (do n ← read_prefixed s; ok (pos n))
    else do n ← read_prefixed (c ∷ s); ok (pos n)

-- with base 16
unfoldable pub stoull_hex : Bytes → Result ℕ
stoull_hex s = do z ← read_signed (skip_space s); unsigned z
