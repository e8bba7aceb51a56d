-- ===== src/Decimal.antt =====
-- Decimal numbers as the C and C++ libraries print them ("%lld", "%ld", std::to_string) and read
-- them (std::stoi, std::stol, std::stoll).
pub mod Laws
mod Tests
use expo_builder_local.Prelude.{
  ℕ, zero, suc, ◌+◌, ◌-◌, ◌*◌, ◌/◌, ◌%◌, ◌^◌, ◌<◌, Bool, true, false, ◌&&◌, ◌||◌, Bytes, List, [],
  ◌∷◌, ◌++◌, ltb, leb, ◌==◌, if◌then◌else◌, arith,
}
use expo_builder_local.Prelude.Int.{ℤ, pos, negsuc, ◌≤ℤ◌, ltb_ℤ}
use expo_builder_local.Exception.{Result, ok, err, invalid_argument, out_of_range, ◌>>=◌}

unfoldable pub is_digit : ℕ → Bool
is_digit c = leb b'0' c && leb c b'9'

-- The digits of `n`, given more fuel than `n` has digits.
unfoldable pub digits_fuel : ℕ → ℕ → Bytes
digits_fuel zero n = []
digits_fuel (suc f) n =
    let front = digits_fuel f (n / 10) in
    let last = b'0' + n % 10 in if ltb n 10 then last ∷ [] else front ++ last ∷ []

-- A number is below 2 ^ (n + 1), so `n + 1` rounds are enough.
unfoldable pub print_nat : ℕ → Bytes
unfolding digits_fuel
print_nat n = digits_fuel (suc n) n

unfoldable pub print_int : ℤ → Bytes
unfolding print_nat
print_int (pos n) = print_nat n
print_int (negsuc n) = b'-' ∷ print_nat (suc n)

-- isspace in the C locale
unfoldable pub is_space : ℕ → Bool
is_space c = (c == b' ') || (leb 9 c && leb c 13)

unfoldable pub skip_space : Bytes → Bytes
unfolding is_space
skip_space [] = []
skip_space (c ∷ s) = if is_space c then skip_space s else c ∷ s

-- The value of the digits in front, behind the digits read so far. `seen` says that there are some.
unfoldable pub read_digits : ℕ → Bool → Bytes → Result ℕ
unfolding is_digit
read_digits n seen [] = if seen then ok n else err invalid_argument
read_digits n seen (c ∷ s) =
    let more = read_digits (n * 10 + (c - b'0')) true s in
    let done = if seen then ok n else err invalid_argument in if is_digit c then more else done

-- -n
unfoldable pub neg : ℕ → ℤ
neg zero = pos 0
neg (suc n) = negsuc n

unfoldable pub read_sign : Bytes → Result ℤ
unfolding read_digits neg
read_sign [] = err invalid_argument
read_sign (c ∷ s) =
    if c == b'-'
    then (do n ← read_digits 0 false s; ok (neg n))
    else if c == b'+'
    then (do n ← read_digits 0 false s; ok (pos n))
    else do n ← read_digits 0 false (c ∷ s); ok (pos n)

-- What strtol reads from the front of a text: spaces, a sign, digits. Nothing behind them is read.
unfoldable pub read_int : Bytes → Result ℤ
unfolding skip_space read_sign
read_int s = read_sign (skip_space s)

-- The integers of a signed type with `2 ^ 31` or `2 ^ 63` for `half`.
unfoldable pub fits : ℕ → ℤ → Bool
fits half (pos n) = ltb n half
fits half (negsuc n) = ltb n half

unfoldable pub read_bounded : ℕ → Bytes → Result ℤ
unfolding read_int fits
read_bounded half s = do z ← read_int s; if fits half z then ok z else err out_of_range

-- std::stoi, of a 32-bit int
unfoldable pub stoi : Bytes → Result ℤ
unfolding read_bounded
stoi s = read_bounded (2 ^ 31) s

-- std::stol and std::stoll, of a 64-bit long
unfoldable pub stol : Bytes → Result ℤ
unfolding read_bounded
stol s = read_bounded (2 ^ 63) s
