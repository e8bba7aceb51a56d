-- ===== src/Base64.antt =====
-- cli-cpp-legacy/src/base64.cpp. An unsigned char is a number below 256; bit fields that do not
-- overlap are joined by `+`, and a shift by k is a product or a quotient by 2 ^ k.
pub mod Laws
pub mod Shape
mod Tests
use expo_builder_local.Prelude.{
  ℕ, zero, suc, ◌+◌, ◌-◌, ◌*◌, ◌/◌, ◌%◌, ◌^◌, Bool, ◌||◌, Bytes, [], ◌∷◌, ◌++◌, Option, none, some,
  codes, text, leb, ◌==◌, if◌then◌else◌, get_elem?,
}
use expo_builder_local.Exception.{Result, ok, err, runtime_error}

-- kAlphabet
alphabet : Bytes
alphabet = codes "ABCDEFGHIJKLMNOPQRSTUVWXYZabcdefghijklmnopqrstuvwxyz0123456789+/"

or_zero : Option ℕ → ℕ
or_zero none = 0
or_zero (some c) = c

-- kAlphabet[i & 0x3F]
symbol : ℕ → ℕ
symbol i = or_zero (get_elem? alphabet (i % 64))

-- What `buildDecodeTable` stores at `c`: its index in the alphabet, or -1 (`none`).
index_from : ℕ → Bytes → ℕ → Option ℕ
index_from i [] c = none
index_from i (a ∷ as') c = let later = index_from (suc i) as' c in if a == c then some i else later

decode_table : ℕ → Option ℕ
decode_table c = index_from 0 alphabet c

unfoldable pub encode : Bytes → Bytes
unfolding symbol alphabet or_zero
encode (a ∷ b ∷ c ∷ rest) =
    let n = a * 2 ^ 16 + b * 2 ^ 8 + c in
    symbol (n / 2 ^ 18) ∷ symbol (n / 2 ^ 12) ∷ symbol (n / 2 ^ 6) ∷ symbol n ∷ encode rest
encode (a ∷ b ∷ []) =
    let n = a * 2 ^ 16 + b * 2 ^ 8 in
    symbol (n / 2 ^ 18) ∷ symbol (n / 2 ^ 12) ∷ symbol (n / 2 ^ 6) ∷ b'=' ∷ []
encode (a ∷ []) = let n = a * 2 ^ 16 in symbol (n / 2 ^ 18) ∷ symbol (n / 2 ^ 12) ∷ b'=' ∷ b'=' ∷ []
encode [] = []

-- the characters that the loop of `base64Decode` passes over
is_skipped : ℕ → Bool
is_skipped c = c == b'=' || c == 10 || c == 13

-- The int `buffer` is its 32-bit pattern. Only bits below 12 of it are read, so the sign of the
-- right shift does not show.
decode_loop : Bytes → ℕ → ℕ → Bytes → Result Bytes
decode_loop [] buffer bits out = ok out
decode_loop (c ∷ s) buffer bits out =
    let skipped = decode_loop s buffer bits out in
    let taken : Result Bytes = elim (decode_table c) [
      | none ↦ err (runtime_error (text "Invalid base64 input"))
      | some value ↦
          let buffer' = buffer * 2 ^ 6 % 2 ^ 32 + value in
          let full =
            decode_loop s buffer' (bits + 6 - 8) (out ++ buffer' / 2 ^ (bits + 6 - 8) % 256 ∷ []) in
          let partial = decode_loop s buffer' (bits + 6) out in
          if leb 8 (bits + 6) then full else partial
    ] in
    if is_skipped c then skipped else taken

unfoldable pub decode : Bytes → Result Bytes
unfolding decode_loop is_skipped decode_table index_from alphabet
decode s = decode_loop s 0 0 []
