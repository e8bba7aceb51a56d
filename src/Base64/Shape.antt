-- ===== src/Base64/Shape.antt =====
-- The length of encoded text, and the texts that decoding accepts.
use expo_builder_local.Prelude.{
  ℕ, ◌+◌, ◌-◌, ◌*◌, ◌/◌, ◌%◌, ◌^◌, ◌<◌, ◌≡◌, refl, inl, inr, Bool, true, false, ◌&&◌, ◌||◌, Bytes,
  [], ◌∷◌, ◌++◌, Option, none, some, leb, ◌==◌, if◌then◌else◌, arith, length, All, IsByte, text,
  Bool-cases, Option-cases,
}
use expo_builder_local.Prelude.Bits.{holds_below, holds_below_at}
use expo_builder_local.Exception.{Result, ok, err, stuck, runtime_error}
use expo_builder_local.Base64.{
  alphabet, index_from, decode_table, encode, is_skipped, decode_loop, decode,
}

-- Encoded text has four characters for every three bytes, the last group filled up.
pub length-encode : (raw : Bytes) → length (encode raw) ≡ (length raw + 2) / 3 * 4
unfolding encode
length-encode [] = refl
length-encode (a ∷ []) = refl
length-encode (a ∷ b ∷ []) = refl
length-encode (a ∷ b ∷ c ∷ rest) = omega (arith, length-encode rest)

-- The characters of RFC 4648 base64, with the padding and the line ends.
unfoldable pub is_base64 : ℕ → Bool
is_base64 c =
    (leb b'A' c && leb c b'Z')
    || (leb b'a' c && leb c b'z')
    || (leb b'0' c && leb c b'9')
    || c == b'+'
    || c == b'/'
    || c == b'='
    || c == 10
    || c == 13

unfoldable pub all_base64 : Bytes → Bool
unfolding is_base64
all_base64 [] = true
all_base64 (c ∷ s) = is_base64 c && all_base64 s

abbrev is_some : Option ℕ → Bool
is_some none = false
is_some (some v) = true

same : Bool → Bool → Bool
same true b = b
same false true = false
same false false = true

same→eq : (a b : Bool) → same a b ≡ true → a ≡ b
unfolding same
same→eq true b h = cc
same→eq false true h = cc
same→eq false false h = refl

table : holds_below (λ c. same (is_base64 c) (is_skipped c || is_some (decode_table c))) 256 ≡ true
unfolding holds_below same is_base64 is_skipped decode_table index_from alphabet
table = refl

is_base64_lem : (c : ℕ) → c < 256 → is_base64 c ≡ (is_skipped c || is_some (decode_table c))
is_base64_lem c h = same→eq _ _ (
    holds_below_at (λ c. same (is_base64 c) (is_skipped c || is_some (decode_table c))) 256 c table
      h)

decode_lem : (s : Bytes) → decode s ≡ decode_loop s 0 0 []
unfolding decode
decode_lem s = refl

-- What a result says about whether the text was accepted.
abbrev pub Accepts : Bool → Result Bytes → Type 0
Accepts b (ok out) = b ≡ true
Accepts b (err e) = (b ≡ false) × (e ≡ runtime_error (text "Invalid base64 input"))
Accepts b stuck = ⊥

Accepts-if :
    (b t : Bool) (m n : Result Bytes) → Accepts b m → Accepts b n → Accepts b (if t then m else n)
Accepts-if b true m n hm hn = hm
Accepts-if b false m n hm hn = hn

decode_loop-Accepts :
    (s : Bytes) (buffer bits : ℕ) (out : Bytes)
    → All IsByte s
    → Accepts (all_base64 s) (decode_loop s buffer bits out)
unfolding decode_loop all_base64
decode_loop-Accepts [] buffer bits out h = refl
decode_loop-Accepts (c ∷ s) buffer bits out (hc, h) =
    let ih : (b k : ℕ) (o : Bytes) → Accepts (all_base64 s) (decode_loop s b k o) =
      λ b k o. decode_loop-Accepts s b k o h in
    elim (Bool-cases (is_skipped c)) [
      | inl e ↦ rw (is_base64_lem c hc, e) (decode_loop-Accepts s buffer bits out h)
      | inr e ↦ elim (Option-cases (decode_table c)) [
        | inl o ↦ rw (is_base64_lem c hc, e, o) (refl, refl)
        | inr (v, o) ↦
            let buffer' = buffer * 2 ^ 6 % 2 ^ 32 + v in
            let out' = out ++ buffer' / 2 ^ (bits + 6 - 8) % 256 ∷ [] in
            rw (is_base64_lem c hc, e, o)
              (Accepts-if (all_base64 s) (leb 8 (bits + 6)) _ _ (ih buffer' (bits + 6 - 8) out')
                (ih buffer' (bits + 6) out))
      ]
    ]

-- `base64Decode` returns exactly on the texts of base64 characters, paddings and line ends, and
-- throws its one exception on every other.
pub decode-Accepts : (s : Bytes) → All IsByte s → Accepts (all_base64 s) (decode s)
decode-Accepts s h = rw decode_lem (decode_loop-Accepts s 0 0 [] h)
