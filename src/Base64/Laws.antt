-- ===== src/Base64/Laws.antt =====
-- Decoding undoes encoding; the shape of encoded text; what decoding accepts.
use expo_builder_local.Prelude.{
  ℕ, ◌+◌, ◌-◌, ◌*◌, ◌/◌, ◌%◌, ◌^◌, ◌<◌, ◌≤◌, ◌≡◌, refl, ◌∙◌, Bool, true, false, ◌&&◌, not, Bytes,
  [], ◌∷◌, ◌++◌, append_assoc, append-nil, Option, none, some, ◌==◌, arith, All, IsByte, ap,
}
use expo_builder_local.Prelude.Bits.{holds_below, holds_below_at}
use expo_builder_local.Exception.{Result, ok}
use expo_builder_local.Base64.{
  alphabet, or_zero, symbol, index_from, decode_table, encode, is_skipped, decode_loop, decode,
}

is_index : ℕ → Option ℕ → Bool
is_index v none = false
is_index v (some i) = i == v

symbol_table :
    holds_below (λ v. is_index v (decode_table (symbol v)) && not (is_skipped (symbol v))) 64 ≡ true
unfolding holds_below is_index decode_table index_from symbol or_zero alphabet is_skipped
symbol_table = refl

symbol_facts :
    (v : ℕ) → v < 64 → (decode_table (symbol v) ≡ some v) × (is_skipped (symbol v) ≡ false)
symbol_facts v h = split (decode_table (symbol v)) (is_skipped (symbol v)) (
    holds_below_at (λ v. is_index v (decode_table (symbol v)) && not (is_skipped (symbol v))) 64 v
      symbol_table h)
  where
    split : (o : Option ℕ) (b : Bool) → (is_index v o && not b) ≡ true → (o ≡ some v) × (b ≡ false)
    split none b e = unfold is_index in ground arith
    split (some i) true e = unfold is_index in ground arith
    split (some i) false e = unfold is_index in ground arith

symbol_mod : (x : ℕ) → symbol x ≡ symbol (x % 64)
unfolding symbol
symbol_mod x = let e : x % 64 % 64 ≡ x % 64 = omega arith in rw e

symbol_lem : (x : ℕ) → (decode_table (symbol x) ≡ some (x % 64)) × (is_skipped (symbol x) ≡ false)
symbol_lem x = rw (symbol_mod x) (symbol_facts (x % 64) (omega arith))

-- the new value of `buffer`
abbrev shifted : ℕ → ℕ → ℕ
shifted buffer x = buffer * 2 ^ 6 % 2 ^ 32 + x % 64

-- One character of the alphabet fills a byte if there are two bits or more before it.
decode_fills :
    (x : ℕ) (s : Bytes) (buffer bits : ℕ) (out : Bytes)
    → 2 ≤ bits
    → decode_loop (symbol x ∷ s) buffer bits out
      ≡ decode_loop s
          (shifted buffer x)
          (bits + 6 - 8)
          (out ++ shifted buffer x / 2 ^ (bits + 6 - 8) % 256 ∷ [])
unfolding decode_loop
decode_fills x s buffer bits out hb = let (e, k) = symbol_lem x in rw (k, e) (ground arith)

decode_waits :
    (x : ℕ) (s : Bytes) (buffer : ℕ) (out : Bytes)
    → decode_loop (symbol x ∷ s) buffer 0 out ≡ decode_loop s (shifted buffer x) 6 out
unfolding decode_loop
decode_waits x s buffer out = let (e, k) = symbol_lem x in rw (k, e) refl

decode_padding :
    (s : Bytes) (buffer bits : ℕ) (out : Bytes)
    → decode_loop (b'=' ∷ s) buffer bits out ≡ decode_loop s buffer bits out
unfolding decode_loop is_skipped
decode_padding s buffer bits out = refl

-- The three bytes that four characters carry, whatever `buffer` held before.
group_bytes :
    (a b c buffer : ℕ)
    → a < 256
    → b < 256
    → c < 256
    → (n : ℕ) → n ≡ a * 2 ^ 16 + b * 2 ^ 8 + c
    → (shifted (shifted buffer (n / 2 ^ 18)) (n / 2 ^ 12) / 2 ^ 4 % 256 ≡ a)
      × (shifted (shifted (shifted buffer (n / 2 ^ 18)) (n / 2 ^ 12)) (n / 2 ^ 6) / 2 ^ 2 % 256 ≡ b)
      × (shifted (shifted (shifted (shifted buffer (n / 2 ^ 18)) (n / 2 ^ 12)) (n / 2 ^ 6)) n
            / 2 ^ 0
            % 256
          ≡ c)
group_bytes a b c buffer ha hb hc n e = (omega arith, omega arith, omega arith)

decode_nil : (buffer bits : ℕ) (out : Bytes) → decode_loop [] buffer bits out ≡ ok out
unfolding decode_loop
decode_nil buffer bits out = refl

decode_lem : (s : Bytes) → decode s ≡ decode_loop s 0 0 []
unfolding decode
decode_lem s = refl

-- Two, three and four characters of the alphabet, at a byte boundary, append the bytes that they
-- carry.
module _ (a b c : ℕ) (buffer : ℕ) (out : Bytes) (ha : a < 256) (hb : b < 256) (hc : c < 256) (n : ℕ)
    (e : n ≡ a * 2 ^ 16 + b * 2 ^ 8 + c) where
  abbrev after2 : ℕ
  after2 = shifted (shifted buffer (n / 2 ^ 18)) (n / 2 ^ 12)

  abbrev after3 : ℕ
  after3 = shifted after2 (n / 2 ^ 6)

  decode_two :
      (s : Bytes)
      → decode_loop (symbol (n / 2 ^ 18) ∷ symbol (n / 2 ^ 12) ∷ s) buffer 0 out
        ≡ decode_loop s after2 4 (out ++ a ∷ [])
  decode_two s =
      let (p, _, _) = group_bytes a b c buffer ha hb hc n e in
      decode_waits (n / 2 ^ 18) (symbol (n / 2 ^ 12) ∷ s) buffer out
      ∙ decode_fills (n / 2 ^ 12) s (shifted buffer (n / 2 ^ 18)) 6 out (omega arith)
      ∙ ap (λ x. decode_loop s after2 4 (out ++ x ∷ [])) p

  decode_three :
      (s : Bytes)
      → decode_loop
          (symbol (n / 2 ^ 18) ∷ symbol (n / 2 ^ 12) ∷ symbol (n / 2 ^ 6) ∷ s)
          buffer
          0
          out
        ≡ decode_loop s after3 2 ((out ++ a ∷ []) ++ b ∷ [])
  decode_three s =
      let (_, q, _) = group_bytes a b c buffer ha hb hc n e in
      decode_two (symbol (n / 2 ^ 6) ∷ s)
      ∙ decode_fills (n / 2 ^ 6) s after2 4 (out ++ a ∷ []) (omega arith)
      ∙ ap (λ x. decode_loop s after3 2 ((out ++ a ∷ []) ++ x ∷ [])) q

  decode_four :
      (s : Bytes)
      → decode_loop
          (symbol (n / 2 ^ 18) ∷ symbol (n / 2 ^ 12) ∷ symbol (n / 2 ^ 6) ∷ symbol n ∷ s)
          buffer
          0
          out
        ≡ decode_loop s (shifted after3 n) 0 (((out ++ a ∷ []) ++ b ∷ []) ++ c ∷ [])
  decode_four s =
      let (_, _, r) = group_bytes a b c buffer ha hb hc n e in
      decode_three (symbol n ∷ s)
      ∙ decode_fills n s after3 2 ((out ++ a ∷ []) ++ b ∷ []) (omega arith)
      ∙ ap (λ x. decode_loop s (shifted after3 n) 0 (((out ++ a ∷ []) ++ b ∷ []) ++ x ∷ [])) r

regroup :
    (out raw : Bytes) (a b c : ℕ)
    → (((out ++ a ∷ []) ++ b ∷ []) ++ c ∷ []) ++ raw ≡ out ++ (a ∷ b ∷ c ∷ raw)
regroup out raw a b c = simp append_assoc

encode_cons :
    (a b c : ℕ) (rest : Bytes)
    → (n : ℕ) × (n ≡ a * 2 ^ 16 + b * 2 ^ 8 + c)
      × (encode (a ∷ b ∷ c ∷ rest)
          ≡ symbol (n / 2 ^ 18) ∷ symbol (n / 2 ^ 12) ∷ symbol (n / 2 ^ 6) ∷ symbol n ∷ encode rest)
unfolding encode
encode_cons a b c rest = (a * 2 ^ 16 + b * 2 ^ 8 + c, refl, refl)

-- What is left of one byte and of two, with their padding.
one_left :
    (a buffer : ℕ) (out : Bytes)
    → a < 256
    → decode_loop (encode (a ∷ [])) buffer 0 out ≡ ok (out ++ a ∷ [])
one_left a buffer out ha =
    let n = a * 2 ^ 16 in
    encode_one a (λ t. decode_loop t buffer 0 out)
    ∙ decode_two a 0 0 buffer out ha (omega arith) (omega arith) n (omega arith) (b'=' ∷ b'=' ∷ [])
    ∙ decode_padding (b'=' ∷ []) _ 4 (out ++ a ∷ [])
    ∙ decode_padding [] _ 4 (out ++ a ∷ [])
    ∙ decode_nil _ 4 (out ++ a ∷ [])
  where
    encode_one :
        (a : ℕ) (f : Bytes → Result Bytes)
        → f (encode (a ∷ []))
          ≡ f (symbol (a * 2 ^ 16 / 2 ^ 18) ∷ symbol (a * 2 ^ 16 / 2 ^ 12) ∷ b'=' ∷ b'=' ∷ [])
    encode_one a f = unfold encode in refl

two_left :
    (a b buffer : ℕ) (out : Bytes)
    → a < 256
    → b < 256
    → decode_loop (encode (a ∷ b ∷ [])) buffer 0 out ≡ ok (out ++ (a ∷ b ∷ []))
two_left a b buffer out ha hb =
    let n = a * 2 ^ 16 + b * 2 ^ 8 in
    encode_two (λ t. decode_loop t buffer 0 out)
    ∙ decode_three a b 0 buffer out ha hb (omega arith) n (omega arith) (b'=' ∷ [])
    ∙ decode_padding [] _ 2 ((out ++ a ∷ []) ++ b ∷ [])
    ∙ decode_nil _ 2 ((out ++ a ∷ []) ++ b ∷ [])
    ∙ ap ok (append_assoc out (a ∷ []) (b ∷ []))
  where
    encode_two :
        (f : Bytes → Result Bytes)
        → f (encode (a ∷ b ∷ []))
          ≡ f (
              symbol ((a * 2 ^ 16 + b * 2 ^ 8) / 2 ^ 18)
              ∷ symbol ((a * 2 ^ 16 + b * 2 ^ 8) / 2 ^ 12)
              ∷ symbol ((a * 2 ^ 16 + b * 2 ^ 8) / 2 ^ 6)
              ∷ b'='
              ∷ [])
    encode_two f = unfold encode in refl

decode_loop-encode :
    (raw : Bytes) (buffer : ℕ) (out : Bytes)
    → All IsByte raw
    → decode_loop (encode raw) buffer 0 out ≡ ok (out ++ raw)
decode_loop-encode [] buffer out h = unfold encode decode_loop in rw append-nil
decode_loop-encode (a ∷ []) buffer out (ha, _) = one_left a buffer out ha
decode_loop-encode (a ∷ b ∷ []) buffer out (ha, (hb, _)) = two_left a b buffer out ha hb
decode_loop-encode (a ∷ b ∷ c ∷ rest) buffer out (ha, (hb, (hc, h))) =
    let (n, e, p) = encode_cons a b c rest in
    rw p (
      decode_four a b c buffer out ha hb hc n e (encode rest)
      ∙ decode_loop-encode rest _ (((out ++ a ∷ []) ++ b ∷ []) ++ c ∷ []) h
      ∙ ap ok (regroup out rest a b c))

-- `base64Decode` undoes `base64Encode` on every byte string.
pub decode-encode : (raw : Bytes) → All IsByte raw → decode (encode raw) ≡ ok raw
decode-encode raw h = decode_lem (encode raw) ∙ decode_loop-encode raw 0 [] h
