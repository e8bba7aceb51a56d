-- ===== src/Json/Parser/Strings/Laws.antt =====
-- `parseString` always has an outcome, and reads back what `escapeStringTo` writes.
use expo_builder_local.Prelude.{
  ℕ, zero, suc, ◌+◌, ◌*◌, ◌/◌, ◌%◌, ◌^◌, ◌<◌, ◌≤◌, ◌≡◌, ◌≢◌, refl, Bool, true, false, Bytes, [],
  ◌∷◌, ◌++◌, append_assoc, append-nil, ltb, ◌==◌, arith, length, length-append, Bool-cases,
  Option-cases, inl, inr,
}
use expo_builder_local.Prelude.Bits.{holds_below, holds_below_at}
use expo_builder_local.Exception.{
  Result, ok, err, stuck, Ensures, Ensures-bind, Ensures-bind_value, Ensures-mono, Ensures-if,
}
use expo_builder_local.Decimal.{skip_space}
use expo_builder_local.Json.Dump.{append_utf8, hex_digit, escape_byte, escape_loop, escape_string}
use expo_builder_local.Json.Parser.Strings.{
  hex_value, hex_end, read_hex, skip_0x, stoul_sign, stoul, parse_hex4, second_half, parse_unicode,
  parse_escape, string_loop, parse_string,
}

reads_back : ℕ → Result ℕ → Bool
reads_back c (ok n) = n == c
reads_back c _ = false

reads_back→eq : (c : ℕ) (r : Result ℕ) → reads_back c r ≡ true → r ≡ ok c
unfolding reads_back
reads_back→eq c (ok n) h = ground arith
reads_back→eq c (err e) h = cc
reads_back→eq c stuck h = cc

abbrev control_hex : ℕ → Bytes
control_hex c = b'0' ∷ b'0' ∷ hex_digit (c / 16) ∷ hex_digit (c % 16) ∷ []

stoul_table : holds_below (λ c. reads_back c (stoul (control_hex c))) 32 ≡ true
unfolding holds_below reads_back stoul stoul_sign skip_0x read_hex hex_value hex_end skip_space
    hex_digit
stoul_table = refl

stoul-control_hex : (c : ℕ) → c < 32 → stoul (control_hex c) ≡ ok c
stoul-control_hex c h =
    reads_back→eq c _
      (holds_below_at (λ c. reads_back c (stoul (control_hex c))) 32 c stoul_table h)

second_half_low : (cp : ℕ) (s : Bytes) → cp < 32 → second_half cp s ≡ ok (cp, s)
unfolding second_half
second_half_low cp [] h = refl
second_half_low cp (b ∷ []) h = refl
second_half_low cp (b ∷ u ∷ s) h = ground arith

parse_unicode_control :
    (c : ℕ) (s : Bytes)
    → c < 32
    → parse_unicode (b'0' ∷ b'0' ∷ hex_digit (c / 16) ∷ hex_digit (c % 16) ∷ s) ≡ ok (c ∷ [], s)
unfolding parse_unicode parse_hex4
parse_unicode_control c s h = rw (stoul-control_hex c h) (
    unfold append_utf8 in
    let e : c % 2 ^ 32 ≡ c = omega arith in rw (e, second_half_low c s h) (ground arith))

-- One round of `parseString` reads what one round of `escapeStringTo` wrote.
string_loop-escape_byte :
    (f c : ℕ) (out s : Bytes)
    → string_loop (suc f) out (escape_byte c ++ s) ≡ string_loop f (out ++ c ∷ []) s
string_loop-escape_byte f c out s = elim (Bool-cases (ltb c 32)) [
  | inl h ↦ unfold escape_byte string_loop parse_escape in ground (arith, parse_unicode_control c s)
  | inr h ↦ unfold escape_byte string_loop parse_escape in ground arith
]

escape_loop-cons : (c : ℕ) (t : Bytes) → escape_loop (c ∷ t) ≡ escape_byte c ++ escape_loop t
unfolding escape_loop
escape_loop-cons c t = refl

string_loop-escape_loop :
    (t : Bytes) (f : ℕ) (out rest : Bytes)
    → length t < f
    → string_loop f out (escape_loop t ++ (b'"' ∷ rest)) ≡ ok (out ++ t, rest)
string_loop-escape_loop t zero out rest h = absurd (omega arith)
string_loop-escape_loop [] (suc f) out rest h = unfold string_loop escape_loop in rw append-nil
string_loop-escape_loop (c ∷ t) (suc f) out rest h =
    rw (escape_loop-cons, append_assoc, string_loop-escape_byte f c out _)
      (rw (string_loop-escape_loop t f (out ++ c ∷ []) rest (omega arith), append_assoc))

length-escape_byte : (c : ℕ) → 1 ≤ length (escape_byte c)
unfolding escape_byte
length-escape_byte c = ground arith

length-escape_loop : (t : Bytes) → length t ≤ length (escape_loop t)
unfolding escape_loop
length-escape_loop [] = omega arith
length-escape_loop (c ∷ t) =
    rw length-append (omega (arith, length-escape_byte c, length-escape_loop t))

parse_string_quote : (s : Bytes) → parse_string (b'"' ∷ s) ≡ string_loop (suc (length s)) [] s
unfolding parse_string
parse_string_quote s = refl

-- `parseString` reads back every string that `escapeStringTo` writes, whatever its bytes, and
-- leaves what follows the closing quote.
pub parse_string-escape_string :
    (t rest : Bytes) → parse_string (escape_string t ++ rest) ≡ ok (t, rest)
unfolding escape_string
parse_string-escape_string t rest =
    rw (append_assoc, parse_string_quote)
      (string_loop-escape_loop t _ [] rest (rw length-append (omega (arith, length-escape_loop t))))

-- A read that leaves fewer than `n` bytes.
abbrev pub Shorter {ℓ} : {A : Type ℓ} → ℕ → A → Bytes → Type 0
Shorter n a s = length s < n

read_hex-ne-stuck : (n : ℕ) (seen : Bool) (s : Bytes) → read_hex n seen s ≢ stuck
unfolding read_hex hex_end
read_hex-ne-stuck n true [] = λ p. cc
read_hex-ne-stuck n false [] = λ p. cc
read_hex-ne-stuck n true (c ∷ s) = elim (Option-cases (hex_value c)) [
  | inl e ↦ rw (e, read_hex) (λ p. cc)
  | inr (d, e) ↦ rw (e, read_hex) (read_hex-ne-stuck (n * 16 + d) true s)
]
read_hex-ne-stuck n false (c ∷ s) = elim (Option-cases (hex_value c)) [
  | inl e ↦ rw (e, read_hex) (λ p. cc)
  | inr (d, e) ↦ rw (e, read_hex) (read_hex-ne-stuck (n * 16 + d) true s)
]

stoul_sign-ne-stuck : (s : Bytes) → stoul_sign s ≢ stuck
unfolding stoul_sign
stoul_sign-ne-stuck [] = λ p. cc
stoul_sign-ne-stuck (c ∷ s) =
    ground
      (arith, read_hex-ne-stuck 0 false (skip_0x s), read_hex-ne-stuck 0 false (skip_0x (c ∷ s)))

stoul-ne-stuck : (s : Bytes) → stoul s ≢ stuck
unfolding stoul
stoul-ne-stuck s = stoul_sign-ne-stuck (skip_space s)

parse_hex4-Shorter : (s : Bytes) → Ensures (Shorter (length s)) (parse_hex4 s)
unfolding parse_hex4
parse_hex4-Shorter [] = tt
parse_hex4-Shorter (a ∷ []) = tt
parse_hex4-Shorter (a ∷ b ∷ []) = tt
parse_hex4-Shorter (a ∷ b ∷ c ∷ []) = tt
parse_hex4-Shorter (a ∷ b ∷ c ∷ d ∷ s) =
    Ensures-bind_value (Shorter (length (a ∷ b ∷ c ∷ d ∷ s))) (stoul (a ∷ b ∷ c ∷ d ∷ [])) _
      (stoul-ne-stuck (a ∷ b ∷ c ∷ d ∷ [])) (λ n _. omega arith)

second_half-Shorter :
    (cp : ℕ) (s : Bytes) (n : ℕ) → length s < n → Ensures (Shorter n) (second_half cp s)
unfolding second_half
second_half-Shorter cp [] n h = h
second_half-Shorter cp (b ∷ []) n h = h
second_half-Shorter cp (b ∷ u ∷ s) n h = ground (arith, parse_hex4-Shorter s)

parse_unicode-Shorter : (s : Bytes) → Ensures (Shorter (length s)) (parse_unicode s)
unfolding parse_unicode
parse_unicode-Shorter s =
    Ensures-bind (Shorter (length s)) (Shorter (length s)) (parse_hex4 s) _ (parse_hex4-Shorter s)
      λ cp r hr.
        Ensures-bind (Shorter (length s)) (Shorter (length s)) (second_half cp r) _
          (second_half-Shorter cp r (length s) hr) (λ cp' r' hr'. hr')

parse_escape-Shorter : (s : Bytes) → Ensures (Shorter (length s)) (parse_escape s)
unfolding parse_escape
parse_escape-Shorter [] = tt
parse_escape-Shorter (e ∷ s) = ground (arith, parse_unicode-Shorter s)

string_loop-Shorter :
    (f : ℕ) (out s : Bytes) → length s < f → Ensures (Shorter (length s)) (string_loop f out s)
unfolding string_loop
string_loop-Shorter zero out s h = absurd (omega arith)
string_loop-Shorter (suc f) out [] h = tt
string_loop-Shorter (suc f) out (c ∷ s) h =
    Ensures-if (Shorter (suc (length s))) (c == b'"') _ _ (λ _. omega arith)
      λ _.
        Ensures-if (Shorter (suc (length s))) (c == b'\\') _ _
          (λ _.
            Ensures-bind (Shorter (length s)) (Shorter (suc (length s))) (parse_escape s) _
              (parse_escape-Shorter s)
              λ t r hr.
                Ensures-mono (Shorter (length r)) _ (string_loop f (out ++ t) r)
                  (λ a x hx. omega arith) (string_loop-Shorter f (out ++ t) r (omega arith)))
          (λ _.
            Ensures-mono (Shorter (length s)) _ (string_loop f (out ++ c ∷ []) s)
              (λ a x hx. omega arith) (string_loop-Shorter f (out ++ c ∷ []) s (omega arith)))

-- `parseString` has an outcome on every text, and takes at least a byte where it succeeds.
pub parse_string-Shorter : (s : Bytes) → Ensures (Shorter (length s)) (parse_string s)
parse_string-Shorter [] = unfold parse_string in tt
parse_string-Shorter (c ∷ s) =
    unfold parse_string in ground (arith, string_loop-Shorter (suc (length s)) [] s)
