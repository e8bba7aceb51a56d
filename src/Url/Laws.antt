-- ===== src/Url/Laws.antt =====
-- Percent-encoded text is safe in a query and determines the text.
use expo_builder_local.Prelude.{
  ℕ, ◌+◌, ◌-◌, ◌*◌, ◌/◌, ◌%◌, ◌<◌, ◌≡◌, refl, ap, ◌∙◌, Bool, true, false, ◌&&◌, Bytes, [], ◌∷◌,
  ◌++◌, Option, none, some, leb, ◌==◌, if◌then◌else◌, arith, All, All-append, IsByte, Bool-cases,
  ◌⊎◌, inl, inr,
}
use expo_builder_local.Prelude.Bits.{holds_below, holds_below_at}
use expo_builder_local.Url.{is_unreserved, hex, encode_byte, url_encode}

-- A reader of percent-encoded text, after RFC 3986.
hex_value : ℕ → Option ℕ
hex_value c =
    if leb b'0' c && leb c b'9'
    then some (c - b'0')
    else if leb b'A' c && leb c b'F'
    then some (c - b'A' + 10)
    else none

pair : Option ℕ → Option ℕ → Option Bytes → Option Bytes
pair (some h) (some l) (some rest) = some ((h * 16 + l) ∷ rest)
pair _ _ _ = none

plain : ℕ → Option Bytes → Option Bytes
plain c none = none
plain c (some rest) = some (c ∷ rest)

pub url_decode : Bytes → Option Bytes
unfolding hex_value pair plain
url_decode [] = some []
url_decode (c ∷ []) = if c == b'%' then none else some (c ∷ [])
url_decode (c ∷ h ∷ []) = if c == b'%' then none else plain c (url_decode (h ∷ []))
url_decode (c ∷ h ∷ l ∷ s) =
    let escaped = pair (hex_value h) (hex_value l) (url_decode s) in
    let rest = plain c (url_decode (h ∷ l ∷ s)) in if c == b'%' then escaped else rest

is_hex : ℕ → Option ℕ → Bool
is_hex n none = false
is_hex n (some v) = v == n

hex_table : holds_below (λ n. is_hex n (hex_value (hex n)) && is_unreserved (hex n)) 16 ≡ true
unfolding holds_below is_hex hex_value hex is_unreserved
hex_table = refl

hex_facts : (n : ℕ) → n < 16 → (hex_value (hex n) ≡ some n) × (is_unreserved (hex n) ≡ true)
hex_facts n h =
    split (hex_value (hex n)) (is_unreserved (hex n))
      (holds_below_at (λ n. is_hex n (hex_value (hex n)) && is_unreserved (hex n)) 16 n hex_table h)
  where
    split : (o : Option ℕ) (b : Bool) → (is_hex n o && b) ≡ true → (o ≡ some n) × (b ≡ true)
    split none b e = unfold is_hex in ground arith
    split (some i) b e = unfold is_hex in ground arith

url_decode-plain :
    (c : ℕ) (s : Bytes) → (c == b'%') ≡ false → url_decode (c ∷ s) ≡ plain c (url_decode s)
unfolding url_decode
url_decode-plain c [] h = rw h
url_decode-plain c (d ∷ []) h = rw h
url_decode-plain c (d ∷ l ∷ s) h = rw h

url_decode_escaped :
    (a b : ℕ) (s : Bytes)
    → a < 16
    → b < 16
    → url_decode (b'%' ∷ hex a ∷ hex b ∷ s) ≡ plain (a * 16 + b) (url_decode s)
unfolding url_decode
url_decode_escaped a b s ha hb =
    rw ((hex_facts a ha).0, (hex_facts b hb).0) (pair-plain (url_decode s))
  where
    pair-plain : (o : Option Bytes) → pair (some a) (some b) o ≡ plain (a * 16 + b) o
    pair-plain none = unfold pair plain in refl
    pair-plain (some r) = unfold pair plain in refl

unreserved-ne : (c : ℕ) → is_unreserved c ≡ true → (c == b'%') ≡ false
unfolding is_unreserved
unreserved-ne c h = ground arith

url_decode-encode_byte :
    (c : ℕ) (s : Bytes) → c < 256 → url_decode (encode_byte c ++ s) ≡ plain c (url_decode s)
unfolding encode_byte
url_decode-encode_byte c s h = elim (Bool-cases (is_unreserved c)) [
  | inl e ↦ rw e (url_decode-plain c s (unreserved-ne c e))
  | inr e ↦ rw e (
      url_decode_escaped (c / 16 % 16) (c % 16) s (omega arith) (omega arith)
      ∙ ap (λ n. plain n (url_decode s)) (omega arith))
]

-- Reading percent-encoded text gives back every byte string.
pub url_decode-url_encode : (s : Bytes) → All IsByte s → url_decode (url_encode s) ≡ some s
unfolding url_encode
url_decode-url_encode [] h = unfold url_decode in refl
url_decode-url_encode (c ∷ s) (hc, h) =
    url_decode-encode_byte c (url_encode s) hc
    ∙ ap (plain c) (url_decode-url_encode s h)
    ∙ plain_some c s
  where
    plain_some : (c : ℕ) (s : Bytes) → plain c (some s) ≡ some (c ∷ s)
    plain_some c s = unfold plain in refl

-- A character that may stand in a query: an unreserved one, or the escape sign.
abbrev pub IsQuerySafe : ℕ → Type 0
IsQuerySafe c = (is_unreserved c ≡ true) ⊎ (c ≡ b'%')

encode_byte-IsQuerySafe : (c : ℕ) → All IsQuerySafe (encode_byte c)
unfolding encode_byte
encode_byte-IsQuerySafe c = elim (Bool-cases (is_unreserved c)) [
  | inl e ↦ rw e (inl e, tt)
  | inr e ↦ rw e (
    inr refl,
    (inl (hex_facts (c / 16 % 16) (omega arith)).1, (inl (hex_facts (c % 16) (omega arith)).1, tt)),
  )
]

-- Percent-encoded text holds unreserved characters and escape signs only.
url_encode-IsQuerySafe : (s : Bytes) → All IsQuerySafe (url_encode s)
unfolding url_encode
url_encode-IsQuerySafe [] = tt
url_encode-IsQuerySafe (c ∷ s) =
    All-append IsQuerySafe (encode_byte c) (url_encode s) (encode_byte-IsQuerySafe c)
      (url_encode-IsQuerySafe s)
