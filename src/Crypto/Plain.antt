-- ===== src/Crypto/Plain.antt =====
-- A cipher that hides nothing, has one tag, and keeps the laws of the real one, for the runs of the tests.
use expo_builder_local.Prelude.{
  Bytes, [], ◌∷◌, append-nil, Bool, true, ◌&&◌, bytes_eq, bytes_eq_iff, Option, none, some, ◌≡◌,
  refl, All, IsByte, length, replicate, ltb, if◌then◌else◌, arith, Bool-cases, inl, inr, ap, sym,
  ◌∙◌,
}
use expo_builder_local.Crypto.{Cipher, done, failed, Aes, AesLaws, Decryption, tag_len}

abbrev pub all_bytes : Bytes → Bool
all_bytes [] = true
all_bytes (c ∷ s) = ltb c 256 && all_bytes s

all_bytes_sound : (s : Bytes) → all_bytes s ≡ true → All IsByte s
all_bytes_sound [] h = tt
all_bytes_sound (c ∷ s) h = (ground arith, all_bytes_sound s (ground arith))

abbrev zeros : Bytes
zeros = replicate tag_len 0

abbrev seal_plain : Bytes → Cipher (Bytes × Bytes)
seal_plain plain = if all_bytes plain then done (plain, zeros) else failed

abbrev pub plain_cipher : Aes
plain_cipher = record {
  seal = λ key iv plain. seal_plain plain;
  Context = Bytes;
  new_context = some [];
  select_cipher = λ c. some c;
  set_key_iv = λ key iv c. some c;
  set_iv_len = λ n c. some c;
  set_tag = λ tag c. some tag;
  decrypt_update = λ ciphertext c. some (ciphertext, c);
  decrypt_final = λ tag. if bytes_eq tag zeros then some [] else none;
}

outputs : (A : Type 0) → Cipher A → A → A
outputs A (done x) y = x
outputs A _ y = y

sealed :
    (plain c t : Bytes)
    → seal_plain plain ≡ done (c, t)
    → (all_bytes plain ≡ true) × ◌≡◌ {A = Bytes × Bytes} (plain, zeros) (c, t)
unfolding outputs
sealed plain c t h = elim (Bool-cases (all_bytes plain)) [
  | inl e ↦ (e, ap (λ x. outputs (Bytes × Bytes) x (c, t)) (rw e at h))
  | inr e ↦ absurd (cc (rw e at h))
]

abbrev value_of : Option Bytes → Bytes → Bytes
value_of none default = default
value_of (some s) default = s

abbrev outputs_of : Option (Bytes × Bytes) → Bytes × Bytes → Bytes
outputs_of none default = default.0
outputs_of (some s) default = s.0

final_zeros : (t : Bytes) → t ≡ zeros → plain_cipher.decrypt_final t ≡ some []
final_zeros t e = rw ((bytes_eq_iff t zeros).1 e) refl

final_ok :
    (tag rest : Bytes) → plain_cipher.decrypt_final tag ≡ some rest → (tag ≡ zeros) × (rest ≡ [])
final_ok tag rest h = elim (Bool-cases (bytes_eq tag zeros)) [
  | inl e ↦ ((bytes_eq_iff tag zeros).0 e, ap (λ x. value_of x []) (sym (rw e at h)))
  | inr e ↦ absurd (cc (rw e at h))
]

pub plain_cipher-AesLaws : AesLaws plain_cipher
plain_cipher-AesLaws = record {
  tag_length = λ key iv plain c t h. ap (λ x. length x.1) (sym (sealed plain c t h).1);
  sealed_bytes = λ key iv plain c t h. bytes plain c t (sealed plain c t h);
  unseal-seal = λ key iv plain c t n h. unsealed key iv plain c t (sealed plain c t h).1;
  authentic =
      λ key iv plain c t c' t' n m d h. same key iv plain c t c' t' d (sealed plain c' t' h).1;
}
  where
    bytes :
        (plain c t : Bytes)
        → (all_bytes plain ≡ true) × ◌≡◌ {A = Bytes × Bytes} (plain, zeros) (c, t)
        → All IsByte c × All IsByte t
    bytes plain c t (h, e) = (
      all_bytes_sound c (ap (λ x. all_bytes x.0) (sym e) ∙ h),
      all_bytes_sound t (ap (λ x. all_bytes x.1) (sym e)),
    )

    unsealed :
        (key iv plain c t : Bytes)
        → ◌≡◌ {A = Bytes × Bytes} (plain, zeros) (c, t)
        → Decryption plain_cipher key iv t c plain
    unsealed key iv plain c t e = record {
      c0 = [];
      c1 = [];
      c2 = [];
      c3 = [];
      c4 = [];
      c5 = t;
      front = c;
      rest = [];
      created = refl;
      selected = refl;
      sized = refl;
      keyed = refl;
      updated = refl;
      tagged = refl;
      finished = final_zeros t (ap (λ x. x.1) (sym e));
      written = ap (λ x. x.0) e ∙ sym (append-nil c);
    }

    same :
        (key iv plain c t c' t' : Bytes)
        → Decryption plain_cipher key iv t c plain
        → ◌≡◌ {A = Bytes × Bytes} (plain, zeros) (c', t')
        → (c' ≡ c) × (t' ≡ t)
    same key iv plain c t c' t' d e =
        let (is_zeros, nothing) = final_ok d.c5 d.rest d.finished in
        let front : c ≡ d.front = ap (λ x. outputs_of x ([], [])) d.updated in
        let whole : plain ≡ d.front = d.written ∙ rw nothing (append-nil d.front) in
        let tagged : t ≡ d.c5 = ap (λ x. value_of x []) d.tagged in
        (
          ap (λ x. x.0) (sym e) ∙ whole ∙ sym front,
          ap (λ x. x.1) (sym e) ∙ sym is_zeros ∙ sym tagged,
        )
