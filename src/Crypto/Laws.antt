-- ===== src/Crypto/Laws.antt =====
-- Decryption undoes encryption, and returns nothing that the cipher has not authenticated.
use expo_builder_local.Prelude.{
  ℕ, zero, suc, ◌+◌, ◌≤◌, Bytes, [], ◌∷◌, ◌++◌, append_assoc, Option, none, some, ◌≡◌, refl, sym,
  ap, ◌∙◌, All, All-append, IsByte, length, take, drop, arith, length-append, length-take,
  length-drop, take-length-append, drop-length-append, ltb, Bool-cases, inl, inr, false,
}
use expo_builder_local.Exception.{ok, ok_inj, ◌>>=◌, >>=-eq-ok}
use expo_builder_local.Base64.{encode, decode}
use expo_builder_local.Base64.Laws.{decode-encode}
use expo_builder_local.Crypto.{
  iv_len, tag_len, Cipher, no_context, failed, done, Aes, AesLaws, Decryption, and_ok, sealed_blob,
  aes_encrypt, decrypted, authenticated, opened, open_blob, aes_decrypt,
}

take_at : (n : ℕ) (xs ys : Bytes) → length xs ≡ n → take n (xs ++ ys) ≡ xs
take_at n xs ys h = rw (← h) (take-length-append xs ys)

drop_at : (n : ℕ) (xs ys : Bytes) → length xs ≡ n → drop n (xs ++ ys) ≡ ys
drop_at n xs ys h = rw (← h) (drop-length-append xs ys)

take-append-drop : (n : ℕ) (xs : Bytes) → take n xs ++ drop n xs ≡ xs
take-append-drop zero xs = refl
take-append-drop (suc n) [] = refl
take-append-drop (suc n) (x ∷ xs) = ap (λ l. x ∷ l) (take-append-drop n xs)

drop_twice : (k m n : ℕ) (xs : Bytes) → k ≡ m + n → drop k xs ≡ drop n (drop m xs)
drop_twice k zero n xs e = ap (λ j. drop j xs) (omega (arith, e))
drop_twice zero (suc m) n xs e = absurd (omega (arith, e))
drop_twice (suc k) (suc m) zero [] e = refl
drop_twice (suc k) (suc m) (suc n) [] e = refl
drop_twice (suc k) (suc m) n (x ∷ xs) e = drop_twice k m n xs (omega (arith, e))

-- The parts of a blob.
parts : (blob : Bytes) → take 12 blob ++ (take 16 (drop 12 blob) ++ drop 28 blob) ≡ blob
parts blob =
    let behind : drop 28 blob ≡ drop 16 (drop 12 blob) = drop_twice 28 12 16 blob (omega arith) in
    rw (behind, take-append-drop 16 (drop 12 blob)) (take-append-drop 12 blob)

some_inj : {s t : Bytes} → some s ≡ some t → s ≡ t
some_inj h = cc

module _ (aes : Aes) where
  decrypt_lem :
      (e key : Bytes) → aes_decrypt aes e key ≡ (decode e >>= λ blob. open_blob aes blob key)
  unfolding aes_decrypt
  decrypt_lem e key = refl

  open_blob_parts :
      (iv tag c key : Bytes)
      → length iv ≡ iv_len
      → length tag ≡ tag_len
      → open_blob aes (iv ++ (tag ++ c)) key ≡ opened aes key iv tag c aes.new_context
  unfolding open_blob
  open_blob_parts iv tag c key hi ht =
      let long : ltb (length (iv ++ (tag ++ c))) (iv_len + tag_len) ≡ false =
        ground (arith, length-append iv (tag ++ c), length-append tag c) in
      let whole : drop (iv_len + tag_len) (iv ++ (tag ++ c)) ≡ c =
        rw (← append_assoc iv tag c)
          (drop_at 28 (iv ++ tag) c (omega (arith, length-append iv tag))) in
      rw
        (long, take_at 12 iv (tag ++ c) hi, drop_at 12 iv (tag ++ c) hi, take_at 16 tag c ht, whole)
        refl

  decrypted-Decryption :
      (key iv tag c plain : Bytes) (d : Decryption aes key iv tag c plain)
      → decrypted aes key iv tag c d.c0 ≡ some plain
  unfolding decrypted and_ok
  decrypted-Decryption key iv tag c plain d =
      rw (d.selected, d.sized, d.keyed, d.updated, d.tagged, d.finished)
        (ap (λ s. some s) (sym d.written))

  opened-Decryption :
      (key iv tag c plain : Bytes)
      → Decryption aes key iv tag c plain
      → opened aes key iv tag c aes.new_context ≡ ok plain
  unfolding opened authenticated
  opened-Decryption key iv tag c plain d =
      rw (d.created, decrypted-Decryption key iv tag c plain d) refl

  -- The first of the calls that succeed has succeeded.
  and_ok-eq-some :
      {A B : Type 0} (first : Option A) (next : A → Option B) {b : B}
      → and_ok first next ≡ some b
      → (a : A) × (first ≡ some a) × (next a ≡ some b)
  unfolding and_ok
  and_ok-eq-some none next h = absurd (cc)
  and_ok-eq-some (some a) next h = (a, refl, h)

  decrypted_ok :
      (key iv tag c plain : Bytes) (c0 : aes.Context)
      → aes.new_context ≡ some c0
      → decrypted aes key iv tag c c0 ≡ some plain
      → Decryption aes key iv tag c plain
  unfolding decrypted
  decrypted_ok key iv tag c plain c0 e h =
      let (c1, e1, h1) = and_ok-eq-some (aes.select_cipher c0) _ h in
      let (c2, e2, h2) = and_ok-eq-some (aes.set_iv_len iv_len c1) _ h1 in
      let (c3, e3, h3) = and_ok-eq-some (aes.set_key_iv key iv c2) _ h2 in
      let (o, e4, h4) = and_ok-eq-some (aes.decrypt_update c c3) _ h3 in
      let (c5, e5, h5) = and_ok-eq-some (aes.set_tag tag o.1) _ h4 in
      let (rest, e6, h6) = and_ok-eq-some (aes.decrypt_final c5) _ h5 in
      record {
        c0 = c0;
        c1 = c1;
        c2 = c2;
        c3 = c3;
        c4 = o.1;
        c5 = c5;
        front = o.0;
        rest = rest;
        created = e;
        selected = e1;
        sized = e2;
        keyed = e3;
        updated = e4;
        tagged = e5;
        finished = e6;
        written = some_inj (sym h6);
      }

  sealed_blob_cases :
      (iv e : Bytes) (r : Cipher (Bytes × Bytes))
      → sealed_blob aes iv r ≡ ok e
      → (c : Bytes) × (t : Bytes) × (r ≡ done (c, t)) × (e ≡ encode (iv ++ (t ++ c)))
  unfolding sealed_blob
  sealed_blob_cases iv e no_context h = cc
  sealed_blob_cases iv e failed h = cc
  sealed_blob_cases iv e (done (c, t)) h = (c, t, refl, cc)

  -- What `aesEncrypt` returns for an IV of 12 bytes, `aesDecrypt` decrypts with the same key to the
  -- plaintext, where the cipher keeps what OpenSSL documents.
  pub aes_decrypt-aes_encrypt :
      (laws : AesLaws aes) (iv plaintext key e : Bytes)
      → length iv ≡ iv_len
      → All IsByte iv
      → aes_encrypt aes (some iv) plaintext key ≡ ok e
      → aes_decrypt aes e key ≡ ok plaintext
  aes_decrypt-aes_encrypt laws iv plaintext key e hl hb h =
      let (c, t, s, p) =
        sealed_blob_cases iv e (aes.seal key iv plaintext) (unfold aes_encrypt in h) in
      let (hc, ht) = laws.sealed_bytes key iv plaintext c t s in
      let d : decode e ≡ ok (iv ++ (t ++ c)) = rw p (
        decode-encode (iv ++ (t ++ c))
          (All-append IsByte iv (t ++ c) hb (All-append IsByte t c ht hc))) in
      rw
        (
          decrypt_lem e key,
          d,
          open_blob_parts iv t c key hl (laws.tag_length key iv plaintext c t s),
        )
        (opened-Decryption key iv t c plaintext (laws.unseal-seal key iv plaintext c t hl s))

  authenticated_ok :
      (o : Option Bytes) (plain : Bytes) → authenticated aes o ≡ ok plain → o ≡ some plain
  unfolding authenticated
  authenticated_ok none plain h = absurd (cc)
  authenticated_ok (some p) plain h = ap (λ s. some s) (ok_inj h)

  opened_ok :
      (key iv tag c plain : Bytes) (o : Option aes.Context)
      → aes.new_context ≡ o
      → opened aes key iv tag c o ≡ ok plain
      → Decryption aes key iv tag c plain
  unfolding opened
  opened_ok key iv tag c plain none e h = absurd (cc)
  opened_ok key iv tag c plain (some c0) e h =
      decrypted_ok key iv tag c plain c0 e
        (authenticated_ok (decrypted aes key iv tag c c0) plain h)

  open_blob_ok :
      (blob key plaintext : Bytes)
      → open_blob aes blob key ≡ ok plaintext
      → (iv_len + tag_len ≤ length blob)
        × Decryption aes key
            (take iv_len blob)
            (take tag_len (drop iv_len blob))
            (drop (iv_len + tag_len) blob)
            plaintext
  unfolding open_blob
  open_blob_ok blob key plaintext h = elim (Bool-cases (ltb (length blob) (iv_len + tag_len))) [
    | inl e ↦ absurd (cc (h, e))
    | inr e ↦ (ground arith, opened_ok key _ _ _ plaintext aes.new_context refl (rw e at h))
  ]

  -- `aesDecrypt` returns a plaintext only if its input is base64 of at least 28 bytes, and only if
  -- `aesEncrypt`, where it returns for that plaintext, the key and the IV in front of those bytes, gives
  -- the base64 of just those bytes. The cipher keeps what OpenSSL documents.
  pub aes_decrypt_authentic :
      (laws : AesLaws aes) (e key plaintext : Bytes)
      → aes_decrypt aes e key ≡ ok plaintext
      → (blob : Bytes) × (decode e ≡ ok blob)
        × (iv_len + tag_len ≤ length blob)
        × ((again : Bytes)
            → aes_encrypt aes (some (take iv_len blob)) plaintext key ≡ ok again
            → again ≡ encode blob)
  aes_decrypt_authentic laws e key plaintext h =
      let (blob, d, o) = >>=-eq-ok (decode e) _ (rw (decrypt_lem e key) at h) in
      let (n, u) = open_blob_ok blob key plaintext o in
      (blob, d, n, λ again k. same_blob blob again n u k)
    where
      same_blob :
          (blob again : Bytes)
          → iv_len + tag_len ≤ length blob
          → Decryption aes key
              (take iv_len blob)
              (take tag_len (drop iv_len blob))
              (drop (iv_len + tag_len) blob)
              plaintext
          → aes_encrypt aes (some (take iv_len blob)) plaintext key ≡ ok again
          → again ≡ encode blob
      same_blob blob again n u k =
          let li : length (take 12 blob) ≡ 12 = omega (arith, length-take 12 blob, n) in
          let lt : length (take 16 (drop 12 blob)) ≡ 16 =
            omega (arith, length-take 16 (drop 12 blob), length-drop 12 blob, n) in
          let (c, t, s, p) =
            sealed_blob_cases (take iv_len blob) again (aes.seal key (take iv_len blob) plaintext)
              (unfold aes_encrypt in k) in
          let (same_c, same_t) = laws.authentic key _ plaintext _ _ c t li lt u s in
          p ∙ ap encode (rw (same_c, same_t) (parts blob))
