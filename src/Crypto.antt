-- ===== src/Crypto.antt =====
-- cli-cpp-legacy/src/crypto.cpp: `aesEncrypt` and `aesDecrypt`. OpenSSL's AES-256-GCM is a parameter.
pub mod Laws
pub mod Plain
mod Tests
use expo_builder_local.Prelude.{
  ℕ, ◌+◌, Bytes, ◌++◌, Option, none, some, ◌≡◌, All, IsByte, length, take, drop, ltb, text,
  if◌then◌else◌,
}
use expo_builder_local.Exception.{Result, ok, err, runtime_error, ◌>>=◌}
use expo_builder_local.Base64.{encode, decode}

abbrev pub iv_len : ℕ
iv_len = 12

abbrev pub tag_len : ℕ
tag_len = 16

-- What a sequence of EVP calls comes to: no context, a call that fails, or its output.
pub data Cipher (A : Type 0) : Type 0 where
  no_context : Cipher A
  failed : Cipher A
  done : A → Cipher A

-- AES-256-GCM of OpenSSL. A call gives none where it does not return 1.
pub record Aes : Type 1 where
  -- the ciphertext and the tag, from a key, an IV and a plaintext
  pub seal : Bytes → Bytes → Bytes → Cipher (Bytes × Bytes)
  pub Context : Type 0
  -- EVP_CIPHER_CTX_new
  pub new_context : Option Context
  -- EVP_DecryptInit_ex with EVP_aes_256_gcm, and with a key and an IV
  pub select_cipher : Context → Option Context
  pub set_key_iv : Bytes → Bytes → Context → Option Context
  -- EVP_CIPHER_CTX_ctrl with EVP_CTRL_GCM_SET_IVLEN and with EVP_CTRL_GCM_SET_TAG
  pub set_iv_len : ℕ → Context → Option Context
  pub set_tag : Bytes → Context → Option Context
  -- EVP_DecryptUpdate and EVP_DecryptFinal_ex, with what they write
  pub decrypt_update : Bytes → Context → Option (Bytes × Context)
  pub decrypt_final : Context → Option Bytes

-- The calls that OpenSSL documents for decrypting, each of which succeeds: from a key, an IV, a tag
-- and a ciphertext to a plaintext.
pub record Decryption (aes : Aes) (key iv tag ciphertext plain : Bytes) : Type 0 where
  pub c0 : aes.Context
  pub c1 : aes.Context
  pub c2 : aes.Context
  pub c3 : aes.Context
  pub c4 : aes.Context
  pub c5 : aes.Context
  pub front : Bytes
  pub rest : Bytes
  pub created : aes.new_context ≡ some c0
  pub selected : aes.select_cipher c0 ≡ some c1
  pub sized : aes.set_iv_len iv_len c1 ≡ some c2
  pub keyed : aes.set_key_iv key iv c2 ≡ some c3
  pub updated : aes.decrypt_update ciphertext c3 ≡ some (front, c4)
  pub tagged : aes.set_tag tag c4 ≡ some c5
  pub finished : aes.decrypt_final c5 ≡ some rest
  pub written : plain ≡ front ++ rest

-- What OpenSSL documents of IVs of 12 bytes: a tag of 16 bytes; decryption undoes encryption; and EVP_DecryptFinal_ex
-- succeeds only for the ciphertext and the tag that the plaintext has under the key and the IV.
pub record AesLaws (aes : Aes) : Type 0 where
  pub tag_length :
      (key iv plain c t : Bytes) → aes.seal key iv plain ≡ done (c, t) → length t ≡ tag_len
  pub sealed_bytes :
      (key iv plain c t : Bytes) → aes.seal key iv plain ≡ done (c, t) → All IsByte c × All IsByte t
  pub unseal-seal :
      (key iv plain c t : Bytes)
      → length iv ≡ iv_len
      → aes.seal key iv plain ≡ done (c, t)
      → Decryption aes key iv t c plain
  pub authentic :
      (key iv plain c t c' t' : Bytes)
      → length iv ≡ iv_len
      → length t ≡ tag_len
      → Decryption aes key iv t c plain
      → aes.seal key iv plain ≡ done (c', t')
      → (c' ≡ c) × (t' ≡ t)

-- `if (ok && …)`: the next call, if the calls so far have succeeded
and_ok : {A B : Type 0} → Option A → (A → Option B) → Option B
and_ok none next = none
and_ok (some a) next = next a

module _ (aes : Aes) where
  sealed_blob : Bytes → Cipher (Bytes × Bytes) → Result Bytes
  sealed_blob iv no_context = err (runtime_error (text "Failed to create cipher context"))
  sealed_blob iv failed = err (runtime_error (text "AES-256-GCM encryption failed"))
  sealed_blob iv (done (ciphertext, tag)) = ok (encode (iv ++ (tag ++ ciphertext)))

  -- `iv` is what RAND_bytes writes, none where it fails.
  unfoldable pub aes_encrypt : Option Bytes → Bytes → Bytes → Result Bytes
  unfolding sealed_blob
  aes_encrypt none plaintext key = err (runtime_error (text "Failed to generate a random IV"))
  aes_encrypt (some iv) plaintext key = sealed_blob iv (aes.seal key iv plaintext)

  -- the calls from the first EVP_DecryptInit_ex to EVP_DecryptFinal_ex
  decrypted : Bytes → Bytes → Bytes → Bytes → aes.Context → Option Bytes
  unfolding and_ok
  decrypted key iv tag ciphertext c0 = and_ok (aes.select_cipher c0) (λ c1.
      and_ok (aes.set_iv_len iv_len c1) (λ c2. and_ok (aes.set_key_iv key iv c2) (λ c3.
        and_ok (aes.decrypt_update ciphertext c3) (λ (front, c4).
          and_ok (aes.set_tag tag c4)
            (λ c5. and_ok (aes.decrypt_final c5) (λ rest. some (front ++ rest)))))))

  authenticated : Option Bytes → Result Bytes
  authenticated none = err (
      runtime_error (
        text
          "Failed to decrypt config value — the machine key may not match, or the value is corrupt"))
  authenticated (some plaintext) = ok plaintext

  opened : Bytes → Bytes → Bytes → Bytes → Option aes.Context → Result Bytes
  unfolding decrypted authenticated
  opened key iv tag ciphertext none = err (runtime_error (text "Failed to create cipher context"))
  opened key iv tag ciphertext (some c0) = authenticated (decrypted key iv tag ciphertext c0)

  open_blob : Bytes → Bytes → Result Bytes
  unfolding opened
  open_blob blob key =
      let iv = take iv_len blob in
      let tag = take tag_len (drop iv_len blob) in
      let ciphertext = drop (iv_len + tag_len) blob in
      if ltb (length blob) (iv_len + tag_len)
      then err (runtime_error (text "Encrypted value is too short to be valid"))
      else opened key iv tag ciphertext aes.new_context

  unfoldable pub aes_decrypt : Bytes → Bytes → Result Bytes
  unfolding open_blob
  aes_decrypt encoded key = do blob ← decode encoded; open_blob blob key
