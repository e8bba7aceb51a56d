-- ===== src/Crypto/Tests.antt =====
-- The theorems at work on concrete values.
use expo_builder_local.Prelude.{
  ◌+◌, ◌≤◌, Bytes, codes, replicate, some, ◌≡◌, refl, All, IsByte, length, take, arith, ◌++◌,
}
use expo_builder_local.Exception.{ok}
use expo_builder_local.Base64.{encode, decode}
use expo_builder_local.Crypto.{iv_len, tag_len, aes_encrypt, aes_decrypt}
use expo_builder_local.Crypto.Laws.{aes_decrypt-aes_encrypt, aes_decrypt_authentic}
use expo_builder_local.Crypto.Plain.{plain_cipher, plain_cipher-AesLaws}

abbrev iv : Bytes
iv = replicate 12 9

abbrev token : Bytes
token = encode (replicate 12 9 ++ (replicate 16 0 ++ codes "token"))

encrypted : aes_encrypt plain_cipher (some iv) (codes "token") (codes "key") ≡ ok token
unfolding aes_encrypt
encrypted = refl

small : All IsByte iv
small = (
  omega arith,
  (
    omega arith,
    (
      omega arith,
      (
        omega arith,
        (
          omega arith,
          (
            omega arith,
            (
              omega arith,
              (omega arith, (omega arith, (omega arith, (omega arith, (omega arith, tt))))),
            ),
          ),
        ),
      ),
    ),
  ),
)

aes_decrypt-aes_encrypt_example : aes_decrypt plain_cipher token (codes "key") ≡ ok (codes "token")
aes_decrypt-aes_encrypt_example =
    aes_decrypt-aes_encrypt plain_cipher plain_cipher-AesLaws iv (codes "token") (codes "key") token
      refl small encrypted

aes_decrypt_authentic_example :
    (blob : Bytes) × (decode token ≡ ok blob)
    × (iv_len + tag_len ≤ length blob)
    × ((again : Bytes)
        → aes_encrypt plain_cipher (some (take iv_len blob)) (codes "token") (codes "key")
          ≡ ok again
        → again ≡ encode blob)
aes_decrypt_authentic_example =
    aes_decrypt_authentic plain_cipher plain_cipher-AesLaws token (codes "key") (codes "token")
      aes_decrypt-aes_encrypt_example
