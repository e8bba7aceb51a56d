-- ===== src/Base64/Tests.antt =====
-- Runs of the encoder and the decoder, and the theorems at work on concrete texts.
use expo_builder_local.Prelude.{◌+◌, ◌*◌, ◌/◌, [], ◌∷◌, codes, ◌≡◌, refl, arith, length}
use expo_builder_local.Exception.{ok}
use expo_builder_local.Base64.{encode, decode}
use expo_builder_local.Base64.Laws.{decode-encode}
use expo_builder_local.Base64.Shape.{length-encode, all_base64, Accepts, decode-Accepts}

encoded : encode (codes "Many") ≡ codes "TWFueQ=="
unfolding encode
encoded = refl

decoded : decode (codes "TWFu\neQ==") ≡ ok (codes "Many")
unfolding decode
decoded = refl

decode-encode_example : decode (encode (0 ∷ 255 ∷ 128 ∷ 7 ∷ [])) ≡ ok (0 ∷ 255 ∷ 128 ∷ 7 ∷ [])
decode-encode_example =
    decode-encode (0 ∷ 255 ∷ 128 ∷ 7 ∷ [])
      (omega arith, (omega arith, (omega arith, (omega arith, tt))))

length-encode_example : length (encode (codes "Many")) ≡ (length (codes "Many") + 2) / 3 * 4
length-encode_example = length-encode (codes "Many")

decode-Accepts_example : Accepts (all_base64 (codes "T!")) (decode (codes "T!"))
decode-Accepts_example = decode-Accepts (codes "T!") (omega arith, (omega arith, tt))
