-- ===== src/Url/Tests.antt =====
-- Runs of the escaping of queries, and the theorems at work on concrete texts.
use expo_builder_local.Prelude.{[], ◌∷◌, codes, ◌≡◌, refl, some, arith}
use expo_builder_local.Url.{url_encode}
use expo_builder_local.Url.Laws.{url_decode, url_decode-url_encode}

encoded : url_encode (codes "a b/é") ≡ codes "a%20b%2F%E9"
unfolding url_encode
encoded = refl

url_decode-url_encode_example :
    url_decode (url_encode (37 ∷ 200 ∷ 97 ∷ [])) ≡ some (37 ∷ 200 ∷ 97 ∷ [])
url_decode-url_encode_example =
    url_decode-url_encode (37 ∷ 200 ∷ 97 ∷ []) (omega arith, (omega arith, (omega arith, tt)))
