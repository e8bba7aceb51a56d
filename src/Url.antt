-- ===== src/Url.antt =====
-- `urlEncode` of cli-cpp-legacy/src/http_client_common.cpp.
pub mod Laws
mod Tests
use expo_builder_local.Prelude.{
  ℕ, ◌+◌, ◌-◌, ◌/◌, ◌%◌, Bool, ◌&&◌, ◌||◌, Bytes, [], ◌∷◌, ◌++◌, ltb, leb, ◌==◌, if◌then◌else◌,
}

-- std::isalnum in the C locale
unfoldable pub is_alnum : ℕ → Bool
is_alnum c = (leb b'0' c && leb c b'9') || (leb b'A' c && leb c b'Z') || (leb b'a' c && leb c b'z')

unfoldable pub is_unreserved : ℕ → Bool
unfolding is_alnum
is_unreserved c = is_alnum c || c == b'-' || c == b'_' || c == b'.' || c == b'~'

-- hex[n] of "0123456789ABCDEF"
hex : ℕ → ℕ
hex n = if ltb n 10 then b'0' + n else b'A' + (n - 10)

-- what one round of the loop appends
encode_byte : ℕ → Bytes
encode_byte c = if is_unreserved c then c ∷ [] else b'%' ∷ hex (c / 16 % 16) ∷ hex (c % 16) ∷ []

unfoldable pub url_encode : Bytes → Bytes
unfolding encode_byte is_unreserved hex
url_encode [] = []
url_encode (c ∷ s) = encode_byte c ++ url_encode s
