-- ===== src/Ignition/Encode.antt =====
-- urlEncode, which is url.PathEscape of net/url.
pub mod Decoded
use cluster_api_provider_het.Prelude.{
  ℕ, ◌+◌, ◌/◌, ◌%◌, Bool, ◌&&◌, ◌||◌, [], ◌∷◌, ltb, leb, ◌==◌, if◌then◌else◌,
}
use cluster_api_provider_het.Text.{Text}

abbrev is_alphanumeric : ℕ → Bool
is_alphanumeric c = leb b'a' c && leb c b'z' || leb b'A' c && leb c b'Z' || leb b'0' c && leb c b'9'

-- The bytes that url.PathEscape leaves as they are: the unreserved ones, and `$&+=:@`.
unfoldable pub is_plain : ℕ → Bool
is_plain c =
    is_alphanumeric c
    || (c == b'-' || c == b'_' || c == b'.' || c == b'~')
    || (c == b'$' || c == b'&' || c == b'+' || c == b'=' || c == b':' || c == b'@')

-- A digit of "0123456789ABCDEF".
unfoldable pub hex_digit : ℕ → ℕ
hex_digit n = if ltb n 10 then n + 48 else n + 55

unfoldable pub url_encode : Text → Text
unfolding is_plain hex_digit
url_encode [] = []
url_encode (c ∷ s) =
    let rest = url_encode s in
    if is_plain c then c ∷ rest else b'%' ∷ hex_digit (c / 16) ∷ hex_digit (c % 16) ∷ rest
