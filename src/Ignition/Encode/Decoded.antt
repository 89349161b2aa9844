-- ===== src/Ignition/Encode/Decoded.antt =====
-- url.PathEscape, against the way a reader of URIs decodes percent signs.
use cluster_api_provider_het.Prelude.{
  ℕ, ◌+◌, ◌-◌, ◌*◌, ◌/◌, ◌%◌, ◌<◌, ◌≡◌, refl, true, ◌&&◌, Option, none, some, [], ◌∷◌, leb, ◌==◌,
  if◌then◌else◌, arith, Bool-cases, inl, inr, ap,
}
use cluster_api_provider_het.Text.{Text}
use cluster_api_provider_het.Ignition.Encode.{is_plain, hex_digit, url_encode}

-- What a decoder has read: whole bytes, a percent sign, or a percent sign and a digit.
pub data Progress : Type 0 where
  whole opened : Progress
  halfway : ℕ → Progress

-- The value of a hexadecimal digit.
unfoldable pub hex_value : ℕ → Option ℕ
hex_value c =
    if leb b'0' c && leb c b'9'
    then some (c - 48)
    else if leb b'A' c && leb c b'F'
    then some (c - 55)
    else if leb b'a' c && leb c b'f'
    then some (c - 87)
    else none

abbrev cons_byte : ℕ → Option Text → Option Text
cons_byte c none = none
cons_byte c (some s) = some (c ∷ s)

-- Percent decoding (RFC 3986, 2.1); `none` where a percent sign has no two digits behind it.
unfoldable pub percent_decode : Progress → Text → Option Text
percent_decode whole [] = some []
percent_decode whole (c ∷ s) =
    let escape = percent_decode opened s in
    let rest = percent_decode whole s in if c == b'%' then escape else cons_byte c rest
percent_decode opened [] = none
percent_decode opened (c ∷ s) = elim (hex_value c) [
  | none ↦ none
  | some h ↦ percent_decode (halfway h) s
]
percent_decode (halfway h) [] = none
percent_decode (halfway h) (c ∷ s) =
    let rest = percent_decode whole s in
    elim (hex_value c) [ none ↦ none | some l ↦ cons_byte (h * 16 + l) rest ]

-- Every item is a byte.
abbrev pub AreBytes : Text → Type 0
AreBytes [] = Unit
AreBytes (c ∷ s) = (c < 256) × AreBytes s

hex_value-hex_digit : (n : ℕ) → n < 16 → hex_value (hex_digit n) ≡ some n
unfolding hex_value hex_digit
hex_value-hex_digit n h = ground arith

decode_plain :
    (c : ℕ) (s : Text)
    → is_plain c ≡ true
    → percent_decode whole (c ∷ s) ≡ cons_byte c (percent_decode whole s)
unfolding percent_decode is_plain
decode_plain c s h = ground arith

decode_escape :
    (h l : ℕ) (s : Text)
    → h < 16
    → l < 16
    → percent_decode whole (b'%' ∷ hex_digit h ∷ hex_digit l ∷ s)
      ≡ cons_byte (h * 16 + l) (percent_decode whole s)
unfolding percent_decode
decode_escape h l s p q = ground (arith, hex_value-hex_digit h, hex_value-hex_digit l)

-- Whatever bytes a file's content has, a decoder of percent signs reads them back, all of them and
-- in order, from the payload of its data URI.
pub percent_decode-url_encode :
    (s : Text) → AreBytes s → percent_decode whole (url_encode s) ≡ some s
unfolding url_encode
percent_decode-url_encode [] b = unfold percent_decode in refl
percent_decode-url_encode (c ∷ s) (b, bs) = elim (Bool-cases (is_plain c)) [
  | inl p ↦ rw (p, decode_plain c (url_encode s) p, percent_decode-url_encode s bs)
  | inr n ↦
      rw
        (
          n,
          decode_escape (c / 16) (c % 16) (url_encode s) (omega arith) (omega arith),
          percent_decode-url_encode s bs,
        )
        (ap (λ (d : ℕ). some (d ∷ s)) (omega arith))
]
