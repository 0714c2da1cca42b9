-- ===== src/Escape/Tests.antt =====
-- URIs at concrete inputs.
use heaphttpd.Prelude.{◌≡◌, refl, [], ◌∷◌, Bytes, some, none, arith}
use heaphttpd.Escape.{encode_uri, decode_uri, hex_digit, is_alphanumeric, is_mark}
use heaphttpd.Escape.RoundTrip.{decode_uri-encode_uri}

-- "a+b" and "a%2Bb"
abbrev plain : Bytes
plain = 97 ∷ 43 ∷ 98 ∷ []

plus_is_escaped : encode_uri plain ≡ 97 ∷ 37 ∷ 50 ∷ 66 ∷ 98 ∷ []
unfolding encode_uri is_alphanumeric is_mark hex_digit
plus_is_escaped = refl

plus_is_space : decode_uri plain ≡ some (97 ∷ 32 ∷ 98 ∷ [])
unfolding decode_uri is_alphanumeric is_mark
plus_is_space = refl

-- A `%` at the end makes the code read behind the string.
trailing_percent : decode_uri (97 ∷ 37 ∷ []) ≡ none
unfolding decode_uri is_alphanumeric is_mark
trailing_percent = refl

decode_uri-encode_uri_example : decode_uri (encode_uri plain) ≡ some plain
decode_uri-encode_uri_example = decode_uri-encode_uri plain (ground arith)
