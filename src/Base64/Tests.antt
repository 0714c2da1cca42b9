-- ===== src/Base64/Tests.antt =====
-- Base64 at concrete inputs.
use heaphttpd.Prelude.{◌+◌, ◌*◌, ◌/◌, ◌≡◌, refl, [], ◌∷◌, Bytes, some, none, length, arith}
use heaphttpd.Base64.{
  base64_encode_output_max_len, base64_decode_output_max_len, codes, decode, decode_loop,
  encode_quad, encoded, undefined, encode, encode_loop,
}
use heaphttpd.Base64.RoundTrip.{decode-encode}

abbrev foob : Bytes
foob = 102 ∷ 111 ∷ 111 ∷ 98 ∷ []

-- "Zm9vYg=="
abbrev text : Bytes
text = 90 ∷ 109 ∷ 57 ∷ 118 ∷ 89 ∷ 103 ∷ 61 ∷ 61 ∷ []

foob_is_text : encode foob 9 ≡ encoded text
unfolding encode encode_loop encode_quad
foob_is_text = refl

-- The check in front of a group lets it run over the end of a shorter buffer.
encode_over : encode foob 7 ≡ undefined
unfolding encode encode_loop encode_quad
encode_over = refl

-- Characters outside of the alphabet are skipped; a buffer that the result fills is too small.
decode_spaces : decode (90 ∷ 32 ∷ 109 ∷ 57 ∷ 10 ∷ 118 ∷ []) 4 ≡ some (102 ∷ 111 ∷ 111 ∷ [])
unfolding decode decode_loop codes
decode_spaces = refl

decode_full : decode text 4 ≡ none
unfolding decode decode_loop codes
decode_full = refl

decode-encode_example :
    (t : Bytes) × (encode foob 9 ≡ encoded t)
    × (length t ≡ (4 + 2) / 3 * 4)
    × (decode t 7 ≡ some foob)
decode-encode_example =
    decode-encode foob 9 7 (ground arith) (unfold base64_encode_output_max_len in omega arith)
      (unfold base64_decode_output_max_len in omega arith)
