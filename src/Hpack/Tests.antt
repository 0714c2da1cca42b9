-- ===== src/Hpack/Tests.antt =====
-- The prefixed integers of src/hpack.cpp at concrete inputs, among them the examples of RFC 7541.
use heaphttpd.Prelude.{
  ℕ, suc, ◌+◌, ◌*◌, ◌^◌, ◌≤◌, ◌≡◌, refl, [], ◌∷◌, ◌++◌, some, none, Bytes, length, arith,
}
use heaphttpd.Hpack.Integer.{
  ok, undefined, decode_integer, decode_integer_loop, encode_integer, encode_integer_loop,
}
use heaphttpd.Hpack.Integer.RoundTrip.{decode_integer-encode_integer}

encode_1337 : encode_integer 256 1337 5 ≡ some (31 ∷ 154 ∷ 10 ∷ [])
unfolding encode_integer encode_integer_loop
encode_1337 = refl

-- the upper bits of the first byte are not the integer's
decode_1337 : decode_integer (255 ∷ 154 ∷ 10 ∷ 7 ∷ []) 5 ≡ ok 1337 3
unfolding decode_integer decode_integer_loop
decode_1337 = refl

-- a sixth continuation byte, and a sum that wraps
decode_sixth : decode_integer (127 ∷ 128 ∷ 128 ∷ 128 ∷ 128 ∷ 128 ∷ 0 ∷ []) 7 ≡ undefined
unfolding decode_integer decode_integer_loop
decode_sixth = refl

decode_wraps : decode_integer (127 ∷ 255 ∷ 255 ∷ 255 ∷ 255 ∷ 15 ∷ []) 7 ≡ ok 126 6
unfolding decode_integer decode_integer_loop
decode_wraps = refl

-- Three bytes hold the value, but `encode_integer` wants a fourth.
encode_needs_spare : encode_integer 3 1337 5 ≡ none
unfolding encode_integer encode_integer_loop
encode_needs_spare = refl

decode_integer-encode_integer_example :
    (b : ℕ) × (bs : Bytes) × (encode_integer 256 1337 5 ≡ some (b ∷ bs))
    × (length bs ≤ 5)
    × (decode_integer ((b + 2 * 2 ^ 5) ∷ (bs ++ 7 ∷ [])) 5 ≡ ok 1337 (suc (length bs)))
decode_integer-encode_integer_example =
    decode_integer-encode_integer 5 256 2 1337 (7 ∷ []) (omega arith) (omega arith) (omega arith)
      (omega arith)
