-- ===== src/Base64/RoundTrip.antt =====
-- `Decode` after `Encode`, with buffers of the sizes that the macros give.
use heaphttpd.Prelude.{
  ℕ, ◌+◌, ◌*◌, ◌/◌, ◌≤◌, ◌<◌, ◌≡◌, refl, ap, ◌∙◌, [], ◌∷◌, ◌++◌, some, Bytes, length, arith, All,
  IsByte,
}
use mathlib.Core.Option
use heaphttpd.Base64.{
  decode_loop, decode, encoded, turn, encode_loop, encode, base64_encode_output_max_len,
  base64_decode_output_max_len,
}
use heaphttpd.Base64.Groups.{
  symbols_one, symbols_two, symbols_three, decode_pad, decode_one, decode_two, decode_three,
  quad_one, quad_two, quad_three,
}

-- the number of characters
abbrev pub text_len : Bytes → ℕ
text_len [] = 0
text_len (a ∷ []) = 4
text_len (a ∷ b ∷ []) = 4
text_len (a ∷ b ∷ c ∷ bytes) = text_len bytes + 4

text_len_lem : (bytes : Bytes) → text_len bytes ≡ (length bytes + 2) / 3 * 4
text_len_lem [] = omega arith
text_len_lem (a ∷ []) = omega arith
text_len_lem (a ∷ b ∷ []) = omega arith
text_len_lem (a ∷ b ∷ c ∷ bytes) = omega (arith, text_len_lem bytes)

turn-encoded :
    (outlen index : ℕ) (quad text : Bytes)
    → index + 4 ≤ outlen
    → turn outlen index quad (encoded text) ≡ encoded (quad ++ text)
turn-encoded outlen index quad text h = ground arith

encode_end : (outlen index : ℕ) → index < outlen → encode_loop [] outlen index ≡ encoded []
unfolding encode_loop
encode_end outlen index h = ground arith

decode_end : (outlen shift accum index : ℕ) → decode_loop [] outlen shift accum index ≡ some []
unfolding decode_loop
decode_end outlen shift accum index = refl

-- the text of `bytes`, of the length that it should have, from which `Decode` gets them back
abbrev Reads : Bytes → ℕ → ℕ → ℕ → ℕ → Type 0
Reads bytes outlen index room place =
    (text : Bytes) × (encode_loop bytes outlen index ≡ encoded text)
    × (length text ≡ text_len bytes)
    × ((accum : ℕ) → decode_loop text room 0 accum place ≡ some bytes)

encode_loop-Reads :
    (bytes : Bytes) (outlen index room place : ℕ)
    → All IsByte bytes
    → index + text_len bytes < outlen
    → place + length bytes < room
    → Reads bytes outlen index room place
unfolding encode_loop
encode_loop-Reads [] outlen index room place hb ho hr =
    ([], encode_end outlen index (omega arith), refl, λ accum. decode_end room 0 accum place)
encode_loop-Reads (a ∷ []) outlen index room place hb ho hr = (
  symbols_one a,
  rw (encode_end outlen (index + 4) ho, quad_one a hb.0)
      (turn-encoded outlen index (symbols_one a) [] (omega arith)),
  refl,
  λ accum.
      decode_one a 0 (61 ∷ 61 ∷ []) room accum place hb.0 (omega arith) (omega arith)
      ∙ ap (Option.map (◌∷◌ a)) (
          decode_pad (61 ∷ []) room 4 _ (place + 1)
          ∙ decode_pad [] room 4 _ (place + 1)
          ∙ decode_end room 4 _ (place + 1)),
)
encode_loop-Reads (a ∷ b ∷ []) outlen index room place hb ho hr = (
  symbols_two a b,
  rw (encode_end outlen (index + 4) ho, quad_two a b hb.0 hb.1.0)
      (turn-encoded outlen index (symbols_two a b) [] (omega arith)),
  refl,
  λ accum.
      let (accum', two) =
        decode_two a b 0 (61 ∷ []) room accum place hb.0 hb.1.0 (omega arith) (omega arith) in
      two
      ∙ ap (λ o. Option.map (◌∷◌ a) (Option.map (◌∷◌ b) o))
          (decode_pad [] room 2 _ (place + 2) ∙ decode_end room 2 _ (place + 2)),
)
encode_loop-Reads (a ∷ b ∷ c ∷ bytes) outlen index room place hb ho hr =
    let (text, q, l, d) =
      encode_loop-Reads bytes outlen (index + 4) room (place + 3) hb.1.1.1 (omega arith)
        (omega arith) in
    (
      symbols_three a b c ++ text,
      rw (q, quad_three a b c hb.0 hb.1.0 hb.1.1.0)
          (turn-encoded outlen index (symbols_three a b c) text (omega arith)),
      omega (arith, l),
      λ accum.
          let (accum', three) =
            decode_three a b c text room accum place hb.0 hb.1.0 hb.1.1.0 (omega arith) in
          three
          ∙ ap (λ o. Option.map (◌∷◌ a) (Option.map (◌∷◌ b) (Option.map (◌∷◌ c) o))) (d accum'),
    )

enough_for_text : (bytes : Bytes) → text_len bytes < base64_encode_output_max_len (length bytes)
unfolding base64_encode_output_max_len
enough_for_text bytes = rw (text_len_lem bytes) (ground arith)

enough_for_bytes : (bytes : Bytes) → length bytes < base64_decode_output_max_len (text_len bytes)
unfolding base64_decode_output_max_len
enough_for_bytes bytes = rw (text_len_lem bytes) (ground arith)

-- Into a buffer of the size that the macro gives, or a larger one, `Encode` writes four characters
-- for three bytes, and nothing behind the buffer. `Decode` gets the bytes back from them, into a
-- buffer of the size that its macro gives for them, or a larger one.
pub decode-encode :
    (bytes : Bytes) (outlen room : ℕ)
    → All IsByte bytes
    → base64_encode_output_max_len (length bytes) ≤ outlen
    → base64_decode_output_max_len ((length bytes + 2) / 3 * 4) ≤ room
    → (text : Bytes) × (encode bytes outlen ≡ encoded text)
      × (length text ≡ (length bytes + 2) / 3 * 4)
      × (decode text room ≡ some bytes)
unfolding encode decode
decode-encode bytes outlen room hb ho hr =
    let e = text_len_lem bytes in
    let fits : length bytes < base64_decode_output_max_len ((length bytes + 2) / 3 * 4) =
      rw (← e) (enough_for_bytes bytes) in
    let (text, q, l, d) =
      encode_loop-Reads bytes outlen 0 room 0 hb (omega (arith, enough_for_text bytes))
        (omega arith) in
    (text, q, l ∙ e, d 0)
