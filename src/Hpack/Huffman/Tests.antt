-- ===== src/Hpack/Huffman/Tests.antt =====
-- The Huffman code at concrete inputs, the first from RFC 7541.
use heaphttpd.Prelude.{◌≡◌, refl, [], ◌∷◌, some, none, Bytes, length, arith}
use heaphttpd.Hpack.Huffman.Tree.{
  hf_init, get_child, set_child, fill_children, hf_add_node, add_codes,
}
use heaphttpd.Hpack.Huffman.Bits.{byte_bits, string_bits, bits_of}
use heaphttpd.Hpack.Huffman.Encode.{
  hf_string_encode, hf_string_encode_loop, hf_byte_encode, hf_byte_encode_loop, encoded_bytes,
  hf_string_encode_len,
}
use heaphttpd.Hpack.Huffman.Decode.{
  decoded, undefined, hf_string_decode, decode_loop, decode_tail, max_huffman_buff_len,
}
use heaphttpd.Hpack.Huffman.RoundTrip.{
  hf_string_decode-hf_string_encode, hf_string_decode-string_bits,
  hf_string_encode-hf_string_encode_len,
}

-- no-cache
abbrev no_cache : Bytes
no_cache = b'n' ∷ b'o' ∷ b'-' ∷ b'c' ∷ b'a' ∷ b'c' ∷ b'h' ∷ b'e' ∷ []

encode_no_cache : hf_string_encode no_cache 0 ≡ some (0xa8 ∷ 0xeb ∷ 0x10 ∷ 0x64 ∷ 0x9c ∷ 0xbf ∷ [])
unfolding hf_string_encode hf_string_encode_loop hf_byte_encode hf_byte_encode_loop encoded_bytes
encode_no_cache = refl

-- A character above 127 is an index in front of the table.
encode_high : hf_string_encode (0xc3 ∷ []) 0 ≡ none
unfolding hf_string_encode hf_string_encode_loop hf_byte_encode hf_byte_encode_loop encoded_bytes
encode_high = refl

-- The symbol EOS behind "00": its last bits lead to a child that is not there.
decode_eos : hf_string_decode hf_init (0x00 ∷ 0x3f ∷ 0xff ∷ 0xff ∷ 0xff ∷ []) 41 ≡ undefined
unfolding hf_string_decode decode_loop decode_tail hf_init get_child set_child fill_children
    hf_add_node add_codes
decode_eos = refl

hf_string_decode-hf_string_encode_example :
    (out : Bytes) × (hf_string_encode no_cache 0 ≡ some out)
    × (hf_string_decode hf_init out (max_huffman_buff_len (length out)) ≡ decoded no_cache)
hf_string_decode-hf_string_encode_example = hf_string_decode-hf_string_encode no_cache (omega arith)

hf_string_encode-hf_string_encode_len_example :
    (out : Bytes) × (hf_string_encode no_cache 0 ≡ some out)
    × (length out ≡ hf_string_encode_len no_cache)
hf_string_encode-hf_string_encode_len_example =
    hf_string_encode-hf_string_encode_len no_cache (omega arith)

-- the byte 255, with six bits of padding
hf_string_decode-string_bits_example :
    hf_string_decode hf_init (0xff ∷ 0xff ∷ 0xfb ∷ 0xbf ∷ []) 33 ≡ decoded (255 ∷ [])
unfolding byte_bits string_bits bits_of
hf_string_decode-string_bits_example =
    hf_string_decode-string_bits (255 ∷ []) (0xff ∷ 0xff ∷ 0xfb ∷ 0xbf ∷ []) 6 (omega arith)
      (omega arith) (omega arith) refl
