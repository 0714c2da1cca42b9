-- ===== src/Hpack/FieldTests.antt =====
-- `hpack::build` and `hpack::parse` at concrete inputs.
use heaphttpd.Prelude.{List, some, ◌+◌, ◌≡◌, refl, [], ◌∷◌, ◌++◌, Bytes, length, arith}
use heaphttpd.Text.{
  c_str, trim_front, trim_back, strtrim, lower, lowercase, find_from, string_find, strcut,
  same_ignoring_case,
}
use heaphttpd.Hpack.Integer.{
  encode_http2_header_string, encode_integer, encode_integer_loop, decode_http2_header_index,
  decode_integer, decode_integer_loop,
}
use heaphttpd.Hpack.Huffman.Encode.{
  hf_string_encode, hf_string_encode_loop, hf_byte_encode, hf_byte_encode_loop, encoded_bytes,
  hf_string_encode_len, code_bits,
}
use heaphttpd.Hpack.Fields.{
  Result, Header, ok, failed, parse, parse_loop, parse_field, parse_indexed, parse_literal,
  literal_type, read_integer, with_empty, type_indexed,
}
use heaphttpd.Hpack.Build.{
  StaticTable, build, status_name, split_lines, build_lines, build_line, build_status, build_field,
  split_header, scan_status, take_digits, drop_others, find_index, field_tag, encode_string,
  field_strings,
}
use heaphttpd.Hpack.FieldRoundTrip.{Means, parse_field-build_field}
use heaphttpd.Hpack.Ends.{parse_ends}

-- `:status` with the values 200 and 404, and `date`
abbrev pub sample_table : StaticTable
sample_table =
    (8, status_name, 0x32 ∷ 0x30 ∷ 0x30 ∷ [])
    ∷ (13, status_name, 0x34 ∷ 0x30 ∷ 0x34 ∷ [])
    ∷ (33, 0x64 ∷ 0x61 ∷ 0x74 ∷ 0x65 ∷ [], [])
    ∷ []

-- HTTP/1.1 200 OK, Date: now, X: y
abbrev pub sample_response : Bytes
sample_response =
    b'H' ∷ b'T' ∷ b'T' ∷ b'P' ∷ b'/' ∷ b'1' ∷ b'.' ∷ b'1' ∷ b' ' ∷ b'2' ∷ b'0' ∷ b'0' ∷ b' ' ∷ b'O'
    ∷ b'K' ∷ 13 ∷ 10 ∷ b'D' ∷ b'a' ∷ b't' ∷ b'e' ∷ b':' ∷ b' ' ∷ b'n' ∷ b'o' ∷ b'w' ∷ 13 ∷ 10 ∷ b'X'
    ∷ b':' ∷ b' ' ∷ b'y' ∷ 13 ∷ 10 ∷ 13 ∷ 10 ∷ []

-- :status 200 by its index; date by its name; x, with a zero that is no part of it
build_sample :
    build sample_response sample_table
    ≡ ok (136 ∷ 97 ∷ 131 ∷ 168 ∷ 254 ∷ 63 ∷ 16 ∷ 131 ∷ 243 ∷ 255 ∷ 143 ∷ 129 ∷ 245 ∷ [])
unfolding build split_lines build_lines build_line build_status build_field split_header scan_status
    take_digits drop_others find_index field_tag encode_string field_strings hf_string_encode
    hf_string_encode_loop hf_byte_encode hf_byte_encode_loop encoded_bytes
    encode_http2_header_string encode_integer encode_integer_loop c_str trim_front trim_back strtrim
    lower lowercase find_from string_find strcut same_ignoring_case
build_sample = refl

-- a fragment of three bytes behind which nothing is known
parse_status :
    parse [] (136 ∷ 130 ∷ 132 ∷ []) 3
    ≡ some (
        ok (with_empty type_indexed 8 ∷ with_empty type_indexed 2 ∷ with_empty type_indexed 4 ∷ []))
unfolding parse parse_loop parse_field parse_indexed read_integer decode_http2_header_index
    decode_integer decode_integer_loop
parse_status = refl

-- A change of the table size is taken for a literal of no kind, and ends the session.
parse_table_size : parse [] (0x3f ∷ 0xe1 ∷ 0x1f ∷ 0x82 ∷ []) 4 ≡ some failed
unfolding parse parse_loop parse_field parse_literal literal_type read_integer
    decode_http2_header_index decode_integer decode_integer_loop
parse_table_size = refl

parse_field-build_field_example :
    (bs : Bytes) × (h : Header) × (build_field sample_table
        (lowercase (b'X' ∷ []))
        (lowercase (b'X' ∷ []))
        (b'y' ∷ [])
      ≡ ok bs)
    × (parse_field ((136 ∷ []) ++ (bs ++ [])) 1 ≡ ok (h, 1 + length bs))
    × Means sample_table (lowercase (b'X' ∷ [])) (lowercase (b'X' ∷ [])) (b'y' ∷ []) h
unfolding lowercase c_str lower hf_string_encode_len code_bits
parse_field-build_field_example =
    parse_field-build_field sample_table (lowercase (b'X' ∷ [])) (lowercase (b'X' ∷ [])) (b'y' ∷ [])
      (136 ∷ []) [] (omega arith) (omega arith) (omega arith) (omega arith) (omega arith)
      (omega arith)

parse_ends_example :
    (r : Result (List Header)) × (parse [] (136 ∷ 130 ∷ 132 ∷ []) 3 ≡ some r)
    × (parse_loop (3 + 4) (136 ∷ 130 ∷ 132 ∷ []) 3 0 [] ≡ some r)
parse_ends_example = parse_ends [] (136 ∷ 130 ∷ 132 ∷ []) 3 4
