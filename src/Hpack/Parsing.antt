-- ===== src/Hpack/Parsing.antt =====
-- One field as `hpack::parse` reads it, by the kind of its tag.
use heaphttpd.Prelude.{
  ℕ, ◌+◌, ◌-◌, ◌*◌, ◌/◌, ◌%◌, ◌^◌, ◌<◌, ◌≤◌, ◌≡◌, refl, ◌∙◌, true, ◌∷◌, Bytes, take, drop, ltb,
  ◌==◌, arith,
}
use heaphttpd.Hpack.Integer.{decode_http2_header_index}
use heaphttpd.Hpack.Integer.RoundTrip.{decode_short}
use heaphttpd.Hpack.Fields.{
  IndexType, type_indexed, type_with_indexing_indexed_name, type_never_indexed_new_name, ok,
  with_empty, read_integer, read_string, literal_type, parse_indexed, parse_literal, parse_strings,
  parse_field,
}
use heaphttpd.Hpack.Reading.{read_integer-ok, advance-ok}

-- an index below the limit of its tag
tag_read :
    (prefix code i : ℕ) (rest : Bytes)
    → prefix ≤ 7
    → code * 2 ^ prefix + 2 ^ prefix ≤ 256
    → i < 2 ^ prefix - 1
    → read_integer ((i + code * 2 ^ prefix) ∷ rest) (λ b. decode_http2_header_index b prefix)
      ≡ ok (i, 1)
unfolding decode_http2_header_index
tag_read prefix code i rest hp hc hi =
    read_integer-ok ((i + code * 2 ^ prefix) ∷ rest) (λ b. decode_http2_header_index b prefix) i 1
      (decode_short i code prefix (take 255 rest) (omega arith) hc hi)

parse_strings-named :
    (m_field : Bytes) (parsed i next : ℕ) (t : IndexType) (value : Bytes)
    → 1 ≤ i
    → read_string m_field parsed ≡ ok (value, next)
    → parse_strings m_field parsed t i ≡ ok (record (with_empty t i) { value = value }, next)
unfolding parse_strings
parse_strings-named m_field parsed i next t value h r = rw (r, parse_strings) (ground arith)

parse_strings-new :
    (m_field : Bytes) (parsed next next' : ℕ) (t : IndexType) (name value : Bytes)
    → read_string m_field parsed ≡ ok (name, next)
    → read_string m_field next ≡ ok (value, next')
    → parse_strings m_field parsed t 0
      ≡ ok (record { index_type = t; index = 0; name = name; value = value }, next')
unfolding parse_strings
parse_strings-new m_field parsed next next' t name value r r' = rw (r, parse_strings) (rw r' refl)

-- the memory from `parsed` on begins with the field's tag
module _ (m_field : Bytes) (parsed tag : ℕ) (rest : Bytes) (here : drop parsed m_field ≡ tag ∷ rest)
    (room : parsed + 1 < 2 ^ 31) where
  pub parse_field-indexed :
      (i : ℕ)
      → tag ≡ i + 1 * 2 ^ 7
      → i < 127
      → parse_field m_field parsed ≡ ok (with_empty type_indexed i, parsed + 1)
  unfolding parse_field parse_indexed
  parse_field-indexed i e h =
      let read : read_integer (tag ∷ rest) (λ b. decode_http2_header_index b 7) ≡ ok (i, 1) =
        rw e (tag_read 7 1 i rest (omega arith) (omega arith) h) in
      rw (here, parse_field) (rw (here, read, advance-ok parsed 1 room) (ground arith))

  literal_field : tag < 2 ^ 7 → parse_field m_field parsed ≡ parse_literal m_field parsed tag
  unfolding parse_field
  literal_field h = rw (here, parse_field) (ground arith)

  pub parse_field-named :
      (i next : ℕ) (value : Bytes)
      → tag ≡ i + 1 * 2 ^ 6
      → 1 ≤ i
      → i < 63
      → read_string m_field (parsed + 1) ≡ ok (value, next)
      → parse_field m_field parsed
        ≡ ok (record (with_empty type_with_indexing_indexed_name i) { value = value }, next)
  unfolding parse_literal literal_type
  parse_field-named i next value e h1 h2 r =
      let read : read_integer (tag ∷ rest) (λ b. decode_http2_header_index b 6) ≡ ok (i, 1) =
        rw e (tag_read 6 1 i rest (omega arith) (omega arith) h2) in
      let six : (tag / 2 ^ 6 == 1) ≡ true = ground arith in
      let low : ltb 0 (tag % 2 ^ 6) ≡ true = ground arith in
      literal_field (omega arith)
      ∙ rw here (
          rw (six, read, advance-ok parsed 1 room, low)
            (parse_strings-named m_field (parsed + 1) i next _ value h1 r))

  pub parse_field-new :
      (next next' : ℕ) (name value : Bytes)
      → tag ≡ 0x10
      → read_string m_field (parsed + 1) ≡ ok (name, next)
      → read_string m_field next ≡ ok (value, next')
      → parse_field m_field parsed
        ≡ ok (
          record {
            index_type = type_never_indexed_new_name;
            index = 0;
            name = name;
            value = value;
          },
          next',
        )
  unfolding parse_literal literal_type
  parse_field-new next next' name value e r r' =
      let read : read_integer (0x10 ∷ rest) (λ b. decode_http2_header_index b 4) ≡ ok (0, 1) =
        tag_read 4 1 0 rest (omega arith) (omega arith) (omega arith) in
      literal_field (omega arith)
      ∙ rw (here, e)
          (rw (read, advance-ok parsed 1 room)
            (parse_strings-new m_field (parsed + 1) next next' _ name value r r'))
