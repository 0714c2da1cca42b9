-- ===== src/Hpack/Fields.antt =====
-- `hpack::parse` of src/hpack.cpp, with the types of src/hpack.h.
use heaphttpd.Prelude.{
  Option, none, some, ℕ, zero, suc, ◌+◌, ◌-◌, ◌/◌, ◌%◌, ◌^◌, ◌||◌, List, [], ◌∷◌, ◌++◌, Bytes,
  length, take, drop, get_or, ltb, leb, ◌==◌, if◌then◌else◌,
}
use heaphttpd.Hpack.Integer.{Decoded, decode_http2_header_string, decode_http2_header_index}
use heaphttpd.Hpack.Huffman.Tree.{hf_init}
use heaphttpd.Hpack.Huffman.Decode.{
  Decoding, decoded, invalid, too_long, hf_string_decode, max_huffman_buff_len,
}
use heaphttpd.Text.{c_str}

pub data IndexType : Type 0 where
  type_indexed type_with_indexing_indexed_name type_with_indexing_new_name
        type_without_indexing_indexed_name type_without_indexing_new_name
        type_never_indexed_indexed_name type_never_indexed_new_name type_error :
      IndexType

-- `HTTP2_Header`
pub record Header : Type 0 where
  pub index_type : IndexType
  pub index : ℕ
  pub name : Bytes
  pub value : Bytes

-- `failed`: the result -1. `undefined`: memory is read that is not the caller's, an `int` overflows,
-- or an integer is shifted too far.
pub data Result (A : Type 0) : Type 0 where
  failed : Result A
  undefined : Result A
  ok : A → Result A

-- An error or an undefined step ends the chain.
infixl 5 ◌>>=◌
abbrev pub ◌>>=◌ : {X Y : Type 0} → Result X → (X → Result Y) → Result Y
failed >>= next = failed
undefined >>= next = undefined
ok x >>= next = next x

-- What the decoder says of the memory that is known, and of one byte more.
abbrev pub known_integer : Decoded → Decoded → Result (ℕ × ℕ)
known_integer (Decoded.ok dst n) more = ok (dst, n)
known_integer Decoded.undefined more = undefined
known_integer Decoded.fail Decoded.fail = failed
known_integer Decoded.fail (Decoded.ok dst n) = undefined
known_integer Decoded.fail Decoded.undefined = undefined

-- `memory` is what is known to stand from the field on. Where the integer goes on behind it, it is
-- not `fail`: with a byte more it would be another result.
unfoldable pub read_integer : Bytes → (Bytes → Decoded) → Result (ℕ × ℕ)
read_integer memory decode = known_integer (decode memory) (decode (memory ++ 0 ∷ []))

-- `parsed += n`
abbrev pub advance : ℕ → ℕ → Result ℕ
advance parsed n = if ltb (parsed + n) (2 ^ 31) then ok (parsed + n) else undefined

-- The Huffman branch. An error is found before the bytes that are not there are looked at.
unfoldable pub huffman_string : Bytes → ℕ → Result Bytes
huffman_string bytes string_len =
    if leb (2 ^ 28) string_len
    then undefined
    else elim (hf_string_decode hf_init (take string_len bytes) (max_huffman_buff_len string_len)) [
      | decoded s ↦
          if ltb (length bytes) string_len || leb (max_huffman_buff_len string_len) (length s)
          then undefined
          else ok (c_str s)
      | invalid ↦ failed
      | too_long ↦ failed
      | Decoding.undefined ↦ undefined
    ]

-- The other branch, which copies a byte more.
unfoldable pub plain_string : Bytes → ℕ → Result Bytes
plain_string bytes string_len =
    if leb (2 ^ 31 - 1) string_len || leb (length bytes) string_len
    then undefined
    else ok (c_str (take string_len bytes))

-- A string at `parsed`: its value and the place behind it.
unfoldable pub read_string : Bytes → ℕ → Result (Bytes × ℕ)
read_string m_field parsed = do
  let header_string = drop parsed m_field
  (string_len, integer_len) ← read_integer header_string decode_http2_header_string
  next ← advance parsed (integer_len + string_len)
  let string_ptr = drop integer_len header_string
  value ←
      if get_or header_string 0 0 / 128 == 1
      then huffman_string string_ptr string_len
      else plain_string string_ptr string_len
  ok (value, next)

abbrev pub with_empty : IndexType → ℕ → Header
with_empty t i = record { index_type = t; index = i; name = []; value = [] }

-- The type and the index of a literal field, by its first byte and the integer behind its tag.
unfoldable pub literal_type : ℕ → ℕ → Result (IndexType × ℕ)
literal_type tag f_index =
    if tag / 2 ^ 6 == 1
    then ok (
      if ltb 0 (tag % 2 ^ 6) then type_with_indexing_indexed_name else type_with_indexing_new_name,
      f_index,
    )
    else if tag / 2 ^ 4 == 0
    then ok (
      if ltb 0 (tag % 2 ^ 4)
          then type_without_indexing_indexed_name
          else type_without_indexing_new_name,
      tag % 2 ^ 4,
    )
    else if tag / 2 ^ 4 == 1
    then ok (
      if ltb 0 (tag % 2 ^ 4) then type_never_indexed_indexed_name else type_never_indexed_new_name,
      f_index,
    )
    else failed

-- `1xxx xxxx`
unfoldable pub parse_indexed : Bytes → ℕ → Result (Header × ℕ)
parse_indexed m_field parsed = do
  (f_index, integer_len) ← read_integer (drop parsed m_field) (λ b. decode_http2_header_index b 7)
  next ← advance parsed integer_len
  ok (with_empty type_indexed f_index, next)

-- the strings: the value behind an indexed name, or else name and value
unfoldable pub parse_strings : Bytes → ℕ → IndexType → ℕ → Result (Header × ℕ)
parse_strings m_field parsed t i = do
  (first, next) ← read_string m_field parsed
  let indexed_name = record (with_empty t i) { value = first }
  let new_name = do
    (second, next') ← read_string m_field next
    ok (record { index_type = t; index = i; name = first; value = second }, next')
  if ltb 0 i then ok (indexed_name, next) else new_name

unfoldable pub parse_literal : Bytes → ℕ → ℕ → Result (Header × ℕ)
parse_literal m_field parsed tag = do
  (f_index, integer_len) ←
      read_integer (drop parsed m_field)
        (λ b. decode_http2_header_index b (if tag / 2 ^ 6 == 1 then 6 else 4))
  next ← advance parsed integer_len
  (t, i) ← literal_type tag f_index
  parse_strings m_field next t i

-- One turn of the loop: the header and the place behind it.
unfoldable pub parse_field : Bytes → ℕ → Result (Header × ℕ)
parse_field m_field parsed = elim (drop parsed m_field) [
  | [] ↦ undefined
  | tag ∷ rest ↦
      if tag / 2 ^ 7 == 1 then parse_indexed m_field parsed else parse_literal m_field parsed tag
]

-- The loop: `m_decoded_headers` holds what has been decoded. `none`: the turns are over, and the end
-- of the fragment is not reached. A field has a byte at least, so that as many turns are enough as
-- there are bytes.
unfoldable pub parse_loop : ℕ → Bytes → ℕ → ℕ → List Header → Option (Result (List Header))
parse_loop zero m_field m_len parsed m_decoded_headers =
    if ltb parsed m_len then none else some (ok m_decoded_headers)
parse_loop (suc turns) m_field m_len parsed m_decoded_headers =
    let rest : Option (Result (List Header)) = elim (parse_field m_field parsed) [
      | ok (header, next) ↦ parse_loop turns m_field m_len next (m_decoded_headers ++ header ∷ [])
      | failed ↦ some failed
      | undefined ↦ some undefined
    ] in
    if ltb parsed m_len then rest else some (ok m_decoded_headers)

-- `hpack::parse` on an object that has decoded `m_decoded_headers` before
unfoldable pub parse : List Header → Bytes → ℕ → Option (Result (List Header))
parse m_decoded_headers field len = parse_loop len field len 0 m_decoded_headers
