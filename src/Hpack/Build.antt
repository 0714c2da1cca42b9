-- ===== src/Hpack/Build.antt =====
-- `hpack::build` of src/hpack.cpp: the header lines of an HTTP/1 response as header fields.
use heaphttpd.Prelude.{
  ℕ, ◌+◌, ◌-◌, ◌*◌, ◌^◌, Bool, ◌&&◌, ◌||◌, List, [], ◌∷◌, ◌++◌, none, some, Bytes, length, take,
  drop, get_or, ltb, leb, ◌==◌, if◌then◌else◌,
}
use heaphttpd.Text.{c_str, strtrim, strcut, lowercase, same_ignoring_case}
use heaphttpd.Hpack.Integer.{encode_http2_header_string}
use heaphttpd.Hpack.Huffman.Encode.{hf_string_encode}
use heaphttpd.Hpack.Fields.{
  IndexType, type_indexed, type_with_indexing_indexed_name, type_never_indexed_new_name, Result, ok,
  undefined, ◌>>=◌,
}

-- `map<int, pair<string, string> >`, in the order of its keys
abbrev pub StaticTable : Type 0
StaticTable = List (ℕ × Bytes × Bytes)

-- A tag of `prefix` bits with `code` above them. The field on the stack has one byte, which an index
-- that takes more than its tag would leave.
unfoldable pub field_tag : ℕ → ℕ → ℕ → Result ℕ
field_tag prefix code index =
    if ltb index (2 ^ prefix - 1) then ok (index + code * 2 ^ prefix) else undefined

-- The loop over the table: the type and the tag, which are `c` if no name is the same. The last entry
-- with the name is taken, unless one has the value too.
unfoldable pub find_index : StaticTable → Bytes → Bytes → IndexType × ℕ → Result (IndexType × ℕ)
find_index [] name value c = ok c
find_index ((i, first, second) ∷ table) name value c =
    let both = field_tag 7 1 i >>= (λ tag. ok (type_indexed, tag)) in
    let found = field_tag 6 1 i >>= (λ tag.
      if same_ignoring_case second value
      then both
      else find_index table name value (type_with_indexing_indexed_name, tag)) in
    let other = find_index table name value c in
    if same_ignoring_case first name then found else other

-- A string with its length, Huffman coded.
unfoldable pub encode_string : Bytes → Result Bytes
encode_string string_buf = elim (hf_string_encode string_buf 0) [
  | none ↦ undefined
  | some out_buff ↦ elim (encode_http2_header_string (length out_buff)) [
    | none ↦ undefined
    | some [] ↦ undefined
    | some (b ∷ bs) ↦ ok ((b + 2 ^ 7) ∷ bs ++ out_buff)
  ]
]

abbrev pub is_digit : ℕ → Bool
is_digit b = leb 0x30 b && leb b 0x39

unfoldable pub take_digits : Bytes → Bytes
take_digits [] = []
take_digits (b ∷ bs) = if is_digit b then b ∷ take_digits bs else []

unfoldable pub drop_others : Bytes → Bytes
drop_others [] = []
drop_others (b ∷ bs) = if is_digit b then b ∷ bs else drop_others bs

-- `sscanf` with `"http/1.1%*[^0-9]%[0-9]%*[^0-9]"`: something else than a digit stands between the
-- version and the digits that are taken. `status_code` has room for 15.
unfoldable pub scan_status : Bytes → Result Bytes
scan_status line =
    let behind = drop 8 line in
    let digits = take_digits (drop_others behind) in
    if is_digit (get_or behind 0 0x30)
    then ok []
    else if ltb 15 (length digits)
    then undefined
    else ok digits

-- `HTTP/1.1`, `:status` and `:`
abbrev pub http_1_1 : Bytes
http_1_1 = 0x48 ∷ 0x54 ∷ 0x54 ∷ 0x50 ∷ 0x2f ∷ 0x31 ∷ 0x2e ∷ 0x31 ∷ []

abbrev pub status_name : Bytes
status_name = 0x3a ∷ 0x73 ∷ 0x74 ∷ 0x61 ∷ 0x74 ∷ 0x75 ∷ 0x73 ∷ []

abbrev pub colon : Bytes
colon = 0x3a ∷ []

-- `strName` and `strValue`
unfoldable pub split_header : Bytes → Bytes × Bytes
split_header current_line =
    let behind = drop 1 current_line in
    let parts : Bytes × Bytes =
      if get_or current_line 0 0 == 0x3a
      then (0x3a ∷ strcut behind none (some colon), strcut behind (some colon) none)
      else (strcut current_line none (some colon), strcut current_line (some colon) none) in
    (strtrim parts.0, strtrim parts.1)

-- the tag before the table is searched: never indexed, with the index 0
abbrev pub new_name : IndexType × ℕ
new_name = (type_never_indexed_new_name, 0x10)

-- the strings behind the tag
unfoldable pub field_strings : IndexType → Bytes → Bytes → Result Bytes
field_strings type_with_indexing_indexed_name name value = encode_string value
field_strings type_never_indexed_new_name name value = do
  first ← encode_string name
  second ← encode_string value
  ok (first ++ second)
field_strings _ name value = ok []

-- What a header of the name `name`, in lower case, and the value `value` becomes; `name_buf` is what
-- a new name is written as.
unfoldable pub build_field : StaticTable → Bytes → Bytes → Bytes → Result Bytes
build_field header_static_table name name_buf value = do
  (index_type, tag) ← find_index header_static_table name value new_name
  strings ← field_strings index_type name_buf value
  ok (tag ∷ strings)

-- The status line: a table with no `:status` leaves a tag with no strings.
unfoldable pub build_status : StaticTable → Bytes → Result Bytes
build_status header_static_table current_line = do
  status_code ← scan_status (c_str (lowercase current_line))
  (index_type, tag) ← find_index header_static_table status_name status_code new_name
  strings ← elim index_type [
    | type_never_indexed_new_name ↦ ok []
    | t ↦ field_strings t [] status_code
  ]
  ok (tag ∷ strings)

-- one line, trimmed
unfoldable pub build_line : StaticTable → Bytes → Result Bytes
build_line header_static_table current_line =
    let (name, value) = split_header current_line in
    if same_ignoring_case (take 8 current_line) http_1_1
    then build_status header_static_table current_line
    else build_field header_static_table (lowercase name) (lowercase name) value

-- The lines end at a line feed or at a zero. An empty one is never left: `line_header` stays where it
-- is, and what follows is not looked at.
unfoldable pub split_lines : Bytes → Bytes → List Bytes
split_lines line [] = if length line == 0 then [] else line ∷ []
split_lines line (b ∷ text) =
    let rest = split_lines [] text in
    let more = split_lines (line ++ b ∷ []) text in
    if b == 0x0a || b == 0 then if length line == 0 then [] else line ∷ rest else more

unfoldable pub build_lines : StaticTable → List Bytes → Result Bytes
build_lines header_static_table [] = ok []
build_lines header_static_table (line ∷ lines) = do
  let current_line = strtrim line
  field ← if length current_line == 0 then ok [] else build_line header_static_table current_line
  rest ← build_lines header_static_table lines
  ok (field ++ rest)

-- `hpack::build`: what `m_field` holds afterwards
unfoldable pub build : Bytes → StaticTable → Result Bytes
build http1_headers header_static_table =
    build_lines header_static_table (split_lines [] http1_headers)
