-- ===== src/Hpack/FieldRoundTrip.antt =====
-- A header that `hpack::build` writes, read back by `hpack::parse`.
use heaphttpd.Prelude.{
  ℕ, suc, ◌+◌, ◌*◌, ◌^◌, ◌<◌, ◌≤◌, ◌≡◌, refl, sym, ap, ◌∙◌, true, [], ◌∷◌, ◌++◌, Bytes, All, length,
  arith, length-append, drop-length_append,
}
use heaphttpd.Text.{c_str, same_ignoring_case}
use heaphttpd.Hpack.Huffman.Writing.{IsAscii}
use heaphttpd.Hpack.Huffman.Encode.{hf_string_encode_len}
use heaphttpd.Hpack.Fields.{
  IndexType, type_indexed, type_with_indexing_indexed_name, type_never_indexed_new_name, Header, ok,
  with_empty, read_string, parse_field,
}
use heaphttpd.Hpack.Build.{StaticTable, find_index, new_name, field_strings, build_field}
use heaphttpd.Hpack.Reading.{read_string-encode_string}
use heaphttpd.Hpack.Parsing.{parse_field-indexed, parse_field-named, parse_field-new}
use heaphttpd.Hpack.Meaning.{
  Entry, IsIndex, OtherName, Choice, both, named, kept, find_index-Choice,
}
use mathlib.Core.List.{append_assoc}
use mathlib.Core.Path.{ap₂}

-- The header `h` stands for the name and the value, by the table; a new name is `name_buf`.
pub data Means (table : StaticTable) (name name_buf value : Bytes) (h : Header) : Type 0 where
  by_entry :
      (i : ℕ) (first second : Bytes)
      → Entry i first second table
      → same_ignoring_case first name ≡ true
      → same_ignoring_case second value ≡ true
      → h ≡ with_empty type_indexed i
      → Means table name name_buf value h
  by_name :
      (i : ℕ) (first second : Bytes)
      → Entry i first second table
      → same_ignoring_case first name ≡ true
      → h ≡ record (with_empty type_with_indexing_indexed_name i) { value = c_str value }
      → Means table name name_buf value h
  by_itself :
      All (OtherName name) table
      → h ≡ record {
        index_type = type_never_indexed_new_name;
        index = 0;
        name = c_str name_buf;
        value = c_str value;
      }
      → Means table name name_buf value h

-- Wherever the bytes stand in memory, they are read as one header with that meaning.
pub data ReadsAs (table : StaticTable) (name name_buf value bs rest : Bytes) : Type 0 where
  reads_as :
      ((front : Bytes)
        → length front + length bs < 2 ^ 31
        → (h : Header) × (parse_field (front ++ (bs ++ rest)) (length front)
            ≡ ok (h, length front + length bs))
          × Means table name name_buf value h)
      → ReadsAs table name name_buf value bs rest

build_field-ok :
    (table : StaticTable) (name name_buf value strings : Bytes) (t : IndexType) (tag : ℕ)
    → find_index table name value new_name ≡ ok (t, tag)
    → field_strings t name_buf value ≡ ok strings
    → build_field table name name_buf value ≡ ok (tag ∷ strings)
unfolding build_field
build_field-ok table name name_buf value strings t tag e e' = rw (e, build_field) (rw e' refl)

-- the memory behind the tag
behind_tag :
    (front : Bytes) (tag : ℕ) (bs : Bytes) → front ++ (tag ∷ bs) ≡ (front ++ tag ∷ []) ++ bs
behind_tag front tag bs = sym (append_assoc front (tag ∷ []) bs)

length-snoc : (front : Bytes) (tag : ℕ) → length (front ++ tag ∷ []) ≡ length front + 1
length-snoc front tag = length-append front (tag ∷ [])

-- A string behind the tag.
read_behind :
    (front : Bytes) (tag : ℕ) (bs more s : Bytes) (next : ℕ)
    → ((f : Bytes)
        → length f + length bs < 2 ^ 31
        → read_string (f ++ (bs ++ more)) (length f) ≡ ok (s, length f + length bs))
    → length front + (1 + length bs) < 2 ^ 31
    → next ≡ length front + (1 + length bs)
    → read_string (front ++ (tag ∷ (bs ++ more))) (length front + 1) ≡ ok (s, next)
read_behind front tag bs more s next r room e =
    ap₂ read_string (behind_tag front tag (bs ++ more)) (sym (length-snoc front tag))
    ∙ r (front ++ tag ∷ []) (omega (arith, length-snoc front tag))
    ∙ ap (λ n. ok (s, n)) (omega (arith, length-snoc front tag, e))

-- The result of `build_field`, and how it is read.
abbrev WrittenField : StaticTable → Bytes → Bytes → Bytes → Bytes → Type 0
WrittenField table name name_buf value rest =
    (bs : Bytes) × (build_field table name name_buf value ≡ ok bs)
    × (length bs ≤ hf_string_encode_len name_buf + hf_string_encode_len value + 13)
    × ReadsAs table name name_buf value bs rest

module _ (table : StaticTable) (name name_buf value rest : Bytes) (value_ascii : All IsAscii value)
    (value_small : hf_string_encode_len value < 2 ^ 28) where
  written_entry :
      (i : ℕ) (first second : Bytes)
      → Entry i first second table
      → i < 63
      → same_ignoring_case first name ≡ true
      → same_ignoring_case second value ≡ true
      → find_index table name value new_name ≡ ok (type_indexed, i + 1 * 2 ^ 7)
      → WrittenField table name name_buf value rest
  unfolding field_strings
  written_entry i first second m h s s' e =
      let tag : ℕ = i + 1 * 2 ^ 7 in
      (
        tag ∷ [],
        build_field-ok table name name_buf value [] type_indexed tag e refl,
        omega arith,
        reads_as (λ front room. (
          with_empty type_indexed i,
          parse_field-indexed (front ++ (tag ∷ rest)) (length front) tag rest
              (drop-length_append front (tag ∷ rest)) room i refl (omega arith),
          by_entry i first second m s s' refl,
        )),
      )

  written_name :
      (i : ℕ) (first second : Bytes)
      → Entry i first second table
      → 1 ≤ i
      → i < 63
      → same_ignoring_case first name ≡ true
      → find_index table name value new_name ≡ ok (type_with_indexing_indexed_name, i + 1 * 2 ^ 6)
      → WrittenField table name name_buf value rest
  unfolding field_strings
  written_name i first second m h1 h2 s e =
      let tag : ℕ = i + 1 * 2 ^ 6 in
      let (bs, e', l, r) = read_string-encode_string value rest value_ascii value_small in
      (
        tag ∷ bs,
        build_field-ok table name name_buf value bs type_with_indexing_indexed_name tag e e',
        omega arith,
        reads_as (λ front room. (
          record (with_empty type_with_indexing_indexed_name i) { value = c_str value },
          parse_field-named (front ++ (tag ∷ (bs ++ rest))) (length front) tag (bs ++ rest)
              (drop-length_append front (tag ∷ (bs ++ rest))) (omega arith) i
              (length front + suc (length bs)) (c_str value) refl h1 h2
              (read_behind front tag bs rest (c_str value) (length front + suc (length bs)) r
                (omega arith) (omega arith)),
          by_name i first second m s refl,
        )),
      )

  written_new :
      All IsAscii name_buf
      → hf_string_encode_len name_buf < 2 ^ 28
      → All (OtherName name) table
      → find_index table name value new_name ≡ ok new_name
      → WrittenField table name name_buf value rest
  unfolding field_strings
  written_new ascii small others e =
      let (second, e2, l2, r2) = read_string-encode_string value rest value_ascii value_small in
      let (first, e1, l1, r1) = read_string-encode_string name_buf (second ++ rest) ascii small in
      let both_strings : Bytes = first ++ second in
      let total : length both_strings ≡ length first + length second = length-append first second in
      (
        0x10 ∷ both_strings,
        build_field-ok table name name_buf value both_strings type_never_indexed_new_name 0x10 e
            (rw (e1, e2) refl),
        omega (arith, total, l1, l2),
        reads_as (λ front room.
            let memory : Bytes = front ++ (0x10 ∷ (both_strings ++ rest)) in
            let middle : ℕ = length front + suc (length first) in
            let inner : both_strings ++ rest ≡ first ++ (second ++ rest) =
              append_assoc first second rest in
            let name_read : read_string memory (length front + 1) ≡ ok (c_str name_buf, middle) =
              ap (λ m. read_string (front ++ (0x10 ∷ m)) (length front + 1)) inner
              ∙ read_behind front 0x10 first (second ++ rest) (c_str name_buf) middle r1
                  (omega arith) (omega arith) in
            let value_read : read_string memory middle
                ≡ ok (c_str value, length front + suc (length both_strings)) =
              ap₂ read_string
                (ap (λ m. front ++ (0x10 ∷ m)) inner
                  ∙ sym (append_assoc front (0x10 ∷ first) (second ++ rest)))
                (sym (length-append front (0x10 ∷ first)))
              ∙ r2 (front ++ (0x10 ∷ first)) (omega (arith, length-append front (0x10 ∷ first)))
              ∙ ap (λ n. ok (c_str value, n)) (omega (arith, length-append front (0x10 ∷ first))) in
            (
              record {
                index_type = type_never_indexed_new_name;
                index = 0;
                name = c_str name_buf;
                value = c_str value;
              },
              parse_field-new memory (length front) 0x10 (both_strings ++ rest)
                  (drop-length_append front (0x10 ∷ (both_strings ++ rest))) (omega arith) middle
                  (length front + suc (length both_strings)) (c_str name_buf) (c_str value) refl
                  name_read value_read,
              by_itself others refl,
            )),
      )

read_at :
    (table : StaticTable) (name name_buf value bs rest front : Bytes)
    → ReadsAs table name name_buf value bs rest
    → length front + length bs < 2 ^ 31
    → (h : Header) × (parse_field (front ++ (bs ++ rest)) (length front)
        ≡ ok (h, length front + length bs))
      × Means table name name_buf value h
read_at table name name_buf value bs rest front (reads_as f) room = f front room

written_choice :
    (table : StaticTable) (name name_buf value rest : Bytes)
    → All IsAscii name_buf
    → hf_string_encode_len name_buf < 2 ^ 28
    → All IsAscii value
    → hf_string_encode_len value < 2 ^ 28
    → (r : IndexType × ℕ) → find_index table name value new_name ≡ ok r
    → Choice table name value new_name r
    → WrittenField table name name_buf value rest
written_choice table name name_buf value rest n1 n2 v1 v2 r e (both i first second m h1 h2 s s' q) =
    written_entry table name name_buf value rest v1 v2 i first second m h2 s s' (e ∙ ap ok q)
written_choice table name name_buf value rest n1 n2 v1 v2 r e (named i first second m h1 h2 s q) =
    written_name table name name_buf value rest v1 v2 i first second m h1 h2 s (e ∙ ap ok q)
written_choice table name name_buf value rest n1 n2 v1 v2 r e (kept q others) =
    written_new table name name_buf value rest v1 v2 n1 n2 others (e ∙ ap ok q)

-- A header with characters below 128, whose strings take less than 2 ^ 28 bytes each, is written
-- by `hpack::build`, and where the bytes stand in memory, whatever is in front of them and behind,
-- the loop of `hpack::parse` reads one header and ends behind them. What is in front and the
-- encoded strings take, with 13 bytes more, less than 2 ^ 31 bytes. The header is the index of an
-- entry with the name and the value, or the index of an entry with the name, and the value, or,
-- only if no entry has the name, the name and the value. The indices of the table lie between 1
-- and 62; case is ignored; a string that is written out is read up to its first zero.
pub parse_field-build_field :
    (table : StaticTable) (name name_buf value front rest : Bytes)
    → All IsIndex table
    → All IsAscii name_buf
    → hf_string_encode_len name_buf < 2 ^ 28
    → All IsAscii value
    → hf_string_encode_len value < 2 ^ 28
    → length front + (hf_string_encode_len name_buf + hf_string_encode_len value + 13) < 2 ^ 31
    → (bs : Bytes) × (h : Header) × (build_field table name name_buf value ≡ ok bs)
      × (parse_field (front ++ (bs ++ rest)) (length front) ≡ ok (h, length front + length bs))
      × Means table name name_buf value h
parse_field-build_field table name name_buf value front rest t n1 n2 v1 v2 room =
    let (r, e, choice) = find_index-Choice table name value new_name t in
    let (bs, e', l, reads) = written_choice table name name_buf value rest n1 n2 v1 v2 r e choice in
    let (h, p, m) = read_at table name name_buf value bs rest front reads (omega arith) in
    (bs, h, e', p, m)
