-- ===== src/Hpack/Progress.antt =====
-- `hpack::parse` (src/hpack.cpp) moves on with every field.
use heaphttpd.Prelude.{
  ℕ, ◌+◌, ◌-◌, ◌*◌, ◌/◌, ◌%◌, ◌^◌, ◌<◌, ◌≤◌, ◌≡◌, refl, sym, ap, inl, inr, [], ◌∷◌, ◌++◌, Bytes,
  take, drop, ltb, ◌==◌, if◌then◌else◌, arith, Bool-cases, bit_and,
}
use heaphttpd.Hpack.Integer.{
  Decoded, decode_integer, decode_integer_loop, decode_http2_header_string,
  decode_http2_header_index,
}
use heaphttpd.Hpack.Fields.{
  IndexType, Header, Result, ok, failed, undefined, ◌>>=◌, advance, known_integer, read_integer,
  read_string, literal_type, parse_indexed, parse_literal, parse_strings, parse_field,
}

module _ {X Y : Type 0} where
  -- a chain with a result, taken apart
  data Chain (m : Result X) (next : X → Result Y) (y : Y) : Type 0 where
    chain : (x : X) → m ≡ ok x → next x ≡ ok y → Chain m next y

  taken_apart : (next : X → Result Y) (y : Y) (m : Result X) → (m >>= next) ≡ ok y → Chain m next y
  taken_apart next y failed e = absurd (ground arith)
  taken_apart next y undefined e = absurd (ground arith)
  taken_apart next y (ok x) e = chain x refl e

  first_result :
      (m : Result X) (next : X → Result Y) {y : Y}
      → (m >>= next) ≡ ok y
      → (x : X) × (m ≡ ok x) × (next x ≡ ok y)
  first_result m next {y} e = elim (taken_apart next y m e) [ chain x p q ↦ (x, p, q) ]

decode_integer_loop-lt :
    (bs : Bytes) (dst m p v n : ℕ) → decode_integer_loop bs dst m p ≡ Decoded.ok v n → p < n
unfolding decode_integer_loop
decode_integer_loop-lt [] dst m p v n e = absurd (ground arith)
decode_integer_loop-lt (b ∷ rest) dst m p v n e =
    let next : ℕ = (dst + bit_and b 0x7f * 2 ^ m % 2 ^ 32) % 2 ^ 32 in
    ground (arith, decode_integer_loop-lt rest next (m + 7) (p + 1) v n)

decode_integer-pos :
    (bs : Bytes) (prefix v n : ℕ) → decode_integer bs prefix ≡ Decoded.ok v n → 0 < n
unfolding decode_integer
decode_integer-pos [] prefix v n e = absurd (ground arith)
decode_integer-pos (b ∷ rest) prefix v n e =
    ground (arith, decode_integer_loop-lt rest (bit_and b (2 ^ prefix - 1)) 0 1 v n)

known_integer-inv :
    (d more : Decoded) (r : ℕ × ℕ) → known_integer d more ≡ ok r → d ≡ Decoded.ok (r.0) (r.1)
known_integer-inv (Decoded.ok dst n) more r e = ground arith
known_integer-inv Decoded.undefined more r e = absurd (ground arith)
known_integer-inv Decoded.fail Decoded.fail r e = absurd (ground arith)
known_integer-inv Decoded.fail (Decoded.ok dst n) r e = absurd (ground arith)
known_integer-inv Decoded.fail Decoded.undefined r e = absurd (ground arith)

read_integer-inv :
    (memory : Bytes) (decode : Bytes → Decoded) (r : ℕ × ℕ)
    → read_integer memory decode ≡ ok r
    → decode memory ≡ Decoded.ok (r.0) (r.1)
unfolding read_integer
read_integer-inv memory decode r e =
    known_integer-inv (decode memory) (decode (memory ++ 0 ∷ [])) r e

advance-inv : (a b c : ℕ) → advance a b ≡ ok c → c ≡ a + b
advance-inv a b c e = ground arith

index_pos :
    (memory : Bytes) (prefix : ℕ) (r : ℕ × ℕ)
    → read_integer memory (λ b. decode_http2_header_index b prefix) ≡ ok r
    → 0 < r.1
unfolding decode_http2_header_index
index_pos memory prefix r e =
    decode_integer-pos (take 256 memory) prefix (r.0) (r.1)
      (read_integer-inv memory (λ b. decode_integer (take 256 b) prefix) r e)

ok_inj : {A : Type 0} (a b : A) → ok a ≡ ok b → a ≡ b
ok_inj a b e = ground arith

-- the value put beside the place
ends_at :
    (m : Result Bytes) (next : ℕ) (r : Bytes × ℕ)
    → (m >>= (λ value. ok (value, next))) ≡ ok r
    → r.1 ≡ next
ends_at (ok v) next r e = ap (λ (p : Bytes × ℕ). p.1) (sym (ok_inj _ _ e))
ends_at failed next r e = absurd (ground arith)
ends_at undefined next r e = absurd (ground arith)

read_string-le :
    (m_field : Bytes) (parsed : ℕ) (r : Bytes × ℕ)
    → read_string m_field parsed ≡ ok r
    → parsed ≤ r.1
unfolding read_string
read_string-le m_field parsed r e =
    let (i, e1, k1) =
      first_result (read_integer (drop parsed m_field) decode_http2_header_string) _ e in
    let (next, e2, k2) = first_result (advance parsed (i.1 + i.0)) _ k1 in
    omega (arith, advance-inv parsed (i.1 + i.0) next e2, ends_at _ next r k2)

-- the header put beside the place
header_at : (h : Header) (next : ℕ) (r : Header × ℕ) → ok (h, next) ≡ ok r → r.1 ≡ next
header_at h next r e = ap (λ (p : Header × ℕ). p.1) (sym (ok_inj _ _ e))

parse_strings-le :
    (m_field : Bytes) (parsed i : ℕ) (t : IndexType) (r : Header × ℕ)
    → parse_strings m_field parsed t i ≡ ok r
    → parsed ≤ r.1
unfolding parse_strings
parse_strings-le m_field parsed i t r e =
    let (first, e1, k1) = first_result (read_string m_field parsed) _ e in
    let le : parsed ≤ first.1 = read_string-le m_field parsed first e1 in
    elim (Bool-cases (ltb 0 i)) [
      | inl some_index ↦ omega (arith, le, header_at _ (first.1) r (rw some_index at k1))
      | inr no_index ↦
          let (second, e2, k2) =
            first_result (read_string m_field (first.1)) _ (rw no_index at k1) in
          omega (arith, le, read_string-le m_field (first.1) second e2, header_at _ (second.1) r k2)
    ]

parse_indexed-lt :
    (m_field : Bytes) (parsed : ℕ) (r : Header × ℕ)
    → parse_indexed m_field parsed ≡ ok r
    → parsed < r.1
unfolding parse_indexed
parse_indexed-lt m_field parsed r e =
    let (i, e1, k1) =
      first_result (read_integer (drop parsed m_field) (λ b. decode_http2_header_index b 7)) _ e in
    let (next, e2, k2) = first_result (advance parsed (i.1)) _ k1 in
    omega (
      arith,
      advance-inv parsed (i.1) next e2,
      index_pos (drop parsed m_field) 7 i e1,
      header_at _ next r k2,
    )

parse_literal-lt :
    (m_field : Bytes) (parsed tag : ℕ) (r : Header × ℕ)
    → parse_literal m_field parsed tag ≡ ok r
    → parsed < r.1
unfolding parse_literal
parse_literal-lt m_field parsed tag r e =
    let prefix : ℕ = if tag / 2 ^ 6 == 1 then 6 else 4 in
    let (i, e1, k1) =
      first_result (read_integer (drop parsed m_field) (λ b. decode_http2_header_index b prefix)) _
        e in
    let (next, e2, k2) = first_result (advance parsed (i.1)) _ k1 in
    let (t, e3, k3) = first_result (literal_type tag (i.0)) _ k2 in
    omega (
      arith,
      advance-inv parsed (i.1) next e2,
      index_pos (drop parsed m_field) prefix i e1,
      parse_strings-le m_field next (t.1) (t.0) r k3,
    )

field_by_tag :
    (bs : Bytes) (m_field : Bytes) (parsed : ℕ)
    → drop parsed m_field ≡ bs
    → (r : Header × ℕ) → parse_field m_field parsed ≡ ok r
    → parsed < r.1
unfolding parse_field
field_by_tag [] m_field parsed d r e =
    let u : undefined ≡ ok r = rw (d, parse_field) at e in absurd (ground arith)
field_by_tag (tag ∷ rest) m_field parsed d r e =
    let k : (if tag / 2 ^ 7 == 1
          then parse_indexed m_field parsed
          else parse_literal m_field parsed tag)
        ≡ ok r =
      rw (d, parse_field) at e in
    elim (Bool-cases (tag / 2 ^ 7 == 1)) [
      | inl indexed ↦ parse_indexed-lt m_field parsed r (rw indexed at k)
      | inr literal ↦ parse_literal-lt m_field parsed tag r (rw literal at k)
    ]

-- Every field takes a byte at least.
pub parse_field-lt :
    (m_field : Bytes) (parsed : ℕ) (r : Header × ℕ)
    → parse_field m_field parsed ≡ ok r
    → parsed < r.1
parse_field-lt m_field parsed r e = field_by_tag (drop parsed m_field) m_field parsed refl r e
