-- ===== src/Hpack/Reading.antt =====
-- The strings and integers of a field, read back from where `hpack::build` writes them.
use heaphttpd.Prelude.{
  ℕ, zero, suc, ◌+◌, ◌-◌, ◌*◌, ◌^◌, ◌<◌, ◌≤◌, ◌≡◌, refl, sym, ap, ◌∙◌, [], ◌∷◌, ◌++◌, Option, none,
  some, lt_or_ge, inl, inr, Bytes, All, length, take, arith, length-append, take-length_append,
  drop-length_append,
}
use heaphttpd.Text.{c_str}
use heaphttpd.Hpack.Integer.{
  Decoded, decode_http2_header_string, decode_integer, encode_http2_header_string, encode_integer,
  encode_integer_loop,
}
use heaphttpd.Hpack.Integer.RoundTrip.{decode_integer-encode_integer}
use heaphttpd.Hpack.Huffman.Tree.{hf_init}
use heaphttpd.Hpack.Huffman.Encode.{hf_string_encode, hf_string_encode_len}
use heaphttpd.Hpack.Huffman.Decode.{decoded, hf_string_decode, max_huffman_buff_len}
use heaphttpd.Hpack.Huffman.Writing.{IsAscii}
use heaphttpd.Hpack.Huffman.RoundTrip.{encoded}
use heaphttpd.Hpack.Fields.{ok, advance, read_integer, huffman_string, read_string}
use heaphttpd.Hpack.Build.{encode_string}
use mathlib.Core.List.{append_assoc}
use native.Mathlib.Nat.{one-le-pow}
use mathlib.Core.Option

take-append :
    (n : ℕ) (xs ys : Bytes) → length xs ≤ n → take n (xs ++ ys) ≡ xs ++ take (n - length xs) ys
take-append n [] ys h = ap (λ k. take k ys) {x = n} {y = n - 0} (omega arith)
take-append zero (x ∷ xs) ys h = absurd (omega arith)
take-append (suc n) (x ∷ xs) ys h =
    ap (◌∷◌ x) (take-append n xs ys (omega arith) ∙ ap (λ k. xs ++ take k ys) (omega arith))

pub read_integer-ok :
    (memory : Bytes) (decode : Bytes → Decoded) (v n : ℕ)
    → decode memory ≡ Decoded.ok v n
    → read_integer memory decode ≡ ok (v, n)
unfolding read_integer
read_integer-ok memory decode v n e = rw (e, read_integer) refl

huffman_string-ok :
    (s out rest : Bytes)
    → hf_string_decode hf_init out (max_huffman_buff_len (length out)) ≡ decoded s
    → length s ≤ 8 * length out
    → length out < 2 ^ 28
    → huffman_string (out ++ rest) (length out) ≡ ok (c_str s)
unfolding huffman_string
huffman_string-ok s out rest d few l =
    rw (take-length_append out rest, d) (ground (arith, length-append out rest))

pub advance-ok : (a b : ℕ) → a + b < 2 ^ 31 → advance a b ≡ ok (a + b)
advance-ok a b h = ground arith

-- the memory behind `front`
read_string-at :
    (front : Bytes) (tag : ℕ) (bs out rest s : Bytes)
    → 2 ^ 7 ≤ tag
    → tag < 256
    → decode_http2_header_string (tag ∷ bs ++ (out ++ rest))
      ≡ Decoded.ok (length out) (suc (length bs))
    → huffman_string (out ++ rest) (length out) ≡ ok (c_str s)
    → length front + (suc (length bs) + length out) < 2 ^ 31
    → read_string (front ++ (tag ∷ bs ++ (out ++ rest))) (length front)
      ≡ ok (c_str s, length front + (suc (length bs) + length out))
unfolding read_string
read_string-at front tag bs out rest s h1 h2 d v room =
    rw (drop-length_append front (tag ∷ bs ++ (out ++ rest))) (
      rw
        (read_integer-ok (tag ∷ bs ++ (out ++ rest)) decode_http2_header_string (length out)
          (suc (length bs)) d)
        (rw
          (
            advance-ok (length front) (suc (length bs) + length out) room,
            drop-length_append bs (out ++ rest),
            v,
          )
          (ground arith)))

map_head : (o : Option Bytes) (c b : ℕ) (bs : Bytes) → Option.map (◌∷◌ c) o ≡ some (b ∷ bs) → b ≡ c
map_head none c b bs e = absurd (ground arith)
map_head (some cs) c b bs e = ground arith

encode_integer-head :
    (room v n b : ℕ) (bs : Bytes) → encode_integer (suc room) v n ≡ some (b ∷ bs) → b < 2 ^ n
unfolding encode_integer
encode_integer-head room v n b bs e = elim (lt_or_ge v (2 ^ n - 1)) [
  | inl h ↦ let same : b ≡ v = ground arith in omega arith
  | inr h ↦
      let same : b ≡ 2 ^ n - 1 =
        map_head (encode_integer_loop room (v - (2 ^ n - 1))) (2 ^ n - 1) b bs (ground arith) in
      omega (arith, one-le-pow n 2 (omega arith))
]

take_buffer :
    (c : ℕ) (bs rest : Bytes)
    → length bs ≤ 5
    → take 256 (c ∷ bs ++ rest) ≡ c ∷ (bs ++ take (255 - length bs) rest)
take_buffer c bs rest l = ap (◌∷◌ c) (take-append 255 bs rest (omega arith))

-- An integer that is written, as it is read back out of memory: `code` is put above its tag, and at
-- most 256 bytes are looked at.
pub integer_read :
    (prefix code v : ℕ) (rest : Bytes)
    → prefix ≤ 7
    → code * 2 ^ prefix + 2 ^ prefix ≤ 256
    → v < 2 ^ 32
    → (b : ℕ) × (bs : Bytes) × (encode_integer 256 v prefix ≡ some (b ∷ bs))
      × (b < 2 ^ prefix)
      × (length bs ≤ 5)
      × (decode_integer (take 256 ((b + code * 2 ^ prefix) ∷ bs ++ rest)) prefix
          ≡ Decoded.ok v (suc (length bs)))
integer_read prefix code v rest hp hc h =
    let (b, bs, e, l, unused) =
      decode_integer-encode_integer prefix 256 code v [] (omega arith) hc (omega arith) h in
    let (b', bs', e', l', d) =
      decode_integer-encode_integer prefix 256 code v (take (255 - length bs) rest) (omega arith) hc
        (omega arith) h in
    let same : decode_integer ((b + code * 2 ^ prefix) ∷ (bs ++ take (255 - length bs) rest)) prefix
        ≡ Decoded.ok v (suc (length bs)) =
      cc in
    (
      b,
      bs,
      e,
      encode_integer-head 255 v prefix b bs e,
      l,
      ap (λ m. decode_integer m prefix) (take_buffer (b + code * 2 ^ prefix) bs rest l) ∙ same,
    )

encode_string-ok :
    (s out bs : Bytes) (b : ℕ)
    → hf_string_encode s 0 ≡ some out
    → encode_http2_header_string (length out) ≡ some (b ∷ bs)
    → encode_string s ≡ ok ((b + 2 ^ 7) ∷ bs ++ out)
unfolding encode_string
encode_string-ok s out bs b e e' = rw (e, encode_string) (rw (e', encode_string) refl)

-- A string of characters below 128 that `hpack::build` writes is read back by `hpack::parse` at the
-- place where it stands, up to its first zero, whatever stands around it, if lengths are in range.
pub read_string-encode_string :
    (s rest : Bytes)
    → All IsAscii s
    → hf_string_encode_len s < 2 ^ 28
    → (bs : Bytes) × (encode_string s ≡ ok bs)
      × (length bs ≤ hf_string_encode_len s + 6)
      × ((front : Bytes)
          → length front + length bs < 2 ^ 31
          → read_string (front ++ (bs ++ rest)) (length front)
            ≡ ok (c_str s, length front + length bs))
unfolding encode_http2_header_string decode_http2_header_string
read_string-encode_string s rest h small =
    let (out, e, d, len, few) = encoded s h in
    let (b, bs, e', top, l, r) =
      integer_read 7 1 (length out) (out ++ rest) (omega arith) (omega arith) (omega arith) in
    let whole : Bytes = (b + 2 ^ 7) ∷ bs ++ out in
    let size : length whole ≡ suc (length bs) + length out = length-append ((b + 2 ^ 7) ∷ bs) out in
    (
      whole,
      encode_string-ok s out bs b e e',
      omega arith,
      λ front room.
          ap (λ m. read_string (front ++ m) (length front))
            (append_assoc ((b + 2 ^ 7) ∷ bs) out rest)
          ∙ read_string-at front (b + 2 ^ 7) bs out rest s (omega arith) (omega arith) r
              (huffman_string-ok s out rest d few (omega arith)) (omega arith)
          ∙ ap (λ n. ok (c_str s, length front + n)) (sym size),
    )
