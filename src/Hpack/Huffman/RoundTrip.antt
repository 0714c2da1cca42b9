-- ===== src/Hpack/Huffman/RoundTrip.antt =====
-- `hf_string_decode` takes back what `hf_string_encode` writes.
use heaphttpd.Prelude.{
  ℕ, ◌+◌, ◌*◌, ◌≤◌, ◌<◌, ◌≡◌, refl, ap, some, arith, Bytes, IsByte, All, [], ◌∷◌, ◌++◌, length,
  length-append,
}
use heaphttpd.Hpack.Huffman.Tree.{hf_init}
use heaphttpd.Hpack.Huffman.Bits.{bits_of, byte_bits, string_bits, code_of, len_of, length-bits_of}
use heaphttpd.Hpack.Huffman.Encode.{hf_string_encode, hf_string_encode_len, code_bits}
use heaphttpd.Hpack.Huffman.Decode.{decoded, decode_loop, hf_string_decode, max_huffman_buff_len}
use heaphttpd.Hpack.Huffman.Strings.{root-Waits}
use heaphttpd.Hpack.Huffman.Input.{decode_loop-codes}
use heaphttpd.Hpack.Huffman.Writing.{IsAscii, Holds, hf_string_encode_loop-Holds}
use heaphttpd.Prelude.{true, leb}
use heaphttpd.Prelude.Bits.{every_below, every_below→at}

hf_string_encode-Holds :
    (s : Bytes) → All IsAscii s → (out : Bytes) × (hf_string_encode s 0 ≡ some out) × Holds [] s out
unfolding hf_string_encode bits_of
hf_string_encode-Holds s h =
    hf_string_encode_loop-Holds s 8 0 h (omega arith) (omega arith) (omega arith)

ascii_bytes : (s : Bytes) → All IsAscii s → All IsByte s
ascii_bytes [] h = tt
ascii_bytes (c ∷ s) (b, h) = (omega arith, ascii_bytes s h)

length-byte_bits : (bs : Bytes) → length (byte_bits bs) ≡ 8 * length bs
unfolding byte_bits
length-byte_bits [] = refl
length-byte_bits (b ∷ bs) =
    omega
      (arith, length-append (bits_of 8 b) (byte_bits bs), length-bits_of 8 b, length-byte_bits bs)

length-string_bits : (s : Bytes) → length (string_bits s) ≡ code_bits s
unfolding string_bits code_bits
length-string_bits [] = refl
length-string_bits (c ∷ s) = omega (
  arith,
  length-append (bits_of (len_of c) (code_of c)) (string_bits s),
  length-bits_of (len_of c) (code_of c),
  length-string_bits s,
)

Holds-bits : (s out : Bytes) (h : Holds [] s out) → 8 * length out ≡ code_bits s + h.pad
Holds-bits s out h = omega (
  arith,
  ap length h.bits,
  length-append (string_bits s) (bits_of h.pad 255),
  length-bits_of h.pad 255,
  length-string_bits s,
  length-byte_bits out,
)

Holds-length : (s out : Bytes) → Holds [] s out → length out ≡ hf_string_encode_len s
unfolding hf_string_encode_len
Holds-length s out h = omega (arith, h.pad_few, Holds-bits s out h)

-- The encoder fills as many bytes as `hf_string_encode_len` tells, on every string of characters below
-- 128.
pub hf_string_encode-hf_string_encode_len :
    (s : Bytes)
    → All IsAscii s
    → (out : Bytes) × (hf_string_encode s 0 ≡ some out) × (length out ≡ hf_string_encode_len s)
hf_string_encode-hf_string_encode_len s h =
    let (out, e, holds) = hf_string_encode-Holds s h in (out, e, Holds-length s out holds)

-- A code has a bit at least, so that a string is no longer than the bits it takes.
code_lengths : every_below 256 (λ c. leb 1 (len_of c)) ≡ true
unfolding every_below
code_lengths = refl

length-code_bits : (s : Bytes) → All IsByte s → length s ≤ code_bits s
unfolding code_bits
length-code_bits [] h = omega arith
length-code_bits (c ∷ s) (b, h) =
    let some_bit : 1 ≤ len_of c =
      let e : leb 1 (len_of c) ≡ true =
        every_below→at 256 (λ c. leb 1 (len_of c)) c code_lengths b in
      ground arith in
    omega (arith, length-code_bits s h)

decode_loop-Holds :
    (s out : Bytes) (out_sz : ℕ)
    → All IsByte s
    → Holds [] s out
    → length s ≤ out_sz
    → decode_loop (9 * length out + 1) hf_init hf_init out 0 0 out_sz 0 ≡ decoded s
unfolding bits_of
decode_loop-Holds s out out_sz h holds room =
    decode_loop-codes holds.pad out_sz (9 * length out + 1) 0 0 0 out hf_init s (string_bits s)
      record {
        waits = root-Waits s h;
        codes = holds.bits;
        input = holds.are_bytes;
        padding = holds.pad_few;
        few = omega arith;
        room = omega arith;
      }
      (omega arith)

decode_fits :
    (s out : Bytes)
    → All IsByte s
    → Holds [] s out
    → hf_string_decode hf_init out (max_huffman_buff_len (length out)) ≡ decoded s
unfolding hf_string_decode
decode_fits s out h holds =
    decode_loop-Holds s out (max_huffman_buff_len (length out)) h holds
      (omega (arith, length-code_bits s h, Holds-bits s out holds))

-- Whatever bytes spell the codes of a string one behind the other, with fewer than eight ones behind
-- the last, decode to that string, into a buffer of the size that MAX_HUFFMAN_BUFF_LEN gives. The
-- string may hold any byte.
pub hf_string_decode-string_bits :
    (s out : Bytes) (pad : ℕ)
    → All IsByte s
    → All IsByte out
    → pad < 8
    → byte_bits out ≡ string_bits s ++ bits_of pad 255
    → hf_string_decode hf_init out (max_huffman_buff_len (length out)) ≡ decoded s
hf_string_decode-string_bits s out pad h ho hp e =
    decode_fits s out h record { pad = pad; pad_few = hp; are_bytes = ho; bits = e }

-- The round trip, with the length of what is written.
pub encoded :
    (s : Bytes)
    → All IsAscii s
    → (out : Bytes) × (hf_string_encode s 0 ≡ some out)
      × (hf_string_decode hf_init out (max_huffman_buff_len (length out)) ≡ decoded s)
      × (length out ≡ hf_string_encode_len s)
      × (length s ≤ 8 * length out)
encoded s h =
    let (out, e, holds) = hf_string_encode-Holds s h in
    (
      out,
      e,
      decode_fits s out (ascii_bytes s h) holds,
      Holds-length s out holds,
      omega (arith, length-code_bits s (ascii_bytes s h), Holds-bits s out holds),
    )

-- Every string of characters below 128 is encoded, and decoding the bytes, into a buffer of the size
-- that MAX_HUFFMAN_BUFF_LEN gives, gives it back.
pub hf_string_decode-hf_string_encode :
    (s : Bytes)
    → All IsAscii s
    → (out : Bytes) × (hf_string_encode s 0 ≡ some out)
      × (hf_string_decode hf_init out (max_huffman_buff_len (length out)) ≡ decoded s)
hf_string_decode-hf_string_encode s h = let (out, e, d, l, few) = encoded s h in (out, e, d)
