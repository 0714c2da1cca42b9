-- ===== src/Hpack/Huffman/Encode.antt =====
-- `hf_byte_encode`, `hf_string_encode` and `hf_string_encode_len` of src/util/huffman.cpp.
use heaphttpd.Prelude.{
  ℕ, zero, suc, ◌+◌, ◌-◌, ◌*◌, ◌/◌, ◌%◌, ◌^◌, bit_or, [], ◌∷◌, ◌++◌, Option, none, some, Bytes,
  get_or, take, ltb, ◌==◌, if◌then◌else◌,
}
use heaphttpd.Hpack.Huffman.Tables.{huffman_codes, huffman_code_len}
use mathlib.Core.Option

-- What `hf_byte_encode` leaves: the bytes that it filled, the one that it began (0, if the last was
-- filled), and its result, the bits that are free in that one.
pub record Written : Type 0 where
  pub full : Bytes
  pub last : ℕ
  pub remain : ℕ

abbrev pub with_full : ℕ → Written → Written
with_full b w = record w { full = b ∷ w.full }

-- The loop; `cell` is `buff[i]`. Every turn but the last takes a bit at least from `nbits`, which
-- bounds the turns.
unfoldable pub hf_byte_encode_loop : ℕ → ℕ → ℕ → ℕ → ℕ → Written
hf_byte_encode_loop zero codes nbits remain cell = record {
  full = [];
  last = cell;
  remain = remain;
}
hf_byte_encode_loop (suc turns) codes nbits remain cell =
    let filled = bit_or cell (codes / 2 ^ (nbits - remain) % 2 ^ 8) in
    let more = hf_byte_encode_loop turns codes (nbits - remain) 8 0 in
    if ltb nbits remain
    then record {
      full = [];
      last = bit_or cell (codes * 2 ^ (remain - nbits) % 2 ^ 8);
      remain = remain - nbits;
    }
    else if nbits - remain == 0
    then record { full = filled ∷ []; last = 0; remain = 8 }
    else with_full filled more

unfoldable pub hf_byte_encode : ℕ → ℕ → ℕ → Written
hf_byte_encode ch remain cell =
    let nbits = get_or huffman_code_len ch 0 in
    hf_byte_encode_loop (nbits + 1) (get_or huffman_codes ch 0) nbits remain cell

-- `nbytes`, by which `hf_string_encode` moves on in the buffer
unfoldable pub encoded_bytes : ℕ → ℕ → ℕ
encoded_bytes len remain = if ltb len remain then (remain - len) / 8 else (len - remain) / 8 + 1

-- The loop and the padding: the bytes from `j` on, of which `cell` is the first. `none`: a character
-- above 127, a negative `char`, is an index in front of the table.
unfoldable pub hf_string_encode_loop : Bytes → ℕ → ℕ → Option Bytes
hf_string_encode_loop [] remain cell =
    if ltb remain 8
    then some (bit_or cell (0x3fffffff / 2 ^ (30 - remain) % 2 ^ 8) ∷ [])
    else some []
hf_string_encode_loop (ch ∷ buff_in) remain cell =
    let nbytes = encoded_bytes (get_or huffman_code_len ch 0) remain in
    let w = hf_byte_encode ch remain cell in
    let buff = w.full ++ w.last ∷ [] in
    let rest = hf_string_encode_loop buff_in w.remain (get_or buff nbytes 0) in
    if ltb ch 128 then Option.map (λ bs. take nbytes buff ++ bs) rest else none

-- into a buffer of zeros
unfoldable pub hf_string_encode : Bytes → ℕ → Option Bytes
hf_string_encode buff_in prefix = hf_string_encode_loop buff_in (8 - prefix) 0

-- the sum of the lengths
unfoldable pub code_bits : Bytes → ℕ
code_bits [] = 0
code_bits (ch ∷ enc) = get_or huffman_code_len ch 0 + code_bits enc

unfoldable pub hf_string_encode_len : Bytes → ℕ
hf_string_encode_len enc = (code_bits enc + 7) / 8
