-- ===== src/Hpack/Huffman/Writing.antt =====
-- What `hf_byte_encode` and `hf_string_encode` write, read as strings of bits.
use heaphttpd.Prelude.{
  ℕ, ◌-◌, ◌*◌, ◌/◌, ◌%◌, ◌^◌, ◌≤◌, ◌<◌, ◌≡◌, refl, sym, ap, ◌∙◌, Bool, true, false, ◌&&◌, ◌||◌,
  some, ltb, leb, ◌==◌, arith, Bytes, IsByte, All, [], ◌∷◌, ◌++◌, length, bit_or, get_or,
  take-length_append,
}
use heaphttpd.Prelude.Bits.{every_below, every_below→at}
use heaphttpd.Hpack.Huffman.Bits.{Bits, bits_of, byte_bits, string_bits, code_of, len_of}
use heaphttpd.Hpack.Huffman.Encode.{
  Written, hf_byte_encode_loop, hf_byte_encode, encoded_bytes, hf_string_encode_loop,
}
use mathlib.Core.List.{append_assoc, append-nil}
use mathlib.Core.Path.{ap₂, subst}
use heaphttpd.Prelude.{lt_or_ge, inl, inr}

abbrev same_bits : Bits → Bits → Bool
same_bits [] [] = true
same_bits [] (y ∷ ys) = false
same_bits (x ∷ xs) [] = false
same_bits (x ∷ xs) (y ∷ ys) = x == y && same_bits xs ys

same_bits_lem : (xs ys : Bits) → same_bits xs ys ≡ true → xs ≡ ys
same_bits_lem [] [] e = refl
same_bits_lem [] (y ∷ ys) e = absurd (ground arith)
same_bits_lem (x ∷ xs) [] e = absurd (ground arith)
same_bits_lem (x ∷ xs) (y ∷ ys) e = ap₂ ◌∷◌ (ground arith) (same_bits_lem xs ys (ground arith))

abbrev all_bytes : Bytes → Bool
all_bytes [] = true
all_bytes (b ∷ bs) = ltb b 256 && all_bytes bs

all_bytes_lem : (bs : Bytes) → all_bytes bs ≡ true → All IsByte bs
all_bytes_lem [] e = tt
all_bytes_lem (b ∷ bs) e = (ground arith, all_bytes_lem bs (ground arith))

-- the bits in a byte with `remain` free ones
abbrev used : ℕ → ℕ → ℕ
used remain cell = cell / 2 ^ remain

-- `c` in the used bits of a byte, with the free ones 0; the symbol goes behind them.
abbrev written_ok : ℕ → ℕ → ℕ → Written → Bool
written_ok ch remain c w =
    length w.full == encoded_bytes (len_of ch) remain
    && leb 1 w.remain
    && leb w.remain 8
    && used w.remain w.last * 2 ^ w.remain == w.last
    && ltb (used w.remain w.last) (2 ^ (8 - w.remain))
    && all_bytes w.full
    && same_bits (byte_bits w.full ++ bits_of (8 - w.remain) (used w.remain w.last))
        (bits_of (8 - remain) c ++ bits_of (len_of ch) (code_of ch))

abbrev byte_encode_test : ℕ → ℕ → ℕ → Bool
byte_encode_test ch r c = written_ok ch (8 - r) c (hf_byte_encode ch (8 - r) (c * 2 ^ (8 - r)))

-- all characters of a string at all places in a byte
byte_encode_table :
    every_below 8 (λ r. every_below (2 ^ r) (λ c. every_below 128 (λ ch. byte_encode_test ch r c)))
    ≡ true
unfolding every_below hf_byte_encode hf_byte_encode_loop encoded_bytes bits_of byte_bits
byte_encode_table = refl

-- the padding, where `r` bits of the byte are used
abbrev padded : ℕ → ℕ → ℕ
padded r c = bit_or (c * 2 ^ (8 - r)) (0x3fffffff / 2 ^ (30 - (8 - r)) % 2 ^ 8)

abbrev padding_test : ℕ → ℕ → Bool
padding_test r c =
    r == 0
    || ltb (padded r c) 256
      && same_bits (bits_of 8 (padded r c)) (bits_of r c ++ bits_of (8 - r) 255)

padding_table : every_below 8 (λ r. every_below (2 ^ r) (padding_test r)) ≡ true
unfolding every_below bits_of
padding_table = refl

-- what a call of `hf_byte_encode` is known to leave
record Writes (ch remain c : ℕ) (w : Written) : Type 0 where
  count : length w.full ≡ encoded_bytes (len_of ch) remain
  some_free : 1 ≤ w.remain
  at_most : w.remain ≤ 8
  free_zero : used w.remain w.last * 2 ^ w.remain ≡ w.last
  fits : used w.remain w.last < 2 ^ (8 - w.remain)
  are_bytes : All IsByte w.full
  bits :
      byte_bits w.full ++ bits_of (8 - w.remain) (used w.remain w.last)
      ≡ bits_of (8 - remain) c ++ bits_of (len_of ch) (code_of ch)

written_ok-Writes :
    (ch remain c : ℕ) (w : Written) → written_ok ch remain c w ≡ true → Writes ch remain c w
written_ok-Writes ch remain c w e = record {
  count = ground arith;
  some_free = ground arith;
  at_most = ground arith;
  free_zero = ground arith;
  fits = ground arith;
  are_bytes = all_bytes_lem w.full (ground arith);
  bits = same_bits_lem _ _ (ground arith);
}

hf_byte_encode-Writes :
    (ch remain c : ℕ)
    → ch < 128
    → 1 ≤ remain
    → remain ≤ 8
    → c < 2 ^ (8 - remain)
    → Writes ch remain c (hf_byte_encode ch remain (c * 2 ^ remain))
hf_byte_encode-Writes ch remain c hch h1 h8 hc =
    let r : ℕ = 8 - remain in
    let same : 8 - r ≡ remain = omega arith in
    subst (λ x. Writes ch x c (hf_byte_encode ch x (c * 2 ^ x))) same
      (written_ok-Writes ch (8 - r) c _ (
        every_below→at 128 (λ ch. byte_encode_test ch r c) ch
          (every_below→at (2 ^ r) (λ c. every_below 128 (λ ch. byte_encode_test ch r c)) c
            (every_below→at 8
              (λ r. every_below (2 ^ r) (λ c. every_below 128 (λ ch. byte_encode_test ch r c))) r
              byte_encode_table (omega arith))
            hc)
          hch))

abbrev pub IsAscii : ℕ → Type 0
IsAscii ch = ch < 128

-- The bytes `out` hold the codes of `s` behind the bits `front`, padded with ones.
pub record Holds (front : Bits) (s out : Bytes) : Type 0 where
  pub pad : ℕ
  pub pad_few : pad < 8
  pub are_bytes : All IsByte out
  pub bits : byte_bits out ≡ front ++ (string_bits s ++ bits_of pad 255)

byte_bits-append : (xs ys : Bytes) → byte_bits (xs ++ ys) ≡ byte_bits xs ++ byte_bits ys
unfolding byte_bits
byte_bits-append [] ys = refl
byte_bits-append (x ∷ xs) ys =
    ap (λ l. bits_of 8 x ++ l) (byte_bits-append xs ys)
    ∙ sym (append_assoc (bits_of 8 x) (byte_bits xs) (byte_bits ys))

All-append : (xs ys : Bytes) → All IsByte xs → All IsByte ys → All IsByte (xs ++ ys)
All-append [] ys hx hy = hy
All-append (x ∷ xs) ys (h, hx) hy = (h, All-append xs ys hx hy)

get_or-end : (xs : Bytes) (x : ℕ) → get_or (xs ++ x ∷ []) (length xs) 0 ≡ x
get_or-end [] x = refl
get_or-end (y ∷ xs) x = get_or-end xs x

-- one character, with what the rest of the string gives
hf_string_encode_loop-suc :
    (ch : ℕ) (s out : Bytes) (remain cell : ℕ)
    → ch < 128
    → length ((hf_byte_encode ch remain cell).full) ≡ encoded_bytes (len_of ch) remain
    → hf_string_encode_loop s
        ((hf_byte_encode ch remain cell).remain)
        ((hf_byte_encode ch remain cell).last)
      ≡ some out
    → hf_string_encode_loop (ch ∷ s) remain cell
      ≡ some ((hf_byte_encode ch remain cell).full ++ out)
unfolding hf_string_encode_loop
hf_string_encode_loop-suc ch s out remain cell h e rest =
    let w : Written = hf_byte_encode ch remain cell in
    rw (sym e)
      (rw (take-length_append w.full (w.last ∷ []), get_or-end w.full w.last, rest) (ground arith))

-- at the end of the string
hf_string_encode_loop-padded :
    (remain c : ℕ)
    → 1 ≤ remain
    → remain < 8
    → c < 2 ^ (8 - remain)
    → (hf_string_encode_loop [] remain (c * 2 ^ remain) ≡ some (padded (8 - remain) c ∷ []))
      × Holds (bits_of (8 - remain) c) [] (padded (8 - remain) c ∷ [])
unfolding hf_string_encode_loop string_bits byte_bits
hf_string_encode_loop-padded remain c h1 h8 hc =
    let r : ℕ = 8 - remain in
    let same : 8 - r ≡ remain = omega arith in
    let test : padding_test r c ≡ true =
      every_below→at (2 ^ r) (padding_test r) c
        (every_below→at 8 (λ r. every_below (2 ^ r) (padding_test r)) r padding_table (omega arith))
        hc in
    (
      rw same (ground arith),
      record {
        pad = 8 - r;
        pad_few = omega arith;
        are_bytes = (ground arith, tt);
        bits = append-nil (bits_of 8 (padded r c)) ∙ same_bits_lem _ _ (ground arith);
      },
    )

hf_string_encode_loop-end :
    (remain c : ℕ)
    → 1 ≤ remain
    → remain ≤ 8
    → c < 2 ^ (8 - remain)
    → (out : Bytes) × (hf_string_encode_loop [] remain (c * 2 ^ remain) ≡ some out)
      × Holds (bits_of (8 - remain) c) [] out
unfolding hf_string_encode_loop string_bits byte_bits bits_of
hf_string_encode_loop-end remain c h1 h8 hc = elim (lt_or_ge remain 8) [
  | inl h ↦
      let (e, holds) = hf_string_encode_loop-padded remain c h1 h hc in
      (padded (8 - remain) c ∷ [], e, holds)
  | inr h ↦
      let e : remain ≡ 8 = omega arith in
      ([], rw e refl, rw e record { pad = 0; pad_few = omega arith; are_bytes = tt; bits = refl })
]

pub hf_string_encode_loop-Holds :
    (s : Bytes) (remain c : ℕ)
    → All IsAscii s
    → 1 ≤ remain
    → remain ≤ 8
    → c < 2 ^ (8 - remain)
    → (out : Bytes) × (hf_string_encode_loop s remain (c * 2 ^ remain) ≡ some out)
      × Holds (bits_of (8 - remain) c) s out
unfolding string_bits
hf_string_encode_loop-Holds [] remain c h h1 h8 hc = hf_string_encode_loop-end remain c h1 h8 hc
hf_string_encode_loop-Holds (ch ∷ s) remain c (hch, h) h1 h8 hc =
    let w : Written = hf_byte_encode ch remain (c * 2 ^ remain) in
    let k : Writes ch remain c w = hf_byte_encode-Writes ch remain c hch h1 h8 hc in
    let q : ℕ = used w.remain w.last in
    let (out, e, holds) = hf_string_encode_loop-Holds s w.remain q h k.some_free k.at_most k.fits in
    let code : Bits = bits_of (len_of ch) (code_of ch) in
    let front : Bits = bits_of (8 - remain) c in
    let begun : Bits = bits_of (8 - w.remain) q in
    let pad : Bits = bits_of holds.pad 255 in
    (
      w.full ++ out,
      hf_string_encode_loop-suc ch s out remain (c * 2 ^ remain) hch k.count
          (ap (hf_string_encode_loop s w.remain) (sym k.free_zero) ∙ e),
      record {
        pad = holds.pad;
        pad_few = holds.pad_few;
        are_bytes = All-append w.full out k.are_bytes holds.are_bytes;
        bits =
            byte_bits-append w.full out
            ∙ ap (λ l. byte_bits w.full ++ l) holds.bits
            ∙ sym (append_assoc (byte_bits w.full) begun (string_bits s ++ pad))
            ∙ ap (λ l. l ++ (string_bits s ++ pad)) k.bits
            ∙ append_assoc front code (string_bits s ++ pad)
            ∙ ap (λ l. front ++ l) (sym (append_assoc code (string_bits s) pad));
      },
    )
