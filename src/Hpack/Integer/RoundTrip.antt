-- ===== src/Hpack/Integer/RoundTrip.antt =====
-- `decode_integer` reads back what `encode_integer` wrote.
use heaphttpd.Prelude.{
  ℕ, zero, suc, ◌+◌, ◌-◌, ◌*◌, ◌/◌, ◌%◌, ◌^◌, ◌≤◌, ◌<◌, ◌≡◌, sym, ◌∙◌, inl, inr, ap, true, false,
  [], ◌∷◌, ◌++◌, some, Bytes, length, leb, Bool-cases, map-eq-some, bit_and, bit_or, arith,
}
use mathlib.Core.Path.{ap₂}
use native.Mathlib.Nat.{
  mul-le-mul, div-lt_iff_lt-mul, pow-suc, add-mul-mod_self_right, mod-eq_of_lt, div-add-mod,
  one-le-pow, pow-le-pow_right,
}
use native.Mathlib.Nat.{le-div_iff_mul-le}
use native.Mathlib.Decide.{dec_lt}
use native.Mathlib.Numerals.{towards_suc}
use heaphttpd.Prelude.Bits.{bit_and_7f, bit_and_80, bit_or_80, bit_and_mask}
use heaphttpd.Hpack.Integer.{
  ok, decode_integer_loop, decode_integer, encode_integer_loop, encode_integer,
}

-- One round of the decoder on a last byte, and on a byte with the top bit set over the group `g`.
last_byte :
    (w acc m p : ℕ) (rest : Bytes)
    → w < 128
    → m < 32
    → w ≤ (2 ^ 32 - 1) / 2 ^ m
    → acc + w * 2 ^ m < 2 ^ 32
    → decode_integer_loop (w ∷ rest) acc m p ≡ ok (acc + w * 2 ^ m) (p + 1)
unfolding decode_integer_loop
last_byte w acc m p rest hw hm hf fits = ground (arith, bit_and_7f w, bit_and_80 w)

inner_byte :
    (g acc m p : ℕ) (rest : Bytes)
    → g < 128
    → m < 32
    → g ≤ (2 ^ 32 - 1) / 2 ^ m
    → acc + g * 2 ^ m < 2 ^ 32
    → decode_integer_loop ((g + 128) ∷ rest) acc m p
      ≡ decode_integer_loop rest (acc + g * 2 ^ m) (m + 7) (p + 1)
unfolding decode_integer_loop
inner_byte g acc m p rest hg hm hf fits = ground (arith, bit_and_7f (g + 128), bit_and_80 (g + 128))

shift_seven : (m : ℕ) → 2 ^ (m + 7) ≡ 128 * 2 ^ m
shift_seven m = simp towards_suc (omega arith)

-- the lowest group of `w` and the rest, both shifted by `m`
split_group : (w m : ℕ) → w * 2 ^ m ≡ w % 128 * 2 ^ m + w / 128 * 2 ^ (m + 7)
split_group w m = omega (
  arith,
  ap (λ (t : ℕ). t * 2 ^ m) (div-add-mod w 128),
  ap (λ (t : ℕ). w / 128 * t) (shift_seven m),
)

fits_shift : (w m : ℕ) → w * 2 ^ m < 2 ^ 32 → w ≤ (2 ^ 32 - 1) / 2 ^ m
fits_shift w m h = (le-div_iff_mul-le (one-le-pow m 2 (omega arith))).1 (omega arith)

-- a value with more than one group leaves room for the next shift
next_shift : (w m : ℕ) → 128 ≤ w → w * 2 ^ m < 2 ^ 32 → m + 7 < 32
next_shift w m h fits = elim (dec_lt m 25) [
  | yes low ↦ omega arith
  | no high ↦
      let p : 2 ^ 25 ≤ 2 ^ m = pow-le-pow_right (omega arith) {i = 25} (omega arith) in
      absurd (omega (arith, mul-le-mul h p))
]

high_byte : (w : ℕ) → bit_or (bit_and w 0x7f) 0x80 ≡ w % 128 + 128
high_byte w = rw bit_and_7f (bit_or_80 (w % 128) (omega arith))

encode_high :
    (room w : ℕ) (bs : Bytes)
    → leb 128 w ≡ true
    → encode_integer_loop (suc room) w ≡ some bs
    → (more : Bytes) × (encode_integer_loop room (w / 128) ≡ some more)
      × (bs ≡ (w % 128 + 128) ∷ more)
unfolding encode_integer_loop
encode_high room w bs big e =
    let (more, q, r) = map-eq-some _ (encode_integer_loop room (w / 128)) (rw big at e) in
    (more, q, rw high_byte at (sym r))

encode_low :
    (room w : ℕ) (bs : Bytes)
    → leb 128 w ≡ false
    → encode_integer_loop (suc room) w ≡ some bs
    → bs ≡ w ∷ []
unfolding encode_integer_loop
encode_low room w bs small e = ground arith

decode_integer_loop-encode :
    (room w acc m p : ℕ) (bs rest : Bytes)
    → m < 32
    → acc + w * 2 ^ m < 2 ^ 32
    → encode_integer_loop room w ≡ some bs
    → decode_integer_loop (bs ++ rest) acc m p ≡ ok (acc + w * 2 ^ m) (p + length bs)
decode_integer_loop-encode zero w acc m p bs rest hm fits e = unfold encode_integer_loop in cc
decode_integer_loop-encode (suc room) w acc m p bs rest hm fits e = elim (Bool-cases (leb 128 w)) [
  | inl big ↦
      let (more, q, r) = encode_high room w bs big e in
      let step = inner_byte (w % 128) acc m p (more ++ rest) in
      let next = decode_integer_loop-encode room (w / 128) (acc + w % 128 * 2 ^ m) (m + 7) in
      rw r (
        step (omega arith) hm (fits_shift (w % 128) m (omega (arith, split_group w m)))
          (omega (arith, split_group w m))
        ∙ next (p + 1) more rest (next_shift w m (ground arith) (omega arith))
            (omega (arith, split_group w m)) q
        ∙ ground (arith, split_group w m))
  | inr small ↦
      rw (encode_low room w bs small e)
        (last_byte w acc m p rest (ground arith) hm (fits_shift w m (omega arith)) fits)
]

group_lt : (k w : ℕ) → w < 128 ^ suc (suc k) → w / 128 < 128 ^ suc k
group_lt k w h = (div-lt_iff_lt-mul (omega arith)).1 (rw (pow-suc 128 (suc k)) at h)

encode_integer_loop_total :
    (k room w : ℕ)
    → w < 128 ^ suc k
    → k + 2 ≤ room
    → (bs : Bytes) × (encode_integer_loop room w ≡ some bs) × (length bs ≤ k + 1)
unfolding encode_integer_loop
encode_integer_loop_total k zero w hw hr = absurd (omega arith)
encode_integer_loop_total zero (suc room) w hw hr = (w ∷ [], ground arith, omega arith)
encode_integer_loop_total (suc k) (suc room) w hw hr = elim (Bool-cases (leb 128 w)) [
  | inl big ↦
      let (more, q, l) =
        encode_integer_loop_total k room (w / 128) (group_lt k w hw) (omega arith) in
      ((w % 128 + 128) ∷ more, rw (big, q, high_byte w), omega arith)
  | inr small ↦ (w ∷ [], ground arith, omega arith)
]

low_part : (b tag n : ℕ) → b < 2 ^ n → (b + tag * 2 ^ n) % 2 ^ n ≡ b
low_part b tag n h = add-mul-mod_self_right b tag (2 ^ n) ∙ mod-eq_of_lt h

first_byte :
    (b tag n : ℕ)
    → n ≤ 8
    → tag * 2 ^ n + 2 ^ n ≤ 256
    → b < 2 ^ n
    → bit_and (b + tag * 2 ^ n) (2 ^ n - 1) ≡ b
first_byte b tag n hn ht hb =
    bit_and_mask n (b + tag * 2 ^ n) hn (omega arith) ∙ low_part b tag n hb

pub decode_short :
    (b tag n : ℕ) (rest : Bytes)
    → n ≤ 8
    → tag * 2 ^ n + 2 ^ n ≤ 256
    → b < 2 ^ n - 1
    → decode_integer ((b + tag * 2 ^ n) ∷ rest) n ≡ ok b 1
unfolding decode_integer
decode_short b tag n rest hn ht hb = ground (arith, first_byte b tag n hn ht (omega arith))

decode_long :
    (tag n : ℕ) (rest : Bytes)
    → n ≤ 8
    → tag * 2 ^ n + 2 ^ n ≤ 256
    → decode_integer ((2 ^ n - 1 + tag * 2 ^ n) ∷ rest) n ≡ decode_integer_loop rest (2 ^ n - 1) 0 1
unfolding decode_integer
decode_long tag n rest hn ht =
    ground (arith, first_byte (2 ^ n - 1) tag n hn ht (omega (arith, one-le-pow n 2 (omega arith))))

abbrev Reads : ℕ → ℕ → ℕ → ℕ → Bytes → Type 0
Reads n size tag v rest =
    (b : ℕ) × (bs : Bytes) × (encode_integer size v n ≡ some (b ∷ bs))
    × (length bs ≤ 5)
    × (decode_integer ((b + tag * 2 ^ n) ∷ (bs ++ rest)) n ≡ ok v (suc (length bs)))

long-Reads :
    (n room tag v : ℕ) (rest bs : Bytes)
    → n ≤ 8
    → tag * 2 ^ n + 2 ^ n ≤ 256
    → v < 2 ^ 32
    → ¬ (v < 2 ^ n - 1)
    → encode_integer_loop room (v - (2 ^ n - 1)) ≡ some bs
    → length bs ≤ 5
    → Reads n (suc room) tag v rest
unfolding encode_integer
long-Reads n room tag v rest bs hn ht hv high q l =
    let w = v - (2 ^ n - 1) in
    let whole : 2 ^ n - 1 + w * 2 ^ 0 ≡ v = omega arith in
    let reads = decode_integer_loop-encode room w (2 ^ n - 1) 0 1 bs rest (omega arith) in
    (
      2 ^ n - 1,
      bs,
      ground arith,
      l,
      decode_long tag n (bs ++ rest) hn ht ∙ reads (omega arith) q ∙ ap₂ ok whole (omega arith),
    )

-- Every 32-bit value that is encoded into a buffer with room for it takes at most six bytes, and
-- is read back exactly, whatever tag the caller puts into the upper bits of the first byte and
-- whatever follows.
pub decode_integer-encode_integer :
    (n size tag v : ℕ) (rest : Bytes)
    → n ≤ 8
    → tag * 2 ^ n + 2 ^ n ≤ 256
    → 7 ≤ size
    → v < 2 ^ 32
    → (b : ℕ) × (bs : Bytes) × (encode_integer size v n ≡ some (b ∷ bs))
      × (length bs ≤ 5)
      × (decode_integer ((b + tag * 2 ^ n) ∷ (bs ++ rest)) n ≡ ok v (suc (length bs)))
unfolding encode_integer
decode_integer-encode_integer n zero tag v rest hn ht hs hv = absurd (omega arith)
decode_integer-encode_integer n (suc room) tag v rest hn ht hs hv = elim (dec_lt v (2 ^ n - 1)) [
  | yes low ↦ (v, [], ground arith, omega arith, decode_short v tag n rest hn ht low)
  | no high ↦
      let (bs, q, l) =
        encode_integer_loop_total 4 room (v - (2 ^ n - 1)) (omega arith) (omega arith) in
      long-Reads n room tag v rest bs hn ht hv high q l
]
