-- ===== src/Base64.antt =====
-- CBase64 of src/util/base64.h: `Encode` and `Decode`. A string is the list of its characters'
-- codes; the output buffer has `outlen` bytes.
pub mod Groups
pub mod RoundTrip
mod Tests
use heaphttpd.Prelude.{
  ℕ, zero, suc, ◌+◌, ◌-◌, ◌*◌, ◌/◌, ◌%◌, ◌^◌, Bool, true, false, ◌&&◌, List, [], ◌∷◌, ◌++◌, Option,
  none, some, Bytes, length, get_or, ltb, leb, ◌==◌, if◌then◌else◌,
}
use mathlib.Core.Option

-- `BASE64_ENCODE_OUTPUT_MAX_LEN` and `BASE64_DECODE_OUTPUT_MAX_LEN`
unfoldable pub base64_encode_output_max_len : ℕ → ℕ
base64_encode_output_max_len l =
    if ltb l 4 then 4 + 1 else l / 3 * 4 + (if l % 3 == 0 then 0 else 4) + 1

unfoldable pub base64_decode_output_max_len : ℕ → ℕ
base64_decode_output_max_len l = if leb l 4 then 4 + 1 else l / 4 * 3 + 1

-- The table that `_init_codes_` fills; `none` stands for -1.
unfoldable pub codes : ℕ → Option ℕ
codes c =
    if leb 65 c && leb c 90
    then some (c - 65)
    else if leb 97 c && leb c 122
    then some (26 + c - 97)
    else if leb 48 c && leb c 57
    then some (52 + c - 48)
    else if c == 43
    then some 62
    else if c == 47
    then some 63
    else none

-- The loop; `accum` is the bit pattern of an `int`. The result is what is written from `index` on,
-- or -1. The buffer must have a byte at least: it is checked after the first write.
unfoldable pub decode_loop : Bytes → ℕ → ℕ → ℕ → ℕ → Option Bytes
decode_loop [] outlen shift accum index = some []
decode_loop (c ∷ data') outlen shift accum index = elim (codes (c % 2 ^ 8)) [
  | none ↦ decode_loop data' outlen shift accum index
  | some value ↦
      let accum' = accum * 2 ^ 6 % 2 ^ 32 + value in
      if ltb (shift + 6) 8
      then decode_loop data' outlen (shift + 6) accum' index
      else if leb outlen (index + 1)
      then none
      else Option.map (◌∷◌ (accum' / 2 ^ (shift + 6 - 8) % 2 ^ 8))
          (decode_loop data' outlen (shift + 6 - 8) accum' (index + 1))
]

unfoldable pub decode : Bytes → ℕ → Option Bytes
decode data' outlen = decode_loop data' outlen 0 0 0

abbrev pub alphabet : Bytes
alphabet =
    65 ∷ 66 ∷ 67 ∷ 68 ∷ 69 ∷ 70 ∷ 71 ∷ 72 ∷ 73 ∷ 74 ∷ 75 ∷ 76 ∷ 77 ∷ 78 ∷ 79 ∷ 80 ∷ 81 ∷ 82 ∷ 83
    ∷ 84 ∷ 85 ∷ 86 ∷ 87 ∷ 88 ∷ 89 ∷ 90 ∷ 97 ∷ 98 ∷ 99 ∷ 100 ∷ 101 ∷ 102 ∷ 103 ∷ 104 ∷ 105 ∷ 106
    ∷ 107 ∷ 108 ∷ 109 ∷ 110 ∷ 111 ∷ 112 ∷ 113 ∷ 114 ∷ 115 ∷ 116 ∷ 117 ∷ 118 ∷ 119 ∷ 120 ∷ 121 ∷ 122
    ∷ 48 ∷ 49 ∷ 50 ∷ 51 ∷ 52 ∷ 53 ∷ 54 ∷ 55 ∷ 56 ∷ 57 ∷ 43 ∷ 47 ∷ 61 ∷ []

-- the four characters for `val`, a number of 24 bits
unfoldable pub encode_quad : ℕ → Bool → Bool → Bytes
encode_quad val trip quad =
    get_or alphabet (val / 2 ^ 18 % 2 ^ 6) 0
    ∷ get_or alphabet (val / 2 ^ 12 % 2 ^ 6) 0
    ∷ get_or alphabet (if trip then val / 2 ^ 6 % 2 ^ 6 else 64) 0
    ∷ get_or alphabet (if quad then val % 2 ^ 6 else 64) 0
    ∷ []

-- `encoded`: the characters in front of the terminating zero. `full`: the result -1. `undefined`:
-- the code writes behind the buffer.
pub data Encoded : Type 0 where
  encoded : Bytes → Encoded
  full undefined : Encoded

abbrev pub prepend : Bytes → Encoded → Encoded
prepend bs (encoded cs) = encoded (bs ++ cs)
prepend bs full = full
prepend bs undefined = undefined

-- one turn of the loop: the check, and the four writes from `index` on
abbrev pub turn : ℕ → ℕ → Bytes → Encoded → Encoded
turn outlen index quad rest =
    if leb outlen index
    then full
    else if ltb outlen (index + 4)
    then undefined
    else prepend quad rest

unfoldable pub encode_loop : Bytes → ℕ → ℕ → Encoded
encode_loop [] outlen index = if ltb index outlen then encoded [] else undefined
encode_loop (a ∷ []) outlen index =
    turn outlen index (encode_quad (a % 2 ^ 8 * 2 ^ 16) false false)
      (encode_loop [] outlen (index + 4))
encode_loop (a ∷ b ∷ []) outlen index =
    turn outlen index (encode_quad (a % 2 ^ 8 * 2 ^ 16 + b % 2 ^ 8 * 2 ^ 8) true false)
      (encode_loop [] outlen (index + 4))
encode_loop (a ∷ b ∷ c ∷ bytes) outlen index =
    turn outlen index (encode_quad (a % 2 ^ 8 * 2 ^ 16 + b % 2 ^ 8 * 2 ^ 8 + c % 2 ^ 8) true true)
      (encode_loop bytes outlen (index + 4))

unfoldable pub encode : Bytes → ℕ → Encoded
encode bytes outlen = encode_loop bytes outlen 0
