-- ===== src/Escape.antt =====
-- `encodeURI` and `decodeURI` of src/util/escape.cpp. A string is the list of its bytes in front of
-- the terminating zero.
pub mod RoundTrip
pub mod Unicode
mod Tests
use heaphttpd.Prelude.{
  ℕ, zero, suc, ◌+◌, ◌-◌, ◌*◌, ◌/◌, ◌%◌, ◌^◌, bit_or, Bool, true, false, ◌&&◌, ◌||◌, List, [], ◌∷◌,
  ◌++◌, Option, none, some, Bytes, ltb, leb, ◌==◌, if◌then◌else◌,
}
use mathlib.Core.Option

-- a character of a row of the table `hex`
unfoldable pub hex_digit : ℕ → ℕ
hex_digit n = if ltb n 10 then 48 + n else 55 + n

-- the table `val`
unfoldable pub val : ℕ → ℕ
val c =
    if leb 48 c && leb c 57
    then c - 48
    else if leb 65 c && leb c 70
    then c - 55
    else if leb 97 c && leb c 102
    then c - 87
    else 0x3F

-- the letters and digits
unfoldable pub is_alphanumeric : ℕ → Bool
is_alphanumeric c = leb 65 c && leb c 90 || leb 97 c && leb c 122 || leb 48 c && leb c 57

-- - _ . ! ~ * \ ( )
unfoldable pub is_mark : ℕ → Bool
is_mark c =
    c == 45 || c == 95 || c == 46 || c == 33 || c == 126 || c == 42 || c == 92 || c == 40 || c == 41

unfoldable pub encode_uri : Bytes → Bytes
encode_uri [] = []
encode_uri (c ∷ src) =
    let rest = encode_uri src in
    if is_alphanumeric c || (c == 32 || is_mark c)
    then c ∷ rest
    else 37 ∷ hex_digit (c / 16) ∷ hex_digit (c % 16) ∷ rest

-- `cint` from two digits
unfoldable pub cint : ℕ → ℕ → ℕ
cint high low = bit_or (val high * 2 ^ 4) (val low) % 2 ^ 8

-- The loop. Behind a `%` two bytes are read, of which the terminating zero can be one; with no byte
-- left behind the `%` the second lies outside of the string: `none`.
unfoldable pub decode_uri : Bytes → Option Bytes
decode_uri [] = some []
decode_uri (c ∷ []) =
    if c == 43
    then some (32 ∷ [])
    else if is_alphanumeric c || is_mark c
    then some (c ∷ [])
    else if c == 37
    then none
    else some (c ∷ [])
decode_uri (c ∷ h ∷ []) =
    let rest = decode_uri (h ∷ []) in
    if c == 43
    then Option.map (◌∷◌ 32) rest
    else if is_alphanumeric c || is_mark c
    then Option.map (◌∷◌ c) rest
    else if c == 37
    then some (cint h 0 ∷ [])
    else Option.map (◌∷◌ c) rest
decode_uri (c ∷ h ∷ l ∷ src) =
    let rest = decode_uri (h ∷ l ∷ src) in
    let behind = decode_uri src in
    if c == 43
    then Option.map (◌∷◌ 32) rest
    else if is_alphanumeric c || is_mark c
    then Option.map (◌∷◌ c) rest
    else if c == 37
    then Option.map (◌∷◌ (cint h l)) behind
    else Option.map (◌∷◌ c) rest
