-- ===== src/Escape/Unicode.antt =====
-- `escape` and `unescape` of src/util/escape.cpp, on a little-endian machine (`_lendian_`).
pub mod RoundTrip
mod Tests
use heaphttpd.Prelude.{
  ℕ, zero, suc, ◌+◌, ◌*◌, ◌/◌, ◌%◌, ◌<◌, ◌≤◌, ◌≡◌, refl, sym, ap, ◌∙◌, Bool, true, false, ◌||◌,
  List, [], ◌∷◌, ◌++◌, Option, none, some, Bytes, IsByte, All, length, get_or, ltb, leb, ◌==◌,
  if◌then◌else◌, arith, Bool-cases, inl, inr,
}
use heaphttpd.Escape.{hex_digit, val, cint, is_alphanumeric, is_mark}
use mathlib.Core.Option

-- the characters that stand for themselves
unfoldable pub is_plain : ℕ → Bool
is_plain c = is_alphanumeric c || is_mark c

abbrev pub hex_digits : ℕ → Bytes → Bytes
hex_digits b rest = hex_digit (b / 16) ∷ hex_digit (b % 16) ∷ rest

-- a character up to 127
unfoldable pub escape_low : ℕ → Bytes → Bytes
escape_low c rest =
    if c == 32 then 43 ∷ rest else if is_plain c then c ∷ rest else 37 ∷ hex_digits c rest

-- A higher one goes with the byte behind it, at the end with the terminating zero.
unfoldable pub escape : Bytes → Bytes
escape [] = []
escape (c ∷ []) = if leb c 0x7F then escape_low c [] else 37 ∷ 117 ∷ hex_digits 0 (hex_digits c [])
escape (c ∷ d ∷ src) =
    let rest = escape (d ∷ src) in
    let behind = escape src in
    if leb c 0x7F then escape_low c rest else 37 ∷ 117 ∷ hex_digits d (hex_digits c behind)

-- The loop; the first argument counts the bytes that `x` has been moved over. The terminating zero is
-- read for a byte that is missing, and `none` is a read behind it.
unfoldable pub unescape_from : ℕ → Bytes → Option Bytes
unescape_from skip [] = some []
unescape_from (suc skip) (c ∷ src) = unescape_from skip src
unescape_from zero (c ∷ src) =
    let rest = unescape_from 0 src in
    let behind_two = unescape_from 2 src in
    let behind_five = unescape_from 5 src in
    let first = cint (get_or src 3 0) (get_or src 4 0) in
    let second = cint (get_or src 1 0) (get_or src 2 0) in
    if c == 43
    then Option.map (◌∷◌ 32) rest
    else if is_plain c
    then Option.map (◌∷◌ c) rest
    else if c == 37
    then if get_or src 0 0 == 117
      then if ltb (length src) 4 then none else Option.map (λ bs. first ∷ second ∷ bs) behind_five
      else if ltb (length src) 1
      then none
      else Option.map (◌∷◌ (cint (get_or src 0 0) (get_or src 1 0))) behind_two
    else Option.map (◌∷◌ c) rest

unfoldable pub unescape : Bytes → Option Bytes
unescape src = unescape_from 0 src
