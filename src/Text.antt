-- ===== src/Text.antt =====
-- The string functions of src/util/general.h that several components call. A std::string is the list
-- of its bytes; a `char*` ends at its first zero.
pub mod Separator
use heaphttpd.Prelude.{
  ℕ, zero, suc, ◌+◌, ◌-◌, ◌/◌, ◌%◌, ◌^◌, Bool, true, false, ◌&&◌, ◌||◌, [], ◌∷◌, ◌++◌, Option, none,
  some, Bytes, length, take, drop, ltb, leb, ◌==◌, if◌then◌else◌,
}

-- a `char*` as a string
unfoldable pub c_str : Bytes → Bytes
c_str [] = []
c_str (b ∷ bs) = if b == 0 then [] else b ∷ c_str bs

-- the characters that `strtrim` takes off: space, CR, LF, tab
abbrev pub is_blank : ℕ → Bool
is_blank b = b == 0x20 || b == 0x0d || b == 0x0a || b == 0x09

unfoldable pub trim_front : Bytes → Bytes
trim_front [] = []
trim_front (b ∷ bs) = if is_blank b then trim_front bs else b ∷ bs

-- a blank is put in front of what is left of the rest, if anything is left
abbrev pub keep_front : ℕ → Bytes → Bytes
keep_front b [] = if is_blank b then [] else b ∷ []
keep_front b (c ∷ cs) = b ∷ c ∷ cs

unfoldable pub trim_back : Bytes → Bytes
trim_back [] = []
trim_back (b ∷ bs) = keep_front b (trim_back bs)

-- A string that begins with a zero byte is left alone.
unfoldable pub strtrim : Bytes → Bytes
strtrim [] = []
strtrim (b ∷ bs) = if b == 0 then b ∷ bs else trim_back (trim_front (b ∷ bs))

-- `LOCH`
unfoldable pub lower : ℕ → ℕ
lower b = if leb 0x41 b && leb b 0x5a then b + 0x20 else b

abbrev pub lower_all : Bytes → Bytes
lower_all [] = []
lower_all (b ∷ bs) = lower b ∷ lower_all bs

-- The zero at the end is pushed as a character.
unfoldable pub lowercase : Bytes → Bytes
lowercase text = lower_all (c_str text) ++ 0 ∷ []

abbrev pub npos : ℕ
npos = 2 ^ 64 - 1

abbrev pub is_prefix : Bytes → Bytes → Bool
is_prefix [] text = true
is_prefix (p ∷ ps) [] = false
is_prefix (p ∷ ps) (b ∷ text) = p == b && is_prefix ps text

-- `find` from the place `at` on, which is where `text` starts
unfoldable pub find_from : Bytes → Bytes → ℕ → ℕ
find_from pattern [] at = if is_prefix pattern [] then at else npos
find_from pattern (b ∷ text) at =
    if is_prefix pattern (b ∷ text) then at else find_from pattern text (at + 1)

-- `string::find`
unfoldable pub string_find : Bytes → Bytes → ℕ → ℕ
string_find text pattern pos =
    if ltb (length text) pos then npos else find_from pattern (drop pos text) pos

-- `none` is the null pointer
unfoldable pub strcut : Bytes → Option Bytes → Option Bytes → Bytes
strcut buf begstring endstring =
    let text : Bytes = c_str buf in
    let ops1 : ℕ = elim begstring [ none ↦ 0 | some b ↦ string_find text b 0 ] in
    let from : ℕ = elim begstring [ none ↦ 0 | some b ↦ (ops1 + length b) % 2 ^ 64 ] in
    let ops2 : ℕ = elim endstring [ none ↦ length text | some e ↦ string_find text e from ] in
    let subfirst : ℕ =
      if ops1 == npos
      then length text
      else ops1 + elim begstring [ none ↦ 0 | some b ↦ length b ] in
    let sublen : ℕ =
      if ops2 == npos then length text - subfirst else (ops2 + 2 ^ 64 - subfirst) % 2 ^ 64 in
    if sublen == 0 then [] else take sublen (drop subfirst text)

-- `strcasecmp(a, b) == 0`
unfoldable pub same_ignoring_case : Bytes → Bytes → Bool
same_ignoring_case [] [] = true
same_ignoring_case [] (c ∷ b) = c == 0
same_ignoring_case (c ∷ a) [] = c == 0
same_ignoring_case (c ∷ a) (d ∷ b) =
    if lower c == lower d then c == 0 || same_ignoring_case a b else false

-- `==` of strings, and `strcmp(a, b) == 0` of two that have no zero
unfoldable pub same_string : Bytes → Bytes → Bool
same_string [] [] = true
same_string [] (b ∷ bs) = false
same_string (a ∷ as_) [] = false
same_string (a ∷ as_) (b ∷ bs) = a == b && same_string as_ bs

-- `%u` of sprintf, with the digits of `n / 10` in front of the last. More fuel than the number is enough.
unfoldable pub decimal_digits : ℕ → ℕ → Bytes
decimal_digits zero n = []
decimal_digits (suc fuel) n =
    let front = decimal_digits fuel (n / 10) in
    if ltb n 10 then (b'0' + n) ∷ [] else front ++ (b'0' + n % 10) ∷ []

unfoldable pub decimal : ℕ → Bytes
decimal n = decimal_digits (suc n) n
