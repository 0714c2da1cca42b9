-- ===== src/Http1/Words.antt =====
-- Texts of src/http.cpp and the tests that it makes on the lines of a header.
use Prim.Native.String.{String}
use Prim.Native.Char.{code}
use heaphttpd.Prelude.{
  ℕ, ◌+◌, ◌-◌, ◌*◌, ◌%◌, ◌^◌, Bool, true, false, ◌&&◌, ◌||◌, [], ◌∷◌, Bytes, ltb, leb, ◌==◌,
  if◌then◌else◌,
}
use heaphttpd.Prelude.Int.{ℤ, pos, negsuc}
use heaphttpd.Text.{lower}

-- a literal of the source
abbrev pub text : String → Bytes
text String.[] = []
text (String.◌∷◌ c s) = code c ∷ text s

-- `HICH`
unfoldable pub higher : ℕ → ℕ
higher b = if leb 0x61 b && leb b 0x7a then b - 0x20 else b

-- The loop that makes the first letter of each word of a field's name large, up to a colon or a
-- space. `high` is the variable High.
unfoldable pub capitalise : Bool → Bytes → Bytes
capitalise high [] = []
capitalise high (b ∷ bs) =
    let c : ℕ = if high then higher b else b in
    if c == b':' || c == 0x20 then c ∷ bs else c ∷ capitalise (c == b'-') bs

-- `strncasecmp(line, prefix, n) == 0`, where `n` is the length of the prefix
unfoldable pub starts_ignoring_case : Bytes → Bytes → Bool
starts_ignoring_case [] line = true
starts_ignoring_case (p ∷ ps) [] = false
starts_ignoring_case (p ∷ ps) (b ∷ bs) = lower p == lower b && starts_ignoring_case ps bs

-- `strcasestr(line, part) != NULL`
unfoldable pub contains_ignoring_case : Bytes → Bytes → Bool
contains_ignoring_case part [] = starts_ignoring_case part []
contains_ignoring_case part (b ∷ bs) =
    starts_ignoring_case part (b ∷ bs) || contains_ignoring_case part bs

-- `Replace(name, "-", "_")` and `Toupper`
unfoldable pub meta_name : Bytes → Bytes
meta_name [] = []
meta_name (b ∷ bs) = (if b == b'-' then b'_' else higher b) ∷ meta_name bs

-- `isspace` of the C locale
abbrev pub is_space : ℕ → Bool
is_space b = b == 0x20 || (leb 0x09 b && leb b 0x0d)

unfoldable pub skip_spaces : Bytes → Bytes
skip_spaces [] = []
skip_spaces (b ∷ bs) = if is_space b then skip_spaces bs else b ∷ bs

-- the number in front, behind digits that make `n`
unfoldable pub digits_from : ℕ → Bytes → ℕ
digits_from n [] = n
digits_from n (b ∷ bs) =
    let more = digits_from (n * 10 + (b - b'0')) bs in if leb b'0' b && leb b b'9' then more else n

-- What strtoll of glibc gives is clipped to 64 bits.
abbrev pub clip_long : ℕ → ℤ
clip_long n = pos (if ltb n (2 ^ 63) then n else 2 ^ 63 - 1)

abbrev pub clip_negative : ℕ → ℤ
clip_negative n = if n == 0 then pos 0 else negsuc (if ltb n (2 ^ 63) then n - 1 else 2 ^ 63 - 1)

unfoldable pub signed : Bytes → ℤ
signed [] = pos 0
signed (b ∷ bs) =
    if b == b'-'
    then clip_negative (digits_from 0 bs)
    else clip_long (digits_from 0 (if b == b'+' then bs else b ∷ bs))

unfoldable pub atoll : Bytes → ℤ
atoll line = signed (skip_spaces line)

-- `(unsigned short)atoi(line)`
abbrev pub low16 : ℤ → ℕ
low16 (pos n) = n % 2 ^ 16
low16 (negsuc n) = 2 ^ 16 - 1 - n % 2 ^ 16
