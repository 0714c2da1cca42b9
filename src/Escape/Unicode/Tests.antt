-- ===== src/Escape/Unicode/Tests.antt =====
-- `escape` and `unescape` at concrete inputs.
use heaphttpd.Prelude.{◌≡◌, refl, [], ◌∷◌, ◌++◌, some, none, Bytes, arith}
use heaphttpd.Escape.{hex_digit, is_alphanumeric, is_mark}
use heaphttpd.Escape.Unicode.{is_plain, escape_low, escape, unescape, unescape_from}
use heaphttpd.Escape.Unicode.RoundTrip.{unpaired, unescape-escape}

-- a, a space, the two bytes of é in UTF-8
abbrev caf : Bytes
caf = b'a' ∷ b' ' ∷ 0xC3 ∷ 0xA9 ∷ []

-- a%20 is a+, and the two bytes are the wrong way around, as those of a character of 16 bits
escape_sample : escape caf ≡ b'a' ∷ b'+' ∷ b'%' ∷ b'u' ∷ b'A' ∷ b'9' ∷ b'C' ∷ b'3' ∷ []
unfolding escape escape_low is_plain is_alphanumeric is_mark hex_digit
escape_sample = refl

-- two characters of the string and its end are not enough for %u
unescape_short : unescape (b'%' ∷ b'u' ∷ b'0' ∷ []) ≡ none
unfolding unescape unescape_from is_plain is_alphanumeric is_mark
unescape_short = refl

unescape-escape_example :
    unescape (escape (0xC3 ∷ 0xA9 ∷ 0xE9 ∷ []))
    ≡ some ((0xC3 ∷ 0xA9 ∷ 0xE9 ∷ []) ++ unpaired (0xC3 ∷ 0xA9 ∷ 0xE9 ∷ []))
unescape-escape_example = unescape-escape (0xC3 ∷ 0xA9 ∷ 0xE9 ∷ []) (omega arith)
