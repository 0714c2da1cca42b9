-- ===== src/Escape/RoundTrip.antt =====
-- `decodeURI` after `encodeURI`.
use heaphttpd.Prelude.{
  ℕ, ◌/◌, ◌%◌, ◌<◌, ◌≡◌, refl, ap, ◌∙◌, Bool, true, ◌||◌, [], ◌∷◌, some, Bytes, ◌==◌, ==_iff, arith,
  All, Bool-cases, inl, inr,
}
use mathlib.Core.Option
use heaphttpd.Prelude.Bits.{every_below, every_below→at}
use heaphttpd.Escape.{encode_uri, decode_uri, hex_digit, val, cint, is_alphanumeric, is_mark}

-- a byte of a string
abbrev pub IsChar : ℕ → Type 0
IsChar c = (0 < c) × (c < 256)

cint_table : every_below 256 (λ c. cint (hex_digit (c / 16)) (hex_digit (c % 16)) == c) ≡ true
unfolding every_below cint hex_digit val
cint_table = refl

pub cint-hex_digit : (c : ℕ) → c < 256 → cint (hex_digit (c / 16)) (hex_digit (c % 16)) ≡ c
cint-hex_digit c h =
    (==_iff _ _).0
      (every_below→at 256 (λ c. cint (hex_digit (c / 16)) (hex_digit (c % 16)) == c) c cint_table h)

abbrev kept : ℕ → Bool
kept c = is_alphanumeric c || (c == 32 || is_mark c)

-- a character that stands for itself
decode_kept :
    (c : ℕ) (src : Bytes)
    → kept c ≡ true
    → decode_uri (c ∷ src) ≡ Option.map (◌∷◌ c) (decode_uri src)
unfolding decode_uri is_alphanumeric is_mark
decode_kept c [] k = ground arith
decode_kept c (h ∷ []) k = ground arith
decode_kept c (h ∷ l ∷ src) k = ground arith

decode_escaped :
    (c : ℕ) (src : Bytes)
    → c < 256
    → decode_uri (37 ∷ hex_digit (c / 16) ∷ hex_digit (c % 16) ∷ src)
      ≡ Option.map (◌∷◌ c) (decode_uri src)
unfolding decode_uri is_alphanumeric is_mark
decode_escaped c src h = ap (λ b. Option.map (◌∷◌ b) (decode_uri src)) (cint-hex_digit c h)

-- Every string is decoded from its encoding, which `decodeURI` reads without leaving it.
pub decode_uri-encode_uri : (src : Bytes) → All IsChar src → decode_uri (encode_uri src) ≡ some src
unfolding encode_uri
decode_uri-encode_uri [] h = unfold decode_uri in refl
decode_uri-encode_uri (c ∷ src) h = elim (Bool-cases (kept c)) [
  | inl k ↦
      rw k
        (decode_kept c (encode_uri src) k ∙ ap (Option.map (◌∷◌ c)) (decode_uri-encode_uri src h.1))
  | inr k ↦ rw k (
      decode_escaped c (encode_uri src) h.0.1
      ∙ ap (Option.map (◌∷◌ c)) (decode_uri-encode_uri src h.1))
]
