-- ===== src/Escape/Unicode/RoundTrip.antt =====
-- `unescape` after `escape`.
use heaphttpd.Prelude.{
  ℕ, ◌/◌, ◌<◌, ◌≤◌, ◌≡◌, refl, ap, ◌∙◌, true, false, [], ◌∷◌, ◌++◌, Option, some, Bytes, IsByte,
  All, leb, ◌==◌, if◌then◌else◌, arith, ==_iff, Bool-cases, inl, inr,
}
use heaphttpd.Escape.{hex_digit, is_alphanumeric, is_mark}
use heaphttpd.Escape.RoundTrip.{cint-hex_digit}
use heaphttpd.Escape.Unicode.{is_plain, hex_digits, escape_low, escape, unescape_from, unescape}
use mathlib.Core.Option

-- The zero that is added where a byte above 127 has no byte behind it to go with.
unfoldable pub unpaired : Bytes → Bytes
unpaired [] = []
unpaired (c ∷ []) = if leb c 0x7F then [] else 0 ∷ []
unpaired (c ∷ d ∷ src) =
    let rest = unpaired (d ∷ src) in
    let behind = unpaired src in if leb c 0x7F then rest else behind

hex_digit-not_u : (n : ℕ) → n < 16 → (hex_digit n == 117) ≡ false
unfolding hex_digit
hex_digit-not_u n h = ground arith

unescape_percent :
    (c : ℕ) (rest : Bytes)
    → c < 256
    → unescape_from 0 (37 ∷ hex_digits c rest) ≡ Option.map (◌∷◌ c) (unescape_from 0 rest)
unfolding unescape_from is_plain is_alphanumeric is_mark
unescape_percent c rest h =
    let some_digit : (hex_digit (c / 16) == 117) ≡ false = hex_digit-not_u (c / 16) (omega arith) in
    rw (some_digit, cint-hex_digit c h) (ground arith)

unescape_plus :
    (c : ℕ) (rest : Bytes)
    → (c == 32) ≡ true
    → unescape_from 0 (43 ∷ rest) ≡ Option.map (◌∷◌ c) (unescape_from 0 rest)
unfolding unescape_from
unescape_plus c rest e = let same : c ≡ 32 = (==_iff _ _).0 e in rw same refl

unescape_plain :
    (c : ℕ) (rest : Bytes)
    → is_plain c ≡ true
    → unescape_from 0 (c ∷ rest) ≡ Option.map (◌∷◌ c) (unescape_from 0 rest)
unfolding unescape_from is_plain is_alphanumeric is_mark
unescape_plain c rest e = ground arith

unescape_low :
    (c : ℕ) (rest : Bytes)
    → c ≤ 0x7F
    → unescape_from 0 (escape_low c rest) ≡ Option.map (◌∷◌ c) (unescape_from 0 rest)
unfolding escape_low
unescape_low c rest h = elim (Bool-cases (c == 32)) [
  | inl space ↦ rw space (unescape_plus c rest space)
  | inr other ↦ elim (Bool-cases (is_plain c)) [
    | inl plain ↦ rw (other, plain) (unescape_plain c rest plain)
    | inr coded ↦ rw (other, coded) (unescape_percent c rest (omega arith))
  ]
]

unescape_pair :
    (c d : ℕ) (rest : Bytes)
    → c < 256
    → d < 256
    → unescape_from 0 (37 ∷ 117 ∷ hex_digits d (hex_digits c rest))
      ≡ Option.map (λ bs. c ∷ d ∷ bs) (unescape_from 0 rest)
unfolding unescape_from is_plain is_alphanumeric is_mark
unescape_pair c d rest hc hd = rw (cint-hex_digit c hc, cint-hex_digit d hd) (ground arith)

map_append :
    (f : Bytes → Bytes) (o : Option Bytes) (bs : Bytes) → o ≡ some bs → Option.map f o ≡ some (f bs)
map_append f o bs e = ap (Option.map f) e

-- Every string comes back from `escape`, which `unescape` reads without leaving it, with a zero more
-- at its end where a byte above 127 stands there that does not go with the byte in front of it.
pub unescape-escape :
    (src : Bytes) → All IsByte src → unescape (escape src) ≡ some (src ++ unpaired src)
unfolding unescape escape unpaired
unescape-escape [] h = unfold unescape_from in refl
unescape-escape (c ∷ []) (hc, h) = elim (Bool-cases (leb c 0x7F)) [
  | inl low ↦ rw low (unescape_low c [] (ground arith) ∙ (unfold unescape_from in refl))
  | inr high ↦ rw high (unescape_pair c 0 [] hc (omega arith) ∙ (unfold unescape_from in refl))
]
unescape-escape (c ∷ d ∷ src) (hc, (hd, h)) = elim (Bool-cases (leb c 0x7F)) [
  | inl low ↦ rw low (
      unescape_low c (escape (d ∷ src)) (ground arith)
      ∙ map_append (◌∷◌ c) _ _ (unescape-escape (d ∷ src) (hd, h)))
  | inr high ↦ rw high (
      unescape_pair c d (escape src) hc hd
      ∙ map_append (λ bs. c ∷ d ∷ bs) _ _ (unescape-escape src h))
]
