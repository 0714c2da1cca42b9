-- ===== src/Base64/Groups.antt =====
-- The characters of one group of three bytes, decoded again.
use heaphttpd.Prelude.{
  ℕ, ◌+◌, ◌-◌, ◌*◌, ◌/◌, ◌%◌, ◌^◌, ◌≤◌, ◌<◌, ◌≡◌, refl, ap, ◌∙◌, Bool, true, false, [], ◌∷◌, Option,
  none, some, Bytes, get_or, ◌==◌, arith,
}
use mathlib.Core.Option
use mathlib.Core.Path.{ap₂}
use heaphttpd.Prelude.Bits.{every_below, every_below→at}
use heaphttpd.Base64.{codes, decode_loop, alphabet, encode_quad}

abbrev pub symbol : ℕ → ℕ
symbol v = get_or alphabet v 0

option_is : Option ℕ → ℕ → Bool
option_is none v = false
option_is (some w) v = w == v

option_is-some : (o : Option ℕ) (v : ℕ) → option_is o v ≡ true → o ≡ some v
unfolding option_is
option_is-some none v h = cc
option_is-some (some w) v h = ground arith

symbol_table : every_below 64 (λ v. option_is (codes (symbol v % 2 ^ 8)) v) ≡ true
unfolding every_below option_is codes
symbol_table = refl

codes-symbol : (v : ℕ) → v < 64 → codes (symbol v % 2 ^ 8) ≡ some v
codes-symbol v h =
    option_is-some (codes (symbol v % 2 ^ 8)) v
      (every_below→at 64 (λ v. option_is (codes (symbol v % 2 ^ 8)) v) v symbol_table h)

-- a character that only adds six bits
decode_first :
    (v : ℕ) (bs : Bytes) (outlen accum index : ℕ)
    → v < 64
    → decode_loop (symbol v ∷ bs) outlen 0 accum index
      ≡ decode_loop bs outlen 6 (accum * 2 ^ 6 % 2 ^ 32 + v) index
unfolding decode_loop
decode_first v bs outlen accum index h = rw (codes-symbol v h, decode_loop)

-- a character that completes a byte
decode_next :
    (v : ℕ) (bs : Bytes) (outlen shift accum index : ℕ)
    → v < 64
    → 2 ≤ shift
    → index + 1 < outlen
    → decode_loop (symbol v ∷ bs) outlen shift accum index ≡ (
        let accum' = accum * 2 ^ 6 % 2 ^ 32 + v in
        Option.map
          (◌∷◌ (accum' / 2 ^ (shift + 6 - 8) % 2 ^ 8))
          (decode_loop bs outlen (shift + 6 - 8) accum' (index + 1)))
unfolding decode_loop
decode_next v bs outlen shift accum index h hs hi =
    rw (codes-symbol v h, decode_loop) (ground arith)

abbrev pub accum_of : ℕ → ℕ → ℕ
accum_of accum v = accum * 2 ^ 6 % 2 ^ 32 + v

-- the first byte, from 12 bits
first_of :
    (acc a r : ℕ)
    → a < 256
    → r < 16
    → accum_of (accum_of acc (a / 4)) (a % 4 * 16 + r) / 2 ^ 4 % 2 ^ 8 ≡ a
first_of acc a r ha hr = omega arith

second_of :
    (acc b r l : ℕ)
    → b < 256
    → r < 4
    → l < 4
    → accum_of (accum_of acc (l * 16 + b / 16)) (b % 16 * 4 + r) / 2 ^ 2 % 2 ^ 8 ≡ b
second_of acc b r l hb hr hl = omega arith

third_of :
    (acc c l : ℕ)
    → c < 256
    → l < 16
    → accum_of (accum_of acc (l * 4 + c / 64)) (c % 64) / 2 ^ 0 % 2 ^ 8 ≡ c
third_of acc c l hc hl = omega arith

pub decode_pad :
    (bs : Bytes) (outlen shift accum index : ℕ)
    → decode_loop (61 ∷ bs) outlen shift accum index ≡ decode_loop bs outlen shift accum index
unfolding decode_loop codes
decode_pad bs outlen shift accum index = refl

-- the first byte of a group, with what is left of it and the next byte
pub decode_one :
    (a r : ℕ) (bs : Bytes) (outlen accum index : ℕ)
    → a < 256
    → r < 16
    → index + 1 < outlen
    → decode_loop (symbol (a / 4) ∷ symbol (a % 4 * 16 + r) ∷ bs) outlen 0 accum index
      ≡ Option.map
          (◌∷◌ a)
          (decode_loop bs outlen 4 (accum_of (accum_of accum (a / 4)) (a % 4 * 16 + r)) (index + 1))
decode_one a r bs outlen accum index ha hr hi =
    decode_first (a / 4) (symbol (a % 4 * 16 + r) ∷ bs) outlen accum index (omega arith)
    ∙ decode_next (a % 4 * 16 + r) bs outlen 6 (accum_of accum (a / 4)) index (omega arith)
        (omega arith) hi
    ∙ ap
        (λ x. Option.map (◌∷◌ x) (
          decode_loop bs outlen 4 (accum_of (accum_of accum (a / 4)) (a % 4 * 16 + r)) (index + 1)))
        (first_of accum a r ha hr)

pub decode_two :
    (a b r : ℕ) (bs : Bytes) (outlen accum index : ℕ)
    → a < 256
    → b < 256
    → r < 4
    → index + 2 < outlen
    → (accum' : ℕ) × (decode_loop
          (symbol (a / 4) ∷ symbol (a % 4 * 16 + b / 16) ∷ symbol (b % 16 * 4 + r) ∷ bs)
          outlen
          0
          accum
          index
        ≡ Option.map (◌∷◌ a) (
            Option.map (◌∷◌ b) (
              decode_loop bs outlen 2
                (accum_of (accum_of accum' (a % 4 * 16 + b / 16)) (b % 16 * 4 + r))
                (index + 2))))
decode_two a b r bs outlen accum index ha hb hr hi =
    let acc1 = accum_of accum (a / 4) in
    let acc2 = accum_of acc1 (a % 4 * 16 + b / 16) in
    let acc3 = accum_of acc2 (b % 16 * 4 + r) in
    let plus : index + 1 + 1 ≡ index + 2 = omega arith in
    (
      acc1,
      decode_one a (b / 16) (symbol (b % 16 * 4 + r) ∷ bs) outlen accum index ha (omega arith)
            (omega arith)
          ∙ ap (Option.map (◌∷◌ a)) (
              decode_next (b % 16 * 4 + r) bs outlen 4 acc2 (index + 1) (omega arith) (omega arith)
                (omega arith)
              ∙ ap₂ (λ x i. Option.map (◌∷◌ x) (decode_loop bs outlen 2 acc3 i))
                  (second_of acc1 b r (a % 4) hb hr (omega arith)) plus),
    )

pub decode_three :
    (a b c : ℕ) (bs : Bytes) (outlen accum index : ℕ)
    → a < 256
    → b < 256
    → c < 256
    → index + 3 < outlen
    → (accum' : ℕ) × (decode_loop
          (symbol (a / 4)
            ∷ symbol (a % 4 * 16 + b / 16)
            ∷ symbol (b % 16 * 4 + c / 64)
            ∷ symbol (c % 64)
            ∷ bs)
          outlen
          0
          accum
          index
        ≡ Option.map
            (◌∷◌ a)
            (Option.map (◌∷◌ b) (Option.map (◌∷◌ c) (decode_loop bs outlen 0 accum' (index + 3)))))
decode_three a b c bs outlen accum index ha hb hc hi =
    let (acc1, two) =
      decode_two a b (c / 64) (symbol (c % 64) ∷ bs) outlen accum index ha hb (omega arith)
        (omega arith) in
    let acc2 = accum_of acc1 (a % 4 * 16 + b / 16) in
    let acc3 = accum_of acc2 (b % 16 * 4 + c / 64) in
    let acc4 = accum_of acc3 (c % 64) in
    let plus : index + 2 + 1 ≡ index + 3 = omega arith in
    (
      acc4,
      two
          ∙ ap (λ o. Option.map (◌∷◌ a) (Option.map (◌∷◌ b) o))
              (decode_next (c % 64) bs outlen 2 acc3 (index + 2) (omega arith) (omega arith)
                  (omega arith)
                ∙ ap₂ (λ x i. Option.map (◌∷◌ x) (decode_loop bs outlen 0 acc4 i))
                    (third_of acc2 c (b % 16) hc (omega arith)) plus),
    )

-- the characters of three bytes, of two and of one
abbrev pub symbols_three : ℕ → ℕ → ℕ → Bytes
symbols_three a b c =
    symbol (a / 4)
    ∷ symbol (a % 4 * 16 + b / 16)
    ∷ symbol (b % 16 * 4 + c / 64)
    ∷ symbol (c % 64)
    ∷ []

abbrev pub symbols_two : ℕ → ℕ → Bytes
symbols_two a b = symbol (a / 4) ∷ symbol (a % 4 * 16 + b / 16) ∷ symbol (b % 16 * 4 + 0) ∷ 61 ∷ []

abbrev pub symbols_one : ℕ → Bytes
symbols_one a = symbol (a / 4) ∷ symbol (a % 4 * 16 + 0) ∷ 61 ∷ 61 ∷ []

-- the group of three bytes, written by `encode_quad`
pub quad_three :
    (a b c : ℕ)
    → a < 256
    → b < 256
    → c < 256
    → encode_quad (a % 2 ^ 8 * 2 ^ 16 + b % 2 ^ 8 * 2 ^ 8 + c % 2 ^ 8) true true
      ≡ symbols_three a b c
unfolding encode_quad
quad_three a b c ha hb hc =
    let val = a % 2 ^ 8 * 2 ^ 16 + b % 2 ^ 8 * 2 ^ 8 + c % 2 ^ 8 in
    let s1 : val / 2 ^ 18 % 2 ^ 6 ≡ a / 4 = omega arith in
    let s2 : val / 2 ^ 12 % 2 ^ 6 ≡ a % 4 * 16 + b / 16 = omega arith in
    let s3 : val / 2 ^ 6 % 2 ^ 6 ≡ b % 16 * 4 + c / 64 = omega arith in
    let s4 : val % 2 ^ 6 ≡ c % 64 = omega arith in rw (s1, s2, s3, s4)

pub quad_two :
    (a b : ℕ)
    → a < 256
    → b < 256
    → encode_quad (a % 2 ^ 8 * 2 ^ 16 + b % 2 ^ 8 * 2 ^ 8) true false ≡ symbols_two a b
unfolding encode_quad
quad_two a b ha hb =
    let val = a % 2 ^ 8 * 2 ^ 16 + b % 2 ^ 8 * 2 ^ 8 in
    let s1 : val / 2 ^ 18 % 2 ^ 6 ≡ a / 4 = omega arith in
    let s2 : val / 2 ^ 12 % 2 ^ 6 ≡ a % 4 * 16 + b / 16 = omega arith in
    let s3 : val / 2 ^ 6 % 2 ^ 6 ≡ b % 16 * 4 + 0 = omega arith in rw (s1, s2, s3)

pub quad_one : (a : ℕ) → a < 256 → encode_quad (a % 2 ^ 8 * 2 ^ 16) false false ≡ symbols_one a
unfolding encode_quad
quad_one a ha =
    let val = a % 2 ^ 8 * 2 ^ 16 in
    let s1 : val / 2 ^ 18 % 2 ^ 6 ≡ a / 4 = omega arith in
    let s2 : val / 2 ^ 12 % 2 ^ 6 ≡ a % 4 * 16 + 0 = omega arith in rw (s1, s2)
