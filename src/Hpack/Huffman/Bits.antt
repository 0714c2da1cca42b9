-- ===== src/Hpack/Huffman/Bits.antt =====
-- Strings of bits, the highest first.
use heaphttpd.Prelude.{
  ℕ, zero, suc, ◌+◌, ◌-◌, ◌*◌, ◌/◌, ◌%◌, ◌^◌, ◌≤◌, ◌<◌, ◌≡◌, refl, sym, ap, ◌∙◌, List, [], ◌∷◌,
  ◌++◌, Bytes, length, get_or, drop, arith,
}
use mathlib.Core.Path.{ap₂, subst}
use native.Mathlib.Nat.{
  div-div-eq-div-mul, suc-add, pow-suc, pow-zero, mul_assoc, one-le-pow, mul-div_cancel, mod-lt,
  mod-add-div, div-lt_iff_lt-mul, mul_comm, add-mul-div_left, add-mul-mod_self_left, mod-eq_of_lt,
  mod-mod_of_dvd, div-add-mod, dvd-mul_left, dvd-mul_right, add_comm, mul-pos,
}
use heaphttpd.Hpack.Huffman.Tables.{huffman_codes, huffman_code_len}

abbrev pub Bits : Type 0
Bits = List ℕ

-- the `w` low bits of a number
unfoldable pub bits_of : ℕ → ℕ → Bits
bits_of zero v = []
bits_of (suc w) v = v / 2 ^ w % 2 ∷ bits_of w v

unfoldable pub byte_bits : Bytes → Bits
byte_bits [] = []
byte_bits (b ∷ bs) = bits_of 8 b ++ byte_bits bs

-- the code of a symbol, and those of a string
abbrev pub code_of : ℕ → ℕ
code_of c = get_or huffman_codes c 0

abbrev pub len_of : ℕ → ℕ
len_of c = get_or huffman_code_len c 0

unfoldable pub string_bits : Bytes → Bits
string_bits [] = []
string_bits (c ∷ s) = bits_of (len_of c) (code_of c) ++ string_bits s

pub length-bits_of : (w v : ℕ) → length (bits_of w v) ≡ w
unfolding bits_of
length-bits_of zero v = refl
length-bits_of (suc w) v = ap suc (length-bits_of w v)

pow-add : (a b : ℕ) → 2 ^ (a + b) ≡ 2 ^ b * 2 ^ a
pow-add zero b = ap (λ (w : ℕ). 2 ^ w) {x = 0 + b} {y = b} (omega arith) ∙ omega (arith, pow-zero 2)
pow-add (suc a) b =
    ap (λ (w : ℕ). 2 ^ w) (suc-add a b)
    ∙ pow-suc 2 (a + b)
    ∙ ap (λ (q : ℕ). q * 2) (pow-add a b)
    ∙ mul_assoc (2 ^ b) (2 ^ a) 2
    ∙ ap (λ (q : ℕ). 2 ^ b * q) (sym (pow-suc 2 a))

pub two_pow_pos : (a : ℕ) → 0 < 2 ^ a
two_pow_pos a = one-le-pow a 2 (omega arith)

pub div_pow : (v a b : ℕ) → v / 2 ^ (a + b) ≡ v / 2 ^ b / 2 ^ a
div_pow v a b = ap (λ (q : ℕ). v / q) (pow-add a b) ∙ sym (div-div-eq-div-mul v (2 ^ b) (2 ^ a))

pub mul_pow-div_pow : (v a b : ℕ) → v * 2 ^ a / 2 ^ (b + a) ≡ v / 2 ^ b
mul_pow-div_pow v a b =
    div_pow (v * 2 ^ a) b a ∙ ap (λ (q : ℕ). q / 2 ^ b) (mul-div_cancel v (two_pow_pos a))

-- The low `a` digits above the low `b` ones are those of the low `a + b`.
pub mod_mul-div : (v m n : ℕ) → 0 < m → 0 < n → v % (m * n) / m ≡ v / m % n
mod_mul-div v m n hm hn =
    let r : ℕ = v % (m * n) in
    let q : ℕ = v / (m * n) in
    let below : r / m < n =
      (div-lt_iff_lt-mul hm).1
        (subst (λ (t : ℕ). r < t) (mul_comm m n) (mod-lt v (mul-pos hm hn))) in
    let whole : (r + m * n * q) ≡ v = mod-add-div v (m * n) in
    let split : v / m ≡ r / m + n * q =
      ap (λ (t : ℕ). t / m) (sym whole ∙ ap (λ (t : ℕ). r + t) (mul_assoc m n q))
      ∙ add-mul-div_left r (n * q) hm in
    sym (ap (λ (t : ℕ). t % n) split ∙ add-mul-mod_self_left (r / m) n q ∙ mod-eq_of_lt below)

pub mod_mul_lem : (v m n : ℕ) → 0 < m → 0 < n → v % (m * n) ≡ v % m + m * (v / m % n)
mod_mul_lem v m n hm hn =
    sym (div-add-mod (v % (m * n)) m)
    ∙ ap₂ (λ (a b : ℕ). m * a + b) (mod_mul-div v m n hm hn)
        (mod-mod_of_dvd m v (dvd-mul_right m n))
    ∙ add_comm (m * (v / m % n)) (v % m)

pub mod_pow-div_pow : (v a b : ℕ) → v % 2 ^ (a + b) / 2 ^ b ≡ v / 2 ^ b % 2 ^ a
mod_pow-div_pow v a b =
    ap (λ (q : ℕ). v % q / 2 ^ b) (pow-add a b)
    ∙ mod_mul-div v (2 ^ b) (2 ^ a) (two_pow_pos b) (two_pow_pos a)

pub mod_pow_suc : (v w : ℕ) → v % 2 ^ suc w ≡ v % 2 ^ w + 2 ^ w * (v / 2 ^ w % 2)
mod_pow_suc v w =
    ap (λ (q : ℕ). v % q) (pow-suc 2 w) ∙ mod_mul_lem v (2 ^ w) 2 (two_pow_pos w) (omega arith)

pub bits_of-split : (a b v : ℕ) → bits_of (a + b) v ≡ bits_of a (v / 2 ^ b) ++ bits_of b v
unfolding bits_of
bits_of-split zero b v = ap (λ w. bits_of w v) {x = 0 + b} (omega arith)
bits_of-split (suc a) b v =
    ap (λ w. bits_of w v) (suc-add a b)
    ∙ ap₂ ◌∷◌ (ap (λ q. q % 2) (div_pow v a b)) (bits_of-split a b v)

-- Equal bits are equal remainders.
pub bits_of_inj : (w x y : ℕ) → bits_of w x ≡ bits_of w y → x % 2 ^ w ≡ y % 2 ^ w
unfolding bits_of
bits_of_inj zero x y e = omega arith
bits_of_inj (suc w) x y e =
    let head : x / 2 ^ w % 2 ≡ y / 2 ^ w % 2 = ap (λ l. get_or l 0 0) e in
    mod_pow_suc x w
    ∙ ap₂ ◌+◌ (bits_of_inj w x y (ap (drop 1) e)) (ap (λ (q : ℕ). 2 ^ w * q) head)
    ∙ sym (mod_pow_suc y w)

low : (w k v : ℕ) → v % 2 ^ (suc w + k) / 2 ^ w % 2 ≡ v / 2 ^ w % 2
low w k v =
    ap (λ (n : ℕ). v % 2 ^ n / 2 ^ w % 2) {x = suc w + k} {y = suc k + w} (omega arith)
    ∙ ap (λ (q : ℕ). q % 2) (mod_pow-div_pow v (suc k) w)
    ∙ ap (λ (q : ℕ). v / 2 ^ w % q % 2) (pow-suc 2 k)
    ∙ mod-mod_of_dvd 2 (v / 2 ^ w) (dvd-mul_left 2 (2 ^ k))

pub bits_of-mod : (w k v : ℕ) → bits_of w (v % 2 ^ (w + k)) ≡ bits_of w v
unfolding bits_of
bits_of-mod zero k v = refl
bits_of-mod (suc w) k v =
    ap₂ ◌∷◌ (low w k v)
      (ap (λ n. bits_of w (v % 2 ^ n)) {y = w + suc k} (omega arith) ∙ bits_of-mod w (suc k) v)

-- equal strings with heads of equal length have equal heads and tails
pub append_inj :
    (xs xs' ys ys' : Bits)
    → length xs ≡ length xs'
    → xs ++ ys ≡ xs' ++ ys'
    → (xs ≡ xs') × (ys ≡ ys')
append_inj [] [] ys ys' l e = (refl, e)
append_inj [] (x' ∷ xs') ys ys' l e = absurd (omega (arith, l))
append_inj (x ∷ xs) [] ys ys' l e = absurd (omega (arith, l))
append_inj (x ∷ xs) (x' ∷ xs') ys ys' l e =
    let (same, rest) = append_inj xs xs' ys ys' (omega (arith, l)) (ap (drop 1) e) in
    (ap₂ ◌∷◌ (ap (λ l. get_or l 0 0) e) same, rest)

-- a byte shifted into a word
pub bits_of-shift :
    (n cur b : ℕ)
    → n ≤ 24
    → b < 256
    → bits_of (n + 8) ((cur * 2 ^ 8 + b) % 2 ^ 32) ≡ bits_of n cur ++ bits_of 8 b
bits_of-shift n cur b hn hb =
    bits_of-split n 8 ((cur * 2 ^ 8 + b) % 2 ^ 32)
    ∙ ap₂ (λ p q. bits_of n p ++ q) {x = (cur * 2 ^ 8 + b) % 2 ^ 32 / 2 ^ 8} {y = cur % 2 ^ 24}
        (omega arith)
        (sym (bits_of-mod 8 0 ((cur * 2 ^ 8 + b) % 2 ^ 32)) ∙ ap (bits_of 8) {y = b} (omega arith))
    ∙ ap (λ p. p ++ bits_of 8 b)
        (ap (λ (w : ℕ). bits_of n (cur % 2 ^ w)) {x = 24} {y = n + (24 - n)} (omega arith)
          ∙ bits_of-mod n (24 - n) cur)
