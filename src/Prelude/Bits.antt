-- ===== src/Prelude/Bits.antt =====
-- Masks and flags on bytes as arithmetic. Each law is a table checked by evaluation.
use Prim.Native.Nat.{
  ℕ, zero, suc, ◌+◌, ◌-◌, ◌*◌, ◌/◌, ◌%◌, ◌^◌, ◌<◌, ◌≤◌, bit_and, bit_or, bit_xor, digits, min,
  bit_and-bitwise,
}
use mathlib.Core.Path.{◌≡◌, refl, sym, ◌∙◌}
use mathlib.Core.Bool.{Bool, true, ◌&&◌}
use native.Mathlib.Omega.{arith}
use native.Mathlib.Nat.{pow-suc, pow-succ', zero-mod}
use heaphttpd.Prelude.Tests.{◌==◌, ==_iff}

unfoldable pub every_below : ℕ → (ℕ → Bool) → Bool
every_below zero p = true
every_below (suc n) p = p n && every_below n p

pub every_below→at : (n : ℕ) (p : ℕ → Bool) (x : ℕ) → every_below n p ≡ true → x < n → p x ≡ true
unfolding every_below
every_below→at zero p x h l = absurd (omega arith)
every_below→at (suc n) p x h l = ground (arith, every_below→at n p x)

-- `b & ((1 << n) - 1)` for a prefix of at most 8 bits
mask_table : every_below 9 (λ n. every_below 256 (λ b. bit_and b (2 ^ n - 1) == b % 2 ^ n)) ≡ true
unfolding every_below
mask_table = refl

pub bit_and_mask : (n b : ℕ) → n ≤ 8 → b < 256 → bit_and b (2 ^ n - 1) ≡ b % 2 ^ n
bit_and_mask n b hn hb = (==_iff _ _).0 (
    every_below→at 256 (λ b. bit_and b (2 ^ n - 1) == b % 2 ^ n) b
      (every_below→at 9 (λ n. every_below 256 (λ b. bit_and b (2 ^ n - 1) == b % 2 ^ n)) n
        mask_table (omega arith))
      hb)

top_table : every_below 256 (λ b. bit_and b 0x80 == b / 128 * 128) ≡ true
unfolding every_below
top_table = refl

pub bit_and_80 : (b : ℕ) → b < 256 → bit_and b 0x80 ≡ b / 128 * 128
bit_and_80 b h =
    (==_iff _ _).0 (every_below→at 256 (λ b. bit_and b 0x80 == b / 128 * 128) b top_table h)

set_top_table : every_below 128 (λ b. bit_or b 0x80 == b + 128) ≡ true
unfolding every_below
set_top_table = refl

pub bit_or_80 : (b : ℕ) → b < 128 → bit_or b 0x80 ≡ b + 128
bit_or_80 b h =
    (==_iff _ _).0 (every_below→at 128 (λ b. bit_or b 0x80 == b + 128) b set_top_table h)

-- `k` ones in binary, and the mask of the low `k` bits of any number.
abbrev ones : ℕ → ℕ
ones zero = 0
ones (suc k) = 2 * ones k + 1

abbrev and_digits : ℕ → ℕ → ℕ → ℕ
and_digits n a b = digits (λ b. zero) min n a b

and_digits-zero : (n a : ℕ) → and_digits n a 0 ≡ 0
and_digits-zero zero a = refl
and_digits-zero (suc n) zero = refl
and_digits-zero (suc n) (suc a) = omega (arith, and_digits-zero n (suc a / 2))

split_mod : (a m : ℕ) → 0 < m → a / 2 % m * 2 + a % 2 ≡ a % (2 * m)
split_mod a m h = grind arith

two_pow_pos : (k : ℕ) → 0 < 2 ^ k
two_pow_pos zero = omega arith
two_pow_pos (suc k) = omega (arith, pow-suc 2 k, two_pow_pos k)

zero-mod_pow : (k a : ℕ) → a ≤ 0 → 0 ≡ a % 2 ^ k
zero-mod_pow k a h = let z : a ≡ 0 = omega arith in rw z (sym (zero-mod (2 ^ k)))

odd_digit : (a m : ℕ) → min (a % 2) ((2 * m + 1) % 2) ≡ a % 2
odd_digit a m = omega arith

odd_half : (m : ℕ) → (2 * m + 1) / 2 ≡ m
odd_half m = omega arith

and_digits-suc :
    (n a b : ℕ)
    → and_digits (suc n) (suc a) b ≡ and_digits n (suc a / 2) (b / 2) * 2 + min (suc a % 2) (b % 2)
and_digits-suc n a b = refl

ones_step :
    (k n a : ℕ)
    → and_digits n (suc a / 2) (ones k) ≡ suc a / 2 % 2 ^ k
    → and_digits (suc n) (suc a) (ones (suc k)) ≡ suc a % 2 ^ suc k
ones_step k n a h =
    and_digits-suc n a (ones (suc k))
    ∙ rw (odd_digit (suc a) (ones k), odd_half (ones k), h, pow-succ' 2 k)
        (split_mod (suc a) (2 ^ k) (two_pow_pos k))

and_digits-ones : (k n a : ℕ) → a ≤ n → and_digits n a (ones k) ≡ a % 2 ^ k
and_digits-ones zero n a h = omega (arith, and_digits-zero n a)
and_digits-ones (suc k) zero a h = zero-mod_pow (suc k) a h
and_digits-ones (suc k) (suc n) zero h = sym (zero-mod (2 ^ suc k))
and_digits-ones (suc k) (suc n) (suc a) h =
    ones_step k n a (and_digits-ones k n (suc a / 2) (omega arith))

-- `a & 0x7f` for a word of any width
pub bit_and_7f : (a : ℕ) → bit_and a 0x7f ≡ a % 128
bit_and_7f a = bit_and-bitwise a 0x7f ∙ and_digits-ones 7 a a (omega arith)

xor_table : every_below 256 (λ k. every_below 256 (λ b. bit_xor (bit_xor b k) k == b)) ≡ true
unfolding every_below
xor_table = refl

-- Masking a byte twice with the same key gives it back.
pub bit_xor-bit_xor : (b k : ℕ) → b < 256 → k < 256 → bit_xor (bit_xor b k) k ≡ b
bit_xor-bit_xor b k hb hk = (==_iff _ _).0 (
    every_below→at 256 (λ b. bit_xor (bit_xor b k) k == b) b
      (every_below→at 256 (λ k. every_below 256 (λ b. bit_xor (bit_xor b k) k == b)) k xor_table hk)
      hb)
