-- ===== src/Prelude/Words.antt =====
-- 32-bit words: `uint_32` sums and differences wrap, and an `int` is read off its bit pattern.
use Prim.Native.Nat.{ℕ, ◌+◌, ◌-◌, ◌%◌, ◌^◌, ◌≤◌, ◌<◌}
use mathlib.Core.Path.{◌≡◌}
use mathlib.Core.Bool.{Bool, ◌||◌}
use native.Mathlib.Omega.{arith}
use heaphttpd.Prelude.Tests.{leb, ◌==◌}

unfoldable pub add32 : ℕ → ℕ → ℕ
add32 a b = (a + b) % 2 ^ 32

unfoldable pub sub32 : ℕ → ℕ → ℕ
sub32 a b = (a + 2 ^ 32 - b % 2 ^ 32) % 2 ^ 32

-- `(int)w <= 0`
unfoldable pub nonpositive : ℕ → Bool
nonpositive w = w == 0 || leb (2 ^ 31) w

pub add32-lt : (a b : ℕ) → add32 a b < 2 ^ 32
unfolding add32
add32-lt a b = omega arith

pub sub32-lt : (a b : ℕ) → sub32 a b < 2 ^ 32
unfolding sub32
sub32-lt a b = omega arith

pub add32-sub32 : (a b : ℕ) → a < 2 ^ 32 → b < 2 ^ 32 → add32 (sub32 a b) b ≡ a
unfolding add32 sub32
add32-sub32 a b ha hb = omega arith

pub sub32-eq_sub : (a b : ℕ) → a < 2 ^ 32 → b ≤ a → sub32 a b ≡ a - b
unfolding sub32
sub32-eq_sub a b ha hb = omega arith
