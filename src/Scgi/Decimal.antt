-- ===== src/Scgi/Decimal.antt =====
-- A number that `%u` of src/scgi.cpp prints is read back.
use heaphttpd.Prelude.{
  ℕ, zero, suc, ◌+◌, ◌*◌, ◌/◌, ◌%◌, ◌<◌, ◌≤◌, ◌≡◌, ap, ◌∙◌, [], ◌∷◌, ◌++◌, Bytes, All, length, ltb,
  arith, length-append, Bool-cases, inl, inr,
}
use mathlib.Core.List.{append_assoc}
use heaphttpd.Text.{decimal_digits, decimal}
use heaphttpd.Text.Separator.{HasNoZero}
use heaphttpd.Scgi.Netstring.{read_decimal}

read_digit :
    (n d : ℕ) (bs : Bytes)
    → d < 10
    → read_decimal n ((b'0' + d) ∷ bs) ≡ read_decimal (n * 10 + d) bs
unfolding read_decimal
read_digit n d bs h = ground arith

read_decimal-digits :
    (fuel n : ℕ) (rest : Bytes)
    → n < fuel
    → read_decimal 0 (decimal_digits fuel n ++ rest) ≡ read_decimal n rest
unfolding decimal_digits
read_decimal-digits zero n rest h = absurd (omega arith)
read_decimal-digits (suc fuel) n rest h = elim (Bool-cases (ltb n 10)) [
  | inl last ↦ rw last (
      read_digit 0 n rest (ground arith)
      ∙ ap (λ (k : ℕ). read_decimal k rest) {x = 0 * 10 + n} (omega arith))
  | inr more ↦
      rw (more, append_assoc (decimal_digits fuel (n / 10)) ((b'0' + n % 10) ∷ []) rest)
        (read_decimal-digits fuel (n / 10) ((b'0' + n % 10) ∷ rest) (ground arith)
          ∙ read_digit (n / 10) (n % 10) rest (omega arith)
          ∙ ap (λ (k : ℕ). read_decimal k rest) {x = n / 10 * 10 + n % 10} (omega arith))
]

pub read_decimal-decimal :
    (n : ℕ) (rest : Bytes) → read_decimal 0 (decimal n ++ rest) ≡ read_decimal n rest
unfolding decimal
read_decimal-decimal n rest = read_decimal-digits (suc n) n rest (omega arith)

abbrev pub IsDigit : ℕ → Type 0
IsDigit b = (b'0' ≤ b) × (b ≤ b'9')

All-append : (xs ys : Bytes) → All IsDigit xs → All IsDigit ys → All IsDigit (xs ++ ys)
All-append [] ys hx hy = hy
All-append (x ∷ xs) ys hx hy = (hx.0, All-append xs ys hx.1 hy)

decimal_digits-IsDigit : (fuel n : ℕ) → All IsDigit (decimal_digits fuel n)
unfolding decimal_digits
decimal_digits-IsDigit zero n = tt
decimal_digits-IsDigit (suc fuel) n = elim (Bool-cases (ltb n 10)) [
  | inl last ↦ rw last ((omega arith, ground arith), tt)
  | inr more ↦ rw more (
      All-append (decimal_digits fuel (n / 10)) ((b'0' + n % 10) ∷ [])
        (decimal_digits-IsDigit fuel (n / 10)) ((omega arith, omega arith), tt))
]

pub decimal-IsDigit : (n : ℕ) → All IsDigit (decimal n)
unfolding decimal
decimal-IsDigit n = decimal_digits-IsDigit (suc n) n

pub IsDigit-HasNoZero : (xs : Bytes) → All IsDigit xs → HasNoZero xs
IsDigit-HasNoZero [] h = tt
IsDigit-HasNoZero (x ∷ xs) h = (omega (arith, h.0.0), IsDigit-HasNoZero xs h.1)

pub decimal-HasNoZero : (n : ℕ) → HasNoZero (decimal n)
decimal-HasNoZero n = IsDigit-HasNoZero (decimal n) (decimal-IsDigit n)

-- A number has a digit at least.
pub length-decimal_pos : (n : ℕ) → 0 < length (decimal n)
unfolding decimal decimal_digits
length-decimal_pos n = elim (Bool-cases (ltb n 10)) [
  | inl last ↦ rw last (omega arith)
  | inr more ↦
      rw more (omega (arith, length-append (decimal_digits n (n / 10)) ((b'0' + n % 10) ∷ [])))
]
