-- ===== src/Cookies/Numbers.antt =====
-- An `int` that src/cookie.cpp and src/cache.cpp print is read back by `atoi`.
use heaphttpd.Prelude.{
  ℕ, zero, suc, ◌+◌, ◌-◌, ◌*◌, ◌/◌, ◌%◌, ◌^◌, ◌<◌, ◌≤◌, ◌≡◌, refl, ap, ◌∙◌, false, ◌&&◌, [], ◌∷◌,
  Bytes, All, length, leb, ltb, ◌==◌, arith, length-append, Bool-cases, inl, inr,
}
use heaphttpd.Prelude.Int.{ℤ, pos, negsuc}
use heaphttpd.Text.{decimal, decimal_digits, is_blank}
use heaphttpd.Text.Separator.{HasNoZero, HasNo, EndsPlain, IsTrimmed}
use heaphttpd.Http1.Words.{
  is_space, skip_spaces, digits_from, clip_long, clip_negative, signed, atoll,
}
use heaphttpd.Scgi.Netstring.{read_decimal}
use heaphttpd.Scgi.Decimal.{IsDigit, decimal-IsDigit, IsDigit-HasNoZero, length-decimal_pos}
use heaphttpd.Scgi.RoundTrip.{read_whole}
use heaphttpd.Cookies.{as_int, atoi, int_text}

-- the values of an `int`
abbrev pub IsInt : ℤ → Type 0
IsInt (pos n) = n < 2 ^ 31
IsInt (negsuc n) = n < 2 ^ 31

digits_from-read_decimal : (n : ℕ) (bs : Bytes) → digits_from n bs ≡ (read_decimal n bs).0
unfolding digits_from read_decimal
digits_from-read_decimal n [] = refl
digits_from-read_decimal n (b ∷ bs) = elim (Bool-cases (leb b'0' b && leb b b'9')) [
  | inl digit ↦ rw digit (digits_from-read_decimal (n * 10 + (b - b'0')) bs)
  | inr stop ↦ rw stop
]

digits_from-decimal : (n : ℕ) → digits_from 0 (decimal n) ≡ n
digits_from-decimal n = digits_from-read_decimal 0 (decimal n) ∙ read_whole n

-- A text of digits is a number without a sign.
atoll-digits :
    (bs : Bytes) → All IsDigit bs → 0 < length bs → atoll bs ≡ clip_long (digits_from 0 bs)
unfolding atoll signed skip_spaces
atoll-digits [] h l = absurd (omega arith)
atoll-digits (b ∷ bs) h l = rw (no_space b h.0, no_minus b h.0, no_plus b h.0)
  where
    no_space : (d : ℕ) → IsDigit d → is_space d ≡ false
    no_space d e = ground (arith, e.0, e.1)

    no_minus : (d : ℕ) → IsDigit d → (d == b'-') ≡ false
    no_minus d e = ground (arith, e.0, e.1)

    no_plus : (d : ℕ) → IsDigit d → (d == b'+') ≡ false
    no_plus d e = ground (arith, e.0, e.1)

atoll-minus : (bs : Bytes) → atoll (b'-' ∷ bs) ≡ clip_negative (digits_from 0 bs)
unfolding atoll signed skip_spaces
atoll-minus bs = refl

negative_int : (n : ℕ) → n < 2 ^ 31 → as_int (clip_negative (n + 1)) ≡ negsuc n
negative_int n h = ground arith

pub atoi-int_text : (i : ℤ) → IsInt i → atoi (int_text i) ≡ i
unfolding atoi int_text
atoi-int_text (pos n) h =
    rw (atoll-digits (decimal n) (decimal-IsDigit n) (length-decimal_pos n), digits_from-decimal n)
      (ground arith)
atoi-int_text (negsuc n) h =
    ap as_int (atoll-minus (decimal (n + 1)) ∙ ap clip_negative (digits_from-decimal (n + 1)))
    ∙ negative_int n h

digit_no_blank : (b : ℕ) → IsDigit b → is_blank b ≡ false
digit_no_blank b h = ground (arith, h.0, h.1)

digits-EndsPlain : (bs : Bytes) → All IsDigit bs → EndsPlain bs
digits-EndsPlain [] h = tt
digits-EndsPlain (b ∷ []) h = digit_no_blank b h.0
digits-EndsPlain (b ∷ c ∷ cs) h = digits-EndsPlain (c ∷ cs) h.1

pub int_text-HasNoZero : (i : ℤ) → HasNoZero (int_text i)
unfolding int_text
int_text-HasNoZero (pos n) = IsDigit-HasNoZero (decimal n) (decimal-IsDigit n)
int_text-HasNoZero (negsuc n) =
    (omega arith, IsDigit-HasNoZero (decimal (n + 1)) (decimal-IsDigit (n + 1)))

digits-HasNo : (c : ℕ) (bs : Bytes) → b'9' < c → All IsDigit bs → HasNo c bs
digits-HasNo c [] l h = tt
digits-HasNo c (b ∷ bs) l h = (ground (arith, h.0.1), digits-HasNo c bs l h.1)

pub int_text-HasNo : (c : ℕ) (i : ℤ) → b'9' < c → HasNo c (int_text i)
unfolding int_text
int_text-HasNo c (pos n) l = digits-HasNo c (decimal n) l (decimal-IsDigit n)
int_text-HasNo c (negsuc n) l =
    (ground arith, digits-HasNo c (decimal (n + 1)) l (decimal-IsDigit (n + 1)))

pub length-int_text_pos : (i : ℤ) → 0 < length (int_text i)
unfolding int_text
length-int_text_pos (pos n) = length-decimal_pos n
length-int_text_pos (negsuc n) = omega arith

digits-IsTrimmed : (bs : Bytes) → All IsDigit bs → IsTrimmed bs
digits-IsTrimmed [] h = tt
digits-IsTrimmed (b ∷ bs) h = (digit_no_blank b h.0, digits-EndsPlain (b ∷ bs) h)

minus-EndsPlain : (bs : Bytes) → All IsDigit bs → EndsPlain (b'-' ∷ bs)
minus-EndsPlain [] h = refl
minus-EndsPlain (b ∷ bs) h = digits-EndsPlain (b ∷ bs) h

pub int_text-IsTrimmed : (i : ℤ) → IsTrimmed (int_text i)
unfolding int_text
int_text-IsTrimmed (pos n) = digits-IsTrimmed (decimal n) (decimal-IsDigit n)
int_text-IsTrimmed (negsuc n) = (refl, minus-EndsPlain (decimal (n + 1)) (decimal-IsDigit (n + 1)))

length-decimal_digits : (fuel n : ℕ) → length (decimal_digits fuel n) ≤ fuel
unfolding decimal_digits
length-decimal_digits zero n = omega arith
length-decimal_digits (suc fuel) n = elim (Bool-cases (ltb n 10)) [
  | inl last ↦ rw last (omega arith)
  | inr more ↦ rw more (
      omega (
        arith,
        length-decimal_digits fuel (n / 10),
        length-append (decimal_digits fuel (n / 10)) ((b'0' + n % 10) ∷ []),
      ))
]

pub length-int_text : (i : ℤ) → IsInt i → length (int_text i) ≤ 2 ^ 31 + 2
unfolding int_text decimal
length-int_text (pos n) h = omega (arith, length-decimal_digits (suc n) n)
length-int_text (negsuc n) h = omega (arith, length-decimal_digits (suc (n + 1)) (n + 1))
