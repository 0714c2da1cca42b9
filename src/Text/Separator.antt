-- ===== src/Text/Separator.antt =====
-- `strcut` (src/util/general.h) at a separator of one byte, and `strtrim` where there is nothing to
-- be taken off.
use heaphttpd.Prelude.{
  ℕ, zero, suc, ◌+◌, ◌^◌, ◌<◌, ◌≡◌, ◌≢◌, refl, sym, ap, ◌∙◌, true, false, ◌&&◌, [], ◌∷◌, ◌++◌, none,
  some, Bytes, All, length, take, drop, ltb, ◌==◌, if◌then◌else◌, arith, length-append,
  take-length_append,
}
use mathlib.Core.List.{append-nil}
use heaphttpd.Text.{
  c_str, is_blank, keep_front, trim_front, trim_back, strtrim, is_prefix, find_from, string_find,
  strcut,
}

abbrev pub HasNoZero : Bytes → Type 0
HasNoZero = All (λ b. 0 < b)

abbrev pub HasNo : ℕ → Bytes → Type 0
HasNo c = All (λ b. b ≢ c)

pub c_str_whole : (xs : Bytes) → HasNoZero xs → c_str xs ≡ xs
unfolding c_str
c_str_whole [] h = refl
c_str_whole (x ∷ xs) h = ground (arith, c_str_whole xs h.1)

separator_here : (c : ℕ) → ((c == c) && true) ≡ true
separator_here c = ground arith

separator_not_here : (c x : ℕ) (rest : Bytes) → x ≢ c → is_prefix (c ∷ []) (x ∷ rest) ≡ false
separator_not_here c x rest h = ground arith

find_from-separator :
    (c : ℕ) (name rest : Bytes) (at : ℕ)
    → HasNo c name
    → find_from (c ∷ []) (name ++ c ∷ rest) at ≡ at + length name
unfolding find_from
find_from-separator c [] rest at h = rw (separator_here c) (omega arith)
find_from-separator c (x ∷ xs) rest at h =
    rw (separator_not_here c x (xs ++ c ∷ rest) h.0)
      (find_from-separator c xs rest (at + 1) h.1 ∙ omega arith)

string_find-separator :
    (c : ℕ) (name value : Bytes)
    → HasNo c name
    → string_find (name ++ c ∷ value) (c ∷ []) 0 ≡ length name
unfolding string_find
string_find-separator c name value h =
    rw (not_behind (length (name ++ c ∷ value)), find_from-separator c name value 0 h) (omega arith)
  where
    not_behind : (n : ℕ) → ltb n 0 ≡ false
    not_behind n = ground arith

taken :
    (n : ℕ) (xs ys zs : Bytes)
    → n ≡ length xs
    → zs ≡ xs ++ ys
    → (if n == 0 then [] else take n zs) ≡ xs
taken n [] ys zs e f = ground arith
taken n (x ∷ xs) ys zs e f = rw (e, f, not_none (length xs)) (ap (◌∷◌ x) (take-length_append xs ys))
  where
    not_none : (k : ℕ) → (suc k == 0) ≡ false
    not_none k = ground arith

drop_behind :
    (c : ℕ) (name value : Bytes) (n : ℕ) → n ≡ length name + 1 → drop n (name ++ c ∷ value) ≡ value
drop_behind c name value zero e = absurd (omega arith)
drop_behind c [] value (suc n) e = ap (λ k. drop k value) {x = n} {y = 0} (omega arith)
drop_behind c (x ∷ xs) value (suc n) e = drop_behind c xs value n (omega arith)

module _ (c : ℕ) (name value : Bytes) (no_separator : HasNo c name)
    (no_zero : HasNoZero (name ++ c ∷ value)) (short : length (name ++ c ∷ value) < 2 ^ 64) where
  pub strcut_name : strcut (name ++ c ∷ value) none (some (c ∷ [])) ≡ name
  unfolding strcut
  strcut_name =
      rw (c_str_whole (name ++ c ∷ value) no_zero, string_find-separator c name value no_separator)
        (taken _ name (c ∷ value) _ (ground (arith, length-append name (c ∷ value))) refl)

  pub strcut_value : strcut (name ++ c ∷ value) (some (c ∷ [])) none ≡ value
  unfolding strcut
  strcut_value =
      rw (c_str_whole (name ++ c ∷ value) no_zero, string_find-separator c name value no_separator)
        (taken _ value [] _ (ground (arith, length-append name (c ∷ value))) (
          drop_behind c name value _ (ground (arith, length-append name (c ∷ value)))
          ∙ sym (append-nil value)))

-- The last byte is no blank.
abbrev pub EndsPlain : Bytes → Type 0
EndsPlain [] = Unit
EndsPlain (b ∷ []) = is_blank b ≡ false
EndsPlain (b ∷ c ∷ cs) = EndsPlain (c ∷ cs)

-- Nothing is taken off a text that begins and ends with other bytes than blanks.
abbrev pub IsTrimmed : Bytes → Type 0
IsTrimmed [] = Unit
IsTrimmed (b ∷ bs) = (is_blank b ≡ false) × EndsPlain (b ∷ bs)

pub trim_back_lem : (xs : Bytes) → EndsPlain xs → trim_back xs ≡ xs
unfolding trim_back
trim_back_lem [] h = refl
trim_back_lem (b ∷ []) h = rw h
trim_back_lem (b ∷ c ∷ cs) h = ap (keep_front b) (trim_back_lem (c ∷ cs) h)

nonzero : (b : ℕ) → 0 < b → (b == 0) ≡ false
nonzero b h = ground arith

pub strtrim_lem : (xs : Bytes) → HasNoZero xs → IsTrimmed xs → strtrim xs ≡ xs
unfolding strtrim trim_front
strtrim_lem [] z h = refl
strtrim_lem (b ∷ bs) z h = rw (nonzero b z.0, h.0) (trim_back_lem (b ∷ bs) h.1)

-- A space in front is taken off.
pub strtrim_space : (xs : Bytes) → HasNoZero xs → IsTrimmed xs → strtrim (0x20 ∷ xs) ≡ xs
unfolding strtrim trim_front
strtrim_space [] z h = unfold trim_back in refl
strtrim_space (b ∷ bs) z h = rw h.0 (trim_back_lem (b ∷ bs) h.1)

pub EndsPlain-append : (xs ys : Bytes) → 0 < length ys → EndsPlain ys → EndsPlain (xs ++ ys)
EndsPlain-append [] ys l h = h
EndsPlain-append (x ∷ []) [] l h = absurd (omega arith)
EndsPlain-append (x ∷ []) (y ∷ ys) l h = h
EndsPlain-append (x ∷ x' ∷ xs) ys l h = EndsPlain-append (x' ∷ xs) ys l h

pub HasNoZero-append : (xs ys : Bytes) → HasNoZero xs → HasNoZero ys → HasNoZero (xs ++ ys)
HasNoZero-append [] ys hx hy = hy
HasNoZero-append (x ∷ xs) ys hx hy = (hx.0, HasNoZero-append xs ys hx.1 hy)

pub HasNo-append : (c : ℕ) (xs ys : Bytes) → HasNo c xs → HasNo c ys → HasNo c (xs ++ ys)
HasNo-append c [] ys hx hy = hy
HasNo-append c (x ∷ xs) ys hx hy = (hx.0, HasNo-append c xs ys hx.1 hy)
