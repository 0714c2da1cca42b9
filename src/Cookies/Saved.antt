-- ===== src/Cookies/Saved.antt =====
-- The cookies that src/cache.cpp can write to its file, and the pieces of their lines.
use heaphttpd.Prelude.{
  ℕ, zero, suc, ◌+◌, ◌<◌, ◌≤◌, ◌≡◌, Bool, true, false, List, [], ◌∷◌, ◌++◌, Bytes, All, length,
  arith, length-append,
}
use heaphttpd.Prelude.Int.{ℤ, pos, negsuc}
use heaphttpd.Text.Separator.{HasNo, HasNo-append}
use heaphttpd.Http1.Words.{text}
use heaphttpd.Cookies.{Cookie, as_int, int_text}
use heaphttpd.Cookies.Numbers.{IsInt, int_text-HasNo, length-int_text_pos}
use heaphttpd.Cookies.Pieces.{
  IsPiece, option_piece, max_age_piece, flag_piece, option_pieces, cookie_pieces,
}
use heaphttpd.Cookies.Options.{IsPart}

-- A cookie that a line can hold: no part begins or ends with a blank or has a semicolon or a zero in
-- it, the name has no `=`, the path is not empty, and the numbers are values of an `int`.
pub record IsSaved (c : Cookie) : Type 0 where
  pub name : IsPart c.name
  pub name_no_equals : HasNo b'=' c.name
  pub value : IsPart c.value
  pub version : IsPart c.version
  pub domain : IsPart c.domain
  pub expires : IsPart c.expires
  pub path : IsPart c.path
  pub some_path : 0 < length c.path
  pub create_time : IsInt c.create_time
  pub access_time : IsInt c.access_time
  pub max_age : IsInt c.max_age

pub as_int_lem : (i : ℤ) → IsInt i → as_int i ≡ i
as_int_lem (pos n) h = ground arith
as_int_lem (negsuc n) h = ground arith

All-append : (ps qs : List Bytes) → All IsPiece ps → All IsPiece qs → All IsPiece (ps ++ qs)
All-append [] qs hp hq = hq
All-append (p ∷ ps) qs hp hq = (hp.0, All-append ps qs hp.1 hq)

option_piece-IsPiece :
    (l : ℕ) (ls v : Bytes) → HasNo b';' (l ∷ ls) → IsPart v → All IsPiece (option_piece (l ∷ ls) v)
option_piece-IsPiece l ls [] h part = tt
option_piece-IsPiece l ls (b ∷ bs) h part =
    ((omega arith, HasNo-append b';' (l ∷ ls) (b ∷ bs) h part.no_semicolon), tt)

age-IsPiece : (i : ℤ) → All IsPiece ((text " MaxAge=" ++ int_text i) ∷ [])
age-IsPiece i = (
  (
    omega arith,
    HasNo-append b';' (text " MaxAge=") (int_text i) (ground arith)
        (int_text-HasNo b';' i (omega arith)),
  ),
  tt,
)

max_age_piece-IsPiece : (i : ℤ) → All IsPiece (max_age_piece i)
max_age_piece-IsPiece (negsuc zero) = tt
max_age_piece-IsPiece (pos n) = age-IsPiece (pos n)
max_age_piece-IsPiece (negsuc (suc n)) = age-IsPiece (negsuc (suc n))

flag_piece-IsPiece : (secure : Bool) → All IsPiece (flag_piece secure)
flag_piece-IsPiece true = ((omega arith, ground arith), tt)
flag_piece-IsPiece false = tt

module _ (c : Cookie) (saved : IsSaved c) where
  option_pieces-IsPiece : All IsPiece (option_pieces c)
  option_pieces-IsPiece =
      All-append _ _
        (option_piece-IsPiece 0x20 (text "Version=") c.version (ground arith) saved.version)
        (All-append _ _ (max_age_piece-IsPiece c.max_age) (
          All-append _ _
            (option_piece-IsPiece 0x20 (text "Expires=") c.expires (ground arith) saved.expires)
            (All-append _ _
              (option_piece-IsPiece 0x20 (text "Path=") c.path (ground arith) saved.path)
              (All-append _ _
                (option_piece-IsPiece 0x20 (text "Domain=") c.domain (ground arith) saved.domain)
                (flag_piece-IsPiece c.secure)))))

  number-IsPiece : (i : ℤ) → IsPiece (int_text i)
  number-IsPiece i = (length-int_text_pos i, int_text-HasNo b';' i (omega arith))

  keyval-IsPiece : IsPiece (c.name ++ b'=' ∷ c.value)
  keyval-IsPiece = (
    omega (arith, length-append c.name (b'=' ∷ c.value)),
    HasNo-append b';' c.name (b'=' ∷ c.value) saved.name.no_semicolon
        (ground arith, saved.value.no_semicolon),
  )

  pub cookie_pieces-IsPiece : All IsPiece (cookie_pieces c)
  cookie_pieces-IsPiece = (
    number-IsPiece (as_int c.create_time),
    (number-IsPiece (as_int c.access_time), (keyval-IsPiece, option_pieces-IsPiece)),
  )

length-option_piece : (name v : Bytes) → length (option_piece name v) ≤ 1
length-option_piece name [] = omega arith
length-option_piece name (b ∷ bs) = omega arith

length-max_age_piece : (i : ℤ) → length (max_age_piece i) ≤ 1
length-max_age_piece (negsuc zero) = omega arith
length-max_age_piece (pos n) = omega arith
length-max_age_piece (negsuc (suc n)) = omega arith

length-flag_piece : (secure : Bool) → length (flag_piece secure) ≤ 1
length-flag_piece true = omega arith
length-flag_piece false = omega arith

length-two :
    (ps qs : List Bytes) (n : ℕ) → length ps ≤ 1 → length qs ≤ n → length (ps ++ qs) ≤ n + 1
length-two ps qs n hp hq = omega (arith, length-append ps qs)

pub length-option_pieces : (c : Cookie) → length (option_pieces c) ≤ 6
length-option_pieces c =
    length-two (option_piece (text " Version=") c.version) _ 5
      (length-option_piece (text " Version=") c.version)
      (length-two (max_age_piece c.max_age) _ 4 (length-max_age_piece c.max_age) (
        length-two (option_piece (text " Expires=") c.expires) _ 3
          (length-option_piece (text " Expires=") c.expires)
          (length-two (option_piece (text " Path=") c.path) _ 2
            (length-option_piece (text " Path=") c.path)
            (length-two (option_piece (text " Domain=") c.domain) _ 1
              (length-option_piece (text " Domain=") c.domain) (length-flag_piece c.secure)))))
