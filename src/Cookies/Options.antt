-- ===== src/Cookies/Options.antt =====
-- What the constructor of src/cookie.cpp does with each piece of a line that toString has written.
use heaphttpd.Prelude.{
  ℕ, zero, suc, ◌+◌, ◌^◌, ◌<◌, ◌≡◌, refl, ap, ◌∙◌, Bool, true, false, List, [], ◌∷◌, ◌++◌, Bytes,
  length, if◌then◌else◌, arith, length-append,
}
use heaphttpd.Prelude.Int.{ℤ, pos, negsuc}
use heaphttpd.Text.{lower, trim_front, trim_back, strtrim, is_blank}
use heaphttpd.Text.Separator.{
  HasNoZero, HasNo, EndsPlain, IsTrimmed, EndsPlain-append, HasNoZero-append, strtrim_lem,
  strtrim_space, strcut_value,
}
use heaphttpd.Http1.Words.{text, starts_ignoring_case}
use heaphttpd.Cookies.{
  Cookie, cookie_option, keep_piece, option_value, cookie_option_field, cookie_field, cookie_fields,
  atoi, int_text,
}
use heaphttpd.Cookies.Numbers.{
  IsInt, length-int_text, atoi-int_text, int_text-HasNoZero, int_text-IsTrimmed,
}
use heaphttpd.Cookies.Pieces.{option_piece, max_age_piece, flag_piece, last_piece}

-- a part of a cookie that its line can hold
pub record IsPart (v : Bytes) : Type 0 where
  pub no_zero : HasNoZero v
  pub no_semicolon : HasNo b';' v
  pub trimmed : IsTrimmed v
  pub short : length v < 2 ^ 32

pub cookie_fields-append :
    (ps qs : List Bytes) (c : Cookie)
    → cookie_fields cookie_option (ps ++ qs) c
      ≡ cookie_fields cookie_option qs (cookie_fields cookie_option ps c)
unfolding cookie_fields cookie_field
cookie_fields-append [] qs c = refl
cookie_fields-append (p ∷ ps) qs c =
    cookie_fields-append ps qs (cookie_field cookie_option (strtrim p) c).1

pub equals-EndsPlain : (v : Bytes) → IsTrimmed v → EndsPlain (b'=' ∷ v)
equals-EndsPlain [] h = refl
equals-EndsPlain (b ∷ bs) h = h.1

-- a name and a value behind a space, of which only that is taken off
module _ (l : ℕ) (ls v : Bytes) (plain : is_blank l ≡ false) (no_zero : HasNoZero (l ∷ ls))
    (value_no_zero : HasNoZero v) (trimmed : IsTrimmed v) where
  strtrim_option : strtrim (0x20 ∷ (l ∷ (ls ++ b'=' ∷ v))) ≡ l ∷ (ls ++ b'=' ∷ v)
  strtrim_option =
      strtrim_space (l ∷ (ls ++ b'=' ∷ v))
        (HasNoZero-append (l ∷ ls) (b'=' ∷ v) no_zero (omega arith, value_no_zero))
        (plain, EndsPlain-append (l ∷ ls) (b'=' ∷ v) (omega arith) (equals-EndsPlain v trimmed))

  option_value_lem :
      HasNo b'=' (l ∷ ls)
      → length (l ∷ ls) + length v < 2 ^ 33
      → option_value (l ∷ (ls ++ b'=' ∷ v)) ≡ v
  unfolding option_value
  option_value_lem h short =
      ap strtrim (
        strcut_value b'=' (l ∷ ls) v h
          (HasNoZero-append (l ∷ ls) (b'=' ∷ v) no_zero (omega arith, value_no_zero))
          (omega (arith, length-append (l ∷ ls) (b'=' ∷ v))))
      ∙ strtrim_lem v value_no_zero trimmed

-- an option that is there, or what the cookie has
abbrev pub kept : Bytes → Bytes → Bytes
kept [] old = old
kept (b ∷ bs) old = b ∷ bs

one_field :
    (body : Bytes) (c : Cookie)
    → strtrim (0x20 ∷ body) ≡ body
    → cookie_fields cookie_option ((0x20 ∷ body) ∷ []) c ≡ cookie_option_field body c
unfolding cookie_fields cookie_field
one_field body c e = ap (λ t. cookie_option_field t c) e

pub version-field :
    (v : Bytes) (c : Cookie)
    → IsPart v
    → cookie_fields cookie_option (option_piece (text " Version=") v) c
      ≡ record c { version = kept v c.version }
unfolding cookie_option_field starts_ignoring_case lower
version-field [] c part = unfold cookie_fields in refl
version-field (b ∷ bs) c part =
    one_field (text "Version=" ++ b ∷ bs) c
      (strtrim_option b'V' (text "ersion") (b ∷ bs) refl (omega arith) part.no_zero part.trimmed)
    ∙ ap (λ t. record c { version = t })
        (option_value_lem b'V' (text "ersion") (b ∷ bs) refl (omega arith) part.no_zero part.trimmed
          (ground arith) (omega (arith, part.short)))

pub expires-field :
    (v : Bytes) (c : Cookie)
    → IsPart v
    → cookie_fields cookie_option (option_piece (text " Expires=") v) c
      ≡ record c { expires = kept v c.expires }
unfolding cookie_option_field starts_ignoring_case lower
expires-field [] c part = unfold cookie_fields in refl
expires-field (b ∷ bs) c part =
    one_field (text "Expires=" ++ b ∷ bs) c
      (strtrim_option b'E' (text "xpires") (b ∷ bs) refl (omega arith) part.no_zero part.trimmed)
    ∙ ap (λ t. record c { expires = t })
        (option_value_lem b'E' (text "xpires") (b ∷ bs) refl (omega arith) part.no_zero part.trimmed
          (ground arith) (omega (arith, part.short)))

pub path-field :
    (v : Bytes) (c : Cookie)
    → IsPart v
    → cookie_fields cookie_option (option_piece (text " Path=") v) c
      ≡ record c { path = kept v c.path }
unfolding cookie_option_field starts_ignoring_case lower
path-field [] c part = unfold cookie_fields in refl
path-field (b ∷ bs) c part =
    one_field (text "Path=" ++ b ∷ bs) c
      (strtrim_option b'P' (text "ath") (b ∷ bs) refl (omega arith) part.no_zero part.trimmed)
    ∙ ap (λ t. record c { path = t })
        (option_value_lem b'P' (text "ath") (b ∷ bs) refl (omega arith) part.no_zero part.trimmed
          (ground arith) (omega (arith, part.short)))

pub domain-field :
    (v : Bytes) (c : Cookie)
    → IsPart v
    → cookie_fields cookie_option (option_piece (text " Domain=") v) c
      ≡ record c { domain = kept v c.domain }
unfolding cookie_option_field starts_ignoring_case lower
domain-field [] c part = unfold cookie_fields in refl
domain-field (b ∷ bs) c part =
    one_field (text "Domain=" ++ b ∷ bs) c
      (strtrim_option b'D' (text "omain") (b ∷ bs) refl (omega arith) part.no_zero part.trimmed)
    ∙ ap (λ t. record c { domain = t })
        (option_value_lem b'D' (text "omain") (b ∷ bs) refl (omega arith) part.no_zero part.trimmed
          (ground arith) (omega (arith, part.short)))

-- an age in a line
abbrev pub kept_age : ℤ → ℤ → ℤ
kept_age (negsuc zero) old = old
kept_age n old = n

age_field :
    (i : ℤ) (c : Cookie)
    → IsInt i
    → cookie_fields cookie_option ((text " MaxAge=" ++ int_text i) ∷ []) c
      ≡ record c { max_age = i }
unfolding cookie_option_field starts_ignoring_case lower
age_field i c h =
    one_field (text "MaxAge=" ++ int_text i) c (
      strtrim_option b'M' (text "axAge") (int_text i) refl (omega arith) (int_text-HasNoZero i)
        (int_text-IsTrimmed i))
    ∙ ap (λ t. record c { max_age = atoi t })
        (option_value_lem b'M' (text "axAge") (int_text i) refl (omega arith) (int_text-HasNoZero i)
          (int_text-IsTrimmed i) (ground arith) (omega (arith, length-int_text i h)))
    ∙ ap (λ t. record c { max_age = t }) (atoi-int_text i h)

pub max_age-field :
    (i : ℤ) (c : Cookie)
    → IsInt i
    → cookie_fields cookie_option (max_age_piece i) c ≡ record c { max_age = kept_age i c.max_age }
max_age-field (negsuc zero) c h = unfold cookie_fields in refl
max_age-field (pos n) c h = age_field (pos n) c h
max_age-field (negsuc (suc n)) c h = age_field (negsuc (suc n)) c h

pub flag-field :
    (secure : Bool) (c : Cookie)
    → cookie_fields cookie_option (flag_piece secure) c
      ≡ record c { secure = if secure then true else c.secure }
unfolding cookie_fields cookie_field cookie_option_field strtrim trim_front trim_back
    starts_ignoring_case lower
flag-field true c = refl
flag-field false c = refl

pub last-field :
    (http_only : Bool) (c : Cookie)
    → cookie_fields cookie_option (keep_piece true (last_piece http_only) []) c
      ≡ record c { http_only = if http_only then true else c.http_only }
unfolding cookie_fields cookie_field cookie_option_field strtrim trim_front trim_back
    starts_ignoring_case lower
last-field true c = refl
last-field false c = refl
