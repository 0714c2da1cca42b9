-- ===== src/Cookies/RoundTrip.antt =====
-- A cookie that src/cache.cpp writes to its file comes back from the line.
use heaphttpd.Prelude.{
  zero, suc, ◌^◌, ◌<◌, ◌≡◌, refl, ap, ◌∙◌, Bool, true, false, List, [], ◌∷◌, ◌++◌, none, some,
  Bytes, length, if◌then◌else◌, arith, length-append,
}
use heaphttpd.Prelude.Int.{ℤ, pos, negsuc}
use heaphttpd.Text.{strtrim, strcut}
use heaphttpd.Text.Separator.{
  HasNoZero, HasNo, IsTrimmed, EndsPlain-append, HasNoZero-append, strtrim_lem, strcut_name,
  strcut_value,
}
use heaphttpd.Http1.Words.{text}
use heaphttpd.Cookies.{
  Cookie, cookie_create, cookie_option, keep_piece, split_string, as_int, atoi, int_text,
  option_value, cookie_field, cookie_fields, parse_cookie, cookie_line,
}
use heaphttpd.Cookies.Numbers.{atoi-int_text, int_text-HasNoZero, int_text-IsTrimmed}
use heaphttpd.Cookies.Pieces.{
  lined, last_piece, option_pieces, cookie_pieces, cookie_line-lined, split_lined,
  split_string_some,
}
use heaphttpd.Cookies.Options.{
  kept, kept_age, cookie_fields-append, equals-EndsPlain, version-field, expires-field, path-field,
  domain-field, max_age-field, flag-field, last-field,
}
use heaphttpd.Cookies.Saved.{IsSaved, as_int_lem, cookie_pieces-IsPiece, length-option_pieces}

length-lined : (p : Bytes) (ps : List Bytes) (last : Bytes) → 0 < length (lined (p ∷ ps) last)
length-lined p ps last = omega (arith, length-append p (b';' ∷ lined ps last))

-- the first three pieces, and the options
first_fields :
    (a b keyval : Bytes) (rest : List Bytes) (s : Cookie)
    → cookie_fields cookie_create (a ∷ b ∷ keyval ∷ rest) s
      ≡ cookie_fields cookie_option rest (record s {
        create_time = atoi (strtrim a);
        access_time = atoi (strtrim b);
        name = strtrim (strcut (strtrim keyval) none (some (text "=")));
        value = option_value (strtrim keyval);
      })
unfolding cookie_fields cookie_field
first_fields a b keyval rest s = refl

last_no_semicolon : (http_only : Bool) → HasNo b';' (last_piece http_only)
last_no_semicolon true = ground arith
last_no_semicolon false = tt

-- Some options, and then the others.
then_options :
    (ps qs : List Bytes) (s : Cookie) {s' : Cookie}
    → cookie_fields cookie_option ps s ≡ s'
    → cookie_fields cookie_option (ps ++ qs) s ≡ cookie_fields cookie_option qs s'
then_options ps qs s e = cookie_fields-append ps qs s ∙ ap (cookie_fields cookie_option qs) e

last_no_zero : (http_only : Bool) → HasNoZero (last_piece http_only)
last_no_zero true = omega arith
last_no_zero false = tt

keyval-IsTrimmed :
    (name value : Bytes) → IsTrimmed name → IsTrimmed value → IsTrimmed (name ++ b'=' ∷ value)
keyval-IsTrimmed [] value hn hv = (refl, equals-EndsPlain value hv)
keyval-IsTrimmed (b ∷ bs) value hn hv =
    (hn.0, EndsPlain-append (b ∷ bs) (b'=' ∷ value) (omega arith) (equals-EndsPlain value hv))

module _ (c : Cookie) (saved : IsSaved c) where
  abbrev last : List Bytes
  last = keep_piece true (last_piece c.http_only) []

  split_cookie_line : split_string (cookie_line c) b';' true ≡ cookie_pieces c ++ last
  split_cookie_line = rw (cookie_line-lined c) (
      split_string_some (lined (cookie_pieces c) (last_piece c.http_only)) (
        length-lined (int_text (as_int c.create_time))
          (int_text (as_int c.access_time) ∷ (c.name ++ b'=' ∷ c.value) ∷ option_pieces c)
          (last_piece c.http_only))
      ∙ split_lined (cookie_pieces c) (last_piece c.http_only) 0x7FFFFFFF
          (cookie_pieces-IsPiece c saved) (last_no_semicolon c.http_only) (last_no_zero c.http_only)
          (omega (arith, length-option_pieces c)))

  number_read :
      (i : ℤ) → as_int i ≡ i → atoi (int_text i) ≡ i → atoi (strtrim (int_text (as_int i))) ≡ i
  number_read i e f =
      rw e (ap atoi (strtrim_lem (int_text i) (int_text-HasNoZero i) (int_text-IsTrimmed i)) ∙ f)

  keyval_no_zero : HasNoZero (c.name ++ b'=' ∷ c.value)
  keyval_no_zero =
      HasNoZero-append c.name (b'=' ∷ c.value) saved.name.no_zero (omega arith, saved.value.no_zero)

  keyval_short : length (c.name ++ b'=' ∷ c.value) < 2 ^ 64
  keyval_short =
      omega (arith, length-append c.name (b'=' ∷ c.value), saved.name.short, saved.value.short)

  keyval_trimmed : strtrim (c.name ++ b'=' ∷ c.value) ≡ c.name ++ b'=' ∷ c.value
  keyval_trimmed =
      strtrim_lem (c.name ++ b'=' ∷ c.value) keyval_no_zero
        (keyval-IsTrimmed c.name c.value saved.name.trimmed saved.value.trimmed)

  name_read : strtrim (strcut (strtrim (c.name ++ b'=' ∷ c.value)) none (some (text "="))) ≡ c.name
  name_read = rw keyval_trimmed (
      ap strtrim (strcut_name b'=' c.name c.value saved.name_no_equals keyval_no_zero keyval_short)
      ∙ strtrim_lem c.name saved.name.no_zero saved.name.trimmed)

  value_read : option_value (strtrim (c.name ++ b'=' ∷ c.value)) ≡ c.value
  unfolding option_value
  value_read = rw keyval_trimmed (
      ap strtrim (strcut_value b'=' c.name c.value saved.name_no_equals keyval_no_zero keyval_short)
      ∙ strtrim_lem c.value saved.value.no_zero saved.value.trimmed)

  options_read :
      (s : Cookie)
      → cookie_fields cookie_option (option_pieces c) s ≡ record s {
        version = kept c.version s.version;
        max_age = kept_age c.max_age s.max_age;
        expires = kept c.expires s.expires;
        path = kept c.path s.path;
        domain = kept c.domain s.domain;
        secure = if c.secure then true else s.secure;
      }
  options_read s =
      then_options _ _ s (version-field c.version s saved.version)
      ∙ then_options _ _ _ (max_age-field c.max_age _ saved.max_age)
      ∙ then_options _ _ _ (expires-field c.expires _ saved.expires)
      ∙ then_options _ _ _ (path-field c.path _ saved.path)
      ∙ then_options _ _ _ (domain-field c.domain _ saved.domain)
      ∙ flag-field c.secure _

kept_nil : (v : Bytes) → kept v [] ≡ v
kept_nil [] = refl
kept_nil (b ∷ bs) = refl

kept_some : (v old : Bytes) → 0 < length v → kept v old ≡ v
kept_some [] old h = absurd (omega arith)
kept_some (b ∷ bs) old h = refl

kept_no_age : (i : ℤ) → kept_age i (negsuc 0) ≡ i
kept_no_age (negsuc zero) = refl
kept_no_age (pos n) = refl
kept_no_age (negsuc (suc n)) = refl

kept_flag : (b : Bool) → (if b then true else false) ≡ b
kept_flag true = refl
kept_flag false = refl

-- A cookie no part of which begins or ends with a blank, holds a semicolon or a zero or has 2 ^ 32
-- bytes, with no `=` in its name and a path that is not empty, comes back whole, the times included,
-- from the line that the cache writes for it, whatever stood in memory for the times.
pub parse_cookie-cookie_line :
    (c : Cookie) (create_time access_time : ℤ)
    → IsSaved c
    → parse_cookie (cookie_line c) create_time access_time ≡ c
unfolding parse_cookie
parse_cookie-cookie_line c create_time access_time saved =
    rw
      (
        split_cookie_line c saved,
        first_fields (int_text (as_int c.create_time)) (int_text (as_int c.access_time))
            (c.name ++ b'=' ∷ c.value) (option_pieces c ++ last c saved),
        number_read c saved c.create_time (as_int_lem c.create_time saved.create_time)
            (atoi-int_text c.create_time saved.create_time),
        number_read c saved c.access_time (as_int_lem c.access_time saved.access_time)
            (atoi-int_text c.access_time saved.access_time),
        name_read c saved,
        value_read c saved,
      )
      (then_options (option_pieces c) (last c saved) _ (options_read c saved _)
        ∙ last-field c.http_only _
        ∙ rw (
          kept_nil c.version,
          kept_nil c.domain,
          kept_nil c.expires,
          kept_some c.path (text "/") saved.some_path,
          kept_no_age c.max_age,
          kept_flag c.secure,
          kept_flag c.http_only,
        ))
