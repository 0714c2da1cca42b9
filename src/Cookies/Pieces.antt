-- ===== src/Cookies/Pieces.antt =====
-- A line that vSplitString takes apart, as its pieces; the line of a cookie in this form.
use heaphttpd.Prelude.{
  ℕ, zero, suc, ◌-◌, ◌<◌, ◌≤◌, ◌≡◌, ◌≢◌, refl, sym, ap, ◌∙◌, Bool, true, false, List, [], ◌∷◌, ◌++◌,
  Bytes, All, length, ◌==◌, if◌then◌else◌, arith,
}
use mathlib.Core.List.{append_assoc, append-nil}
use heaphttpd.Prelude.Int.{ℤ, pos, negsuc}
use heaphttpd.Text.{c_str}
use heaphttpd.Text.Separator.{HasNoZero, HasNo, c_str_whole}
use heaphttpd.Http1.Words.{text}
use heaphttpd.Cookies.{
  Cookie, keep_piece, split_loop, split_string, as_int, int_text, option_text, max_age_text,
  cookie_text, cookie_line,
}

-- pieces with a semicolon behind each, and the last, which has none
abbrev pub lined : List Bytes → Bytes → Bytes
lined [] last = last
lined (p ∷ ps) last = p ++ b';' ∷ lined ps last

some_left : (n : ℕ) → (suc n == 0) ≡ false
some_left n = ground arith

one_less : (n : ℕ) → suc n - 1 ≡ n
one_less n = omega arith

split_piece :
    (count : ℕ) (cur p rest : Bytes)
    → HasNo b';' p
    → split_loop b';' true (suc count) cur (p ++ b';' ∷ rest)
      ≡ keep_piece true (cur ++ p) (split_loop b';' true count [] rest)
unfolding split_loop
split_piece count cur [] rest h = rw (some_left count, one_less count, append-nil cur)
split_piece count cur (b ∷ bs) rest h = rw (other b h.0) (
    split_piece count (cur ++ b ∷ []) bs rest h.1
    ∙ ap (λ t. keep_piece true t (split_loop b';' true count [] rest))
        (append_assoc cur (b ∷ []) bs))
  where
    other : (x : ℕ) → x ≢ b';' → (x == b';') ≡ false
    other x e = ground arith

split_last :
    (count : ℕ) (cur p : Bytes)
    → HasNo b';' p
    → split_loop b';' true count cur p ≡ keep_piece true (c_str (cur ++ p)) []
unfolding split_loop
split_last count cur [] h = ap (λ t. keep_piece true (c_str t) []) (sym (append-nil cur))
split_last count cur (b ∷ bs) h = rw (other b h.0) (
    split_last count (cur ++ b ∷ []) bs h.1
    ∙ ap (λ t. keep_piece true (c_str t) []) (append_assoc cur (b ∷ []) bs))
  where
    other : (x : ℕ) → x ≢ b';' → (x == b';') ≡ false
    other x e = ground arith

-- a piece that is kept, in which the separator does not stand
abbrev pub IsPiece : Bytes → Type 0
IsPiece p = (0 < length p) × HasNo b';' p

keep_some : (p : Bytes) (ps : List Bytes) → 0 < length p → keep_piece true p ps ≡ p ∷ ps
keep_some [] ps h = absurd (omega arith)
keep_some (b ∷ bs) ps h = refl

pub split_lined :
    (ps : List Bytes) (last : Bytes) (count : ℕ)
    → All IsPiece ps
    → HasNo b';' last
    → HasNoZero last
    → length ps ≤ count
    → split_loop b';' true count [] (lined ps last) ≡ ps ++ keep_piece true last []
split_lined [] last count hs h z l =
    split_last count [] last h ∙ ap (λ t. keep_piece true t []) (c_str_whole last z)
split_lined (p ∷ ps) last zero hs h z l = absurd (omega arith)
split_lined (p ∷ ps) last (suc count) hs h z l =
    split_piece count [] p (lined ps last) hs.0.1
    ∙ keep_some p (split_loop b';' true count [] (lined ps last)) hs.0.0
    ∙ ap (◌∷◌ p) (split_lined ps last count hs.1 h z (omega arith))

pub split_string_some :
    (bs : Bytes) → 0 < length bs → split_string bs b';' true ≡ split_loop b';' true 0x7FFFFFFF [] bs
unfolding split_string
split_string_some [] h = absurd (omega arith)
split_string_some (b ∷ bs) h = refl

lined-append :
    (ps qs : List Bytes) (last : Bytes) → lined (ps ++ qs) last ≡ lined ps (lined qs last)
lined-append [] qs last = refl
lined-append (p ∷ ps) qs last = ap (λ t. p ++ b';' ∷ t) (lined-append ps qs last)

-- the piece of an option, if there is one
abbrev pub option_piece : Bytes → Bytes → List Bytes
option_piece name [] = []
option_piece name (b ∷ bs) = (name ++ b ∷ bs) ∷ []

abbrev pub max_age_piece : ℤ → List Bytes
max_age_piece (negsuc zero) = []
max_age_piece n = (text " MaxAge=" ++ int_text n) ∷ []

abbrev pub flag_piece : Bool → List Bytes
flag_piece true = text " Secure" ∷ []
flag_piece false = []

abbrev pub last_piece : Bool → Bytes
last_piece true = text " HttpOnly"
last_piece false = []

option_text-lined :
    (name value : Bytes) (last rest : Bytes) (ps : List Bytes)
    → rest ≡ lined ps last
    → option_text name value ++ rest ≡ lined (option_piece name value ++ ps) last
unfolding option_text
option_text-lined name [] last rest ps e = e
option_text-lined name (b ∷ bs) last rest ps e =
    append_assoc name ((b ∷ bs) ++ text ";") rest
    ∙ ap (λ t. name ++ t) (append_assoc (b ∷ bs) (text ";") rest)
    ∙ sym (append_assoc name (b ∷ bs) (b';' ∷ rest))
    ∙ ap (λ t. (name ++ b ∷ bs) ++ b';' ∷ t) e

max_age_some :
    (number last rest : Bytes) (ps : List Bytes)
    → rest ≡ lined ps last
    → (text " MaxAge=" ++ (number ++ text ";")) ++ rest
      ≡ lined ((text " MaxAge=" ++ number) ∷ ps) last
max_age_some number last rest ps e =
    ap (λ t. text " MaxAge=" ++ t)
      (append_assoc number (text ";") rest ∙ ap (λ t. number ++ b';' ∷ t) e)

abbrev pub option_pieces : Cookie → List Bytes
option_pieces c =
    option_piece (text " Version=") c.version
    ++ (max_age_piece c.max_age
        ++ (option_piece (text " Expires=") c.expires
            ++ (option_piece (text " Path=") c.path
                ++ (option_piece (text " Domain=") c.domain ++ flag_piece c.secure))))

abbrev pub cookie_pieces : Cookie → List Bytes
cookie_pieces c =
    int_text (as_int c.create_time)
    ∷ int_text (as_int c.access_time)
    ∷ (c.name ++ b'=' ∷ c.value)
    ∷ option_pieces c

max_age-lined :
    (i : ℤ) (last rest : Bytes) (ps : List Bytes)
    → rest ≡ lined ps last
    → max_age_text i ++ rest ≡ lined (max_age_piece i ++ ps) last
max_age-lined (negsuc zero) last rest ps e = e
max_age-lined (pos n) last rest ps e = max_age_some (int_text (pos n)) last rest ps e
max_age-lined (negsuc (suc n)) last rest ps e =
    max_age_some (int_text (negsuc (suc n))) last rest ps e

flag-lined :
    (secure http_only : Bool)
    → (if secure then text " Secure;" else []) ++ (if http_only then text " HttpOnly" else [])
      ≡ lined (flag_piece secure) (last_piece http_only)
flag-lined true true = refl
flag-lined true false = refl
flag-lined false true = refl
flag-lined false false = refl

-- The line of a cookie is that of its pieces.
pub cookie_line-lined :
    (c : Cookie) → cookie_line c ≡ lined (cookie_pieces c) (last_piece c.http_only)
unfolding cookie_line cookie_text
cookie_line-lined c =
    let last : Bytes = last_piece c.http_only in
    ap
      (λ t. int_text (as_int c.create_time) ++ b';' ∷ (int_text (as_int c.access_time) ++ b';' ∷ t))
      (append_assoc c.name (text "=" ++ (c.value ++ text ";")) _
        ∙ ap (λ t. c.name ++ b'=' ∷ t) (append_assoc c.value (text ";") _)
        ∙ sym (append_assoc c.name (b'=' ∷ c.value) _)
        ∙ ap (λ t. (c.name ++ b'=' ∷ c.value) ++ b';' ∷ t)
            (option_text-lined (text " Version=") c.version last _ _ (
              max_age-lined c.max_age last _ _ (
                option_text-lined (text " Expires=") c.expires last _ _ (
                  option_text-lined (text " Path=") c.path last _ _ (
                    option_text-lined (text " Domain=") c.domain last _ (flag_piece c.secure)
                      (flag-lined c.secure c.http_only)))))))
