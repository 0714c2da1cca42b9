-- ===== src/Cookies.antt =====
-- src/cookie.cpp, src/httpsessionvar.cpp and src/httpservervar.cpp: cookies and variables as the
-- lines of the files in which the cache keeps them. The clock is an argument.
pub mod Numbers
pub mod Pieces
pub mod Options
pub mod Saved
pub mod RoundTrip
mod Tests
use heaphttpd.Prelude.{
  ℕ, zero, suc, ◌+◌, ◌-◌, ◌%◌, ◌^◌, Bool, true, false, not, ◌&&◌, List, [], ◌∷◌, ◌++◌, Option, none,
  some, Bytes, take, ltb, ◌==◌, if◌then◌else◌,
}
use heaphttpd.Prelude.Int.{ℤ, pos, negsuc}
use heaphttpd.Text.{c_str, strtrim, strcut, same_string, decimal}
use heaphttpd.Http1.Words.{text, starts_ignoring_case, atoll}

-- a piece that is kept, unless it is empty and those are ignored
abbrev pub keep_piece : Bool → Bytes → List Bytes → List Bytes
keep_piece true [] pieces = pieces
keep_piece ignore piece pieces = piece ∷ pieces

-- The loop of vSplitString (src/util/general.h) for one separator: `cur` is what has been read of a
-- piece, `count` how often a separator may still end one. The last piece is taken as a `char*`.
unfoldable pub split_loop : ℕ → Bool → ℕ → Bytes → Bytes → List Bytes
split_loop separator ignore count cur [] = keep_piece ignore (c_str cur) []
split_loop separator ignore count cur (b ∷ bs) =
    let next = split_loop separator ignore (count - 1) [] bs in
    let more = split_loop separator ignore count (cur ++ b ∷ []) bs in
    if b == separator
    then if count == 0
      then keep_piece ignore (c_str (cur ++ b ∷ bs)) []
      else keep_piece ignore cur next
    else more

unfoldable pub split_string : Bytes → ℕ → Bool → List Bytes
split_string [] separator ignore = []
split_string (b ∷ bs) separator ignore = split_loop separator ignore 0x7FFFFFFF [] (b ∷ bs)

-- the low 32 bits as an `int`
abbrev pub int_of : ℕ → ℤ
int_of bits = if ltb bits (2 ^ 31) then pos bits else negsuc (2 ^ 32 - 1 - bits)

abbrev pub as_int : ℤ → ℤ
as_int (pos n) = int_of (n % 2 ^ 32)
as_int (negsuc n) = int_of (2 ^ 32 - 1 - n % 2 ^ 32)

unfoldable pub atoi : Bytes → ℤ
atoi line = as_int (atoll line)

-- `%d`
unfoldable pub int_text : ℤ → Bytes
int_text (pos n) = decimal n
int_text (negsuc n) = b'-' ∷ decimal (n + 1)

pub record Cookie : Type 0 where
  pub create_time : ℤ
  pub access_time : ℤ
  pub name : Bytes
  pub value : Bytes
  pub version : Bytes
  pub domain : Bytes
  pub expires : Bytes
  pub path : Bytes
  pub max_age : ℤ
  pub secure : Bool
  pub http_only : Bool

-- The constructor with all parts; `none` is the null pointer.
abbrev pub or_else : Option Bytes → Bytes → Bytes
or_else none default = default
or_else (some value) default = value

unfoldable pub new_cookie :
    Option Bytes
    → Option Bytes
    → ℤ
    → Option Bytes
    → Option Bytes
    → Option Bytes
    → Bool
    → Bool
    → Option Bytes
    → ℤ
    → Cookie
new_cookie name value max_age expires path domain secure http_only version now = record {
  create_time = now;
  access_time = now;
  name = or_else name [];
  value = or_else value [];
  version = or_else version (text "1");
  domain = or_else domain [];
  expires = or_else expires [];
  path = or_else path (text "/");
  max_age = max_age;
  secure = secure;
  http_only = http_only;
}

pub data CookieParsePhase : Type 0 where
  cookie_create cookie_access cookie_keyval cookie_option : CookieParsePhase

-- what stands behind the first `=`
unfoldable pub option_value : Bytes → Bytes
option_value field = strtrim (strcut field (some (text "=")) none)

unfoldable pub cookie_option_field : Bytes → Cookie → Cookie
cookie_option_field field c =
    if starts_ignoring_case (text "Version") field
    then record c { version = option_value field }
    else if starts_ignoring_case (text "Expires") field
    then record c { expires = option_value field }
    else if starts_ignoring_case (text "Path") field
    then record c { path = option_value field }
    else if starts_ignoring_case (text "Domain") field
    then record c { domain = option_value field }
    else if starts_ignoring_case (text "MaxAge") field
    then record c { max_age = atoi (option_value field) }
    else if starts_ignoring_case (text "Secure") field
    then record c { secure = true }
    else if starts_ignoring_case (text "HttpOnly") field
    then record c { http_only = true }
    else c

unfoldable pub cookie_field : CookieParsePhase → Bytes → Cookie → CookieParsePhase × Cookie
cookie_field cookie_create field c = (cookie_access, record c { create_time = atoi field })
cookie_field cookie_access field c = (cookie_keyval, record c { access_time = atoi field })
cookie_field cookie_keyval field c = (
  cookie_option,
  record c { name = strtrim (strcut field none (some (text "="))); value = option_value field },
)
cookie_field cookie_option field c = (cookie_option, cookie_option_field field c)

unfoldable pub cookie_fields : CookieParsePhase → List Bytes → Cookie → Cookie
cookie_fields phase [] c = c
cookie_fields phase (field ∷ fields) c =
    let (phase', c') = cookie_field phase (strtrim field) c in cookie_fields phase' fields c'

-- The constructor from a line. The times of a line that does not give them are as memory has them,
-- which is an argument.
unfoldable pub parse_cookie : Bytes → ℤ → ℤ → Cookie
parse_cookie line create_time access_time =
    cookie_fields cookie_create (split_string line b';' true) (record {
      create_time = create_time;
      access_time = access_time;
      name = [];
      value = [];
      version = [];
      domain = [];
      expires = [];
      path = text "/";
      max_age = negsuc 0;
      secure = false;
      http_only = false;
    })

-- ` Name=value;` where there is one
unfoldable pub option_text : Bytes → Bytes → Bytes
option_text name [] = []
option_text name (b ∷ bs) = name ++ ((b ∷ bs) ++ text ";")

abbrev pub max_age_text : ℤ → Bytes
max_age_text (negsuc zero) = []
max_age_text n = text " MaxAge=" ++ (int_text n ++ text ";")

-- toString
unfoldable pub cookie_text : Cookie → Bytes
cookie_text c =
    (c.name ++ (text "=" ++ (c.value ++ text ";")))
    ++ (option_text (text " Version=") c.version
        ++ (max_age_text c.max_age
            ++ (option_text (text " Expires=") c.expires
                ++ (option_text (text " Path=") c.path
                    ++ (option_text (text " Domain=") c.domain
                        ++ ((if c.secure then text " Secure;" else [])
                            ++ (if c.http_only then text " HttpOnly" else [])))))))

-- A line of the file of cookies, without its end: memory_cache::_save_cookies_ (src/cache.cpp).
unfoldable pub cookie_line : Cookie → Bytes
cookie_line c =
    int_text (as_int c.create_time)
    ++ (text ";" ++ (int_text (as_int c.access_time) ++ (text ";" ++ cookie_text c)))

unfoldable pub set_access_time : ℤ → Cookie → Cookie
set_access_time now c = record c { access_time = now }
