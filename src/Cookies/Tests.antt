-- ===== src/Cookies/Tests.antt =====
-- Cookies at concrete inputs.
use heaphttpd.Prelude.{◌≡◌, refl, arith, true, [], ◌∷◌, Bytes, length, ◌<◌, ◌^◌}
use heaphttpd.Prelude.Int.{pos, negsuc}
use heaphttpd.Text.{
  c_str, trim_front, trim_back, strtrim, lower, find_from, string_find, strcut, decimal_digits,
  decimal,
}
use heaphttpd.Text.Separator.{HasNoZero, HasNo, IsTrimmed}
use heaphttpd.Cookies.Saved.{IsSaved}
use heaphttpd.Cookies.Options.{IsPart}
use heaphttpd.Cookies.RoundTrip.{parse_cookie-cookie_line}
use heaphttpd.Http1.Words.{text, starts_ignoring_case, skip_spaces, digits_from, signed, atoll}
use heaphttpd.Cookies.{
  split_loop, split_string, atoi, int_text, Cookie, option_value, cookie_option_field, cookie_field,
  cookie_fields, parse_cookie, option_text, cookie_text, cookie_line,
}

abbrev some_cookie : Cookie
some_cookie = record {
  create_time = pos 12;
  access_time = pos 345;
  name = text "a";
  value = text "b c";
  version = text "1";
  domain = [];
  expires = text "never";
  path = text "/x";
  max_age = pos 60;
  secure = true;
  http_only = true;
}

pieces : split_string (text ";a;;b") b';' true ≡ text "a" ∷ text "b" ∷ []
unfolding split_string split_loop c_str
pieces = refl

written :
    cookie_line some_cookie
    ≡ text "12;345;a=b c; Version=1; MaxAge=60; Expires=never; Path=/x; Secure; HttpOnly"
unfolding cookie_line cookie_text option_text int_text decimal decimal_digits
written = refl

-- A line of the file gives the cookie back.
read_back : parse_cookie (cookie_line some_cookie) (pos 0) (pos 0) ≡ some_cookie
unfolding parse_cookie split_string split_loop c_str cookie_fields cookie_field cookie_option_field
    option_value strcut string_find find_from starts_ignoring_case lower strtrim trim_front
    trim_back atoi atoll signed skip_spaces digits_from cookie_line cookie_text option_text int_text
    decimal decimal_digits
read_back = refl

part : (v : Bytes) → HasNoZero v → HasNo b';' v → IsTrimmed v → length v < 2 ^ 32 → IsPart v
part v z h t l = record { no_zero = z; no_semicolon = h; trimmed = t; short = l }

some_cookie-IsSaved : IsSaved some_cookie
some_cookie-IsSaved = record {
  name = part (text "a") (omega arith) (ground arith) (ground arith) (omega arith);
  name_no_equals = ground arith;
  value = part (text "b c") (omega arith) (ground arith) (ground arith) (omega arith);
  version = part (text "1") (omega arith) (ground arith) (ground arith) (omega arith);
  domain = part [] tt tt tt (omega arith);
  expires = part (text "never") (omega arith) (ground arith) (ground arith) (omega arith);
  path = part (text "/x") (omega arith) (ground arith) (ground arith) (omega arith);
  some_path = omega arith;
  create_time = omega arith;
  access_time = omega arith;
  max_age = omega arith;
}

parse_cookie-cookie_line_example :
    parse_cookie (cookie_line some_cookie) (pos 1) (negsuc 1) ≡ some_cookie
parse_cookie-cookie_line_example =
    parse_cookie-cookie_line some_cookie (pos 1) (negsuc 1) some_cookie-IsSaved
