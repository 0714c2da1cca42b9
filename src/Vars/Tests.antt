-- ===== src/Vars/Tests.antt =====
-- Variables at concrete inputs.
use heaphttpd.Prelude.{◌≡◌, refl, []}
use heaphttpd.Prelude.Int.{pos, negsuc}
use heaphttpd.Text.{c_str, trim_front, trim_back, strtrim, find_from, string_find, strcut}
use heaphttpd.Http1.Words.{text, skip_spaces, digits_from, signed, atoll}
use heaphttpd.Cookies.{split_loop, split_string, atoi, option_value}
use heaphttpd.Vars.{
  ServerVar, keyval, server_var_field, server_var_fields, parse_server_var, session_var_fields,
  parse_session_var,
}

abbrev nothing : ServerVar
nothing = record { access = pos 0; create = pos 0; name = text "x"; value = [] }

abbrev read_var : ServerVar
read_var = record { access = negsuc 8; create = pos 7; name = text "a"; value = text "b=c" }

server_var_read : parse_server_var (text "7; -9 ;a = b=c;more") nothing ≡ read_var
unfolding parse_server_var split_string split_loop server_var_fields server_var_field keyval
    option_value strcut string_find find_from strtrim trim_front trim_back c_str atoi atoll signed
    skip_spaces digits_from
server_var_read = refl

session_var_read :
    parse_session_var
      (text "0123456789abcdef0123456789abcdef;7;-9;a=b=c")
      []
      (record { uid = []; var = nothing })
    ≡ record { uid = text "0123456789abcdef0123456789abcdef"; var = read_var }
unfolding parse_session_var session_var_fields split_string split_loop server_var_fields
    server_var_field keyval option_value strcut string_find find_from strtrim trim_front trim_back
    c_str atoi atoll signed skip_spaces digits_from
session_var_read = refl
