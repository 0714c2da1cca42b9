-- ===== src/Http1/Tests.antt =====
-- LineParse at concrete inputs, and the theorems where their hypotheses hold.
use heaphttpd.Prelude.{◌≡◌, ◌≢◌, refl, false, true, [], ◌∷◌, ◌++◌, Bytes, arith, if◌then◌else◌}
use heaphttpd.Prelude.Int.{pos}
use heaphttpd.Text.{
  c_str, trim_front, trim_back, strtrim, lower, find_from, string_find, strcut, same_ignoring_case,
  same_string, decimal, decimal_digits,
}
use heaphttpd.Http1.{
  tunneling_none, Backend, Target, hm_get, application_x_www_form_urlencoded, HttpRequest, Outside,
  set_entry, get_entry, set_meta, set_field,
}
use heaphttpd.Http1.Words.{
  text, higher, capitalise, starts_ignoring_case, meta_name, skip_spaces, digits_from, signed,
  atoll,
}
use heaphttpd.Http1.Header.{
  store_field, keep_field, field_kind, value_behind, host_field, apply_field, field_line,
}
use heaphttpd.Http1.RequestLine.{
  Proxying, scan, set_host, connect_target, backend_url, backup_url, second_host, first_host,
  reverse_target, scan_target, local_target, other_target, parse_method,
}
use heaphttpd.Http1.Lines.{
  Parsing, out_of_fuel, waits, finished, method_of, method_line, take_line, cut_line, line_loop,
  line_parse,
}
use heaphttpd.Http1.FieldValues.{field_line-get_entry}
use heaphttpd.Http1.RequestLine.Origin.{parse_method-origin_line}
use heaphttpd.Http1.Pieces.{feed, joined, line_parse-feed}

abbrev outside : Outside
outside = record {
  parse_method = λ line r. (line, r);
  www_auth = λ scheme credentials user method. (false, (user, []));
}

abbrev no_backend : Backend
no_backend = record { address = []; port = 0; url = [] }

abbrev no_target : Target
no_target = record {
  tunneling = tunneling_none;
  backend = no_backend;
  backup1 = no_backend;
  backup2 = no_backend;
  resource = [];
  querystring = [];
  uri = [];
}

abbrev start : HttpRequest
start = record {
  method = hm_get;
  target = no_target;
  fields = [];
  metas = [];
  header_content = [];
  req_data = false;
  keep_alive = false;
  protocol_upgrade = false;
  upgrade_protocol = [];
  web_socket_sync = false;
  content_length = pos 0;
  content_type = application_x_www_form_urlencoded;
  boundary = [];
  cookie = [];
  host_addr = [];
  host_port = 0;
  username = [];
  passed_wwwauth = false;
  passed_proxyauth = false;
  request_no_cache = false;
}

abbrev after : Parsing → HttpRequest
after (finished line_text r) = r
after _ = start

abbrev post : Bytes
post = text "POST /\ncontent-length: 42\nhost: a:80\n\nbody"

post_left :
    line_parse outside post [] start
    ≡ finished (text "body") (after (line_parse outside post [] start))
unfolding line_parse line_loop cut_line take_line c_str strtrim trim_front trim_back capitalise
    higher method_of method_line field_line field_kind keep_field store_field apply_field
    value_behind host_field strcut string_find find_from starts_ignoring_case lower same_string
    same_ignoring_case set_field set_meta set_entry get_entry meta_name atoll signed skip_spaces
    digits_from
post_left = refl

-- The names of fields have a large letter at the start of each word.
post_read :
    (get_entry (text "Content-Length") (after (line_parse outside post [] start)).fields
      ≡ text "42")
    × ((after (line_parse outside post [] start)).content_length ≡ pos 42)
unfolding line_parse line_loop cut_line take_line c_str strtrim trim_front trim_back capitalise
    higher method_of method_line field_line field_kind keep_field store_field apply_field
    value_behind host_field strcut string_find find_from starts_ignoring_case lower same_string
    same_ignoring_case set_field set_meta set_entry get_entry meta_name atoll signed skip_spaces
    digits_from
post_read = (refl, refl)

-- The port is lost.
host_read :
    ((after (line_parse outside post [] start)).host_addr ≡ text "a")
    × ((after (line_parse outside post [] start)).host_port ≡ 0)
unfolding line_parse line_loop cut_line take_line c_str strtrim trim_front trim_back capitalise
    higher method_of method_line field_line field_kind keep_field store_field apply_field
    value_behind host_field strcut string_find find_from starts_ignoring_case lower same_string
    same_ignoring_case set_field set_meta set_entry get_entry meta_name atoll signed skip_spaces
    digits_from
host_read = (refl, refl)

line_parse-feed_example :
    (line_parse outside
        (joined (text "GET /\r\nHo" ∷ text "st: a\r\n\r" ∷ text "\nbody" ∷ []))
        []
        start
      ≢ out_of_fuel)
    × (line_parse outside
          (joined (text "GET /\r\nHo" ∷ text "st: a\r\n\r" ∷ text "\nbody" ∷ []))
          []
          start
        ≡ feed outside
            (waits [] start)
            (text "GET /\r\nHo" ∷ text "st: a\r\n\r" ∷ text "\nbody" ∷ []))
line_parse-feed_example =
    line_parse-feed outside (text "GET /\r\nHo") (text "st: a\r\n\r" ∷ text "\nbody" ∷ []) [] start
      (omega arith)

field_line-get_entry_example :
    get_entry
      (text "Accept")
      (field_line outside (text "Accept" ++ b':' ∷ text " text/html ") start).fields
    ≡ (if same_string (strtrim (text "Accept")) (text "Accept")
        then strtrim (text " text/html ")
        else get_entry (text "Accept") start.fields)
field_line-get_entry_example =
    field_line-get_entry outside (text "Accept") (text " text/html ") (text "Accept") start
      (ground arith) (omega arith) (omega arith)
      (unfold strtrim trim_front trim_back in omega arith)

abbrev proxying : Proxying
proxying = record { reverse_proxy = true; reverse = λ line. line; decode = λ bytes. bytes }

abbrev two_hosts : Bytes
two_hosts = text "GET http://a:81|b/c HTTP/1.1"

-- Two servers behind a proxy, and the path for both.
two_hosts_read :
    ((parse_method proxying two_hosts start).0 ≡ text "GET /c HTTP/1.1")
    × ((parse_method proxying two_hosts start).1.target.backend.url ≡ text "http://a:81/c HTTP/1.1")
    × ((parse_method proxying two_hosts start).1.target.backup1.url ≡ text "http://b:80/c HTTP/1.1")
unfolding parse_method c_str scan other_target starts_ignoring_case lower reverse_target first_host
    second_host set_host backend_url backup_url strtrim trim_front trim_back same_string decimal
    decimal_digits atoll signed skip_spaces digits_from
two_hosts_read = (refl, refl, refl)

target_read :
    ((parse_method proxying (text "GET /a?b=c HTTP/1.1") start).1.target.resource ≡ text "/a")
    × ((parse_method proxying (text "GET /a?b=c HTTP/1.1") start).1.target.querystring ≡ text "b=c")
unfolding parse_method c_str scan other_target starts_ignoring_case lower local_target scan_target
    same_string set_meta set_entry
target_read = (refl, refl)

-- Large letters in front of a host's name are taken for the method's.
connect_read :
    (parse_method proxying (text "CONNECT WWW.a:8 HTTP/1.1") start).1.target.backend.address
    ≡ text ".a"
unfolding parse_method c_str scan starts_ignoring_case lower connect_target set_host strtrim
    trim_front trim_back atoll signed skip_spaces digits_from
connect_read = refl

-- Of an https URL the host is lost.
https_read :
    (parse_method proxying (text "GET https://a/c HTTP/1.1") start).1.target.backend.address ≡ []
unfolding parse_method c_str scan other_target starts_ignoring_case lower reverse_target first_host
    second_host set_host backend_url backup_url strtrim trim_front trim_back same_string decimal
    decimal_digits atoll signed skip_spaces digits_from
https_read = refl

abbrev alone : Proxying
alone = record { reverse_proxy = false; reverse = λ line. line; decode = λ bytes. bytes }

parse_method-origin_line_example :
    let line : Bytes = text "GET /a?b=c HTTP/1.1" in
    let (line', r') = parse_method alone line start in
    (line' ≡ line)
    × (r'.target.resource ≡ text "/a")
    × (r'.target.querystring ≡ text "b=c")
    × (get_entry (text "QUERY_STRING") r'.metas ≡ text "b=c")
parse_method-origin_line_example =
    parse_method-origin_line alone b'G' (text "ET ") (text "a") (text "b=c") (text "HTTP/1.1") start
      refl (ground arith) (unfold starts_ignoring_case lower in refl) (ground arith) (ground arith)
      (omega arith)
