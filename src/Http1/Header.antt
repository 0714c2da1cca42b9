-- ===== src/Http1/Header.antt =====
-- The branch of CHttp::LineParse (src/http.cpp) for the fields of a header.
use heaphttpd.Prelude.{
  Bool, true, false, not, ◌&&◌, ◌||◌, [], ◌∷◌, ◌++◌, none, some, Bytes, ◌==◌, if◌then◌else◌,
}
use heaphttpd.Prelude.Int.{ℤ, pos}
use heaphttpd.Text.{strtrim, strcut, string_find, same_string, same_ignoring_case, npos}
use heaphttpd.Http1.{
  HttpMethod, hm_head, application_x_www_form_urlencoded, multipart_form_data, HttpRequest,
  AuthScheme, as_basic, as_digest, Outside, set_meta, set_field,
}
use heaphttpd.Http1.Words.{
  text, starts_ignoring_case, contains_ignoring_case, meta_name, atoll, low16,
}

-- `"\r\n"`
abbrev pub crlf : Bytes
crlf = 0x0d ∷ 0x0a ∷ []

abbrev pub store_line : Bytes → HttpRequest → HttpRequest
store_line line r = record r { header_content = r.header_content ++ (line ++ crlf) }

-- The credentials for the proxy are not stored.
unfoldable pub store_field : Bytes → HttpRequest → HttpRequest
store_field line r =
    if starts_ignoring_case (text "Proxy-Authorization:") line then r else store_line line r

-- the field, and the variable of CGI
unfoldable pub keep_field : Bytes → HttpRequest → HttpRequest
keep_field line r =
    let name : Bytes = strtrim (strcut line none (some (text ":"))) in
    let value : Bytes = strtrim (strcut line (some (text ":")) none) in
    if same_string name []
    then r
    else set_meta (text "HTTP_" ++ meta_name name) value (set_field name value r)

-- Which test of the chain the line passes.
pub data FieldKind : Type 0 where
  connection upgrade content_length content_type cookie host auth_basic auth_digest : FieldKind
  proxy_basic proxy_digest cache_control pragma other : FieldKind

unfoldable pub field_kind : Bytes → FieldKind
field_kind line =
    if starts_ignoring_case (text "Connection:") line
    then connection
    else if starts_ignoring_case (text "Upgrade:") line
    then upgrade
    else if starts_ignoring_case (text "Content-Length:") line
    then content_length
    else if starts_ignoring_case (text "Content-Type:") line
    then content_type
    else if starts_ignoring_case (text "Cookie:") line
    then cookie
    else if starts_ignoring_case (text "Host:") line
    then host
    else if starts_ignoring_case (text "Authorization: Basic") line
    then auth_basic
    else if starts_ignoring_case (text "Authorization: Digest") line
    then auth_digest
    else if starts_ignoring_case (text "Proxy-Authorization: Basic") line
    then proxy_basic
    else if starts_ignoring_case (text "Proxy-Authorization: Digest") line
    then proxy_digest
    else if starts_ignoring_case (text "Cache-Control:") line
    then cache_control
    else if starts_ignoring_case (text "Pragma:") line
    then pragma
    else other

-- what stands behind the name, which is looked for with large and small letters as they are
unfoldable pub value_behind : Bytes → Bytes → Bytes
value_behind name line = strtrim (strcut line (some name) none)

unfoldable pub is_websocket : Bytes → Bool
is_websocket protocol = same_ignoring_case protocol (text "websocket")

unfoldable pub connection_field : Bytes → HttpRequest → HttpRequest
connection_field value r =
    let r1 : HttpRequest =
      if contains_ignoring_case (text "Close") value
      then record r { keep_alive = false }
      else if contains_ignoring_case (text "Keep-Alive") value
      then record r { keep_alive = true }
      else r in
    if contains_ignoring_case (text "Upgrade") value
    then record r1 {
      protocol_upgrade = true;
      web_socket_sync =
          if not (same_string r1.upgrade_protocol []) && is_websocket r1.upgrade_protocol
          then true
          else r1.web_socket_sync;
    }
    else r1

unfoldable pub upgrade_field : Bytes → HttpRequest → HttpRequest
upgrade_field value r =
    if r.protocol_upgrade
    then record r {
      upgrade_protocol = value;
      web_socket_sync = if is_websocket value then true else r.web_socket_sync;
    }
    else r

-- A HEAD request has no body.
abbrev pub length_for : HttpMethod → ℤ → ℤ
length_for hm_head n = pos 0
length_for _ n = n

unfoldable pub content_type_field : Bytes → HttpRequest → HttpRequest
content_type_field line r =
    let r1 : HttpRequest =
      set_meta (text "CONTENT_TYPE") (value_behind (text "Content-Type:") line) r in
    if not (string_find line (text "application/x-www-form-urlencoded") 0 == npos)
    then record r1 { content_type = application_x_www_form_urlencoded }
    else if not (string_find line (text "multipart/form-data") 0 == npos)
    then record r1 {
      content_type = multipart_form_data;
      boundary = value_behind (text "boundary=") line;
    }
    else record r1 { content_type = application_x_www_form_urlencoded }

-- The port is looked for in what is in front of the colon.
unfoldable pub host_field : Bytes → HttpRequest → HttpRequest
host_field line r =
    let host_port : Bytes = strcut line (some (text "Host: ")) none in
    let addr : Bytes = strcut host_port none (some (text ":")) in
    record r { host_addr = addr; host_port = low16 (atoll (strcut addr (some (text ":")) none)) }

abbrev pub scheme_name : AuthScheme → Bytes
scheme_name as_basic = text "Basic"
scheme_name as_digest = text "Digest"

-- the variables that PHP gets
abbrev pub php_metas : AuthScheme → Bytes → Bytes → HttpRequest → HttpRequest
php_metas as_basic user answer r =
    set_meta (text "PHP_AUTH_UPW") answer (set_meta (text "PHP_AUTH_USER") user r)
php_metas as_digest user answer r = set_meta (text "PHP_AUTH_DIGEST") answer r

unfoldable pub authorization_field : Outside → AuthScheme → Bytes → HttpRequest → HttpRequest
authorization_field o scheme credentials r =
    let r1 : HttpRequest = set_meta (text "AUTH_TYPE") (scheme_name scheme) r in
    let (passed, (user, answer)) = o.www_auth scheme credentials r.username r.method in
    let r2 : HttpRequest = record r1 { username = user } in
    php_metas scheme user answer (
      if passed
      then set_meta (text "REMOTE_USER") user (record r2 { passed_wwwauth = true })
      else r2)

unfoldable pub proxy_field : Outside → AuthScheme → Bytes → HttpRequest → HttpRequest
proxy_field o scheme credentials r =
    let (passed, (user, _)) = o.www_auth scheme credentials r.username r.method in
    record r { username = user; passed_proxyauth = if passed then true else r.passed_proxyauth }

unfoldable pub cache_control_field : Bytes → HttpRequest → HttpRequest
cache_control_field value r =
    if same_ignoring_case value (text "no-cache") || same_ignoring_case value (text "no-store")
    then record r { request_no_cache = true }
    else r

unfoldable pub pragma_field : Bytes → HttpRequest → HttpRequest
pragma_field value r =
    if same_ignoring_case value (text "no-cache") then record r { request_no_cache = true } else r

-- The rest of the chain, the lines of WebSocket among them, does nothing.
unfoldable pub apply_field : Outside → FieldKind → Bytes → HttpRequest → HttpRequest
apply_field o connection line r = connection_field (value_behind (text "Connection:") line) r
apply_field o upgrade line r = upgrade_field (value_behind (text "Upgrade:") line) r
apply_field o content_length line r = record r {
  content_length = length_for r.method (atoll (value_behind (text "Content-Length:") line));
}
apply_field o content_type line r = content_type_field line r
apply_field o cookie line r = record r {
  cookie = r.cookie ++ (value_behind (text "Cookie:") line ++ text "; ");
}
apply_field o host line r = host_field line r
apply_field o auth_basic line r =
    authorization_field o as_basic (strcut line (some (text "Authorization: Basic ")) none) r
apply_field o auth_digest line r =
    authorization_field o as_digest (strcut line (some (text "Authorization: Digest ")) none) r
apply_field o proxy_basic line r =
    proxy_field o as_basic (strcut line (some (text "Proxy-Authorization: Basic ")) none) r
apply_field o proxy_digest line r =
    proxy_field o as_digest (strcut line (some (text "Proxy-Authorization: Digest ")) none) r
apply_field o cache_control line r =
    cache_control_field (value_behind (text "Cache-Control:") line) r
apply_field o pragma line r = pragma_field (value_behind (text "Pragma:") line) r
apply_field o other line r = r

unfoldable pub field_line : Outside → Bytes → HttpRequest → HttpRequest
field_line o line r = apply_field o (field_kind line) line (keep_field line (store_field line r))
