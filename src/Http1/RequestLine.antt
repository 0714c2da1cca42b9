-- ===== src/Http1/RequestLine.antt =====
-- CHttp::ParseMethod of src/http.cpp, which takes the first line of a request apart. `sscanf` with a
-- set of characters reads the longest text of them, and nothing where there is none; it stops at the
-- first zero byte.
pub mod Origin
use heaphttpd.Prelude.{
  ℕ, zero, suc, ◌+◌, Bool, true, false, not, ◌&&◌, ◌||◌, List, [], ◌∷◌, ◌++◌, Bytes, length, drop,
  get_or, leb, ◌==◌, if◌then◌else◌,
}
use heaphttpd.Text.{c_str, strtrim, same_string, decimal}
use heaphttpd.Http1.{
  Tunneling, tunneling_none, tunneling_with_connect, tunneling_without_connect,
  tunneling_without_connect_ssl, Backend, Target, HttpRequest, Outside, AuthScheme, HttpMethod,
  set_meta,
}
use heaphttpd.Http1.Words.{text, starts_ignoring_case, atoll, low16}

-- `reverse_proxy` is m_enable_http_reverse_proxy; `reverse` is what the extensions for it make of a
-- line, one after the other; `decode` is NIU_URLFORMAT_DECODE.
pub record Proxying : Type 0 where
  pub reverse_proxy : Bool
  pub reverse : Bytes → Bytes
  pub decode : Bytes → Bytes

-- `%[...]`
unfoldable pub scan : (ℕ → Bool) → Bytes → Bytes
scan good [] = []
scan good (b ∷ bs) = if good b then b ∷ scan good bs else []

-- `%[A-Z \t]`
abbrev pub is_method : ℕ → Bool
is_method b = (leb 0x41 b && leb b 0x5a) || b == 0x20 || b == 0x09

-- `%[^ ]`, `%[^/]`, `%[^/|]`
abbrev pub is_no_space : ℕ → Bool
is_no_space b = not (b == 0x20)

abbrev pub is_no_slash : ℕ → Bool
is_no_slash b = not (b == b'/')

abbrev pub is_host : ℕ → Bool
is_host b = not (b == b'/') && not (b == b'|')

abbrev pub is_no_colon : ℕ → Bool
is_no_colon b = not (b == b':')

-- `%[^ \t\r\n]`, `%[^? \t\r\n]`
abbrev pub is_query : ℕ → Bool
is_query b = not (b == 0x20) && not (b == 0x09) && not (b == 0x0d) && not (b == 0x0a)

abbrev pub is_resource : ℕ → Bool
is_resource b = not (b == b'?') && is_query b

-- the port behind the colon, if there is one
abbrev pub port_behind : Bytes → ℕ → ℕ
port_behind [] default = default
port_behind (colon ∷ digits) default = low16 (atoll digits)

-- A host, with a port or without.
unfoldable pub set_host : Bytes → ℕ → Backend → Backend
set_host host default b =
    let name : Bytes = scan is_no_colon host in
    record b { address = strtrim name; port = port_behind (drop (length name) host) default }

unfoldable pub connect_target : Bytes → Target → Target
connect_target rest t = record t {
  tunneling = tunneling_with_connect;
  backend = set_host (scan is_no_space rest) 443 t.backend;
}

-- `"%d"` of an unsigned short, behind the address
unfoldable pub backend_url : Bytes → Bytes → Backend → Backend
backend_url scheme relative b = record b {
  url = scheme ++ (b.address ++ (text ":" ++ (decimal b.port ++ relative)));
}

-- The URL of a second or third server is made where there is an address.
unfoldable pub backup_url : Bytes → Bytes → Backend → Backend
backup_url scheme relative b = if same_string b.address [] then b else backend_url scheme relative b

-- Up to three hosts with a bar between them, of which the first begins at `at`; what is behind the
-- last of them is left.
unfoldable pub third_host : Bytes → Target → Bytes × Target
third_host rest t =
    let host : Bytes = scan is_host rest in
    (drop (length host) rest, record t { backup2 = set_host host 80 t.backup2 })

unfoldable pub second_host : Bytes → Target → Bytes × Target
second_host rest t =
    let host : Bytes = scan is_host rest in
    let behind : Bytes = drop (length host) rest in
    let t' : Target = record t { backup1 = set_host host 80 t.backup1 } in
    if get_or behind 0 0 == b'|' then third_host (drop 1 behind) t' else (behind, t')

unfoldable pub first_host : Bytes → Target → Bytes × Target
first_host rest t =
    let host : Bytes = scan is_host rest in
    let behind : Bytes = drop (length host) rest in
    let t' : Target = record t { backend = set_host host 80 t.backend } in
    if get_or behind 0 0 == b'|' then second_host (drop 1 behind) t' else (behind, t')

-- `p_temp[4] == 's'`
abbrev pub is_ssl : Bytes → Bool
is_ssl rest = get_or rest 4 0 == b's'

-- The reverse proxy: the line that is left has no scheme and no host.
unfoldable pub reverse_target : Bytes → Bytes → Target → Bytes × Target
reverse_target method rest t =
    let scheme : Bytes = if is_ssl rest then text "https://" else text "http://" in
    let (relative, t') = first_host (drop 7 rest) t in
    (
      method ++ relative,
      record t' {
        backend = backend_url scheme relative t'.backend;
        backup1 = backup_url scheme relative t'.backup1;
        backup2 = backup_url scheme relative t'.backup2;
      },
    )

unfoldable pub forward_target : Bytes → Bytes → Target → Bytes × Target
forward_target method rest t =
    let host : Bytes = scan is_no_slash (drop 7 rest) in
    let b : Backend = record (t.backend) { url = strtrim (scan is_no_space rest) } in
    (method ++ drop (length host) (drop 7 rest), record t { backend = set_host host 80 b })

-- `%*[^/]%[^? \t\r\n]?%[^ \t\r\n]`: where one part finds nothing, those behind it stay empty.
abbrev pub query_behind : Bytes → Bytes
query_behind [] = []
query_behind (b ∷ bs) = if b == b'?' then scan is_query bs else []

abbrev pub resource_query : Bytes → Bytes → Bytes × Bytes
resource_query [] rest = ([], [])
resource_query (b ∷ bs) rest = (b ∷ bs, query_behind rest)

abbrev pub behind_method : Bytes → Bytes → Bytes × Bytes
behind_method [] rest = ([], [])
behind_method (b ∷ bs) rest =
    let resource : Bytes = scan is_resource rest in
    resource_query resource (drop (length resource) rest)

unfoldable pub scan_target : Bytes → Bytes × Bytes
scan_target line =
    let front : Bytes = scan is_no_slash line in behind_method front (drop (length front) line)

unfoldable pub local_target : Proxying → Bytes → HttpRequest → HttpRequest
local_target p line r =
    let (sz_resource, querystring) = scan_target (c_str line) in
    let resource : Bytes = p.decode sz_resource in
    let uri : Bytes =
      if same_string querystring [] then resource else resource ++ (text "?" ++ querystring) in
    set_meta (text "QUERY_STRING") querystring (
      set_meta (text "REQUEST_URI") uri (record r {
        target = record (r.target) { resource = resource; querystring = querystring; uri = uri };
      }))

-- A line with a whole URL is for another server.
unfoldable pub other_target : Proxying → Bytes → Bytes → Bytes → HttpRequest → Bytes × HttpRequest
other_target p method line rest r =
    if starts_ignoring_case (text "http://") rest || starts_ignoring_case (text "https://") rest
    then (let kind : Tunneling =
          if is_ssl rest then tunneling_without_connect_ssl else tunneling_without_connect in
        let t : Target = record (r.target) { tunneling = kind } in
        let (line', t') =
          if p.reverse_proxy then reverse_target method rest t else forward_target method rest t in
        (line', record r { target = t' }))
    else (line, local_target p line r)

-- The line as it is left, and the request.
unfoldable pub parse_method : Proxying → Bytes → HttpRequest → Bytes × HttpRequest
parse_method p line r =
    let method : Bytes = scan is_method (c_str line) in
    let line' : Bytes = if p.reverse_proxy then p.reverse line else line in
    if starts_ignoring_case (text "CONNECT ") method
    then (line, record r { target = connect_target (drop (length method) (c_str line)) r.target })
    else other_target p method line' (drop (length method) (c_str line')) r

-- LineParse with this ParseMethod.
unfoldable pub with_parse_method :
    Proxying → (AuthScheme → Bytes → Bytes → HttpMethod → Bool × (Bytes × Bytes)) → Outside
with_parse_method p auth = record { parse_method = parse_method p; www_auth = auth }
