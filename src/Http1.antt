-- ===== src/Http1.antt =====
-- CHttp::LineParse of src/http.cpp: the lines of a request's header. What ParseMethod and WWW_Auth do
-- is an argument. No text here has a zero in it, since the lines come from a `char*`.
pub mod Words
pub mod Header
pub mod Lines
pub mod RequestLine
pub mod Pieces
pub mod FieldValues
mod Tests
use heaphttpd.Prelude.{
  ℕ, ◌+◌, Bool, true, false, ◌||◌, List, [], ◌∷◌, ◌++◌, Option, none, some, Bytes, if◌then◌else◌,
}
use heaphttpd.Prelude.Int.{ℤ}
use heaphttpd.Text.{same_string}

pub data HttpMethod : Type 0 where
  hm_options hm_get hm_head hm_post hm_put hm_delete hm_trace hm_connect : HttpMethod

pub data PostType : Type 0 where
  application_x_www_form_urlencoded multipart_form_data : PostType

-- HTTPTunneling
pub data Tunneling : Type 0 where
  tunneling_none tunneling_without_connect tunneling_without_connect_ssl : Tunneling
  tunneling_with_connect : Tunneling

-- the address and the port of a server behind this one, and the URL for it
pub record Backend : Type 0 where
  pub address : Bytes
  pub port : ℕ
  pub url : Bytes

-- The members of CHttp that ParseMethod sets.
pub record Target : Type 0 where
  pub tunneling : Tunneling
  pub backend : Backend
  pub backup1 : Backend
  pub backup2 : Backend
  pub resource : Bytes
  pub querystring : Bytes
  pub uri : Bytes

-- The members of CHttp that LineParse sets, but for the text that waits for the end of its line.
-- `fields` is m_request_hdr, `metas` the variables of m_cgi, `req_data` that the state is
-- httpReqData, `web_socket_sync` that the handshake is Websocket_Sync.
pub record HttpRequest : Type 0 where
  pub method : HttpMethod
  pub target : Target
  pub fields : List (Bytes × Bytes)
  pub metas : List (Bytes × Bytes)
  pub header_content : Bytes
  pub req_data : Bool
  pub keep_alive : Bool
  pub protocol_upgrade : Bool
  pub upgrade_protocol : Bytes
  pub web_socket_sync : Bool
  pub content_length : ℤ
  pub content_type : PostType
  pub boundary : Bytes
  pub cookie : Bytes
  pub host_addr : Bytes
  pub host_port : ℕ
  pub username : Bytes
  pub passed_wwwauth : Bool
  pub passed_proxyauth : Bool
  pub request_no_cache : Bool

pub data AuthScheme : Type 0 where
  as_basic as_digest : AuthScheme

-- ParseMethod gets the line, which an extension may change, and the request. WWW_Auth gets the
-- scheme, the credentials, the name of the user as it is, and the method; it answers whether they
-- pass, with the name and the password or the fields of the digest.
pub record Outside : Type 0 where
  pub parse_method : Bytes → HttpRequest → Bytes × HttpRequest
  pub www_auth : AuthScheme → Bytes → Bytes → HttpMethod → Bool × (Bytes × Bytes)

-- `m[name] = value` of a map
unfoldable pub set_entry : Bytes → Bytes → List (Bytes × Bytes) → List (Bytes × Bytes)
set_entry name value [] = (name, value) ∷ []
set_entry name value ((n, v) ∷ entries) =
    if same_string n name then (n, value) ∷ entries else (n, v) ∷ set_entry name value entries

-- `m[name]`, which is the empty string where there is none
unfoldable pub get_entry : Bytes → List (Bytes × Bytes) → Bytes
get_entry name [] = []
get_entry name ((n, v) ∷ entries) = if same_string n name then v else get_entry name entries

unfoldable pub set_meta : Bytes → Bytes → HttpRequest → HttpRequest
set_meta name value r = record r { metas = set_entry name value r.metas }

unfoldable pub set_field : Bytes → Bytes → HttpRequest → HttpRequest
set_field name value r = record r { fields = set_entry name value r.fields }
