-- ===== src/Vars.antt =====
-- src/httpsessionvar.cpp and src/httpservervar.cpp: the variables of sessions and of the server, from
-- lines of the files in which the cache keeps them. The clock is an argument.
mod Tests
use heaphttpd.Prelude.{ℕ, true, List, [], ◌∷◌, ◌++◌, none, some, Bytes, take}
use heaphttpd.Prelude.Int.{ℤ, pos}
use heaphttpd.Text.{c_str, strtrim, strcut}
use heaphttpd.Http1.Words.{text}
use heaphttpd.Cookies.{split_string, atoi, option_value}

pub record ServerVar : Type 0 where
  pub access : ℤ
  pub create : ℤ
  pub name : Bytes
  pub value : Bytes

unfoldable pub new_server_var : Bytes → Bytes → ℤ → ServerVar
new_server_var name value now = record {
  access = now;
  create = now;
  name = c_str name;
  value = c_str value;
}

pub data ServerVarParsePhase : Type 0 where
  server_var_create server_var_access server_var_keyval server_var_option : ServerVarParsePhase

unfoldable pub keyval : Bytes → ServerVar → ServerVar
keyval field v = record v {
  name = strtrim (strcut field none (some (text "=")));
  value = option_value field;
}

unfoldable pub server_var_field :
    ServerVarParsePhase → Bytes → ServerVar → ServerVarParsePhase × ServerVar
server_var_field server_var_create field v = (server_var_access, record v { create = atoi field })
server_var_field server_var_access field v = (server_var_keyval, record v { access = atoi field })
server_var_field server_var_keyval field v = (server_var_option, keyval field v)
server_var_field server_var_option field v = (server_var_option, v)

unfoldable pub server_var_fields : ServerVarParsePhase → List Bytes → ServerVar → ServerVar
server_var_fields phase [] v = v
server_var_fields phase (field ∷ fields) v =
    let (phase', v') = server_var_field phase (strtrim field) v in
    server_var_fields phase' fields v'

-- The constructor from a line; what a line does not give is as memory has it.
unfoldable pub parse_server_var : Bytes → ServerVar → ServerVar
parse_server_var line memory =
    server_var_fields server_var_create (split_string line b';' true)
      (record memory { name = []; value = [] })

pub record SessionVar : Type 0 where
  pub uid : Bytes
  pub var : ServerVar

-- HTTP_SESSION_UID_LEN
abbrev pub http_session_uid_len : ℕ
http_session_uid_len = 32

-- So many bytes are copied from a text, whether it has them or not: `behind` is the memory behind its
-- zero.
abbrev pub uid_of : Bytes → Bytes → Bytes
uid_of field behind = take http_session_uid_len (c_str field ++ 0 ∷ behind)

unfoldable pub new_session_var : Bytes → Bytes → Bytes → Bytes → ℤ → SessionVar
new_session_var uid behind name value now = record {
  uid = uid_of uid behind;
  var = new_server_var name value now;
}

-- The phases behind SESSION_VAR_UID are those of a server's variable.
unfoldable pub session_var_fields : List Bytes → Bytes → SessionVar → SessionVar
session_var_fields [] behind s = s
session_var_fields (field ∷ fields) behind s = record s {
  uid = uid_of (strtrim field) behind;
  var = server_var_fields server_var_create fields s.var;
}

unfoldable pub parse_session_var : Bytes → Bytes → SessionVar → SessionVar
parse_session_var line behind memory =
    session_var_fields (split_string line b';' true) behind
      (record memory { var = record (memory.var) { name = []; value = [] } })
