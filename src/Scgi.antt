-- ===== src/Scgi.antt =====
-- The SCGI client of src/scgi.cpp. The map of parameters is the list of its pairs in the order of
-- their names.
pub mod Decimal
pub mod Netstring
pub mod RoundTrip
mod Tests
use heaphttpd.Prelude.{
  ℕ, zero, suc, ◌+◌, ◌/◌, ◌%◌, ◌^◌, Bool, true, false, ◌||◌, List, [], ◌∷◌, ◌++◌, Bytes, length,
  ltb, ◌==◌, if◌then◌else◌,
}
use heaphttpd.Text.{c_str, same_string, decimal}
use heaphttpd.Socket.{Socket}
use heaphttpd.Cgi.{Peek, connect, cgi_send, AppReading, read_app_data}

-- `connected` is m_is_connected, `opened` that there is a socket.
pub record Scgi : Type 0 where
  pub connected : Bool
  pub opened : Bool
  pub socket : Socket

unfoldable pub scgi_connect : Peek → Bool × Bool → Scgi → Bool × Scgi
scgi_connect peek base c =
    let (connected, (opened, done)) = connect c.connected c.opened peek base in
    (done, record c { connected = connected; opened = opened })

-- `"CONTENT_LENGTH"`
abbrev pub content_length_name : Bytes
content_length_name =
    0x43 ∷ 0x4f ∷ 0x4e ∷ 0x54 ∷ 0x45 ∷ 0x4e ∷ 0x54 ∷ 0x5f ∷ 0x4c ∷ 0x45 ∷ 0x4e ∷ 0x47 ∷ 0x54 ∷ 0x48
    ∷ []

-- `"SCGI"`
abbrev pub scgi_name : Bytes
scgi_name = 0x53 ∷ 0x43 ∷ 0x47 ∷ 0x49 ∷ []

-- A loop over `p_temp`: the text up to its first zero, and the zero.
abbrev pub with_zero : Bytes → Bytes
with_zero text = c_str text ++ 0 ∷ []

-- Parameters with an empty value are left out, and CONTENT_LENGTH, which stands in front.
unfoldable pub other_params : List (Bytes × Bytes) → Bytes
other_params [] = []
other_params ((name, value) ∷ params) =
    if same_string name content_length_name || same_string value []
    then other_params params
    else with_zero name ++ (with_zero value ++ other_params params)

unfoldable pub scgi_headers : List (Bytes × Bytes) → ℕ → Bytes
scgi_headers params postdata_len =
    with_zero content_length_name
    ++ (with_zero (decimal postdata_len)
        ++ (with_zero scgi_name ++ (with_zero (b'1' ∷ []) ++ other_params params)))

-- The result of the first call of Send is not looked at.
unfoldable pub scgi_send_params_and_data : List (Bytes × Bytes) → Bytes → Scgi → Bool × Scgi
scgi_send_params_and_data params postdata c =
    let headers : Bytes = scgi_headers params (length postdata) in
    let (_, s1) = cgi_send (decimal (length headers % 2 ^ 32) ++ b':' ∷ []) c.opened c.socket in
    let (done, s2) = cgi_send (headers ++ b',' ∷ postdata) c.opened s1 in
    (done, record c { socket = s2 })

-- RecvAppData
unfoldable pub scgi_recv_app_data : ℕ → Bytes → Scgi → AppReading
scgi_recv_app_data fuel response c = read_app_data fuel 1500 c.opened response c.socket
