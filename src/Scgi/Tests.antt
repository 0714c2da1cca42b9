-- ===== src/Scgi/Tests.antt =====
-- The SCGI client at concrete inputs, and the theorem where its hypotheses hold.
use heaphttpd.Prelude.{
  ℕ, zero, suc, ◌≡◌, refl, true, false, List, [], ◌∷◌, ◌++◌, some, Bytes, arith,
}
use heaphttpd.Text.{c_str, same_string, decimal, decimal_digits}
use heaphttpd.Socket.{Uptake, taken}
use heaphttpd.Scgi.{
  Scgi, content_length_name, other_params, scgi_headers, scgi_send_params_and_data,
}
use heaphttpd.Scgi.Netstring.{read_request}
use heaphttpd.Scgi.RoundTrip.{header_list, scgi_send_params_and_data-read_request}

-- so many takings of a byte each
abbrev uptakes : ℕ → List Uptake
uptakes zero = []
uptakes (suc n) = taken 1 ∷ uptakes n

abbrev client : Scgi
client = record {
  connected = true;
  opened = true;
  socket = record { ssl = false; incoming = []; outgoing = uptakes 60; sent = [] };
}

-- CONTENT_LENGTH of the map and a parameter without a value are left out.
abbrev three_params : List (Bytes × Bytes)
three_params = (content_length_name, b'9' ∷ []) ∷ (b'A' ∷ [], []) ∷ (b'B' ∷ [], b'C' ∷ []) ∷ []

printed : decimal 70 ≡ b'7' ∷ b'0' ∷ []
unfolding decimal decimal_digits
printed = refl

abbrev kept : List (Bytes × Bytes)
kept =
    (content_length_name, b'2' ∷ [])
    ∷ (b'S' ∷ b'C' ∷ b'G' ∷ b'I' ∷ [], b'1' ∷ [])
    ∷ (b'B' ∷ [], b'C' ∷ [])
    ∷ []

headers_kept : header_list three_params 2 ≡ kept
unfolding decimal decimal_digits same_string
headers_kept = refl

scgi_send_params_and_data-read_request_example :
    (request : Bytes) × ((scgi_send_params_and_data three_params (b'x' ∷ b'y' ∷ []) client).0
      ≡ true)
    × ((scgi_send_params_and_data three_params (b'x' ∷ b'y' ∷ []) client).1.socket.sent
        ≡ [] ++ request)
    × (read_request request
        ≡ some (record { headers = header_list three_params 2; body = b'x' ∷ b'y' ∷ [] }, []))
scgi_send_params_and_data-read_request_example =
    scgi_send_params_and_data-read_request client three_params (b'x' ∷ b'y' ∷ []) (omega arith)
      (unfold scgi_headers other_params decimal decimal_digits c_str same_string in omega arith)
      refl (omega arith)
      (unfold scgi_headers other_params decimal decimal_digits c_str same_string in omega arith)
