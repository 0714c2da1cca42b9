-- ===== src/FastCgi/Tests.antt =====
-- The FastCGI client at concrete inputs, and the theorems where their hypotheses hold.
use heaphttpd.Prelude.{
  ℕ, zero, suc, ◌≡◌, refl, true, false, List, [], ◌∷◌, ◌++◌, some, Bytes, length, arith,
}
use heaphttpd.Socket.{Uptake, taken, arrived, again, send_all, send_loop}
use heaphttpd.Socket.Streams.{Obliging, takings}
use heaphttpd.Cgi.{cgi_send}
use heaphttpd.FastCgi.{
  FastCgi, PairKind, pair_kind, fcgi_send, fcgi_header, end_request, send_params_and_data,
  send_request_data,
}
use heaphttpd.FastCgi.Records.{read_record, read_request}
use heaphttpd.FastCgi.Sending.{IsReady}
use heaphttpd.FastCgi.Delivery.{send_params_and_data-read_request, send_request_data-oversize}
use heaphttpd.FastCgi.Receive.{AppData, recv_app_data}
use heaphttpd.FastCgi.Receive.Answer.{Awaits, recv_app_data-accepted}

-- so many takings of a byte each
uptakes : ℕ → List Uptake
uptakes zero = []
uptakes (suc n) = taken 1 ∷ uptakes n

uptakes-Obliging : (n : ℕ) → Obliging (uptakes n)
unfolding uptakes
uptakes-Obliging zero = tt
uptakes-Obliging (suc n) = (omega arith, uptakes-Obliging n)

takings-uptakes : (n : ℕ) → takings (uptakes n) ≡ n
unfolding uptakes
takings-uptakes zero = refl
takings-uptakes (suc n) = omega (arith, takings-uptakes n)

abbrev client : ℕ → FastCgi
client n = record {
  request_id = 0x0102;
  id_b0 = 7;
  id_b1 = 0;
  connected = true;
  opened = true;
  socket = record { ssl = false; incoming = []; outgoing = uptakes n; sent = [] };
}

client-IsReady : (n : ℕ) → IsReady (client n) n
client-IsReady n = record {
  opened = refl;
  willing = uptakes-Obliging n;
  room = omega (arith, takings-uptakes n);
}

abbrev two_params : List (Bytes × Bytes)
two_params = (1 ∷ 2 ∷ [], 3 ∷ []) ∷ (4 ∷ [], 5 ∷ 6 ∷ 7 ∷ []) ∷ []

send_params_and_data-read_request_example :
    (request : Bytes) × ((send_params_and_data two_params (8 ∷ 9 ∷ []) (client 75)).0 ≡ true)
    × ((send_params_and_data two_params (8 ∷ 9 ∷ []) (client 75)).1.socket.sent ≡ [] ++ request)
    × (read_request request
        ≡ some (record { role = 1; id = 0x0102; params = two_params; stdin = 8 ∷ 9 ∷ [] }, []))
send_params_and_data-read_request_example =
    send_params_and_data-read_request (client 75) two_params (8 ∷ 9 ∷ []) (omega arith)
      (ground arith) (omega arith) (omega arith) (client-IsReady 75)

-- `n` spaces
spaces : ℕ → Bytes
spaces zero = []
spaces (suc n) = 0x20 ∷ spaces n

length-spaces : (n : ℕ) → length (spaces n) ≡ n
unfolding spaces
length-spaces zero = refl
length-spaces (suc n) = omega (arith, length-spaces n)

-- a body of 65537 bytes
send_request_data-oversize_example :
    (bytes : Bytes) × ((send_request_data (spaces 65535 ++ 1 ∷ 2 ∷ []) (client 65546)).0 ≡ true)
    × ((send_request_data (spaces 65535 ++ 1 ∷ 2 ∷ []) (client 65546)).1.socket.sent ≡ [] ++ bytes)
    × (read_record (bytes ++ 3 ∷ [])
        ≡ some (record { kind = 5; id = 7; content = spaces 65535 }, 2 ∷ 0 ∷ 3 ∷ []))
send_request_data-oversize_example =
    send_request_data-oversize (client 65546) (spaces 65535) 1 (2 ∷ []) (3 ∷ [])
      (length-spaces 65535) (client-IsReady 65546)

-- A name of 128 bytes is left out.
wrong_name : pair_kind 128 1 ≡ PairKind.wrong
unfolding pair_kind
wrong_name = refl

-- The second and the third byte of the status are lost.
lost_status :
    (end_request 0x01020304 0 (client 16)).1.socket.sent
    ≡ 1 ∷ 3 ∷ 0 ∷ 7 ∷ 0 ∷ 8 ∷ 0 ∷ 0 ∷ 0 ∷ 0 ∷ 1 ∷ 4 ∷ 0 ∷ 0 ∷ 0 ∷ 0 ∷ []
unfolding end_request fcgi_send cgi_send send_all send_loop uptakes
lost_status = refl

abbrev app : AppData
app = record {
  response = 1 ∷ [];
  strerr = [];
  appstatus = 0;
  protocolstatus = 0;
  continue_recv = false;
}

abbrev answering : FastCgi
answering = record (client 0) {
  socket = record {
    ssl = false;
    incoming =
        arrived (1 ∷ 6 ∷ 0 ∷ 7 ∷ 0 ∷ []) ∷ again ∷ arrived (2 ∷ 1 ∷ 0 ∷ 8 ∷ 9 ∷ 0 ∷ 5 ∷ []) ∷ [];
    outgoing = [];
    sent = [];
  };
}

answering-Awaits :
    Awaits answering (fcgi_header answering 6 2 1 ++ ((8 ∷ 9 ∷ []) ++ ((0 ∷ []) ++ 5 ∷ [])))
answering-Awaits = record { opened = refl; healthy = omega arith; coming = refl }

recv_app_data-accepted_example :
    (c' : FastCgi) × (recv_app_data [] app answering
      ≡ (some 2, (record app { response = 1 ∷ 8 ∷ 9 ∷ []; continue_recv = true }, c')))
    × Awaits c' (5 ∷ [])
recv_app_data-accepted_example =
    recv_app_data-accepted [] app answering answering 6 (8 ∷ 9 ∷ []) (0 ∷ []) (5 ∷ []) (omega arith)
      (omega arith) refl answering-Awaits
