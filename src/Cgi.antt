-- ===== src/Cgi.antt =====
-- src/cgi.cpp: the calls of the socket that every client of an application makes, and the loops that
-- read what an application says until it ends or 64 KB have come.
mod Ends
use heaphttpd.Prelude.{
  ℕ, zero, suc, ◌*◌, Bool, true, false, [], ◌∷◌, ◌++◌, Option, none, some, Bytes, length, leb, ◌==◌,
  if◌then◌else◌,
}
use heaphttpd.Socket.{Socket, Received, got, failed, recv_all, send_all}

-- cgi_base::Send. `opened`: m_sockfd is the number of a socket. The Boolean is whether the result is
-- 0 and not -1.
unfoldable pub cgi_send : Bytes → Bool → Socket → Bool × Socket
cgi_send bs opened s = if opened then send_all bs s else (false, s)

abbrev pub received : Received → Socket → Option Bytes × Socket
received (got bs es) s = (some bs, record s { incoming = es })
received (failed es) s = (none, record s { incoming = es })

-- cgi_base::Recv; `none` is the result -1.
unfoldable pub cgi_recv : ℕ → Bool → Socket → Option Bytes × Socket
cgi_recv len opened s = if opened then received (recv_all len s) s else (none, s)

-- What the socket is found to be when a call begins: nothing waits (EAGAIN) or something does, or
-- the other end has gone.
pub data Peek : Type 0 where
  alive gone : Peek

-- Connect of the clients that keep their connection: m_is_connected, whether there is a socket, and
-- whether the result is 0. `base`: what cgi_base::Connect comes to, and whether it has left a socket.
unfoldable pub connect : Bool → Bool → Peek → Bool × Bool → Bool × (Bool × Bool)
connect true opened alive base = (true, (opened, true))
connect true opened gone (reached, has_socket) = (reached, (has_socket, reached))
connect false opened peek (reached, has_socket) = (reached, (has_socket, reached))

-- the loops of forkcgi::ReadAppData (pieces of 4095 bytes) and scgi::RecvAppData (1500)
pub data AppReading : Type 0 where
  out_of_fuel : AppReading
  read : Bytes → Bool → Socket → AppReading

-- A piece has come: it is kept, and the loop ends with `continue_recv` from 64 KB on.
abbrev pub piece_read : Bytes → Option Bytes × Socket → (Bytes → Socket → AppReading) → AppReading
piece_read response (none, s) again = read response false s
piece_read response (some [], s) again = read response false s
piece_read response (some (b ∷ bs), s) again =
    if leb (1024 * 64) (length (response ++ b ∷ bs))
    then read (response ++ b ∷ bs) true s
    else again (response ++ b ∷ bs) s

unfoldable pub read_app_data : ℕ → ℕ → Bool → Bytes → Socket → AppReading
read_app_data zero piece opened response s = out_of_fuel
read_app_data (suc fuel) piece opened response s =
    piece_read response (cgi_recv piece opened s) (read_app_data fuel piece opened)
