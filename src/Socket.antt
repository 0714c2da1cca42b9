-- ===== src/Socket.antt =====
-- The loops around a socket in src/util/general.h: `_Recv_` and `SSLRead`, `_Send_` and `SSLWrite`.
-- What the system calls return, one call after the other, is part of the socket's state.
pub mod Streams
mod Tests
use heaphttpd.Prelude.{
  ℕ, zero, suc, ◌+◌, ◌-◌, Bool, true, false, List, [], ◌∷◌, ◌++◌, Bytes, length, take, drop, ltb,
  leb, ◌==◌, if◌then◌else◌,
}

-- One turn of a receiving loop: bytes are there, of which `recv` and `SSL_read` hand over as many as
-- are asked for (none: the peer has closed); EAGAIN or SSL_ERROR_WANT_READ; another error; `select`
-- gives up.
pub data Arrival : Type 0 where
  arrived : Bytes → Arrival
  again broken timeout : Arrival

-- One turn of a sending loop: so many bytes at most are taken (0: closed), or none, to be tried
-- again or not.
pub data Uptake : Type 0 where
  taken : ℕ → Uptake
  retry refused : Uptake

pub record Socket : Type 0 where
  pub ssl : Bool
  pub incoming : List Arrival
  pub outgoing : List Uptake
  pub sent : Bytes

-- `got`: the bytes in the buffer, whose number is the result. `failed`: the result -1.
pub data Received : Type 0 where
  got : Bytes → List Arrival → Received
  failed : List Arrival → Received

-- an error and the peer's end: `_Recv_` returns what it has, `SSLRead` fails
unfoldable pub ended : Bool → Bytes → List Arrival → Received
ended ssl buf es = if ssl then failed es else got buf es

-- The loop: `want` bytes are missing behind those of `buf`.
unfoldable pub recv_loop : Bool → List Arrival → ℕ → Bytes → Received
recv_loop ssl [] want buf = failed []
recv_loop ssl (arrived bs ∷ es) want buf =
    let more = recv_loop ssl es (want - length bs) (buf ++ bs) in
    if length bs == 0
    then ended ssl buf es
    else if ltb (length bs) want
    then more
    else got (buf ++ take want bs) (if length bs == want then es else arrived (drop want bs) ∷ es)
recv_loop ssl (again ∷ es) want buf = recv_loop ssl es want buf
recv_loop ssl (broken ∷ es) want buf = ended ssl buf es
recv_loop ssl (timeout ∷ es) want buf = failed es

-- `_Recv_` or `SSLRead`. A call for no bytes gets none, as at the peer's end.
unfoldable pub recv_all : ℕ → Socket → Received
recv_all want s =
    if want == 0 then ended s.ssl [] s.incoming else recv_loop s.ssl s.incoming want []

-- The loop, which sends `bs` behind what is sent. The Boolean is whether the result is 0, not -1.
unfoldable pub send_loop : List Uptake → Bytes → Bytes → Bool × (Bytes × List Uptake)
send_loop [] bs sent = (false, (sent, []))
send_loop (taken n ∷ os) bs sent =
    let more = send_loop os (drop n bs) (sent ++ take n bs) in
    if n == 0
    then (false, (sent, os))
    else if ltb n (length bs)
    then more
    else (true, (sent ++ bs, os))
send_loop (retry ∷ os) bs sent = send_loop os bs sent
send_loop (refused ∷ os) bs sent = (false, (sent, os))

unfoldable pub send_all : Bytes → Socket → Bool × Socket
send_all [] s = (true, s)
send_all (b ∷ bs) s =
    let (ok, (sent, os)) = send_loop s.outgoing (b ∷ bs) s.sent in
    (ok, record s { sent = sent; outgoing = os })
