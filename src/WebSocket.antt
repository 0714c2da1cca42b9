-- ===== src/WebSocket.antt =====
-- WebSocket frames: src/websocket.h and src/websocket.cpp.
pub mod Layout
pub mod RoundTrip
mod Tests
use heaphttpd.Prelude.{
  ℕ, zero, suc, ◌+◌, ◌-◌, ◌*◌, ◌/◌, ◌%◌, ◌^◌, bit_xor, Bool, true, false, ◌&&◌, List, [], ◌∷◌, ◌++◌,
  Option, none, some, Bytes, length, take, drop, get_or, ltb, leb, ◌==◌, if◌then◌else◌,
}
use heaphttpd.Socket.{Arrival, Socket, Received, got, failed, recv_all, send_all}

-- `WebSocket_Base_Header`: the bit fields `hstruct`, from the lowest bit of `huint16` on
pub record WebSocketBaseHeader : Type 0 where
  pub payload_len_7bit : ℕ
  pub mask : ℕ
  pub opcode : ℕ
  pub rsv3 : ℕ
  pub rsv2 : ℕ
  pub rsv1 : ℕ
  pub fin : ℕ

-- `WebSocket_Buffer`: `buf` has `len` bytes, and `mask` is 0 or 1.
pub record WebSocketBuffer : Type 0 where
  pub buf : Bytes
  pub opcode : ℕ
  pub mask : Bool

abbrev pub opcode_text : ℕ
opcode_text = 0x01

abbrev pub opcode_close : ℕ
opcode_close = 0x08

abbrev pub opcode_ping : ℕ
opcode_ping = 0x09

abbrev pub opcode_pong : ℕ
opcode_pong = 0x0A

-- the union, written by the fields and read as `huint16`, and the other way around
unfoldable pub huint16 : WebSocketBaseHeader → ℕ
huint16 h =
    h.payload_len_7bit % 2 ^ 7
    + h.mask % 2 * 2 ^ 7
    + h.opcode % 2 ^ 4 * 2 ^ 8
    + h.rsv3 % 2 * 2 ^ 12
    + h.rsv2 % 2 * 2 ^ 13
    + h.rsv1 % 2 * 2 ^ 14
    + h.fin % 2 * 2 ^ 15

unfoldable pub hstruct : ℕ → WebSocketBaseHeader
hstruct w = record {
  payload_len_7bit = w % 2 ^ 7;
  mask = w / 2 ^ 7 % 2;
  opcode = w / 2 ^ 8 % 2 ^ 4;
  rsv3 = w / 2 ^ 12 % 2;
  rsv2 = w / 2 ^ 13 % 2;
  rsv1 = w / 2 ^ 14 % 2;
  fin = w / 2 ^ 15 % 2;
}

-- `htons` and `ntohs`, `htobe64` and `be64toh`
unfoldable pub htons : ℕ → ℕ
htons x = x % 2 ^ 8 * 2 ^ 8 + x / 2 ^ 8 % 2 ^ 8

unfoldable pub htobe64 : ℕ → ℕ
htobe64 x =
    x % 2 ^ 8 * 2 ^ 56
    + x / 2 ^ 8 % 2 ^ 8 * 2 ^ 48
    + x / 2 ^ 16 % 2 ^ 8 * 2 ^ 40
    + x / 2 ^ 24 % 2 ^ 8 * 2 ^ 32
    + x / 2 ^ 32 % 2 ^ 8 * 2 ^ 24
    + x / 2 ^ 40 % 2 ^ 8 * 2 ^ 16
    + x / 2 ^ 48 % 2 ^ 8 * 2 ^ 8
    + x / 2 ^ 56 % 2 ^ 8

-- the memory of integers of two and of eight bytes
abbrev pub bytes_2 : ℕ → Bytes
bytes_2 x = x % 2 ^ 8 ∷ x / 2 ^ 8 % 2 ^ 8 ∷ []

abbrev pub bytes_8 : ℕ → Bytes
bytes_8 x =
    x % 2 ^ 8
    ∷ x / 2 ^ 8 % 2 ^ 8
    ∷ x / 2 ^ 16 % 2 ^ 8
    ∷ x / 2 ^ 24 % 2 ^ 8
    ∷ x / 2 ^ 32 % 2 ^ 8
    ∷ x / 2 ^ 40 % 2 ^ 8
    ∷ x / 2 ^ 48 % 2 ^ 8
    ∷ x / 2 ^ 56 % 2 ^ 8
    ∷ []

abbrev pub word_2 : Bytes → ℕ
word_2 bs = get_or bs 0 0 + get_or bs 1 0 * 2 ^ 8

abbrev pub word_8 : Bytes → ℕ
word_8 bs =
    get_or bs 0 0
    + get_or bs 1 0 * 2 ^ 8
    + get_or bs 2 0 * 2 ^ 16
    + get_or bs 3 0 * 2 ^ 24
    + get_or bs 4 0 * 2 ^ 32
    + get_or bs 5 0 * 2 ^ 40
    + get_or bs 6 0 * 2 ^ 48
    + get_or bs 7 0 * 2 ^ 56

-- the loops with `masking_key[i % 4]`, from `i` on
unfoldable pub masked_from : ℕ → Bytes → Bytes → Bytes
masked_from i key [] = []
masked_from i key (b ∷ bs) = bit_xor b (get_or key (i % 4) 0) ∷ masked_from (suc i) key bs

abbrev pub bit_of : Bool → ℕ
bit_of true = 1
bit_of false = 0

-- the length's code in the header
unfoldable pub payload_len_code : ℕ → ℕ
payload_len_code len =
    if ltb 65535 len then 127 else if ltb 125 len && ltb len 65535 then 126 else len % 2 ^ 7

abbrev pub header_of : ℕ → Bool → ℕ → WebSocketBaseHeader
header_of opcode mask code = record {
  payload_len_7bit = code;
  mask = bit_of mask;
  opcode = opcode;
  rsv3 = 0;
  rsv2 = 0;
  rsv1 = 0;
  fin = 1;
}

-- The next step, unless the result is -1.
abbrev pub and_then : Bool × Socket → (Socket → Bool × Socket) → Bool × Socket
and_then r next = if r.0 then next r.1 else r

unfoldable pub send_length : ℕ → ℕ → Socket → Bool × Socket
send_length code len s =
    if code == 126
    then send_all (bytes_2 (htons (len % 2 ^ 16))) s
    else if code == 127
    then send_all (bytes_8 (htobe64 len)) s
    else (true, s)

-- `WebSocket::Send`, for a buffer below 2^31 bytes, beyond which the loops' `int i` overflows.
-- `mkey` is the four bytes that `random` gives. The Boolean is whether the result is 0, not -1.
unfoldable pub send : WebSocketBuffer → Bytes → Socket → Bool × Socket
send buffer mkey s =
    let len = length buffer.buf in
    let code = payload_len_code len in
    let header =
      send_all (bytes_2 (htons (huint16 (header_of buffer.opcode buffer.mask code)))) s in
    and_then (and_then header (send_length code len)) (λ s'.
      if buffer.mask
      then and_then (send_all mkey s') (send_all (masked_from 0 mkey buffer.buf))
      else send_all buffer.buf s')

-- `Close`, `Ping` and `Pong`
abbrev pub send_empty : ℕ → Socket → Bool × Socket
send_empty opcode = send_all (bytes_2 (htons (huint16 (header_of opcode false 0))))

unfoldable pub close : Socket → Bool × Socket
close = send_empty opcode_close

unfoldable pub ping : Socket → Bool × Socket
ping = send_empty opcode_ping

unfoldable pub pong : Socket → Bool × Socket
pong = send_empty opcode_pong

-- The result of `WebSocket::Recv`. `frame buf len`: the result is the length of `buf`, and the
-- caller's buffer has `len` bytes, of which those behind `buf` were never written. `nothing`: the
-- result 0, the caller's buffer left alone. `undefined`: the code reads a header, length or key that
-- the socket did not fill, writes outside of the buffer, or overflows an `int`.
pub data Reading : Type 0 where
  failure nothing undefined : Reading
  frame : Bytes → ℕ → Reading

-- a part of fixed size
unfoldable pub read_part :
    ℕ
    → Bool
    → List Arrival
    → (Bytes → List Arrival → Reading × List Arrival)
    → Reading × List Arrival
read_part n ssl es next =
    elim (recv_all n (record { ssl = ssl; incoming = es; outgoing = []; sent = [] })) [
      | failed es' ↦ (failure, es')
      | got bs es' ↦ if length bs == n then next bs es' else (undefined, es')
    ]

-- `payload_len`, from the header's code
unfoldable pub read_length :
    ℕ → Bool → List Arrival → (ℕ → List Arrival → Reading × List Arrival) → Reading × List Arrival
read_length code ssl es next =
    if ltb code 126
    then next code es
    else if code == 126
    then read_part 2 ssl es (λ bs. next (htons (word_2 bs)))
    else read_part 8 ssl es (λ bs. next (htobe64 (word_8 bs)))

unfoldable pub read_key :
    Bool
    → Bool
    → List Arrival
    → (Bytes → List Arrival → Reading × List Arrival)
    → Reading × List Arrival
read_key mask ssl es next = if mask then read_part 4 ssl es next else next [] es

abbrev pub unmasked : Bool → Bytes → Bytes → Bytes
unmasked mask key bs = if mask then masked_from 0 key bs else bs

-- The buffer has `payload_len + 1` bytes, in 64 bits; the number that is asked for has 32 bits.
unfoldable pub read_payload : Bool → Bytes → ℕ → Bool → List Arrival → Reading × List Arrival
read_payload mask key payload_len ssl es =
    if payload_len == 0
    then (nothing, es)
    else if payload_len == 2 ^ 64 - 1
    then (undefined, es)
    else elim (recv_all (payload_len % 2 ^ 32)
        (record { ssl = ssl; incoming = es; outgoing = []; sent = [] })) [
          | failed es' ↦ (failure, es')
          | got bs es' ↦ (
            if mask && leb (2 ^ 31) payload_len
                then undefined
                else frame (unmasked mask key bs) payload_len,
            es',
          )
        ]

unfoldable pub recv : Socket → Reading × List Arrival
recv s = read_part 2 s.ssl s.incoming (λ bs es.
    let h = hstruct (htons (word_2 bs)) in
    read_length h.payload_len_7bit s.ssl es (λ payload_len es'.
      read_key (h.mask == 1) s.ssl es' (λ key. read_payload (h.mask == 1) key payload_len s.ssl)))
