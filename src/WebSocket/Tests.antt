-- ===== src/WebSocket/Tests.antt =====
-- WebSocket frames at concrete inputs: the examples of RFC 6455, section 5.7.
use heaphttpd.Prelude.{◌+◌, ◌≤◌, ◌≡◌, refl, true, false, List, [], ◌∷◌, ◌++◌, Bytes, length, arith}
use heaphttpd.Socket.{
  Arrival, arrived, again, Uptake, taken, retry, Socket, recv_loop, recv_all, send_loop, send_all,
}
use heaphttpd.Socket.Streams.{Healthy, flat, Obliging, takings}
use heaphttpd.WebSocket.{
  WebSocketBuffer, opcode_text, hstruct, huint16, htons, htobe64, masked_from, payload_len_code,
  send_length, send, ping, undefined, frame, read_part, read_length, read_key, read_payload, recv,
}
use heaphttpd.WebSocket.Layout.{frame_layout, rfc_masked, send-Writes}
use heaphttpd.WebSocket.RoundTrip.{recv-frame_layout, reading_of}

abbrev hello : Bytes
hello = 0x48 ∷ 0x65 ∷ 0x6c ∷ 0x6c ∷ 0x6f ∷ []

abbrev text_of : Bytes → WebSocketBuffer
text_of bs = record { buf = bs; opcode = opcode_text; mask = true }

abbrev key : Bytes
key = 0x37 ∷ 0xfa ∷ 0x21 ∷ 0x3d ∷ []

abbrev masked_hello : Bytes
masked_hello = 0x81 ∷ 0x85 ∷ key ++ 0x7f ∷ 0x9f ∷ 0x4d ∷ 0x51 ∷ 0x58 ∷ []

-- a socket that takes three bytes at a time
abbrev socket : Socket
socket = record {
  ssl = false;
  incoming =
      arrived (0x81 ∷ [])
      ∷ again
      ∷ arrived (0x85 ∷ key ++ 0x7f ∷ 0x9f ∷ 0x4d ∷ 0x51 ∷ 0x58 ∷ 0 ∷ [])
      ∷ [];
  outgoing =
      taken 3
      ∷ taken 3
      ∷ taken 3
      ∷ retry
      ∷ taken 3
      ∷ taken 3
      ∷ taken 3
      ∷ taken 3
      ∷ taken 3
      ∷ taken 3
      ∷ taken 3
      ∷ taken 3
      ∷ [];
  sent = [];
}

hello_goes_out : (send (text_of hello) key socket).1.sent ≡ masked_hello
unfolding send payload_len_code send_length send_all send_loop huint16 htons masked_from
hello_goes_out = refl

hello_comes_in : (recv socket).0 ≡ frame hello 5
unfolding recv read_part read_length read_key read_payload recv_all recv_loop hstruct htons
    masked_from
hello_comes_in = refl

send_ping : (ping socket).1.sent ≡ 0x89 ∷ 0 ∷ []
unfolding ping send_all send_loop huint16 htons
send_ping = refl

-- The length 2^64 - 1 makes a buffer of no bytes, which is then written to.
recv_huge :
    (recv (record socket {
      incoming = arrived (0x82 ∷ 127 ∷ 255 ∷ 255 ∷ 255 ∷ 255 ∷ 255 ∷ 255 ∷ 255 ∷ 255 ∷ 1 ∷ []) ∷ [];
    })).0
    ≡ undefined
unfolding recv read_part read_length read_key read_payload recv_all recv_loop hstruct htons htobe64
recv_huge = refl

send-Writes_example :
    (os' : List Uptake) × (send (text_of hello) key socket
      ≡ (true, record socket { sent = [] ++ frame_layout (text_of hello) key; outgoing = os' }))
    × Obliging os'
    × (takings socket.outgoing ≤ takings os' + length (frame_layout (text_of hello) key))
send-Writes_example =
    send-Writes (text_of hello) key socket (omega arith) (omega arith) (ground arith)
      (unfold rfc_masked in omega arith)

hello_as_in_rfc : frame_layout (text_of hello) key ≡ masked_hello
unfolding rfc_masked
hello_as_in_rfc = refl

recv-frame_layout_example :
    (es' : List Arrival) × (recv socket ≡ (reading_of hello, es'))
    × Healthy es'
    × (flat es' ≡ 0 ∷ [])
recv-frame_layout_example =
    recv-frame_layout (text_of hello) key (0 ∷ []) socket (omega arith) (omega arith) refl
      (ground arith) (ground arith) (ground arith) (unfold rfc_masked in refl)
