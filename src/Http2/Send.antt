-- ===== src/Http2/Send.antt =====
-- The frames that CHttp2 builds by itself, `send_setting_ack` to `send_goaway` of src/http2.cpp, and
-- the PING answer of `ProtParse`. Each frame goes to `HttpSend` whole; its result is not read.
pub mod Layout
use heaphttpd.Prelude.{
  ℕ, zero, suc, ◌+◌, ◌*◌, ◌/◌, ◌%◌, ◌^◌, Bool, List, [], ◌∷◌, ◌++◌, Option, none, some, Bytes,
  if◌then◌else◌, ◌||◌, false, true,
}
use heaphttpd.Prelude.Words.{add32, sub32, nonpositive}
use heaphttpd.Http2.Wire.{htonl, Frame, bits_1_31, word_bytes, frame_bytes}
use heaphttpd.Http2.Connection.{
  StreamState, closed, half_closed_local, Stream, Conn, get_stream_instance, update_stream,
  increase_local_window_size, set_stream_state,
}

-- the numbers of the frame types, flags and errors in src/http2comm.h
abbrev pub frame_type_data : ℕ
frame_type_data = 0x00

abbrev pub frame_type_headers : ℕ
frame_type_headers = 0x01

abbrev pub frame_type_priority : ℕ
frame_type_priority = 0x02

abbrev pub frame_type_rst_stream : ℕ
frame_type_rst_stream = 0x03

abbrev pub frame_type_settings : ℕ
frame_type_settings = 0x04

abbrev pub frame_type_push_promise : ℕ
frame_type_push_promise = 0x05

abbrev pub frame_type_ping : ℕ
frame_type_ping = 0x06

abbrev pub frame_type_goaway : ℕ
frame_type_goaway = 0x07

abbrev pub frame_type_window_update : ℕ
frame_type_window_update = 0x08

abbrev pub frame_type_continuation : ℕ
frame_type_continuation = 0x09

abbrev pub no_error : ℕ
no_error = 0x00

abbrev pub protocol_error : ℕ
protocol_error = 0x01

abbrev pub stream_closed_error : ℕ
stream_closed_error = 0x05

abbrev pub compression_error : ℕ
compression_error = 0x09

abbrev pub settings_initial_window_size : ℕ
settings_initial_window_size = 0x04

-- A header with a length below 256, written through `len3b`, whose last byte is the lowest.
abbrev pub control_header : ℕ → ℕ → ℕ → ℕ → Frame
control_header len type flags identifier = record {
  len24 = len * 2 ^ 16;
  type = type;
  flags = flags;
  r = 0;
  identifier = identifier;
}

-- `x->identifier = htonl(stream_ind) >> 1`, and so the 31-bit fields of the payloads
abbrev pub field_31 : ℕ → ℕ
field_31 n = htonl n / 2 % 2 ^ 31

unfoldable pub setting_ack_bytes : ℕ → Bytes
setting_ack_bytes ind = frame_bytes (control_header 0 frame_type_settings 0x01 (field_31 ind))

unfoldable pub rst_stream_bytes : ℕ → Bytes
rst_stream_bytes ind =
    frame_bytes (control_header 4 frame_type_rst_stream 0 (field_31 ind)) ++ word_bytes no_error

unfoldable pub window_update_bytes : ℕ → ℕ → Bytes
window_update_bytes ind increment =
    frame_bytes (control_header 4 frame_type_window_update 0 (field_31 ind))
    ++ word_bytes (bits_1_31 0 (field_31 increment))

-- one setting: a 16-bit number and a 32-bit value
unfoldable pub initial_window_size_bytes : ℕ → Bytes
initial_window_size_bytes size =
    frame_bytes (control_header 6 frame_type_settings 0 0)
    ++ 0 ∷ settings_initial_window_size ∷ word_bytes (htonl size)

unfoldable pub goaway_bytes : ℕ → ℕ → Bytes
goaway_bytes last error =
    frame_bytes (control_header 8 frame_type_goaway 0 0)
    ++ word_bytes (bits_1_31 0 (field_31 last))
    ++ word_bytes (htonl error)

-- The answer to a PING carries the frame's own `identifier` field and its eight bytes.
unfoldable pub ping_ack_bytes : ℕ → Bytes → Bytes
ping_ack_bytes identifier opaque =
    frame_bytes (control_header 8 frame_type_ping 0x01 identifier) ++ opaque

-- the states in which `send_window_update` returns at once
unfoldable pub is_past_sending : StreamState → Bool
is_past_sending half_closed_local = true
is_past_sending closed = true
is_past_sending _ = false

module _ {H : Type 0} where
  abbrev pub http_send : Bytes → Conn H → Conn H
  http_send bytes c = record c { sent = bytes ∷ c.sent }

  abbrev pub send_setting_ack : ℕ → Conn H → Conn H
  send_setting_ack ind = http_send (setting_ack_bytes ind)

  abbrev pub send_goaway : ℕ → ℕ → Conn H → Conn H
  send_goaway last error = http_send (goaway_bytes last error)

  unfoldable pub send_initial_window_size : ℕ → Conn H → Conn H
  send_initial_window_size size c = record (http_send (initial_window_size_bytes size) c) {
    initial_local_window_size = size;
  }

  -- for a stream that is in the table
  unfoldable pub send_rst_stream : ℕ → Conn H → Conn H
  send_rst_stream ind c =
      update_stream ind (set_stream_state closed) (http_send (rst_stream_bytes ind) c)

  unfoldable pub send_window_update : ℕ → ℕ → Conn H → Conn H
  send_window_update ind increment c =
      let sent = http_send (window_update_bytes ind increment) c in
      elim (get_stream_instance c ind) [
        | none ↦ record sent {
          local_control_window_size = add32 sent.local_control_window_size increment;
        }
        | some s ↦
            if is_past_sending s.state
            then c
            else update_stream ind (increase_local_window_size increment) sent
      ]

  -- `DecreaseLocalWindowSize` on the stream `ind` of the table, in the state that it had
  unfoldable pub decrease_local_window_size : ℕ → ℕ → Conn H → Conn H
  decrease_local_window_size ind n c = elim (get_stream_instance c ind) [
    | none ↦ c
    | some s ↦
        let left = sub32 s.local_window_size n in
        let c' = update_stream ind (λ t. record t { local_window_size = left }) c in
        if nonpositive left then send_window_update ind c'.initial_local_window_size c' else c'
  ]
