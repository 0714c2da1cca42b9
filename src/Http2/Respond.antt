-- ===== src/Http2/Respond.antt =====
-- The body of a response as DATA frames: `CHttp2::TransHttp1SendHttp2Content` of src/http2.cpp.
pub mod Bounds
pub mod Whole
mod Tests
use heaphttpd.Prelude.{
  ℕ, zero, suc, ◌+◌, ◌-◌, ◌*◌, ◌/◌, ◌%◌, ◌^◌, Bool, true, false, List, [], ◌∷◌, ◌++◌, Option, none,
  some, Bytes, length, take, drop, ltb, leb, ◌==◌, if◌then◌else◌,
}
use heaphttpd.Prelude.Words.{sub32}
use heaphttpd.Http2.Wire.{Frame, frame_bytes, htonl}
use heaphttpd.Http2.Connection.{
  Stream, Conn, get_stream_instance, update_stream, decrease_peer_window_size,
}
use heaphttpd.Http2.Send.{http_send, frame_type_data, field_31}
use heaphttpd.Http2.Frames.{flag_padded}
use mathlib.Core.Option

-- `HTTP2_DATA_PADDING_LEN`
abbrev pub data_padding_len : ℕ
data_padding_len = 8

-- the frames are padded if the largest one has room for it
abbrev pub is_padded : ℕ → Bool
is_padded max_frame_size = ltb (data_padding_len + 1) max_frame_size

abbrev pub at_most : ℕ → ℕ → ℕ
at_most limit n = if ltb limit n then limit else n

-- `pre_send_len`, with `left` bytes to be sent; a negative window is a large number here.
unfoldable pub pre_send_len : ℕ → ℕ → ℕ → ℕ
pre_send_len max_frame_size window left =
    let pre =
      at_most
        (if is_padded max_frame_size then max_frame_size - data_padding_len - 1 else max_frame_size)
        left in
    if ltb pre window then pre else window

unfoldable pub curr_padding_len : ℕ → ℕ
curr_padding_len pre = data_padding_len - pre % data_padding_len

abbrev pub zeros : ℕ → Bytes
zeros zero = []
zeros (suc n) = 0 ∷ zeros n

abbrev pub data_header : ℕ → ℕ → ℕ → Frame
data_header len flags ind = record {
  len24 = htonl len / 2 ^ 8 % 2 ^ 24;
  type = frame_type_data;
  flags = flags;
  r = 0;
  identifier = field_31 ind;
}

-- the payload of a frame that carries `bytes`
unfoldable pub data_payload : ℕ → Bytes → Bytes
data_payload max_frame_size bytes =
    let pad = curr_padding_len (length bytes) in
    if is_padded max_frame_size then pad ∷ (bytes ++ zeros pad) else bytes

unfoldable pub data_frame : ℕ → ℕ → Bytes → Bytes
data_frame max_frame_size ind bytes =
    frame_bytes (
      data_header (length (data_payload max_frame_size bytes))
        (if is_padded max_frame_size then flag_padded else 0) ind)
    ++ data_payload max_frame_size bytes

-- How the function returns: with what it sent, or with -1 where there is no stream or a send failed.
-- `lost`: the stream is not there any more after a wait.
pub data Sending (H : Type 0) : Type 0 where
  finished : Conn H → Sending H
  failed : Conn H → Sending H
  no_stream : Sending H
  lost : Sending H
  out_of_turns : Sending H

-- What the loop meets in the turn of the number `k`: whether `HttpSend` succeeds (`sends`), and what
-- `AsyncProcessing` or `ProtRecv` do when the window is used up (`wait`).
pub record Turns (H : Type 0) : Type 0 where
  pub sends : ℕ → Bool
  pub wait : ℕ → Conn H → Conn H

module _ {H : Type 0} where
  -- one frame on its way, with its bytes taken from both windows
  abbrev pub send_data : ℕ → Bytes → Conn H → Conn H
  send_data ind bytes c =
      let sent = http_send (data_frame c.max_frame_size ind bytes) c in
      record (update_stream ind (decrease_peer_window_size (length bytes)) sent) {
        peer_control_window_size = sub32 c.peer_control_window_size (length bytes);
      }

module _ {H : Type 0} (t : Turns H) where
  -- The loop. Of a frame whose send failed nothing is kept, and no window changes.
  unfoldable pub content_loop : ℕ → ℕ → ℕ → Bytes → Conn H → Sending H
  content_loop zero k ind buf c = out_of_turns
  content_loop (suc turns) k ind buf c = elim (get_stream_instance c ind) [
    | none ↦ Sending.lost
    | some s ↦
        let pre = pre_send_len c.max_frame_size s.peer_window_size (length buf) in
        let c' = send_data ind (take pre buf) c in
        let next =
          content_loop turns (k + 1) ind (drop pre buf)
            (if sub32 s.peer_window_size pre == 0 then t.wait k c' else c') in
        if t.sends k then if pre == length buf then finished c' else next else Sending.failed c
  ]

  unfoldable pub trans_http1_send_http2_content : ℕ → ℕ → Bytes → Conn H → Sending H
  trans_http1_send_http2_content turns ind buf c = elim (get_stream_instance c ind) [
    | none ↦ no_stream
    | some s ↦ content_loop turns 0 ind buf c
  ]
