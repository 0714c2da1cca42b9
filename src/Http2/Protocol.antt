-- ===== src/Http2/Protocol.antt =====
-- `CHttp2::ProtParse` and `CHttp2::ProtRecv` of src/http2.cpp: a frame from its header on.
pub mod Alone
pub mod Guard
pub mod Order
mod Tests
use heaphttpd.Prelude.{
  ℕ, zero, suc, ◌+◌, Bool, List, [], ◌∷◌, ◌++◌, Option, none, some, Bytes, length, take, drop, ltb,
  leb, ◌==◌, if◌then◌else◌,
}
use heaphttpd.Http2.Wire.{Frame, frame_size, read_frame, frame_payload_len, frame_stream_ind}
use heaphttpd.Http2.Connection.{StreamState, Stream, Conn, get_stream_instance}
use heaphttpd.Http2.Send.{
  frame_type_data, frame_type_headers, frame_type_priority, frame_type_rst_stream,
  frame_type_settings, frame_type_push_promise, frame_type_ping, frame_type_goaway,
  frame_type_window_update, frame_type_continuation, protocol_error, send_goaway,
}
use heaphttpd.Http2.Admit.{enter_stream, refused_with}
use heaphttpd.Http2.Frames.{Reply, done, end_session, undefined, Upper, receive_priority}
use heaphttpd.Http2.Frames.HeaderBlocks.{receive_headers, receive_continuation}
use heaphttpd.Http2.Frames.Control.{
  receive_settings, receive_window_update, receive_rst_stream, receive_ping,
}
use heaphttpd.Http2.Frames.Data.{receive_data}

module _ {H : Type 0} (up : Upper H) where
  -- The chain of types. `mem` is the memory from the payload on; GOAWAY reads eight bytes of it.
  unfoldable pub receive_frame : ℕ → Frame → Bytes → ℕ → ℕ → Conn H → Conn H × Reply
  receive_frame now f mem len ind c =
      if f.type == frame_type_goaway
      then (c, if leb 8 (length mem) then end_session else undefined)
      else if f.type == frame_type_priority
      then receive_priority mem len ind c
      else if f.type == frame_type_headers
      then receive_headers up now f.flags mem len ind c
      else if f.type == frame_type_continuation
      then receive_continuation up f.flags mem len ind c
      else if f.type == frame_type_push_promise
      then (send_goaway ind protocol_error c, end_session)
      else if f.type == frame_type_settings
      then receive_settings f.flags mem len ind c
      else if f.type == frame_type_data
      then receive_data up f.flags mem len ind c
      else if f.type == frame_type_window_update
      then receive_window_update mem len ind c
      else if f.type == frame_type_rst_stream
      then receive_rst_stream mem len ind c
      else if f.type == frame_type_ping
      then receive_ping f.flags f.identifier mem len c
      else (c, done len)

  -- the check of the frame's type against the state of the stream that was looked up
  unfoldable pub check_state : ℕ → Frame → Bytes → ℕ → ℕ → Conn H → Conn H × Reply
  check_state now f mem len ind c = elim (get_stream_instance c ind) [
    | none ↦ receive_frame now f mem len ind c
    | some s ↦ elim (refused_with s.state f.type) [
      | none ↦ receive_frame now f mem len ind c
      | some error ↦ (send_goaway ind error c, end_session)
    ]
  ]

  unfoldable pub prot_parse : ℕ → Frame → Bytes → ℕ → ℕ → Conn H → Conn H × Reply
  prot_parse now f mem len ind c =
      if ltb 0 ind
      then check_state now f mem len ind (enter_stream now ind c)
      else receive_frame now f mem len ind c

  -- `HttpRecv` is taken to hand over what is asked for, or what is left of `input`. The payload has
  -- one zero byte behind it, and an empty payload is a null pointer.
  unfoldable pub prot_recv : ℕ → Bytes → Conn H → (Conn H × Reply) × Bytes
  prot_recv now input c =
      let f = read_frame (take frame_size input) in
      let rest = drop frame_size input in
      let len = frame_payload_len f in
      let mem = if ltb 0 len then take len rest ++ 0 ∷ [] else [] in
      if ltb (length input) frame_size
      then ((c, end_session), [])
      else if ltb (length rest) len
      then ((c, end_session), [])
      else (prot_parse now f mem len (frame_stream_ind f) c, drop len rest)
