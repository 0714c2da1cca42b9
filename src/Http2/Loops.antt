-- ===== src/Http2/Loops.antt =====
-- The loops over a connection's frames: `CHttp2::Processing` and `CHttp2::AsyncProcessing` of
-- src/http2.cpp. What arrives is an argument; `clock k` is the time at the frame of the number `k`.
pub mod Ends
pub mod Steps
pub mod Refinement
pub mod Pieces
mod Tests
use heaphttpd.Prelude.{
  ℕ, zero, suc, ◌+◌, ◌-◌, ◌*◌, ◌<◌, ◌≤◌, Bool, true, false, not, ◌&&◌, List, [], ◌∷◌, ◌++◌, Option,
  none, some, Bytes, length, take, drop, ltb, leb, ◌==◌, if◌then◌else◌,
}
use heaphttpd.Text.{c_str, same_string}
use heaphttpd.Http2.Wire.{
  Frame, frame_size, frame_bytes, word_bytes, htonl, read_frame, frame_payload_len,
  frame_stream_ind,
}
use heaphttpd.Http2.Connection.{Conn}
use heaphttpd.Http2.Send.{
  http_send, send_goaway, send_initial_window_size, protocol_error, control_header,
  frame_type_settings,
}
use heaphttpd.Http2.Frames.{Reply, done, end_session, undefined, Upper}
use heaphttpd.Http2.Protocol.{prot_parse, prot_recv}

-- How `Processing` ends: the result is `httpClose` always. `lost`: memory is left.
pub data Ended (H : Type 0) : Type 0 where
  http_close : Conn H → Ended H
  lost : Ended H
  out_of_turns : Ended H

-- The loop goes on after a positive result of `ProtRecv` only.
abbrev pub after_result : {H : Type 0} → Reply → Conn H → Ended H → Ended H
after_result (done result) c more = if result == 0 then http_close c else more
after_result end_session c more = http_close c
after_result undefined c more = Ended.lost

module _ {H : Type 0} (up : Upper H) (clock : ℕ → ℕ) where
  unfoldable pub processing : ℕ → ℕ → Bytes → Conn H → Ended H
  processing zero k input c = out_of_turns
  processing (suc turns) k input c =
      let got = prot_recv up (clock k) input c in
      after_result got.0.1 got.0.0 (processing turns (k + 1) got.1 got.0.0)

-- `Http2_State`
pub data Http2State : Type 0 where
  http2_prefix http2_header http2_payload : Http2State

-- `recv_buf`, `payload` and `frame_hdr` hold the valid bytes of `m_async_recv_buf`, `m_payload` and
-- `m_frame_hdr`.
pub record Async (H : Type 0) : Type 0 where
  pub state : Http2State
  pub recv_buf : Bytes
  pub payload : Bytes
  pub frame_hdr : Bytes
  pub conn : Conn H

-- What a call returns: the Boolean is whether the result is `httpClose`.
pub data Returned (H : Type 0) : Type 0 where
  returned : Async H → Bool → Returned H
  lost : Returned H
  out_of_turns : Returned H

-- What the loop over `AsyncRecv` reads in one call, and whether it ends with an error.
pub record Arrived : Type 0 where
  pub bytes : Bytes
  pub broken : Bool

abbrev pub client_preface : Bytes
client_preface =
    0x50 ∷ 0x52 ∷ 0x49 ∷ 0x20 ∷ 0x2a ∷ 0x20 ∷ 0x48 ∷ 0x54 ∷ 0x54 ∷ 0x50 ∷ 0x2f ∷ 0x32 ∷ 0x2e ∷ 0x30
    ∷ 0x0d ∷ 0x0a ∷ 0x0d ∷ 0x0a ∷ 0x53 ∷ 0x4d ∷ 0x0d ∷ 0x0a ∷ 0x0d ∷ 0x0a ∷ []

-- `HTTP2_PREFACE_LEN` and `HTTP2_SETTINGS_MAX_CONCURRENT_STREAMS`
abbrev pub preface_len : ℕ
preface_len = 24

abbrev pub settings_max_concurrent_streams : ℕ
settings_max_concurrent_streams = 0x03

unfoldable pub server_preface : ℕ → Bytes
server_preface max_concurrent_streams =
    frame_bytes (control_header 6 frame_type_settings 0 0)
    ++ 0 ∷ settings_max_concurrent_streams ∷ word_bytes (htonl max_concurrent_streams)

module _ {H : Type 0} where
  -- the state `http2Prefix`
  unfoldable pub check_preface : Async H → Async H × Bool
  check_preface a =
      let m_preface = take preface_len a.recv_buf in
      let c = a.conn in
      let taken = record a { recv_buf = drop preface_len a.recv_buf } in
      let greeted =
        send_initial_window_size c.initial_local_window_size
          (http_send (server_preface c.max_concurrent_streams) c) in
      if leb preface_len (length a.recv_buf)
      then if same_string client_preface (c_str m_preface)
        then (record taken { conn = greeted; state = http2_header }, false)
        else (record taken { conn = send_goaway 0 protocol_error c }, true)
      else (a, false)

  -- the state `http2Header`. `m_frame_hdr` points to a whole header, so that `m_frame_hdr + n` is `n`
  -- headers, not `n` bytes, behind it. `none`: bytes are copied to behind the header's own nine.
  unfoldable pub take_header : Async H → Option (Async H)
  take_header a =
      let missing = frame_size - length a.frame_hdr in
      let copy_len = if ltb missing (length a.payload) then missing else length a.payload in
      let frame_hdr = a.frame_hdr ++ take copy_len a.payload in
      if ltb 0 copy_len && ltb frame_size (frame_size * length a.frame_hdr + copy_len)
      then none
      else some record a {
        frame_hdr = frame_hdr;
        payload = drop copy_len a.payload;
        state = if leb frame_size (length frame_hdr) then http2_payload else http2_header;
      }

  -- what arrives is put behind the payload
  abbrev pub append_received : Async H → Async H
  append_received a = record a { payload = a.payload ++ a.recv_buf; recv_buf = [] }

-- What `take_payload` leaves: a frame was parsed and was refused or not, it is not complete, or memory
-- is left.
pub data Taken (H : Type 0) : Type 0 where
  parsed : Async H → Bool → Taken H
  waits : Taken H
  lost : Taken H

module _ {H : Type 0} (up : Upper H) where
  -- the state `http2Payload`
  unfoldable pub take_payload : ℕ → Async H → Taken H
  take_payload now a =
      let f = read_frame a.frame_hdr in
      let len = frame_payload_len f in
      let got = prot_parse up now f a.payload len (frame_stream_ind f) a.conn in
      let next = record a {
        conn = got.0;
        payload = drop len a.payload;
        state = http2_header;
        frame_hdr = [];
      } in
      if leb len (length a.payload)
      then elim got.1 [
        | done r ↦ parsed next false
        | end_session ↦ parsed next true
        | undefined ↦ Taken.lost
      ]
      else waits

abbrev pub in_payload : Http2State → Bool
in_payload http2_payload = true
in_payload http2_header = false
in_payload http2_prefix = false

-- a header first, if that is what is waited for
unfoldable pub header_taken : {H : Type 0} → Async H → Option (Async H)
header_taken a = elim a.state [ http2_header ↦ take_header a | _ ↦ some a ]

-- The call that `AsyncProcessing` makes of itself: its state stays, its result is dropped.
abbrev pub after_nested : {H : Type 0} → Bool → Returned H → Returned H
after_nested close (returned a unused) = returned a close
after_nested close Returned.lost = Returned.lost
after_nested close Returned.out_of_turns = Returned.out_of_turns

abbrev pub first_arrival : List Arrived → Arrived
first_arrival [] = record { bytes = []; broken = false }
first_arrival (r ∷ rs) = r

-- Behind a frame: a header that is there is taken by another call.
abbrev pub after_taken :
    {H : Type 0} → Bool → Async H → (Async H → Returned H) → Taken H → Returned H
after_taken broken b nested (parsed d refused) =
    let close = if refused then true else broken in
    if leb frame_size (length d.payload) then after_nested close (nested d) else returned d close
after_taken broken b nested waits = returned b broken
after_taken broken b nested Taken.lost = Returned.lost

module _ {H : Type 0} (up : Upper H) (clock : ℕ → ℕ) where
  -- The number of the frame counts the calls. A call that is made takes a header, which bounds the
  -- turns.
  unfoldable pub async_processing : ℕ → ℕ → List Arrived → Async H → Returned H
  async_processing zero k arrivals a = Returned.out_of_turns
  async_processing (suc turns) k arrivals a =
      let r = first_arrival arrivals in
      let received = record a { recv_buf = a.recv_buf ++ r.bytes } in
      let greeted = check_preface received in
      let nested = async_processing turns (k + 1) (drop 1 arrivals) in
      elim a.state [
        | http2_prefix ↦ returned greeted.0 greeted.1
        | _ ↦ elim (header_taken (append_received received)) [
          | none ↦ Returned.lost
          | some b ↦
              if in_payload b.state
              then after_taken r.broken b nested (take_payload up (clock k) b)
              else returned b r.broken
        ]
      ]
