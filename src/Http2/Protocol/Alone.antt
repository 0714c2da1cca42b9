-- ===== src/Http2/Protocol/Alone.antt =====
-- The frames that `ProtParse` (src/http2.cpp) answers without CHttp: neither the translation of the
-- headers nor a response can come between, nor call `AsyncProcessing` again.
use heaphttpd.Prelude.{
  ℕ, ◌≡◌, refl, sym, ap, Bool, true, false, ◌||◌, none, some, Bytes, ◌==◌, arith,
}
use mathlib.Core.Path.{subst}
use heaphttpd.Http2.Wire.{Frame}
use heaphttpd.Http2.Connection.{Conn, get_stream_instance}
use heaphttpd.Http2.Connection.Streams.{Ascends}
use heaphttpd.Http2.Send.{send_goaway, frame_type_data, frame_type_headers, frame_type_continuation}
use heaphttpd.Http2.Admit.{enter_stream, refused_with}
use heaphttpd.Http2.Frames.{Reply, end_session, Upper}
use heaphttpd.Http2.Frames.Order.{keep}
use heaphttpd.Http2.Protocol.{receive_frame, check_state, prot_parse}
use heaphttpd.Http2.Protocol.Order.{Orderly, prot_parse_with-Ascends}

-- the types whose frames may reach CHttp
abbrev pub calls_chttp : ℕ → Bool
calls_chttp type =
    type == frame_type_headers || (type == frame_type_continuation || type == frame_type_data)

-- a CHttp that does nothing
abbrev inert : {K : Type 0} → Upper K
inert = record {
  hpack_parse = λ hs mem len. none;
  translate = λ ind hs c. c;
  push_post_data = λ ind bytes c. (c, true);
  response = λ ind c. c;
}

inert-Orderly : {K : Type 0} → Orderly (inert {K = K})
inert-Orderly = record {
  translated = λ ind hs c h. h;
  pushed = λ ind bytes c h. keep c true h;
  responded = λ ind c h. h;
}

-- the check of the state, with the answer `r` where the frame is let in
abbrev checked : {K : Type 0} → Frame → ℕ → Conn K → Conn K × Reply → Conn K × Reply
checked f ind c r = elim (get_stream_instance c ind) [
  | none ↦ r
  | some s ↦ elim (refused_with s.state f.type) [
    | none ↦ r
    | some error ↦ (send_goaway ind error c, end_session)
  ]
]

module _ {K : Type 0} (up up' : Upper K) where
  receive_frame_alone :
      (now : ℕ) (f : Frame) (mem : Bytes) (len ind : ℕ) (c : Conn K)
      → calls_chttp f.type ≡ false
      → receive_frame up now f mem len ind c ≡ receive_frame up' now f mem len ind c
  unfolding receive_frame
  receive_frame_alone now f mem len ind c h =
      let headers : (f.type == frame_type_headers) ≡ false = ground arith in
      let continuation : (f.type == frame_type_continuation) ≡ false = ground arith in
      let data_frame : (f.type == frame_type_data) ≡ false = ground arith in
      rw (headers, continuation, data_frame) refl

  check_state_alone :
      (now : ℕ) (f : Frame) (mem : Bytes) (len ind : ℕ) (c : Conn K)
      → calls_chttp f.type ≡ false
      → check_state up now f mem len ind c ≡ check_state up' now f mem len ind c
  unfolding check_state
  check_state_alone now f mem len ind c h =
      ap (checked f ind c) (receive_frame_alone now f mem len ind c h)

  -- Whatever CHttp does, such a frame is answered in the same way.
  pub prot_parse_alone :
      (now : ℕ) (f : Frame) (mem : Bytes) (len ind : ℕ) (c : Conn K)
      → calls_chttp f.type ≡ false
      → prot_parse up now f mem len ind c ≡ prot_parse up' now f mem len ind c
  unfolding prot_parse
  prot_parse_alone now f mem len ind c h =
      rw
        (
          check_state_alone now f mem len ind (enter_stream now ind c) h,
          receive_frame_alone now f mem len ind c h,
        )
        refl

-- Whatever the frame, but for HEADERS, CONTINUATION and DATA, which go to CHttp, the memory behind
-- its header and the stream that it names, `ProtParse` keeps the table ordered by stream number,
-- with no number twice and none that is 0, also where it makes the stream, drops another for it, or
-- ends the session.
pub prot_parse-Ascends :
    {K : Type 0} (up : Upper K) (now : ℕ) (f : Frame) (mem : Bytes) (len ind : ℕ) (c : Conn K)
    → calls_chttp f.type ≡ false
    → Ascends 0 c.streams
    → Ascends 0 (prot_parse up now f mem len ind c).0.streams
prot_parse-Ascends up now f mem len ind c alone h =
    subst (λ r. Ascends 0 r.0.streams) (sym (prot_parse_alone up inert now f mem len ind c alone))
      (prot_parse_with-Ascends inert inert-Orderly now f mem len ind c h)
