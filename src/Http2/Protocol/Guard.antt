-- ===== src/Http2/Protocol/Guard.antt =====
-- The check of a frame's type against the state of its stream, in `CHttp2::ProtParse`.
use heaphttpd.Prelude.{
  ℕ, ◌<◌, ◌≡◌, ◌≢◌, refl, ap, ◌∙◌, Bool, true, none, some, Bytes, ◌==◌, ◌||◌, if◌then◌else◌, arith,
}
use heaphttpd.Http2.Wire.{Frame}
use heaphttpd.Http2.Connection.{
  StreamState, idle, reserved_local, reserved_remote, open_state, half_closed_remote,
  half_closed_local, closed, Stream, Conn, find, get_stream_instance, update_stream,
  refresh_last_used_time,
}
use heaphttpd.Http2.Connection.Streams.{find-modify}
use heaphttpd.Http2.Send.{send_goaway, protocol_error}
use heaphttpd.Http2.Admit.{admit_stream, enter_stream, refused_with}
use heaphttpd.Http2.Admit.Table.{admit_old}
use heaphttpd.Http2.Admit.Eviction.{admit_new-find_self}
use heaphttpd.Http2.Frames.{Reply, end_session, Upper}
use heaphttpd.Http2.Protocol.{receive_frame, check_state, prot_parse}

-- The frame types that a stream takes in each state: HEADERS and PRIORITY when idle; RST_STREAM,
-- PRIORITY and WINDOW_UPDATE when the peer must not send more; all of them otherwise.
abbrev pub accepts : StreamState → ℕ → Bool
accepts idle type = type == 1 || type == 2
accepts reserved_local type = type == 3 || type == 2 || type == 8
accepts half_closed_remote type = type == 3 || type == 2 || type == 8
accepts closed type = type == 3 || type == 2 || type == 8
accepts reserved_remote type = true
accepts open_state type = true
accepts half_closed_local type = true

abbrev pub refusal_error : StreamState → ℕ
refusal_error idle = 1
refusal_error _ = 5

refused_with-accepts :
    (s : StreamState) (type : ℕ)
    → refused_with s type ≡ (if accepts s type then none else some (refusal_error s))
unfolding refused_with
refused_with-accepts _ type = ground arith

module _ {H : Type 0} where
  enter_stream-get :
      (now ind : ℕ) (c c' : Conn H) {s : Stream H}
      → 0 < ind
      → admit_stream now ind c ≡ c'
      → find ind c'.streams ≡ some s
      → get_stream_instance (enter_stream now ind c) ind ≡ some (refresh_last_used_time now s)
  unfolding enter_stream get_stream_instance
  enter_stream-get now ind c c' {s} h e f =
      rw e (ground (arith, find-modify ind ind (refresh_last_used_time {H = H} now) c'.streams))

  enter_stream_old :
      (now ind : ℕ) (c : Conn H) {s : Stream H}
      → find ind c.streams ≡ some s
      → enter_stream now ind c ≡ update_stream ind (refresh_last_used_time now) c
  unfolding enter_stream
  enter_stream_old now ind c e = rw (admit_old now ind c e)

module _ {H : Type 0} (up : Upper H) where
  -- what `check_state` answers for a stream in state `state`
  abbrev pub guarded : ℕ → Frame → Bytes → ℕ → ℕ → StreamState → Conn H → Conn H × Reply
  guarded now f mem len ind state c =
      if accepts state f.type
      then receive_frame up now f mem len ind c
      else (send_goaway ind (refusal_error state) c, end_session)

  check_guards :
      (now : ℕ) (f : Frame) (mem : Bytes) (len ind : ℕ) (c : Conn H) {s : Stream H}
      → get_stream_instance c ind ≡ some s
      → check_state up now f mem len ind c ≡ guarded now f mem len ind s.state c
  unfolding check_state
  check_guards now f mem len ind c {s} e =
      rw (e, check_state) (rw (refused_with-accepts s.state f.type) (ground arith))

  entered :
      (now : ℕ) (f : Frame) (mem : Bytes) (len ind : ℕ) (c : Conn H)
      → 0 < ind
      → prot_parse up now f mem len ind c
        ≡ check_state up now f mem len ind (enter_stream now ind c)
  unfolding prot_parse
  entered now f mem len ind c h = ground arith

  -- A frame on a stream of the table: if the stream's state takes frames of its type, the frame is
  -- handled; if not, GOAWAY is sent with PROTOCOL_ERROR for an idle stream and STREAM_CLOSED for
  -- any other, the session ends, and nothing but the stream's time has changed.
  pub prot_parse-guard :
      (now : ℕ) (f : Frame) (mem : Bytes) (len ind : ℕ) (c : Conn H) {s : Stream H}
      → 0 < ind
      → find ind c.streams ≡ some s
      → let c' = update_stream ind (refresh_last_used_time now) c in
        prot_parse up now f mem len ind c ≡ (
          if accepts s.state f.type
          then receive_frame up now f mem len ind c'
          else (send_goaway ind (refusal_error s.state) c', end_session))
  prot_parse-guard now f mem len ind c {s} h e =
      entered now f mem len ind c h
      ∙ check_guards now f mem len ind (enter_stream now ind c)
          (enter_stream-get now ind c c h (admit_old now ind c e) e)
      ∙ ap (guarded now f mem len ind s.state) (enter_stream_old now ind c e)

  -- The first frame of a stream that is not in the table must be HEADERS or PRIORITY: after any
  -- other the session ends with GOAWAY, PROTOCOL_ERROR.
  pub prot_parse_first_frame :
      (now : ℕ) (f : Frame) (mem : Bytes) (len ind : ℕ) (c : Conn H)
      → 0 < ind
      → find ind c.streams ≡ none
      → f.type ≢ 1
      → f.type ≢ 2
      → prot_parse up now f mem len ind c
        ≡ (send_goaway ind protocol_error (enter_stream now ind c), end_session)
  prot_parse_first_frame now f mem len ind c h e n1 n2 =
      entered now f mem len ind c h
      ∙ check_guards now f mem len ind (enter_stream now ind c) (
          enter_stream-get now ind c (admit_stream now ind c) h refl
            (admit_new-find_self now ind c e))
      ∙ ground arith
