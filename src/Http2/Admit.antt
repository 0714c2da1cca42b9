-- ===== src/Http2/Admit.antt =====
-- The first part of `CHttp2::ProtParse` (src/http2.cpp): the stream that a frame names is looked up
-- or made, a stream is given up if the table is full, and the frame's type is checked against the
-- stream's state.
pub mod Table
pub mod Eviction
use heaphttpd.Prelude.{
  ℕ, zero, suc, Bool, true, false, ◌&&◌, ◌||◌, List, [], ◌∷◌, Option, none, some, length, ltb, leb,
  ◌==◌, if◌then◌else◌,
}
use heaphttpd.Http2.Connection.{
  StreamState, idle, reserved_local, reserved_remote, open_state, half_closed_remote,
  half_closed_local, closed, Stream, Conn, find, insert, erase, create_stream_instance,
  update_stream, refresh_last_used_time,
}
use heaphttpd.Http2.Send.{
  frame_type_headers, frame_type_priority, frame_type_rst_stream, frame_type_window_update,
  protocol_error, stream_closed_error, send_rst_stream,
}

unfoldable pub is_closed : StreamState → Bool
is_closed closed = true
is_closed _ = false

module _ {H : Type 0} where
  -- the loop over the table; the first argument is `oldest_one`
  unfoldable pub oldest_from : ℕ × Stream H → List (ℕ × Stream H) → ℕ × Stream H
  unfolding is_closed
  oldest_from oldest [] = oldest
  oldest_from oldest (each ∷ m) =
      oldest_from
        (if is_closed each.1.state || ltb each.1.last_used_time oldest.1.last_used_time
          then each
          else oldest)
        m

  -- With `max_concurrent_streams` streams in the table one of them is reset and dropped.
  unfoldable pub make_room : Conn H → List (ℕ × Stream H) → Conn H
  make_room c [] = c
  make_room c (first ∷ m) =
      let oldest = oldest_from first (first ∷ m) in
      let c' = send_rst_stream oldest.0 c in
      if leb c.max_concurrent_streams (length (first ∷ m))
      then record c' { streams = erase oldest.0 c'.streams }
      else c

  -- the table with the stream `ind` in it
  unfoldable pub admit_stream : ℕ → ℕ → Conn H → Conn H
  admit_stream now ind c =
      let room = make_room c c.streams in
      elim (find ind c.streams) [
        | some _ ↦ c
        | none ↦ record room { streams = insert ind (create_stream_instance room now) room.streams }
      ]

  -- up to `RefreshLastUsedTime`
  unfoldable pub enter_stream : ℕ → ℕ → Conn H → Conn H
  enter_stream now ind c = update_stream ind (refresh_last_used_time now) (admit_stream now ind c)

-- the three types that a stream still takes when the peer has ended its side
abbrev still_accepted : ℕ → Bool
still_accepted type =
    type == frame_type_rst_stream || type == frame_type_priority || type == frame_type_window_update

-- The error with which a frame of this type is refused in this state, if it is.
unfoldable pub refused_with : StreamState → ℕ → Option ℕ
refused_with idle type =
    if type == frame_type_headers || type == frame_type_priority then none else some protocol_error
refused_with reserved_local type = if still_accepted type then none else some stream_closed_error
refused_with half_closed_remote type =
    if still_accepted type then none else some stream_closed_error
refused_with closed type = if still_accepted type then none else some stream_closed_error
refused_with reserved_remote type = none
refused_with open_state type = none
refused_with half_closed_local type = none
