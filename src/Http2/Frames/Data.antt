-- ===== src/Http2/Frames/Data.antt =====
-- DATA in `CHttp2::ProtParse`.
pub mod Windows
use heaphttpd.Prelude.{
  ℕ, zero, suc, ◌+◌, ◌-◌, Bool, true, false, not, ◌&&◌, ◌||◌, List, [], ◌∷◌, Option, none, some,
  Bytes, length, take, drop, get_elem?, ltb, leb, ◌==◌, if◌then◌else◌,
}
use heaphttpd.Prelude.Words.{sub32}
use heaphttpd.Http2.Connection.{
  StreamState, open_state, Stream, Conn, get_stream_instance, update_stream, set_stream_state,
}
use heaphttpd.Http2.Send.{
  send_goaway, send_window_update, decrease_local_window_size, stream_closed_error,
}
use heaphttpd.Http2.Frames.{
  Reply, done, end_session, undefined, Upper, has_flag, flag_end_stream, flag_padded,
}
use heaphttpd.Http2.Frames.HeaderBlocks.{end_stream_state, end_stream}

unfoldable pub is_open : StreamState → Bool
is_open open_state = true
is_open _ = false

-- What `PushPostData` is given. With padding it is `payload_len - pad_length` bytes from the second
-- byte on, so one byte more than the data.
unfoldable pub post_data : ℕ → Bytes → ℕ → Option Bytes
post_data flags mem len =
    if has_flag flags flag_padded
    then elim (get_elem? mem 0) [
      | none ↦ none
      | some pad_length ↦
          if leb pad_length len && ltb (len - pad_length) (length mem)
          then some (take (len - pad_length) (drop 1 mem))
          else none
    ]
    else if leb len (length mem)
    then some (take len mem)
    else none

module _ {H : Type 0} where
  -- the windows: both go down, and the stream's goes up again by a WINDOW_UPDATE
  unfoldable pub account_data : ℕ → ℕ → Conn H → Conn H
  account_data ind len c =
      let spent = record c { local_control_window_size = sub32 c.local_control_window_size len } in
      send_window_update ind len (decrease_local_window_size ind len spent)

module _ {H : Type 0} (up : Upper H) where
  unfoldable pub push_data : ℕ → Bytes → Conn H → Conn H
  push_data ind bytes c =
      let (c', more) = up.push_post_data ind bytes c in if more then c' else up.response ind c'

  unfoldable pub receive_data : ℕ → Bytes → ℕ → ℕ → Conn H → Conn H × Reply
  receive_data flags mem len ind c =
      let c' = account_data ind len c in
      if ind == 0
      then (send_goaway ind stream_closed_error c', end_session)
      else elim (get_stream_instance c' ind) [
        | none ↦ (c', done len)
        | some s ↦
            if not (is_open s.state)
            then (send_goaway ind stream_closed_error c', end_session)
            else elim (post_data flags mem len) [
              | none ↦ (c', undefined)
              | some bytes ↦ (end_stream flags ind (push_data ind bytes c'), done len)
            ]
      ]
