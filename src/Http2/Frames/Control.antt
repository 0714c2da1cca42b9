-- ===== src/Http2/Frames/Control.antt =====
-- SETTINGS, WINDOW_UPDATE, RST_STREAM and PING in `CHttp2::ProtParse`.
pub mod Effects
use heaphttpd.Prelude.{
  ℕ, zero, suc, ◌+◌, ◌*◌, ◌/◌, ◌%◌, ◌^◌, Bool, true, false, not, ◌&&◌, List, [], ◌∷◌, Option, none,
  some, Bytes, length, take, get_elem?, ltb, leb, ◌==◌, if◌then◌else◌,
}
use heaphttpd.Prelude.Words.{add32}
use heaphttpd.Http2.Wire.{htonl}
use heaphttpd.Http2.Connection.{
  StreamState, idle, Stream, Conn, erase, get_stream_instance, update_stream,
  increase_peer_window_size,
}
use heaphttpd.Http2.Send.{
  http_send, send_setting_ack, send_goaway, protocol_error, no_error, ping_ack_bytes, field_31,
}
use heaphttpd.Http2.Frames.{
  Reply, done, end_session, undefined, has_flag, flag_ack, load_word, decode_31, ◌>>=◌,
}

-- the first six bytes of the payload: `identifier` and `value`
unfoldable pub load_setting : Bytes → Option (ℕ × ℕ)
load_setting mem = do
  hi ← get_elem? mem 0
  lo ← get_elem? mem 1
  word ← load_word mem 2
  some (hi * 2 ^ 8 + lo, htonl word)

unfoldable pub is_idle : StreamState → Bool
is_idle idle = true
is_idle _ = false

module _ {H : Type 0} where
  -- the switch
  unfoldable pub apply_setting : ℕ → ℕ → Conn H → Conn H
  apply_setting identifier value c =
      if identifier == 0x01
      then record c { header_table_size = value }
      else if identifier == 0x02
      then record c { enable_push = not (value == 0) }
      else if identifier == 0x03
      then record c { max_concurrent_streams = value }
      else if identifier == 0x04
      then record c { initial_peer_window_size = value }
      else if identifier == 0x05
      then record c { max_frame_size = value }
      else if identifier == 0x06
      then record c { max_header_list_size = value }
      else c

  unfoldable pub receive_settings : ℕ → Bytes → ℕ → ℕ → Conn H → Conn H × Reply
  receive_settings flags mem len ind c =
      if has_flag flags flag_ack then (c, done len) else elim (load_setting mem) [
        | none ↦ (c, undefined)
        | some (identifier, value) ↦
            (send_setting_ack ind (apply_setting identifier value c), done len)
      ]

  unfoldable pub receive_window_update : Bytes → ℕ → ℕ → Conn H → Conn H × Reply
  receive_window_update mem len ind c = elim (load_word mem 0) [
    | none ↦ (c, undefined)
    | some word ↦
        let win_size = decode_31 word in
        if win_size == 0
        then (send_goaway ind protocol_error c, done len)
        else if ind == 0
        then (
          record c { peer_control_window_size = add32 c.peer_control_window_size win_size },
          done len,
        )
        else (update_stream ind (increase_peer_window_size win_size) c, done len)
  ]

  -- Behind the table's entry: the error code is not zero, so GOAWAY answers the reset.
  unfoldable pub answer_reset : ℕ → ℕ → Conn H → Conn H
  answer_reset ind error_code c =
      if ltb no_error error_code then send_goaway ind (htonl error_code) c else c

  unfoldable pub receive_rst_stream : Bytes → ℕ → ℕ → Conn H → Conn H × Reply
  receive_rst_stream mem len ind c = elim (get_stream_instance c ind) [
    | none ↦ (send_goaway ind protocol_error c, done len)
    | some s ↦
        if is_idle s.state
        then (send_goaway ind protocol_error c, done len)
        else let c' = record c { streams = erase ind c.streams } in
          elim (load_word mem 0) [
            | none ↦ (c', undefined)
            | some error_code ↦ (answer_reset ind error_code c', done len)
          ]
  ]

  -- `identifier` is the field of the frame's header
  unfoldable pub receive_ping : ℕ → ℕ → Bytes → ℕ → Conn H → Conn H × Reply
  receive_ping flags identifier mem len c =
      if has_flag flags flag_ack
      then (c, done len)
      else if leb 8 (length mem)
      then (http_send (ping_ack_bytes identifier (take 8 mem)) c, done len)
      else (c, undefined)
