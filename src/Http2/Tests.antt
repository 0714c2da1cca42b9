-- ===== src/Http2/Tests.antt =====
-- HTTP/2 connections at concrete inputs.
use mathlib.Core.Option
use heaphttpd.Prelude.{
  ◌&&◌, true, ℕ, ◌+◌, ◌*◌, ◌/◌, ◌%◌, ◌^◌, ◌≤◌, ◌≡◌, refl, [], ◌∷◌, ◌++◌, some, none, Bytes, length,
  arith, ◌==◌, if◌then◌else◌, ◌↔◌,
}
use Prim.Native.Nat.{max}
use heaphttpd.Prelude.Words.{sub32}
use heaphttpd.Http2.Wire.{
  frame_bytes, read_frame, http2_set_length, http2_set_identifier, frame_payload_len,
  frame_stream_ind,
}
use heaphttpd.Http2.Wire.Layout.{be24, be32, without_bit_24, read_frame-frame_bytes}
use heaphttpd.Http2.Connection.{open_state, half_closed_remote, find, create_stream_instance}
use heaphttpd.Http2.Connection.Streams.{Ascends}
use heaphttpd.Http2.Send.{
  setting_ack_bytes, rst_stream_bytes, window_update_bytes, initial_window_size_bytes, goaway_bytes,
  http_send, send_goaway, ping_ack_bytes,
}
use heaphttpd.Http2.Send.Layout.{control_frames_layout}
use heaphttpd.Http2.Admit.{admit_stream, is_closed}
use heaphttpd.Http2.Admit.Table.{Least, oldest_one, admit_stream_bound}
use heaphttpd.Http2.Admit.Eviction.{admit_stream_evicts}
use heaphttpd.Http2.Frames.{done}
use heaphttpd.Http2.Frames.Control.{
  receive_settings, receive_window_update, receive_rst_stream, receive_ping, is_idle,
}
use heaphttpd.Http2.Frames.Control.Effects.{
  be_setting, receive_settings_first, opened_by, receive_window_update_opens,
  receive_rst_stream_removes, receive_ping_echoes,
}
use heaphttpd.Http2.Frames.Data.{account_data, post_data}
use heaphttpd.Http2.Frames.Data.Windows.{account_data_windows, post_data_lem}
use heaphttpd.Http2.Frames.{Priority, reprioritise}
use heaphttpd.Http2.Frames.Priorities.{rearranged, reprioritise_exclusive}
use heaphttpd.Http2.Sample.{
  stream_in, two_streams, full, frame_of, two_streams-Ascends, no_seven, stream_one, stream_three,
}

read_frame-frame_bytes_example :
    let g = read_frame (frame_bytes (http2_set_identifier (http2_set_length (frame_of 1) 300) 5)) in
    (frame_payload_len g ≡ 300)
    × (g.type ≡ 1)
    × (g.flags ≡ 0)
    × ((frame_stream_ind g ≡ 5) ↔ (5 / 2 ^ 24 % 2 ≡ 0))
read_frame-frame_bytes_example =
    read_frame-frame_bytes (frame_of 1) 300 5 (omega arith) (omega arith) (omega arith)
      (omega arith) refl

control_frames_layout_example :
    (setting_ack_bytes 5 ≡ be24 0 ++ 4 ∷ 1 ∷ be32 (without_bit_24 5))
    × (rst_stream_bytes 5 ≡ be24 4 ++ 3 ∷ 0 ∷ be32 (without_bit_24 5) ++ be32 0)
    × (window_update_bytes 5 100
        ≡ be24 4 ++ 8 ∷ 0 ∷ be32 (without_bit_24 5) ++ be32 (without_bit_24 100))
    × (initial_window_size_bytes 65535 ≡ be24 6 ++ 4 ∷ 0 ∷ be32 0 ++ 0 ∷ 4 ∷ be32 65535)
    × (goaway_bytes 5 1 ≡ be24 8 ++ 7 ∷ 0 ∷ be32 0 ++ be32 (without_bit_24 5) ++ be32 1)
control_frames_layout_example =
    control_frames_layout 5 100 65535 1 (omega arith) (omega arith) (omega arith) (omega arith)

admit_stream_bound_example :
    Ascends 0 (admit_stream 30 7 full).streams
    × (length (admit_stream 30 7 full).streams ≤ max (length full.streams) (max 1 2))
admit_stream_bound_example = admit_stream_bound 30 7 full (omega arith) two_streams-Ascends

admit_stream_evicts_example :
    let oldest =
      oldest_one (1, stream_in open_state 20) ((3, stream_in half_closed_remote 10) ∷ []) in
    let c' = admit_stream 30 7 full in
    Least oldest two_streams
    × (c'.sent ≡ rst_stream_bytes oldest.0 ∷ [])
    × ((j : ℕ)
        → find j c'.streams ≡ (
            if 7 == j
            then some (create_stream_instance full 30)
            else if oldest.0 == j
            then none
            else find j full.streams))
admit_stream_evicts_example =
    admit_stream_evicts 30 7 full (1, stream_in open_state 20)
      ((3, stream_in half_closed_remote 10) ∷ []) refl two_streams-Ascends (omega arith)
      (unfold is_closed in (refl, (refl, tt))) no_seven

account_data_windows_example :
    let c' = account_data 1 1000 full in
    (c'.sent ≡ window_update_bytes 1 1000 ∷ [])
    × (c'.local_control_window_size ≡ sub32 65535 1000)
    × ((j : ℕ) → find j c'.streams ≡ find j full.streams)
account_data_windows_example =
    account_data_windows 1 1000 full (omega arith) stream_one refl (omega arith) (omega arith)

post_data_lem_example :
    (post_data 0 (5 ∷ 6 ∷ 8 ∷ []) 2 ≡ some (5 ∷ 6 ∷ []))
    × (post_data 8 (1 ∷ 5 ∷ 6 ∷ 7 ∷ 8 ∷ []) 4 ≡ some (5 ∷ 6 ∷ 7 ∷ []))
post_data_lem_example = post_data_lem 0 8 1 7 (5 ∷ 6 ∷ []) (8 ∷ []) refl refl

-- Padding: the pad length 2, the data 5 6 and the padding 0 0; a zero stands behind the frame.
padded_data : post_data 8 (2 ∷ 5 ∷ 6 ∷ 0 ∷ 0 ∷ 0 ∷ []) 5 ≡ some (5 ∷ 6 ∷ 0 ∷ [])
unfolding post_data
padded_data = refl

receive_settings_first_example :
    receive_settings 0 (be_setting 3 100 ++ be_setting 4 65535) 12 0 full
    ≡ (record full { max_concurrent_streams = 100; sent = setting_ack_bytes 0 ∷ [] }, done 12)
receive_settings_first_example =
    receive_settings_first 0 3 100 12 0 (be_setting 4 65535) full refl (omega arith) (omega arith)

receive_window_update_opens_example :
    let (c', reply) = receive_window_update (be32 (1 * 2 ^ 31 + 100) ++ []) 4 1 full in
    (reply ≡ done 4)
    × (c'.peer_control_window_size ≡ full.peer_control_window_size)
    × ((j : ℕ)
        → find j c'.streams ≡ (
            if (1 == j) && true
            then Option.map (opened_by 100) (find j full.streams)
            else find j full.streams))
    × (c'.sent ≡ [])
receive_window_update_opens_example =
    receive_window_update_opens 1 100 4 1 [] full (omega arith) (omega arith)

receive_rst_stream_removes_example :
    let (c', reply) = receive_rst_stream (be32 8 ++ []) 4 1 full in
    (reply ≡ done 4)
    × ((j : ℕ) → find j c'.streams ≡ (if 1 == j then none else find j two_streams))
    × (c'.sent ≡ (if 8 == 0 then [] else (send_goaway 1 8 full).sent))
receive_rst_stream_removes_example =
    receive_rst_stream_removes 8 4 1 [] full (omega arith) two_streams-Ascends (omega arith)
      stream_one (unfold is_idle in refl)

abbrev eight : Bytes
eight = 1 ∷ 2 ∷ 3 ∷ 4 ∷ 5 ∷ 6 ∷ 7 ∷ 8 ∷ []

ping_echoed :
    receive_ping 0 0 (eight ++ 0 ∷ []) 8 full ≡ (http_send (ping_ack_bytes 0 eight) full, done 8)
ping_echoed = receive_ping_echoes 0 0 8 eight (0 ∷ []) full refl refl

abbrev exclusive_on_one : Priority
exclusive_on_one = record { e = 1; dep_ind = 1; weight = 5 }

reprioritise_exclusive_example :
    find 3 (reprioritise 3 exclusive_on_one full).streams
    ≡ some (rearranged 3 exclusive_on_one 3 (stream_in half_closed_remote 10))
reprioritise_exclusive_example =
    reprioritise_exclusive 3 exclusive_on_one full 3 refl (omega arith) (omega arith) stream_three
      stream_one stream_three

-- The stream depends on itself.
depends_on_itself :
    (rearranged 3 exclusive_on_one 3 (stream_in half_closed_remote 10)).dependency_stream ≡ 3
depends_on_itself = refl
