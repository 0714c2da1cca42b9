-- ===== src/Http2/Frames/Control/Effects.antt =====
-- What SETTINGS, WINDOW_UPDATE, RST_STREAM and PING do, from payloads laid out as RFC 7540 says.
use mathlib.Core.Option
use heaphttpd.Prelude.{
  not, ◌&&◌, List, Bool-cases, inl, inr, ℕ, ◌+◌, ◌*◌, ◌/◌, ◌%◌, ◌^◌, ◌<◌, ◌≡◌, refl, ap, ◌∙◌, false,
  ◌∷◌, ◌++◌, none, some, Bytes, length, take, ◌==◌, if◌then◌else◌, arith, take-length_append,
  length-append,
}
use heaphttpd.Prelude.Words.{add32}
use mathlib.Core.Path.{ap₂}
use heaphttpd.Http2.Wire.{htonl}
use heaphttpd.Http2.Wire.Layout.{be32, without_bit_24, join32, without_reserved}
use heaphttpd.Http2.Connection.{
  Stream, Conn, find, erase, modify, update_stream, increase_peer_window_size,
}
use heaphttpd.Http2.Connection.Streams.{Ascends, find-erase, find-modify, get-find}
use heaphttpd.Http2.Send.{
  setting_ack_bytes, goaway_bytes, http_send, send_setting_ack, send_goaway, protocol_error,
  ping_ack_bytes,
}
use heaphttpd.Http2.Frames.{done, has_flag, flag_ack, load_word, decode_31}
use heaphttpd.Http2.Frames.Control.{
  apply_setting, receive_settings, receive_window_update, receive_rst_stream, receive_ping, is_idle,
  load_setting, answer_reset,
}

abbrev loaded : ℕ → ℕ
loaded w =
    w / 2 ^ 24 % 2 ^ 8
    + w / 2 ^ 16 % 2 ^ 8 * 2 ^ 8
    + w / 2 ^ 8 % 2 ^ 8 * 2 ^ 16
    + w % 2 ^ 8 * 2 ^ 24

htonl-loaded : (w : ℕ) → w < 2 ^ 32 → htonl (loaded w) ≡ w
unfolding htonl
htonl-loaded w h = omega arith

decode_31-bytes :
    (b0 b1 b2 b3 : ℕ)
    → b0 < 256
    → b1 < 256
    → b2 < 256
    → b3 < 256
    → decode_31 (b0 + b1 * 2 ^ 8 + b2 * 2 ^ 16 + b3 * 2 ^ 24)
      ≡ without_bit_24 ((b0 * 2 ^ 24 + b1 * 2 ^ 16 + b2 * 2 ^ 8 + b3) % 2 ^ 31)
unfolding htonl
decode_31-bytes b0 b1 b2 b3 h0 h1 h2 h3 = omega arith

pub decode_31-loaded :
    (reserved n : ℕ)
    → n < 2 ^ 31
    → reserved < 2
    → decode_31 (loaded (reserved * 2 ^ 31 + n)) ≡ without_bit_24 n
decode_31-loaded reserved n hn hr =
    decode_31-bytes _ _ _ _ (omega arith) (omega arith) (omega arith) (omega arith)
    ∙ ap (λ w. without_bit_24 (w % 2 ^ 31)) (join32 (reserved * 2 ^ 31 + n) (omega arith))
    ∙ ap without_bit_24 (without_reserved reserved n hn hr)

pub load_word-be32 : (w : ℕ) (more : Bytes) → load_word (be32 w ++ more) 0 ≡ some (loaded w)
unfolding load_word
load_word-be32 w more = refl

join16 : (n : ℕ) → n < 2 ^ 16 → n / 2 ^ 8 % 2 ^ 8 * 2 ^ 8 + n % 2 ^ 8 ≡ n
join16 n h = omega arith

-- a setting as it lies in the payload
abbrev pub be_setting : ℕ → ℕ → Bytes
be_setting identifier value = identifier / 2 ^ 8 % 2 ^ 8 ∷ identifier % 2 ^ 8 ∷ be32 value

load_setting-layout :
    (identifier value : ℕ) (more : Bytes)
    → identifier < 2 ^ 16
    → value < 2 ^ 32
    → load_setting (be_setting identifier value ++ more) ≡ some (identifier, value)
unfolding load_setting load_word
load_setting-layout identifier value more hi hv =
    ap₂ (λ i v. some (i, v)) (join16 identifier hi) (htonl-loaded value hv)

take_eight : (xs ys : Bytes) → length xs ≡ 8 → take 8 (xs ++ ys) ≡ xs
take_eight xs ys h = rw (← h) (take-length_append xs ys)

module _ {H : Type 0} where
  apply_setting-fields :
      (identifier value : ℕ) (c : Conn H)
      → apply_setting identifier value c ≡ record c {
        header_table_size = if identifier == 1 then value else c.header_table_size;
        enable_push = if identifier == 2 then not (value == 0) else c.enable_push;
        max_concurrent_streams = if identifier == 3 then value else c.max_concurrent_streams;
        initial_peer_window_size = if identifier == 4 then value else c.initial_peer_window_size;
        max_frame_size = if identifier == 5 then value else c.max_frame_size;
        max_header_list_size = if identifier == 6 then value else c.max_header_list_size;
      }
  unfolding apply_setting
  apply_setting-fields identifier value c = ground arith

  -- The setting that stands first in a SETTINGS frame, by its number in RFC 7540, goes into its own
  -- field; every other field, the streams and the windows stay, an unknown number changes none of
  -- them, and the acknowledgement is sent. The settings behind the first (`more`) are not looked at.
  pub receive_settings_first :
      (flags identifier value len ind : ℕ) (more : Bytes) (c : Conn H)
      → has_flag flags flag_ack ≡ false
      → identifier < 2 ^ 16
      → value < 2 ^ 32
      → receive_settings flags (be_setting identifier value ++ more) len ind c ≡ (
        record c {
          header_table_size = if identifier == 1 then value else c.header_table_size;
          enable_push = if identifier == 2 then not (value == 0) else c.enable_push;
          max_concurrent_streams = if identifier == 3 then value else c.max_concurrent_streams;
          initial_peer_window_size = if identifier == 4 then value else c.initial_peer_window_size;
          max_frame_size = if identifier == 5 then value else c.max_frame_size;
          max_header_list_size = if identifier == 6 then value else c.max_header_list_size;
          sent = setting_ack_bytes ind ∷ c.sent;
        },
        done len,
      )
  unfolding receive_settings
  receive_settings_first flags identifier value len ind more c plain hi hv =
      rw (plain, load_setting-layout identifier value more hi hv)
        (ap (λ d. (send_setting_ack ind d, done len)) (apply_setting-fields identifier value c))

  abbrev open_window : ℕ → ℕ → Conn H → Conn H
  open_window ind win_size c =
      if win_size == 0
      then send_goaway ind protocol_error c
      else if ind == 0
      then record c { peer_control_window_size = add32 c.peer_control_window_size win_size }
      else update_stream ind (increase_peer_window_size win_size) c

  window_update_word :
      (mem : Bytes) (len ind : ℕ) (c : Conn H) {word : ℕ}
      → load_word mem 0 ≡ some word
      → receive_window_update mem len ind c ≡ (open_window ind (decode_31 word) c, done len)
  unfolding receive_window_update
  window_update_word mem len ind c e = rw (e, receive_window_update) (ground arith)

  -- a stream whose window the other end has opened by `w`
  abbrev pub opened_by : ℕ → Stream H → Stream H
  opened_by w s = record s { peer_window_size = (s.peer_window_size + w) % 2 ^ 32 }

  -- What opening a window does, field by field.
  abbrev Opens : ℕ → ℕ → Conn H → Conn H → Type 0
  Opens ind w c c' =
      (c'.peer_control_window_size ≡ (
        if ind == 0 && not (w == 0)
        then (c.peer_control_window_size + w) % 2 ^ 32
        else c.peer_control_window_size))
      × ((j : ℕ)
          → find j c'.streams ≡ (
              if ind == j && (not (ind == 0) && not (w == 0))
              then Option.map (opened_by w) (find j c.streams)
              else find j c.streams))
      × (c'.sent ≡ (if w == 0 then goaway_bytes ind protocol_error ∷ c.sent else c.sent))

  stream_opened :
      (ind w j : ℕ) (m : List (ℕ × Stream H))
      → find j (modify ind (increase_peer_window_size w) m)
        ≡ (if ind == j then Option.map (opened_by w) (find j m) else find j m)
  unfolding increase_peer_window_size add32
  stream_opened ind w j m = find-modify ind j (increase_peer_window_size w) m

  open_window-Opens : (ind w : ℕ) (c : Conn H) → Opens ind w c (open_window ind w c)
  unfolding add32
  open_window-Opens ind w c = elim (Bool-cases (w == 0)) [
    | inl none_left ↦ rw none_left (ground arith, λ j. ground arith, ground arith)
    | inr some_left ↦ elim (Bool-cases (ind == 0)) [
      | inl connection ↦ rw (some_left, connection) (ground arith, λ j. ground arith, ground arith)
      | inr stream ↦
          rw (some_left, stream)
            (ground arith, λ j. stream_opened ind w j c.streams ∙ ground arith, ground arith)
    ]
  ]

  -- A WINDOW_UPDATE frame, its reserved bit set or not, whose increment is `n`, opens the window of
  -- the connection (stream 0) or of the stream, if it is in the table, by `n` without its bit 24,
  -- modulo 2^32, and no other, and changes nothing else in the streams; the session goes on. If
  -- nothing is left of the increment, GOAWAY with PROTOCOL_ERROR is sent and no window opens.
  pub receive_window_update_opens :
      (reserved n len ind : ℕ) (more : Bytes) (c : Conn H)
      → n < 2 ^ 31
      → reserved < 2
      → let (c', reply) = receive_window_update (be32 (reserved * 2 ^ 31 + n) ++ more) len ind c in
        let w : ℕ = without_bit_24 n in
        (reply ≡ done len)
        × (c'.peer_control_window_size ≡ (
            if ind == 0 && not (w == 0)
            then (c.peer_control_window_size + w) % 2 ^ 32
            else c.peer_control_window_size))
        × ((j : ℕ)
            → find j c'.streams ≡ (
                if ind == j && (not (ind == 0) && not (w == 0))
                then Option.map (opened_by w) (find j c.streams)
                else find j c.streams))
        × (c'.sent ≡ (if w == 0 then goaway_bytes ind protocol_error ∷ c.sent else c.sent))
  receive_window_update_opens reserved n len ind more c hn hr =
      rw
        (
          window_update_word (be32 (reserved * 2 ^ 31 + n) ++ more) len ind c
              (load_word-be32 (reserved * 2 ^ 31 + n) more),
          decode_31-loaded reserved n hn hr,
        )
        (let (connection, streams, sent) = open_window-Opens ind (without_bit_24 n) c in
          (refl, connection, streams, sent))

  rst_stream_word :
      (mem : Bytes) (len ind : ℕ) (c : Conn H) {word : ℕ} {s : Stream H}
      → load_word mem 0 ≡ some word
      → 0 < ind
      → find ind c.streams ≡ some s
      → is_idle s.state ≡ false
      → receive_rst_stream mem len ind c
        ≡ (answer_reset ind word (record c { streams = erase ind c.streams }), done len)
  unfolding receive_rst_stream
  rst_stream_word mem len ind c e h f live =
      rw (get-find c ind h, receive_rst_stream) (rw f (rw live (rw e)))

  answer_reset-streams :
      (ind error : ℕ) (c : Conn H) (j : ℕ)
      → find j (answer_reset ind (loaded error) c).streams ≡ find j c.streams
  unfolding answer_reset
  answer_reset-streams ind error c j = ground arith

  answer_reset-sent :
      (ind error : ℕ) (c : Conn H)
      → error < 2 ^ 32
      → (answer_reset ind (loaded error) c).sent
        ≡ (if error == 0 then c.sent else (send_goaway ind error c).sent)
  unfolding answer_reset
  answer_reset-sent ind error c h = rw (htonl-loaded error h) (ground arith)

  -- An RST_STREAM frame on a stream of the table that is not idle takes the stream out of the table
  -- and leaves all others; GOAWAY with the same error is sent unless the error is 0.
  pub receive_rst_stream_removes :
      (error len ind : ℕ) (more : Bytes) (c : Conn H) {s : Stream H}
      → error < 2 ^ 32
      → Ascends 0 c.streams
      → 0 < ind
      → find ind c.streams ≡ some s
      → is_idle s.state ≡ false
      → let (c', reply) = receive_rst_stream (be32 error ++ more) len ind c in
        (reply ≡ done len)
        × ((j : ℕ) → find j c'.streams ≡ (if ind == j then none else find j c.streams))
        × (c'.sent ≡ (if error == 0 then c.sent else (send_goaway ind error c).sent))
  receive_rst_stream_removes error len ind more c {s} he asc h e live =
      let dropped = record c { streams = erase ind c.streams } in
      rw (rst_stream_word (be32 error ++ more) len ind c (load_word-be32 error more) h e live) (
        refl,
        λ j. answer_reset-streams ind error dropped j ∙ find-erase 0 ind j c.streams asc,
        answer_reset-sent ind error dropped he,
      )

  -- A PING of eight bytes that is no acknowledgement is answered with its bytes; nothing else
  -- changes.
  pub receive_ping_echoes :
      (flags identifier len : ℕ) (opaque more : Bytes) (c : Conn H)
      → has_flag flags flag_ack ≡ false
      → length opaque ≡ 8
      → receive_ping flags identifier (opaque ++ more) len c
        ≡ (http_send (ping_ack_bytes identifier opaque) c, done len)
  unfolding receive_ping
  receive_ping_echoes flags identifier len opaque more c plain h =
      rw plain (ground (arith, length-append opaque more, take_eight opaque more h))
