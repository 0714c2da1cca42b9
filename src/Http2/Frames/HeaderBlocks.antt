-- ===== src/Http2/Frames/HeaderBlocks.antt =====
-- HEADERS and CONTINUATION in `CHttp2::ProtParse`.
use heaphttpd.Prelude.{
  ℕ, ◌+◌, ◌-◌, Bool, true, false, List, [], Option, none, some, Bytes, drop, get_elem?, ltb,
  if◌then◌else◌,
}
use heaphttpd.Http2.Connection.{
  StreamState, open_state, half_closed_remote, half_closed_local, closed, Stream, Conn, find,
  insert, erase, get_stream_instance, update_stream, set_stream_state, create_stream_instance,
}
use heaphttpd.Http2.Send.{send_goaway, protocol_error, compression_error}
use heaphttpd.Http2.Admit.{is_closed}
use heaphttpd.Http2.Frames.{
  Reply, done, end_session, undefined, Upper, has_flag, flag_end_stream, flag_end_headers,
  flag_padded, flag_priority, load_priority, reprioritise,
}

-- the state after a frame with END_STREAM
unfoldable pub end_stream_state : StreamState → StreamState
end_stream_state half_closed_local = closed
end_stream_state _ = half_closed_remote

-- the headers decoded so far; `hpack_parse` makes the object when there is none
abbrev pub decoded_headers : {H : Type 0} → Stream H → List H
decoded_headers s = elim s.hpack [ none ↦ [] | some hs ↦ hs ]

module _ {H : Type 0} where
  unfoldable pub end_stream : ℕ → ℕ → Conn H → Conn H
  unfolding end_stream_state
  end_stream flags ind c =
      if has_flag flags flag_end_stream
      then update_stream ind (λ s. set_stream_state (end_stream_state s.state) s) c
      else c

module _ {H : Type 0} (up : Upper H) where
  -- `TransHttp2ParseHttp1Header` and `ClearHpack`, on END_HEADERS
  unfoldable pub end_headers : ℕ → ℕ → List H → Conn H → Conn H
  end_headers flags ind hs c =
      if has_flag flags flag_end_headers
      then update_stream ind (λ s. record s { hpack = none }) (up.translate ind hs c)
      else c

  -- A fragment is decoded behind the headers that the stream has; a failure ends the session.
  unfoldable pub receive_fragment : ℕ → Stream H → Bytes → ℕ → ℕ → Conn H → Conn H × Bool
  unfolding end_headers
  receive_fragment flags s mem fragment_len ind c =
      elim (up.hpack_parse (decoded_headers s) mem fragment_len) [
        | none ↦ (send_goaway ind compression_error c, false)
        | some hs ↦ (
          end_headers flags ind hs (update_stream ind (λ t. record t { hpack = some hs }) c),
          true,
        )
      ]

  unfoldable pub receive_continuation : ℕ → Bytes → ℕ → ℕ → Conn H → Conn H × Reply
  unfolding receive_fragment get_stream_instance
  receive_continuation flags mem len ind c = elim (get_stream_instance c ind) [
    | none ↦ (send_goaway ind protocol_error c, end_session)
    | some s ↦
        let (c', parsed) = receive_fragment flags s mem len ind c in
        (c', if parsed then done len else end_session)
  ]

  -- A stream that is missing or closed is made anew.
  unfoldable pub reopen_stream : ℕ → ℕ → Conn H → Conn H
  unfolding is_closed find insert erase
  reopen_stream now ind c =
      let fresh = create_stream_instance c now in
      if ltb 0 ind
      then elim (find ind c.streams) [
        | none ↦ record c { streams = insert ind fresh c.streams }
        | some s ↦
            if is_closed s.state
            then record c { streams = insert ind fresh (erase ind c.streams) }
            else c
      ]
      else c

  -- `padding_len` and the offset behind the pad length
  unfoldable pub header_padding : ℕ → Bytes → Option (ℕ × ℕ)
  header_padding flags mem =
      if has_flag flags flag_padded
      then elim (get_elem? mem 0) [ none ↦ none | some padding_len ↦ some (padding_len, 1) ]
      else some (0, 0)

  -- the priority part; the offset moves on, also where there is no stream to change
  unfoldable pub header_priority : ℕ → Bytes → ℕ → ℕ → Conn H → Option (ℕ × Conn H)
  unfolding load_priority reprioritise get_stream_instance
  header_priority flags mem offset ind c =
      if has_flag flags flag_priority
      then elim (load_priority mem offset) [
        | none ↦ none
        | some p ↦ some (
          offset + 5,
          elim (get_stream_instance c ind) [ none ↦ c | some _ ↦ reprioritise ind p c ],
        )
      ]
      else some (offset, c)

  -- behind the prefix: the fragment, then END_STREAM. A negative `fragment_len` is 0 here, which
  -- `hpack::parse` treats alike.
  unfoldable pub header_block : ℕ → Bytes → ℕ → ℕ → ℕ → ℕ → Conn H → Conn H × Reply
  unfolding get_stream_instance receive_fragment end_stream
  header_block flags mem offset padding_len len ind c = elim (get_stream_instance c ind) [
    | none ↦ (c, done len)
    | some s ↦
        let opened = update_stream ind (set_stream_state open_state) c in
        let (c', parsed) =
          receive_fragment flags s (drop offset mem) (len - offset - padding_len) ind opened in
        if parsed then (end_stream flags ind c', done len) else (c', end_session)
  ]

  unfoldable pub receive_headers : ℕ → ℕ → Bytes → ℕ → ℕ → Conn H → Conn H × Reply
  unfolding reopen_stream header_padding header_priority header_block
  receive_headers now flags mem len ind c =
      let c' = reopen_stream now ind c in
      elim (header_padding flags mem) [
        | none ↦ (c', undefined)
        | some (padding_len, offset) ↦ elim (header_priority flags mem offset ind c') [
          | none ↦ (c', undefined)
          | some (offset', c'') ↦ header_block flags mem offset' padding_len len ind c''
        ]
      ]
