-- ===== src/Http2/Protocol/Order.antt =====
-- `CHttp2::ProtParse` keeps the stream table in order.
use heaphttpd.Prelude.{
  ℕ, ◌-◌, ◌<◌, sym, Bool, List, Option, none, some, Bytes, length, drop, ltb, leb, ◌==◌,
  if◌then◌else◌, arith, Bool-cases, Option-cases, inl, inr,
}
use mathlib.Core.Path.{subst}
use heaphttpd.Http2.Connection.{Stream, Conn, get_stream_instance, set_stream_state}
use heaphttpd.Http2.Connection.Streams.{Ascends}
use heaphttpd.Http2.Send.{send_goaway}
use heaphttpd.Http2.Frames.{Reply, done, end_session, undefined, Upper, load_priority, has_flag}
use heaphttpd.Http2.Frames.HeaderBlocks.{
  end_headers, receive_fragment, receive_continuation, reopen_stream, header_padding,
  header_priority, header_block, receive_headers, decoded_headers,
}
use heaphttpd.Http2.Frames.Control.{receive_ping}
use heaphttpd.Http2.Frames.Data.{account_data, post_data, push_data, receive_data}
use heaphttpd.Http2.Wire.{Frame}
use heaphttpd.Http2.Connection.{open_state}
use heaphttpd.Http2.Admit.{enter_stream, refused_with}
use heaphttpd.Http2.Admit.Table.{admit_stream_bound}
use heaphttpd.Http2.Frames.{flag_priority}
use heaphttpd.Http2.Frames.Order.{
  Ordered, ordered, Keeps, keeps, of_Ordered, of_Keeps, keep, if-Ordered, opt-Ordered, if-Keeps,
  opt-Keeps, update_stream-Ordered, account_data-Ordered, reprioritise-Ordered,
  receive_priority-Keeps, end_stream-Ordered, receive_settings-Keeps, receive_window_update-Keeps,
  receive_rst_stream-Keeps, receive_ping-streams, reopen_stream-Ordered,
}
use heaphttpd.Http2.Send.{
  frame_type_data, frame_type_headers, frame_type_priority, frame_type_rst_stream,
  frame_type_settings, frame_type_push_promise, frame_type_ping, frame_type_goaway,
  frame_type_window_update, frame_type_continuation, protocol_error,
}
use heaphttpd.Http2.Protocol.{receive_frame, check_state, prot_parse}

-- What the calls into CHttp must do: they keep the table in order.
pub record Orderly {K : Type 0} (up : Upper K) : Type 0 where
  pub translated :
      (ind : ℕ) (hs : List K) (c : Conn K) → Ordered c → Ordered (up.translate ind hs c)
  pub pushed :
      (ind : ℕ) (bytes : Bytes) (c : Conn K) → Ordered c → Keeps (up.push_post_data ind bytes c)
  pub responded : (ind : ℕ) (c : Conn K) → Ordered c → Ordered (up.response ind c)

module _ {K : Type 0} (up : Upper K) (orderly : Orderly up) where
  end_headers-Ordered :
      (flags ind : ℕ) (hs : List K) (c : Conn K)
      → Ordered c
      → Ordered (end_headers up flags ind hs c)
  unfolding end_headers
  end_headers-Ordered flags ind hs c h =
      if-Ordered _ (update_stream-Ordered ind _ _ (orderly.translated ind hs c h)) h

  receive_fragment-Keeps :
      (flags : ℕ) (s : Stream K) (mem : Bytes) (fragment_len ind : ℕ) (c : Conn K)
      → Ordered c
      → Keeps (receive_fragment up flags s mem fragment_len ind c)
  unfolding receive_fragment
  receive_fragment-Keeps flags s mem fragment_len ind c (ordered h) =
      opt-Keeps (up.hpack_parse (decoded_headers s) mem fragment_len) (keeps h) (λ hs.
        keep _ _ (end_headers-Ordered flags ind hs _ (update_stream-Ordered ind _ c (ordered h))))

  receive_continuation-Keeps :
      (flags : ℕ) (mem : Bytes) (len ind : ℕ) (c : Conn K)
      → Ordered c
      → Keeps (receive_continuation up flags mem len ind c)
  unfolding receive_continuation
  receive_continuation-Keeps flags mem len ind c (ordered h) =
      opt-Keeps (get_stream_instance c ind) (keeps h)
        (λ s. keeps (of_Keeps _ (receive_fragment-Keeps flags s mem len ind c (ordered h))))

  -- the connection behind the priority part, if there is one
  abbrev Behind : Option (ℕ × Conn K) → Type 0
  Behind none = Unit
  Behind (some r) = Ordered r.1

  header_priority-Behind :
      (flags : ℕ) (mem : Bytes) (offset ind : ℕ) (c : Conn K)
      → Ordered c
      → Behind (header_priority up flags mem offset ind c)
  unfolding header_priority
  header_priority-Behind flags mem offset ind c h =
      elim (Bool-cases (has_flag flags flag_priority)) [
        | inl priority ↦ elim (Option-cases (load_priority mem offset)) [
          | inl outside ↦ rw (priority, outside) tt
          | inr (p, inside) ↦
              rw (priority, inside)
                (opt-Ordered (get_stream_instance c ind) h (λ s. reprioritise-Ordered ind p c h))
        ]
        | inr plain ↦ rw plain h
      ]

  header_block-Keeps :
      (flags : ℕ) (mem : Bytes) (offset padding_len len ind : ℕ) (c : Conn K)
      → Ordered c
      → Keeps (header_block up flags mem offset padding_len len ind c)
  unfolding header_block
  header_block-Keeps flags mem offset padding_len len ind c (ordered h) =
      opt-Keeps (get_stream_instance c ind) (keeps h) (λ s.
        let opened = update_stream-Ordered ind (set_stream_state open_state) c (ordered h) in
        let k = of_Keeps _ (
          receive_fragment-Keeps flags s (drop offset mem) (len - offset - padding_len) ind _
            opened) in
        if-Keeps _ (keep _ _ (end_stream-Ordered flags ind _ (ordered k))) (keeps k))

  receive_headers-Keeps :
      (now flags : ℕ) (mem : Bytes) (len ind : ℕ) (c : Conn K)
      → Ordered c
      → Keeps (receive_headers up now flags mem len ind c)
  unfolding receive_headers
  receive_headers-Keeps now flags mem len ind c h =
      let reopened = of_Ordered _ (reopen_stream-Ordered up now ind c h) in
      opt-Keeps (header_padding up flags mem) (keeps reopened) (λ padding.
        headers_behind flags mem padding.0 len ind _
          (header_priority up flags mem padding.1 ind (reopen_stream up now ind c))
          (ordered reopened) (header_priority-Behind flags mem padding.1 ind _ (ordered reopened)))
    where
      headers_behind :
          (flags : ℕ) (mem : Bytes) (padding_len len ind : ℕ) (c' : Conn K)
          (o : Option (ℕ × Conn K))
          → Ordered c'
          → Behind o
          → Keeps {H = K} {A = Reply} (elim o [
            | none ↦ (c', undefined)
            | some (offset', c'') ↦ header_block up flags mem offset' padding_len len ind c''
          ])
      headers_behind flags mem padding_len len ind c' none h b = keep c' undefined h
      headers_behind flags mem padding_len len ind c' (some r) h b =
          header_block-Keeps flags mem r.0 padding_len len ind r.1 b

  push_data-Ordered :
      (ind : ℕ) (bytes : Bytes) (c : Conn K) → Ordered c → Ordered (push_data up ind bytes c)
  unfolding push_data
  push_data-Ordered ind bytes c h =
      let k = of_Keeps _ (orderly.pushed ind bytes c h) in
      if-Ordered _ (ordered k) (orderly.responded ind _ (ordered k))

  receive_data-Keeps :
      (flags : ℕ) (mem : Bytes) (len ind : ℕ) (c : Conn K)
      → Ordered c
      → Keeps (receive_data up flags mem len ind c)
  unfolding receive_data
  receive_data-Keeps flags mem len ind c h =
      let k = of_Ordered _ (account_data-Ordered ind len c h) in
      if-Keeps _ (keeps k) (
        opt-Keeps (get_stream_instance (account_data ind len c) ind) (keeps k) (λ s.
          if-Keeps _ (keeps k) (
            opt-Keeps (post_data flags mem len) (keeps k) (λ bytes.
              keep _ _
                (end_stream-Ordered flags ind _ (push_data-Ordered ind bytes _ (ordered k)))))))

  receive_frame-Keeps :
      (now : ℕ) (f : Frame) (mem : Bytes) (len ind : ℕ) (c : Conn K)
      → Ordered c
      → Keeps (receive_frame up now f mem len ind c)
  unfolding receive_frame
  receive_frame-Keeps now f mem len ind c (ordered h) =
      let o = ordered h in
      let is : ℕ → Bool = λ type. f.type == type in
      if-Keeps (is frame_type_goaway)
        {x = (c, if leb 8 (length mem) then end_session else undefined)} (keeps h)
        (if-Keeps (is frame_type_priority) (receive_priority-Keeps mem len ind c o) (
          if-Keeps (is frame_type_headers) (receive_headers-Keeps now f.flags mem len ind c o) (
            if-Keeps (is frame_type_continuation)
              (receive_continuation-Keeps f.flags mem len ind c o)
              (if-Keeps (is frame_type_push_promise)
                {x = (send_goaway ind protocol_error c, end_session)} (keeps h)
                (if-Keeps (is frame_type_settings) (receive_settings-Keeps f.flags mem len ind c o)
                  (if-Keeps (is frame_type_data) (receive_data-Keeps f.flags mem len ind c o) (
                    if-Keeps (is frame_type_window_update)
                      (receive_window_update-Keeps mem len ind c o)
                      (if-Keeps (is frame_type_rst_stream)
                        (receive_rst_stream-Keeps mem len ind c o)
                        (if-Keeps (is frame_type_ping)
                          {x = receive_ping f.flags f.identifier mem len c} {y = (c, done len)}
                          (keeps (
                            subst (Ascends 0)
                              (sym (receive_ping-streams f.flags f.identifier mem len c)) h))
                          (keeps h))))))))))

  check_state-Keeps :
      (now : ℕ) (f : Frame) (mem : Bytes) (len ind : ℕ) (c : Conn K)
      → Ordered c
      → Keeps (check_state up now f mem len ind c)
  unfolding check_state
  check_state-Keeps now f mem len ind c (ordered h) =
      let handled = receive_frame-Keeps now f mem len ind c (ordered h) in
      opt-Keeps (get_stream_instance c ind) handled
        (λ s. opt-Keeps (refused_with s.state f.type) handled (λ error. keeps h))

  enter_stream-Ordered :
      (now ind : ℕ) (c : Conn K) → 0 < ind → Ordered c → Ordered (enter_stream now ind c)
  unfolding enter_stream
  enter_stream-Ordered now ind c pos (ordered h) =
      update_stream-Ordered ind _ _ (ordered (admit_stream_bound now ind c pos h).0)

  -- Whatever the frame, the memory behind its header and the stream that it names, `ProtParse` keeps
  -- the table ordered by stream number, with no number twice and none that is 0, also where it ends
  -- the session, if the calls into CHttp do.
  pub prot_parse_with-Ascends :
      (now : ℕ) (f : Frame) (mem : Bytes) (len ind : ℕ) (c : Conn K)
      → Ascends 0 c.streams
      → Ascends 0 (prot_parse up now f mem len ind c).0.streams
  unfolding prot_parse
  prot_parse_with-Ascends now f mem len ind c h = elim (Bool-cases (ltb 0 ind)) [
    | inl positive ↦ rw positive (
        of_Keeps _ (
          check_state-Keeps now f mem len ind _
            (enter_stream-Ordered now ind c (ground arith) (ordered h))))
    | inr null ↦ rw null (of_Keeps _ (receive_frame-Keeps now f mem len ind c (ordered h)))
  ]
