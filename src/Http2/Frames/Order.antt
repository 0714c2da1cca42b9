-- ===== src/Http2/Frames/Order.antt =====
-- The handlers of the frame types keep the stream table in order.
use heaphttpd.Prelude.{
  ℕ, ◌<◌, ◌≡◌, refl, sym, Bool, true, false, List, [], ◌∷◌, Option, none, some, Bytes, ltb, ◌==◌,
  if◌then◌else◌, arith, map,
}
use mathlib.Core.Path.{subst}
use heaphttpd.Http2.Connection.{
  Stream, Conn, find, erase, get_stream_instance, update_stream, create_stream_instance,
  increase_peer_window_size,
}
use heaphttpd.Http2.Connection.Streams.{Ascends, insert-Ascends, erase-Ascends, modify-Ascends}
use heaphttpd.Http2.Send.{send_window_update, decrease_local_window_size, is_past_sending}
use heaphttpd.Http2.Admit.{is_closed}
use heaphttpd.Http2.Frames.{
  decode_31, Upper, Priority, load_priority, load_word, reprioritise, receive_priority,
}
use heaphttpd.Http2.Frames.HeaderBlocks.{end_stream, reopen_stream}
use heaphttpd.Http2.Frames.Control.{
  apply_setting, receive_settings, receive_window_update, answer_reset, receive_rst_stream,
  receive_ping, load_setting,
}
use heaphttpd.Http2.Frames.Data.{account_data}

-- The table is ordered by stream number, with no number twice and none that is 0.
pub data Ordered {H : Type 0} (c : Conn H) : Type 0 where
  ordered : Ascends 0 c.streams → Ordered c

-- the same behind a handler with a reply
pub data Keeps {H A : Type 0} (r : Conn H × A) : Type 0 where
  keeps : Ascends 0 r.0.streams → Keeps r

module _ {H : Type 0} where
  pub of_Ordered : (c : Conn H) → Ordered c → Ascends 0 c.streams
  of_Ordered c (ordered h) = h

  pub of_Keeps : {A : Type 0} (r : Conn H × A) → Keeps r → Ascends 0 r.0.streams
  of_Keeps r (keeps h) = h

  pub keep : {A : Type 0} (c : Conn H) (reply : A) → Ordered c → Keeps (c, reply)
  keep c reply (ordered h) = keeps h

  pub update_stream-Ordered :
      (ind : ℕ) (f : Stream H → Stream H) (c : Conn H) → Ordered c → Ordered (update_stream ind f c)
  update_stream-Ordered ind f c (ordered h) = ordered (modify-Ascends 0 ind f c.streams h)

  pub map-Ascends :
      (low : ℕ) (f : Stream H → Stream H) (m : List (ℕ × Stream H))
      → Ascends low m
      → Ascends low (map (λ (e : ℕ × Stream H). (e.0, f e.1)) m)
  map-Ascends low f [] h = tt
  map-Ascends low f ((j, s) ∷ m) h = (h.0, map-Ascends j f m h.1)

  -- a test or a lookup keeps the order if its branches do
  pub if-Ordered : (b : Bool) {x y : Conn H} → Ordered x → Ordered y → Ordered (if b then x else y)
  if-Ordered true hx hy = hx
  if-Ordered false hx hy = hy

  pub opt-Ordered :
      {B : Type 0} (o : Option B) {x : Conn H} {f : B → Conn H}
      → Ordered x
      → ((b : B) → Ordered (f b))
      → Ordered (elim o [ none ↦ x | some b ↦ f b ])
  opt-Ordered none hx hf = hx
  opt-Ordered (some b) hx hf = hf b

  pub if-Keeps :
      {A : Type 0} (b : Bool) {x y : Conn H × A} → Keeps x → Keeps y → Keeps (if b then x else y)
  if-Keeps true hx hy = hx
  if-Keeps false hx hy = hy

  pub opt-Keeps :
      {A B : Type 0} (o : Option B) {x : Conn H × A} {f : B → Conn H × A}
      → Keeps x
      → ((b : B) → Keeps (f b))
      → Keeps {H = H} {A = A} (elim o [ none ↦ x | some b ↦ f b ])
  opt-Keeps none hx hf = hx
  opt-Keeps (some b) hx hf = hf b

  pub send_window_update-Ordered :
      (ind n : ℕ) (c : Conn H) → Ordered c → Ordered (send_window_update ind n c)
  unfolding send_window_update
  send_window_update-Ordered ind n c (ordered h) =
      opt-Ordered (get_stream_instance c ind) (ordered h) (λ s.
        if-Ordered (is_past_sending s.state) (ordered h)
          (ordered (modify-Ascends 0 ind _ c.streams h)))

  pub decrease_local_window_size-Ordered :
      (ind n : ℕ) (c : Conn H) → Ordered c → Ordered (decrease_local_window_size ind n c)
  unfolding decrease_local_window_size
  decrease_local_window_size-Ordered ind n c (ordered h) =
      opt-Ordered (get_stream_instance c ind) (ordered h) (λ s.
        let spent = ordered (modify-Ascends 0 ind _ c.streams h) in
        if-Ordered _ (send_window_update-Ordered ind c.initial_local_window_size _ spent) spent)

  pub account_data-Ordered :
      (ind len : ℕ) (c : Conn H) → Ordered c → Ordered (account_data ind len c)
  unfolding account_data
  account_data-Ordered ind len c (ordered h) =
      send_window_update-Ordered ind len _
        (decrease_local_window_size-Ordered ind len _ (ordered h))

  pub reprioritise-Ordered :
      (ind : ℕ) (p : Priority) (c : Conn H) → Ordered c → Ordered (reprioritise ind p c)
  unfolding reprioritise
  reprioritise-Ordered ind p c (ordered h) =
      let moved = modify-Ascends 0 ind _ c.streams h in
      if-Ordered _ (ordered (map-Ascends 0 _ _ moved)) (ordered moved)

  pub receive_priority-Keeps :
      (mem : Bytes) (len ind : ℕ) (c : Conn H) → Ordered c → Keeps (receive_priority mem len ind c)
  unfolding receive_priority
  receive_priority-Keeps mem len ind c (ordered h) = if-Keeps (ind == 0) (keeps h) (
      opt-Keeps (get_stream_instance c ind) (keeps h) (λ s.
        opt-Keeps (load_priority mem 0) (keeps h)
          (λ p. keep _ _ (reprioritise-Ordered ind p c (ordered h)))))

  pub end_stream-Ordered :
      (flags ind : ℕ) (c : Conn H) → Ordered c → Ordered (end_stream flags ind c)
  unfolding end_stream
  end_stream-Ordered flags ind c (ordered h) =
      if-Ordered _ (ordered (modify-Ascends 0 ind _ c.streams h)) (ordered h)

  pub apply_setting-streams :
      (identifier value : ℕ) (c : Conn H) → (apply_setting identifier value c).streams ≡ c.streams
  unfolding apply_setting
  apply_setting-streams identifier value c = ground arith

  pub receive_settings-Keeps :
      (flags : ℕ) (mem : Bytes) (len ind : ℕ) (c : Conn H)
      → Ordered c
      → Keeps (receive_settings flags mem len ind c)
  unfolding receive_settings
  receive_settings-Keeps flags mem len ind c (ordered h) = if-Keeps _ (keeps h) (
      opt-Keeps (load_setting mem) (keeps h) (λ setting.
        keeps (subst (Ascends 0) (sym (apply_setting-streams setting.0 setting.1 c)) h)))

  pub receive_window_update-Keeps :
      (mem : Bytes) (len ind : ℕ) (c : Conn H)
      → Ordered c
      → Keeps (receive_window_update mem len ind c)
  unfolding receive_window_update
  receive_window_update-Keeps mem len ind c (ordered h) =
      opt-Keeps (load_word mem 0) (keeps h) (λ word. keeps (
        ground
          (arith, modify-Ascends 0 ind (increase_peer_window_size (decode_31 word)) c.streams h)))

  pub receive_rst_stream-Keeps :
      (mem : Bytes) (len ind : ℕ) (c : Conn H)
      → Ordered c
      → Keeps (receive_rst_stream mem len ind c)
  unfolding receive_rst_stream answer_reset
  receive_rst_stream-Keeps mem len ind c (ordered h) =
      let gone = erase-Ascends 0 ind c.streams h in
      opt-Keeps (get_stream_instance c ind) (keeps h) (λ s. if-Keeps _ (keeps h) (
        opt-Keeps (load_word mem 0) (keeps gone)
          (λ error_code. keep _ _ (if-Ordered _ (ordered gone) (ordered gone)))))

  pub receive_ping-streams :
      (flags identifier : ℕ) (mem : Bytes) (len : ℕ) (c : Conn H)
      → (receive_ping flags identifier mem len c).0.streams ≡ c.streams
  unfolding receive_ping
  receive_ping-streams flags identifier mem len c = ground arith

  pub when-Ordered :
      (b : Bool) {x y : Conn H} → (b ≡ true → Ordered x) → Ordered y → Ordered (if b then x else y)
  when-Ordered true hx hy = hx refl
  when-Ordered false hx hy = hy

module _ {K : Type 0} (up : Upper K) where
  pub reopen_stream-Ordered :
      (now ind : ℕ) (c : Conn K) → Ordered c → Ordered (reopen_stream up now ind c)
  unfolding reopen_stream
  reopen_stream-Ordered now ind c (ordered h) =
      when-Ordered (ltb 0 ind)
        (λ e.
          let pos : 0 < ind = ground arith in
          opt-Ordered (find ind c.streams) (ordered (insert-Ascends 0 ind _ c.streams pos h)) (λ s.
            if-Ordered (is_closed s.state)
              (ordered (
                insert-Ascends 0 ind (create_stream_instance c now) (erase ind c.streams) pos
                  (erase-Ascends 0 ind c.streams h)))
              (ordered h)))
        (ordered h)
