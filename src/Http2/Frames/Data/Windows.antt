-- ===== src/Http2/Frames/Data/Windows.antt =====
-- Flow control and the payload on a DATA frame.
use heaphttpd.Prelude.{
  ℕ, ◌+◌, ◌-◌, ◌^◌, ◌<◌, ◌≡◌, refl, ap, true, false, List, [], ◌∷◌, ◌++◌, some, Bytes, length, take,
  arith, take-length_append, length-append,
}
use heaphttpd.Prelude.Words.{sub32, nonpositive, add32-sub32, sub32-eq_sub}
use native.Mathlib.Nat.{suc-add}
use heaphttpd.Http2.Connection.{
  open_state, Stream, Conn, find, modify, update_stream, increase_local_window_size,
}
use heaphttpd.Http2.Connection.Streams.{find-modify, get-find}
use heaphttpd.Http2.Send.{
  http_send, window_update_bytes, send_window_update, decrease_local_window_size, is_past_sending,
}
use heaphttpd.Http2.Frames.{has_flag, flag_padded}
use heaphttpd.Http2.Frames.Data.{account_data, post_data}

-- `nonpositive` of a window above the payload
positive_left : (w len : ℕ) → w < 2 ^ 31 → len < w → nonpositive (sub32 w len) ≡ false
unfolding nonpositive
positive_left w len h l = ground (arith, sub32-eq_sub w len)

module _ {H : Type 0} where
  -- one stream's window set to `left`
  abbrev with_window : ℕ → ℕ → Conn H → Conn H
  with_window ind left = update_stream ind (λ t. record t { local_window_size = left })

  decrease_positive :
      (ind n : ℕ) (c : Conn H) {s : Stream H}
      → 0 < ind
      → find ind c.streams ≡ some s
      → nonpositive (sub32 s.local_window_size n) ≡ false
      → decrease_local_window_size ind n c ≡ with_window ind (sub32 s.local_window_size n) c
  unfolding decrease_local_window_size
  decrease_positive ind n c h e p = rw (get-find c ind h, decrease_local_window_size) (rw e (rw p))

  update_open :
      (ind n : ℕ) (c : Conn H) {s : Stream H}
      → 0 < ind
      → find ind c.streams ≡ some s
      → is_past_sending s.state ≡ false
      → send_window_update ind n c
        ≡ update_stream ind (increase_local_window_size n) (http_send (window_update_bytes ind n) c)
  unfolding send_window_update
  update_open ind n c h e p = rw (get-find c ind h, send_window_update) (rw e (rw p))

  abbrev spend : ℕ → Conn H → Conn H
  spend len c = record c { local_control_window_size = sub32 c.local_control_window_size len }

  with_window-find :
      (ind left : ℕ) (c : Conn H) {s : Stream H}
      → find ind c.streams ≡ some s
      → find ind (with_window ind left c).streams ≡ some (record s { local_window_size = left })
  with_window-find ind left c e = ground (
    arith,
    find-modify ind ind (λ (t : Stream H). record t { local_window_size = left }) c.streams,
  )

  account_open :
      (ind len : ℕ) (c : Conn H) {s : Stream H}
      → 0 < ind
      → find ind c.streams ≡ some s
      → is_past_sending s.state ≡ false
      → nonpositive (sub32 s.local_window_size len) ≡ false
      → account_data ind len c
        ≡ update_stream ind (increase_local_window_size len) (
            http_send
              (window_update_bytes ind len)
              (with_window ind (sub32 s.local_window_size len) (spend len c)))
  unfolding account_data
  account_open ind len c {s} h e o p =
      let left = sub32 s.local_window_size len in
      rw (decrease_positive ind len (spend len c) h e p) (
        update_open ind len (with_window ind left (spend len c)) h
          (with_window-find ind left (spend len c) e) o)

  restored :
      (ind j len : ℕ) (m : List (ℕ × Stream H)) {s : Stream H}
      → find ind m ≡ some s
      → len < 2 ^ 32
      → s.local_window_size < 2 ^ 32
      → find j (
          modify ind
            (increase_local_window_size len)
            (modify ind (λ t. record t { local_window_size = sub32 s.local_window_size len }) m))
        ≡ find j m
  unfolding increase_local_window_size
  restored ind j len m {s} e hl hw = ground (
    arith,
    find-modify ind j (increase_local_window_size {H = H} len) (
        modify ind
          (λ (t : Stream H). record t { local_window_size = sub32 s.local_window_size len }) m),
    find-modify ind j
        (λ (t : Stream H). record t { local_window_size = sub32 s.local_window_size len }) m,
    add32-sub32 s.local_window_size len hw hl,
  )

  -- DATA on an open stream whose window is above the payload: one WINDOW_UPDATE for the payload is
  -- sent, on the stream, so that each stream has the window that it had. The connection's window
  -- goes down by the payload and is not given back.
  pub account_data_windows :
      (ind len : ℕ) (c : Conn H) {s : Stream H}
      → 0 < ind
      → find ind c.streams ≡ some s
      → s.state ≡ open_state
      → s.local_window_size < 2 ^ 31
      → len < s.local_window_size
      → let c' = account_data ind len c in
        (c'.sent ≡ window_update_bytes ind len ∷ c.sent)
        × (c'.local_control_window_size ≡ sub32 c.local_control_window_size len)
        × ((j : ℕ) → find j c'.streams ≡ find j c.streams)
  account_data_windows ind len c {s} h e open_s w l =
      let past : is_past_sending s.state ≡ false = rw open_s (unfold is_past_sending in refl) in
      let left = positive_left s.local_window_size len w l in
      rw (account_open ind len c h e past left)
        (refl, refl, λ j. restored ind j len c.streams e (omega arith) (omega arith))

take-suc_length :
    (body : Bytes) (p : ℕ) (more : Bytes)
    → take (length body + 1) (body ++ p ∷ more) ≡ body ++ p ∷ []
take-suc_length [] p more = refl
take-suc_length (b ∷ body) p more =
    rw (suc-add (length body) 1) (ap (◌∷◌ b) (take-suc_length body p more))

-- Without the flag for padding CHttp gets the payload. With it, where the frame holds the pad
-- length, the data and `pad` bytes of padding, CHttp gets the data and one byte more: the first byte
-- of the padding, or, if the pad length is 0, the byte behind the frame.
pub post_data_lem :
    (plain padded pad p : ℕ) (body tail : Bytes)
    → has_flag plain flag_padded ≡ false
    → has_flag padded flag_padded ≡ true
    → (post_data plain (body ++ tail) (length body) ≡ some body)
      × (post_data padded (pad ∷ (body ++ p ∷ tail)) (1 + length body + pad)
          ≡ some (body ++ p ∷ []))
unfolding post_data
post_data_lem plain padded pad p body tail hp hd =
    let e : 1 + length body + pad - pad ≡ length body + 1 = omega arith in
    (
      rw hp (ground (arith, length-append body tail, take-length_append body tail)),
      rw (hd, e) (ground (arith, length-append body (p ∷ tail), take-suc_length body p tail)),
    )
