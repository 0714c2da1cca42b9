-- ===== src/Http2/Loops/Pieces.antt =====
-- `AsyncProcessing` (src/http2.cpp) over the pieces in which the client's preface arrives.
use heaphttpd.Prelude.{
  ℕ, ◌+◌, ◌^◌, ◌<◌, ◌≡◌, refl, sym, ap, ◌∙◌, true, false, List, [], ◌∷◌, ◌++◌, Bytes, length, leb,
  arith, length-append,
}
use mathlib.Core.List.{append_assoc}
use mathlib.Core.Path.{ap₂}
use heaphttpd.Text.{c_str, same_string}
use heaphttpd.Http2.Wire.Layout.{be24, be32}
use heaphttpd.Http2.Connection.{Conn}
use heaphttpd.Http2.Send.{http_send, send_initial_window_size}
use heaphttpd.Http2.Send.Layout.{plain_layout, word_bytes-htonl, initial_window_size_layout}
use heaphttpd.Http2.Frames.{Upper}
use heaphttpd.Http2.Loops.{
  Async, Returned, returned, http2_header, http2_prefix, client_preface, preface_len,
  server_preface, async_processing, check_preface,
}

-- the SETTINGS frame with one setting on stream 0, as RFC 7540, 6.5, lays it out
abbrev pub one_setting : ℕ → ℕ → Bytes
one_setting identifier value = be24 6 ++ 4 ∷ 0 ∷ be32 0 ++ 0 ∷ identifier ∷ be32 value

server_preface_layout : (n : ℕ) → n < 2 ^ 32 → server_preface n ≡ one_setting 3 n
unfolding server_preface
server_preface_layout n h =
    ap₂ ◌++◌ (plain_layout 6 4 0 (omega arith) (omega arith) (omega arith))
      (ap (λ v. 0 ∷ 3 ∷ v) (word_bytes-htonl n h))

-- all that has come
unfoldable pub all_of : List Bytes → Bytes
all_of [] = []
all_of (p ∷ ps) = p ++ all_of ps

module _ {H : Type 0} where
  -- a connection on which nothing has been answered
  abbrev pub fresh : Bytes → Conn H → Async H
  fresh recv_buf c = record {
    state = http2_prefix;
    recv_buf = recv_buf;
    payload = [];
    frame_hdr = [];
    conn = c;
  }

  -- a connection that was greeted, with MAX_CONCURRENT_STREAMS (3) and INITIAL_WINDOW_SIZE (4)
  abbrev pub greeted : Bytes → Conn H → Async H
  greeted rest c = record {
    state = http2_header;
    recv_buf = rest;
    payload = [];
    frame_hdr = [];
    conn = record c {
      sent =
          one_setting 4 c.initial_local_window_size
          ∷ one_setting 3 c.max_concurrent_streams
          ∷ c.sent;
    };
  }

-- The call with the next piece, if the one before did not close the connection.
abbrev go_on : {H : Type 0} → (Async H → Returned H) → Returned H → Returned H
go_on next (returned a true) = returned a true
go_on next (returned a false) = next a
go_on next Returned.lost = Returned.lost
go_on next Returned.out_of_turns = Returned.out_of_turns

module _ {H : Type 0} (up : Upper H) (clock : ℕ → ℕ) where
  -- One call for each piece that arrives.
  unfoldable pub async_calls : ℕ → List Bytes → Async H → Returned H
  async_calls k [] a = returned a false
  async_calls k (p ∷ ps) a =
      go_on (async_calls (k + 1) ps)
        (async_processing up clock 1 k (record { bytes = p; broken = false } ∷ []) a)

  -- A call with less than the preface keeps what has come.
  call_waits :
      (k : ℕ) (recv_buf p : Bytes) (c : Conn H)
      → length recv_buf + length p < preface_len
      → async_processing up clock 1 k (record { bytes = p; broken = false } ∷ []) (fresh recv_buf c)
        ≡ returned (fresh (recv_buf ++ p) c) false
  unfolding async_processing check_preface
  call_waits k recv_buf p c h =
      let few : leb preface_len (length (recv_buf ++ p)) ≡ false =
        ground (arith, length-append recv_buf p) in
      rw few refl

  greeting :
      (rest : Bytes) (c : Conn H)
      → c.initial_local_window_size < 2 ^ 32
      → c.max_concurrent_streams < 2 ^ 32
      → record (fresh rest c) {
        state = http2_header;
        conn =
            send_initial_window_size c.initial_local_window_size
              (http_send (server_preface c.max_concurrent_streams) c);
      }
        ≡ greeted rest c
  unfolding send_initial_window_size
  greeting rest c hw hm =
      rw
        (
          initial_window_size_layout c.initial_local_window_size hw,
          server_preface_layout c.max_concurrent_streams hm,
        )
        refl

  -- The call in which the preface is whole answers it.
  call_greets :
      (k : ℕ) (recv_buf p rest : Bytes) (c : Conn H)
      → recv_buf ++ p ≡ client_preface ++ rest
      → c.initial_local_window_size < 2 ^ 32
      → c.max_concurrent_streams < 2 ^ 32
      → async_processing up clock 1 k (record { bytes = p; broken = false } ∷ []) (fresh recv_buf c)
        ≡ returned (greeted rest c) false
  unfolding async_processing check_preface same_string c_str
  call_greets k recv_buf p rest c e hw hm =
      let enough : leb preface_len (length (client_preface ++ rest)) ≡ true =
        ground (arith, length-append client_preface rest) in
      rw e (rw enough (ap (λ a. returned a false) (greeting rest c hw hm)))

  -- The client's preface comes in any pieces, one for a call: the calls before the one in which it is
  -- whole answer nothing, and that one answers with the setting MAX_CONCURRENT_STREAMS and then with
  -- INITIAL_WINDOW_SIZE, as RFC 7540 lays them out. What has come behind the preface stays as it is,
  -- whole frames too, until something arrives and `AsyncProcessing` is called again.
  pub async_processing_preface :
      (k : ℕ) (recv_buf : Bytes) (ps : List Bytes) (last rest : Bytes) (c : Conn H)
      → length recv_buf + length (all_of ps) < preface_len
      → recv_buf ++ (all_of ps ++ last) ≡ client_preface ++ rest
      → c.initial_local_window_size < 2 ^ 32
      → c.max_concurrent_streams < 2 ^ 32
      → async_calls k (ps ++ last ∷ []) (fresh recv_buf c) ≡ returned (greeted rest c) false
  unfolding async_calls all_of
  async_processing_preface k recv_buf [] last rest c h e hw hm =
      rw (call_greets k recv_buf last rest c e hw hm) refl
  async_processing_preface k recv_buf (p ∷ ps) last rest c h e hw hm =
      let few : length recv_buf + length p < preface_len =
        omega (arith, length-append p (all_of ps)) in
      let e' : (recv_buf ++ p) ++ (all_of ps ++ last) ≡ client_preface ++ rest =
        append_assoc recv_buf p (all_of ps ++ last)
        ∙ ap (λ b. recv_buf ++ b) (sym (append_assoc p (all_of ps) last))
        ∙ e in
      rw (call_waits k recv_buf p c few) (
        async_processing_preface (k + 1) (recv_buf ++ p) ps last rest c
          (omega (arith, length-append p (all_of ps), length-append recv_buf p)) e' hw hm)
