-- ===== src/Http2/Loops/Steps.antt =====
-- The steps of `AsyncProcessing` (src/http2.cpp) against those over whole frames.
use heaphttpd.Prelude.{
  ℕ, zero, suc, ◌+◌, ◌<◌, ◌≤◌, ◌≡◌, refl, sym, Bool, true, false, List, [], ◌∷◌, ◌++◌, some, Bytes,
  length, take, drop, ltb, leb, if◌then◌else◌, arith, length-drop, length-take_le, take-drop,
  Bool-cases, inl, inr,
}
use heaphttpd.Http2.Wire.{Frame, frame_size, read_frame, frame_payload_len, frame_stream_ind}
use heaphttpd.Http2.Connection.{Conn}
use heaphttpd.Http2.Frames.{Reply, done, end_session, undefined, Upper}
use heaphttpd.Http2.Protocol.{prot_parse}
use heaphttpd.Http2.Loops.{
  Async, Returned, returned, Arrived, Taken, parsed, http2_header, http2_payload, take_header,
  header_taken, take_payload, after_nested, after_taken, first_arrival, async_processing,
}
use mathlib.Core.Path.{subst}
use mathlib.Core.List.{append-nil}

-- What has become of a connection, and the bytes that are no whole frame.
pub data Run (H : Type 0) : Type 0 where
  ran : Conn H → Bytes → Run H
  run_lost : Run H

abbrev pub after_reply : {H : Type 0} → Reply → Run H → Run H
after_reply (done r) more = more
after_reply end_session more = more
after_reply undefined more = run_lost

-- The same connection, and the same bytes left, in the header or behind it; or memory left by both.
pub data Agrees {H : Type 0} : Returned H → Run H → Type 0 where
  both_lost : Agrees Returned.lost run_lost
  same :
      (a : Async H) (close : Bool)
      → a.recv_buf ≡ []
      → Agrees (returned a close) (ran a.conn (a.frame_hdr ++ a.payload))

module _ {H : Type 0} where
  -- a state between two frames, with the header and the input that a call makes of it
  abbrev between : Bytes → Conn H → Async H
  between payload c = record {
    state = http2_header;
    recv_buf = [];
    payload = payload;
    frame_hdr = [];
    conn = c;
  }

  abbrev with_header : Bytes → Conn H → Async H
  with_header input c = record {
    state = http2_payload;
    recv_buf = [];
    payload = drop frame_size input;
    frame_hdr = take frame_size input;
    conn = c;
  }

  -- the state between two frames, with bytes that were received before and not looked at
  abbrev pub waiting : Bytes → Bytes → Conn H → Async H
  waiting payload recv_buf c = record {
    state = http2_header;
    recv_buf = recv_buf;
    payload = payload;
    frame_hdr = [];
    conn = c;
  }

module _ {H : Type 0} (up : Upper H) (clock : ℕ → ℕ) where
  -- The frames of the input, parsed one after the other, while there is a whole one.
  unfoldable pub run_frames : ℕ → ℕ → Bytes → Conn H → Run H
  run_frames zero k input c = ran c input
  run_frames (suc turns) k input c =
      let f = read_frame (take frame_size input) in
      let len = frame_payload_len f in
      let mem = drop frame_size input in
      let got = prot_parse up (clock k) f mem len (frame_stream_ind f) c in
      let more = run_frames turns (k + 1) (drop len mem) got.0 in
      if ltb (length input) frame_size
      then ran c input
      else if ltb (length mem) len
      then ran c input
      else after_reply got.1 more

  take_header-whole :
      (input : Bytes) (c : Conn H)
      → frame_size ≤ length input
      → take_header (between input c) ≡ some (with_header input c)
  unfolding take_header
  take_header-whole input c h =
      let copy : (if ltb 9 (length input) then 9 else length input) ≡ 9 = ground arith in
      rw (copy, length-take_le 9 input h) refl

  -- The connection whose turn it is, and the closing of the connection, do not matter to the state.
  Agrees-nested :
      (close : Bool) (x : Returned H) (r : Run H) → Agrees x r → Agrees (after_nested close x) r
  Agrees-nested close x r both_lost = both_lost
  Agrees-nested close x r (same a unused e) = same a close e

  -- Less than a header is left.
  run_frames-few :
      (turns k : ℕ) (input : Bytes) (c : Conn H)
      → length input < frame_size
      → run_frames turns k input c ≡ ran c input
  unfolding run_frames
  run_frames-few zero k input c h = refl
  run_frames-few (suc turns) k input c h = ground arith

  module _ (turns k : ℕ) (broken : Bool) (nested : Async H → Returned H)
      (ih : (p : Bytes) (c : Conn H)
        → frame_size ≤ length p
        → length p < turns
        → Agrees (nested (between p c)) (run_frames turns (k + 1) p c)) where
    parsed-Agrees :
        (b : Async H) (refused : Bool) (p : Bytes) (c : Conn H)
        → length p < turns
        → Agrees
            (after_taken broken b nested (parsed (between p c) refused))
            (run_frames turns (k + 1) p c)
    parsed-Agrees b refused p c h = elim (Bool-cases (leb frame_size (length p))) [
      | inl more ↦ rw more (Agrees-nested _ _ _ (ih p c (ground arith) h))
      | inr few ↦ rw few (
          subst (Agrees (returned (between p c) (if refused then true else broken)))
            (sym (run_frames-few turns (k + 1) p c (ground arith))) (same (between p c) _ refl))
    ]

    replied-Agrees :
        (b : Async H) (reply : Reply) (p : Bytes) (c : Conn H)
        → length p < turns
        → Agrees
            (after_taken broken b nested (elim reply [
              | done r ↦ parsed (between p c) false
              | end_session ↦ parsed (between p c) true
              | undefined ↦ Taken.lost
            ]))
            (after_reply reply (run_frames turns (k + 1) p c))
    replied-Agrees b (done r) p c h = parsed-Agrees b false p c h
    replied-Agrees b end_session p c h = parsed-Agrees b true p c h
    replied-Agrees b undefined p c h = both_lost

    whole-Agrees :
        (input : Bytes) (c : Conn H)
        → frame_size ≤ length input
        → length input < suc turns
        → Agrees
            (after_taken broken
              (with_header input c)
              nested
              (take_payload up (clock k) (with_header input c)))
            (run_frames (suc turns) k input c)
    unfolding take_payload run_frames
    whole-Agrees input c h l =
        let f : Frame = read_frame (take frame_size input) in
        let len : ℕ = frame_payload_len f in
        let mem : Bytes = drop frame_size input in
        let got : Conn H × Reply = prot_parse up (clock k) f mem len (frame_stream_ind f) c in
        let enough : ltb (length input) frame_size ≡ false = ground arith in
        elim (Bool-cases (leb len (length mem))) [
          | inl whole ↦
              let there : ltb (length mem) len ≡ false = ground arith in
              rw (enough, whole, there)
                (replied-Agrees (with_header input c) got.1 (drop len mem) got.0
                  (omega (arith, length-drop len mem, length-drop frame_size input)))
          | inr part ↦
              let missing : ltb (length mem) len ≡ true = ground arith in
              rw (enough, part, missing)
                (subst (λ m. Agrees (returned (with_header input c) broken) (ran c m))
                  (take-drop frame_size input) (same (with_header input c) broken refl))
        ]

  async_step :
      (turns k : ℕ) (arrivals : List Arrived) (payload recv_buf : Bytes) (c : Conn H)
      → frame_size ≤ length (payload ++ (recv_buf ++ (first_arrival arrivals).bytes))
      → async_processing up clock (suc turns) k arrivals (waiting payload recv_buf c) ≡ (
          let input = payload ++ (recv_buf ++ (first_arrival arrivals).bytes) in
          after_taken
            ((first_arrival arrivals).broken)
            (with_header input c)
            (async_processing up clock turns (k + 1) (drop 1 arrivals))
            (take_payload up (clock k) (with_header input c)))
  unfolding async_processing header_taken
  async_step turns k arrivals payload recv_buf c h =
      rw
        (
          take_header-whole (payload ++ (recv_buf ++ (first_arrival arrivals).bytes)) c h,
          header_taken,
          async_processing,
        )
        refl

  step-Agrees :
      (turns k : ℕ) (arrivals : List Arrived) (payload recv_buf : Bytes) (c : Conn H)
      → ((p : Bytes) (c' : Conn H)
          → frame_size ≤ length p
          → length p < turns
          → Agrees
              (async_processing up clock turns (k + 1) (drop 1 arrivals) (between p c'))
              (run_frames turns (k + 1) p c'))
      → frame_size ≤ length (payload ++ (recv_buf ++ (first_arrival arrivals).bytes))
      → length (payload ++ (recv_buf ++ (first_arrival arrivals).bytes)) < suc turns
      → Agrees
          (async_processing up clock (suc turns) k arrivals (waiting payload recv_buf c))
          (run_frames (suc turns) k (payload ++ (recv_buf ++ (first_arrival arrivals).bytes)) c)
  step-Agrees turns k arrivals payload recv_buf c ih h l =
      let input : Bytes = payload ++ (recv_buf ++ (first_arrival arrivals).bytes) in
      subst (λ x. Agrees x (run_frames (suc turns) k input c))
        (sym (async_step turns k arrivals payload recv_buf c h))
        (whole-Agrees turns k ((first_arrival arrivals).broken)
          (async_processing up clock turns (k + 1) (drop 1 arrivals)) ih input c h l)

  -- the calls that a call makes, where nothing more arrives
  nested-Agrees :
      (turns k : ℕ) (p : Bytes) (c : Conn H)
      → frame_size ≤ length p
      → length p < turns
      → Agrees (async_processing up clock turns k [] (between p c)) (run_frames turns k p c)
  nested-Agrees zero k p c h l = absurd (omega arith)
  nested-Agrees (suc turns) k p c h l =
      let same_input : p ++ ([] ++ []) ≡ p = append-nil p in
      subst
        (λ i.
          Agrees (async_processing up clock (suc turns) k [] (between p c))
            (run_frames (suc turns) k i c))
        same_input
        (step-Agrees turns k [] p [] c (nested-Agrees turns (k + 1)) (rw same_input h)
          (rw same_input l))

  -- a call, whatever the frames are
  pub call-Agrees :
      (turns k : ℕ) (r : Arrived) (payload recv_buf : Bytes) (c : Conn H)
      → frame_size ≤ length (payload ++ (recv_buf ++ r.bytes))
      → length (payload ++ (recv_buf ++ r.bytes)) < turns
      → Agrees
          (async_processing up clock turns k (r ∷ []) (waiting payload recv_buf c))
          (run_frames turns k (payload ++ (recv_buf ++ r.bytes)) c)
  call-Agrees zero k r payload recv_buf c h l = absurd (omega arith)
  call-Agrees (suc turns) k r payload recv_buf c h l =
      step-Agrees turns k (r ∷ []) payload recv_buf c (nested-Agrees turns (k + 1)) h l
