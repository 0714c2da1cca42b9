-- ===== src/Http2/Loops/Ends.antt =====
-- The loops of src/http2.cpp over a connection's frames end.
use heaphttpd.Prelude.{
  ℕ, zero, suc, ◌+◌, ◌<◌, ◌≡◌, refl, ◌⊎◌, inl, inr, [], ◌∷◌, ◌++◌, Bytes, length, take, drop, ◌==◌,
  arith, length-drop, Bool-cases,
}
use heaphttpd.Http2.Wire.{Frame, frame_size, read_frame, frame_payload_len, frame_stream_ind, htonl}
use heaphttpd.Http2.Connection.{Conn}
use heaphttpd.Http2.Frames.{Reply, done, end_session, undefined, Upper}
use heaphttpd.Http2.Protocol.{prot_parse, prot_recv, receive_frame}
use heaphttpd.Http2.Frames.Control.{receive_settings}
use heaphttpd.Http2.Loops.{Ended, http_close, lost, after_result, processing}

-- an acknowledgment of SETTINGS, as every peer sends it
abbrev pub settings_ack : Bytes
settings_ack = 0 ∷ 0 ∷ 0 ∷ 4 ∷ 1 ∷ 0 ∷ 0 ∷ 0 ∷ 0 ∷ []

module _ {H : Type 0} (up : Upper H) where
  -- A frame that is received takes its header from the input.
  prot_recv-lt :
      (now : ℕ) (input : Bytes) (c : Conn H) (r : ℕ)
      → (prot_recv up now input c).0.1 ≡ done r
      → length ((prot_recv up now input c).1) < length input
  unfolding prot_recv
  prot_recv-lt now input c r e =
      let len : ℕ = frame_payload_len (read_frame (take frame_size input)) in
      ground (arith, length-drop len (drop frame_size input), length-drop frame_size input)

  -- closed, or memory is left
  abbrev IsOver : Ended H → Type 0
  IsOver e = (e ≡ lost) ⊎ ((c : Conn H) × (e ≡ http_close c))

  after_result-IsOver :
      (reply : Reply) (c : Conn H) (more : Ended H)
      → ((r : ℕ) → reply ≡ done r → IsOver more)
      → IsOver (after_result reply c more)
  after_result-IsOver (done r) c more h = elim (Bool-cases (r == 0)) [
    | inl z ↦ rw z (inr (c, refl))
    | inr p ↦ rw p (h r refl)
  ]
  after_result-IsOver end_session c more h = inr (c, refl)
  after_result-IsOver undefined c more h = inl refl

  module _ (clock : ℕ → ℕ) where
    -- `Processing` ends with the connection closed, or has left memory, after fewer turns than the
    -- input has bytes and one, however the frames are answered.
    pub processing_ends :
        (turns k : ℕ) (input : Bytes) (c : Conn H)
        → length input < turns
        → (processing up clock turns k input c ≡ lost)
          ⊎ ((c' : Conn H) × (processing up clock turns k input c ≡ http_close c'))
    unfolding processing
    processing_ends zero k input c h = absurd (omega arith)
    processing_ends (suc turns) k input c h =
        let got : (Conn H × Reply) × Bytes = prot_recv up (clock k) input c in
        after_result-IsOver got.0.1 got.0.0 _ (λ r e.
          processing_ends turns (k + 1) got.1 got.0.0
            (omega (arith, prot_recv-lt (clock k) input c r e)))

  receive_ack :
      (now : ℕ) (f : Frame) (c : Conn H)
      → f.type ≡ 4
      → f.flags ≡ 1
      → prot_parse up now f [] 0 0 c ≡ (c, done 0)
  unfolding prot_parse receive_frame receive_settings
  receive_ack now f c t g = rw (t, g) refl

  prot_recv-ack :
      (now : ℕ) (rest : Bytes) (c : Conn H)
      → prot_recv up now (settings_ack ++ rest) c ≡ ((c, done 0), rest)
  unfolding prot_recv read_frame frame_payload_len frame_stream_ind htonl
  prot_recv-ack now rest c = ground (arith, receive_ack now (read_frame settings_ack) c refl refl)

  -- The acknowledgment of SETTINGS that every peer sends has no payload, and so `Processing` takes it
  -- for the end: it closes the connection and leaves whatever comes behind it.
  pub processing-settings_ack :
      (clock : ℕ → ℕ) (turns k : ℕ) (rest : Bytes) (c : Conn H)
      → processing up clock (suc turns) k (settings_ack ++ rest) c ≡ http_close c
  unfolding processing
  processing-settings_ack clock turns k rest c = rw (prot_recv-ack (clock k) rest c) refl
