-- ===== src/Http2/Send/Layout.antt =====
-- What the control frames are on the wire, field by field as RFC 7540 lists them.
use heaphttpd.Prelude.{ℕ, ◌^◌, ◌<◌, ◌≡◌, ◌∷◌, ◌++◌, Bytes, arith, ap}
use mathlib.Core.Path.{ap₂}
use heaphttpd.Http2.Wire.{htonl, frame_bytes, word_bytes, bits_1_31}
use heaphttpd.Http2.Wire.Layout.{be24, be32, without_bit_24}
use heaphttpd.Http2.Send.{
  field_31, control_header, setting_ack_bytes, rst_stream_bytes, window_update_bytes,
  initial_window_size_bytes, goaway_bytes, ping_ack_bytes,
}

pub word_bytes-htonl : (n : ℕ) → n < 2 ^ 32 → word_bytes (htonl n) ≡ be32 n
unfolding htonl
word_bytes-htonl n h = ground arith

word_bytes-field_31 :
    (n : ℕ) → n < 2 ^ 31 → word_bytes (bits_1_31 0 (field_31 n)) ≡ be32 (without_bit_24 n)
unfolding htonl
word_bytes-field_31 n h = ground arith

control_layout :
    (len type flags ind : ℕ)
    → len < 256
    → type < 256
    → flags < 256
    → ind < 2 ^ 31
    → frame_bytes (control_header len type flags (field_31 ind))
      ≡ be24 len ++ type ∷ flags ∷ be32 (without_bit_24 ind)
unfolding frame_bytes htonl
control_layout len type flags ind hl ht hf hi = ground arith

pub plain_layout :
    (len type flags : ℕ)
    → len < 256
    → type < 256
    → flags < 256
    → frame_bytes (control_header len type flags 0) ≡ be24 len ++ type ∷ flags ∷ be32 0
unfolding frame_bytes
plain_layout len type flags hl ht hf = ground arith

pub initial_window_size_layout :
    (size : ℕ)
    → size < 2 ^ 32
    → initial_window_size_bytes size ≡ be24 6 ++ 4 ∷ 0 ∷ be32 0 ++ 0 ∷ 4 ∷ be32 size
unfolding initial_window_size_bytes
initial_window_size_layout size hs =
    ap₂ ◌++◌ (plain_layout 6 4 0 (omega arith) (omega arith) (omega arith))
      (ap (λ v. 0 ∷ 4 ∷ v) (word_bytes-htonl size hs))

-- The control frames that the server builds are laid out as RFC 7540 says, but a stream number and
-- a window increment go out without their bit 24: the SETTINGS acknowledgement, RST_STREAM,
-- WINDOW_UPDATE, the initial window size (whose value keeps all 32 bits) and GOAWAY (whose error
-- keeps all 32 bits, and whose frame is on stream 0).
pub control_frames_layout :
    (ind increment size error : ℕ)
    → ind < 2 ^ 31
    → increment < 2 ^ 31
    → size < 2 ^ 32
    → error < 2 ^ 32
    → (setting_ack_bytes ind ≡ be24 0 ++ 4 ∷ 1 ∷ be32 (without_bit_24 ind))
      × (rst_stream_bytes ind ≡ be24 4 ++ 3 ∷ 0 ∷ be32 (without_bit_24 ind) ++ be32 0)
      × (window_update_bytes ind increment
          ≡ be24 4 ++ 8 ∷ 0 ∷ be32 (without_bit_24 ind) ++ be32 (without_bit_24 increment))
      × (initial_window_size_bytes size ≡ be24 6 ++ 4 ∷ 0 ∷ be32 0 ++ 0 ∷ 4 ∷ be32 size)
      × (goaway_bytes ind error
          ≡ be24 8 ++ 7 ∷ 0 ∷ be32 0 ++ be32 (without_bit_24 ind) ++ be32 error)
unfolding setting_ack_bytes rst_stream_bytes window_update_bytes goaway_bytes
control_frames_layout ind increment size error hi hn hs he = (
  control_layout 0 4 1 ind (omega arith) (omega arith) (omega arith) hi,
  ap (λ h. h ++ be32 0) (control_layout 4 3 0 ind (omega arith) (omega arith) (omega arith) hi),
  ap₂ ◌++◌ (control_layout 4 8 0 ind (omega arith) (omega arith) (omega arith) hi)
      (word_bytes-field_31 increment hn),
  initial_window_size_layout size hs,
  ap₂ ◌++◌
      (ap₂ ◌++◌ (plain_layout 8 7 0 (omega arith) (omega arith) (omega arith))
        (word_bytes-field_31 ind hi))
      (word_bytes-htonl error he),
)

-- The answer to a PING has the acknowledgement flag and carries the bytes of the PING.
pub ping_ack_layout :
    (ind : ℕ) (opaque : Bytes)
    → ind < 2 ^ 31
    → ping_ack_bytes (field_31 ind) opaque ≡ be24 8 ++ 6 ∷ 1 ∷ be32 (without_bit_24 ind) ++ opaque
unfolding ping_ack_bytes
ping_ack_layout ind opaque hi =
    ap (λ h. h ++ opaque) (control_layout 8 6 1 ind (omega arith) (omega arith) (omega arith) hi)
