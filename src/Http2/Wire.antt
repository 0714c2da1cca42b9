-- ===== src/Http2/Wire.antt =====
-- The 9 bytes in front of every frame: `HTTP2_Frame` of src/http2comm.h as it lies in memory on a
-- little-endian machine (x86-64, bit fields from the lowest bit on), and src/http2comm.cpp.
pub mod Layout
use heaphttpd.Prelude.{ℕ, zero, suc, ◌+◌, ◌*◌, ◌/◌, ◌%◌, ◌^◌, List, [], ◌∷◌, Bytes, get_or}

-- `htonl` and `ntohl`: the four bytes of a 32-bit word in the other order.
unfoldable pub htonl : ℕ → ℕ
htonl x =
    x % 2 ^ 8 * 2 ^ 24
    + x / 2 ^ 8 % 2 ^ 8 * 2 ^ 16
    + x / 2 ^ 16 % 2 ^ 8 * 2 ^ 8
    + x / 2 ^ 24 % 2 ^ 8

-- The fields of the packed struct: `len24` of 24 bits, `r` of 1 bit and `identifier` of 31 bits.
pub record Frame : Type 0 where
  pub len24 : ℕ
  pub type : ℕ
  pub flags : ℕ
  pub r : ℕ
  pub identifier : ℕ

-- A 32-bit word that starts with a bit field `r : 1`; the other field has the 31 upper bits.
abbrev pub bits_1_31 : ℕ → ℕ → ℕ
bits_1_31 r field = r % 2 + 2 * (field % 2 ^ 31)

-- The four bytes of a word in memory, lowest first.
abbrev pub word_bytes : ℕ → Bytes
word_bytes w = w % 2 ^ 8 ∷ w / 2 ^ 8 % 2 ^ 8 ∷ w / 2 ^ 16 % 2 ^ 8 ∷ w / 2 ^ 24 % 2 ^ 8 ∷ []

abbrev pub word_at : Bytes → ℕ → ℕ
word_at bs i =
    get_or bs i 0
    + get_or bs (suc i) 0 * 2 ^ 8
    + get_or bs (suc (suc i)) 0 * 2 ^ 16
    + get_or bs (suc (suc (suc i))) 0 * 2 ^ 24

-- `sizeof(HTTP2_Frame)`
abbrev pub frame_size : ℕ
frame_size = 9

-- What a send of the struct puts on the wire.
unfoldable pub frame_bytes : Frame → Bytes
frame_bytes f =
    f.len24 % 2 ^ 8
    ∷ f.len24 / 2 ^ 8 % 2 ^ 8
    ∷ f.len24 / 2 ^ 16 % 2 ^ 8
    ∷ f.type % 2 ^ 8
    ∷ f.flags % 2 ^ 8
    ∷ word_bytes (bits_1_31 f.r f.identifier)

-- What a receive into the struct makes of nine bytes.
unfoldable pub read_frame : Bytes → Frame
read_frame bs = record {
  len24 = get_or bs 0 0 + get_or bs 1 0 * 2 ^ 8 + get_or bs 2 0 * 2 ^ 16;
  type = get_or bs 3 0;
  flags = get_or bs 4 0;
  r = word_at bs 5 % 2;
  identifier = word_at bs 5 / 2;
}

unfoldable pub http2_set_length : Frame → ℕ → Frame
unfolding htonl
http2_set_length f len = record f { len24 = htonl len / 2 ^ 8 % 2 ^ 24 }

unfoldable pub http2_set_identifier : Frame → ℕ → Frame
unfolding htonl
http2_set_identifier f identifier = record f { identifier = htonl identifier / 2 % 2 ^ 31 }

unfoldable pub http2_get_length : Frame → ℕ
unfolding htonl
http2_get_length f = htonl (f.len24 * 2 ^ 8 % 2 ^ 32)

unfoldable pub http2_get_identifier : Frame → ℕ
unfolding htonl
http2_get_identifier f = htonl (f.identifier * 2 % 2 ^ 32)

-- `CHttp2::ProtRecv`: the payload length and the stream of a received header.
unfoldable pub frame_payload_len : Frame → ℕ
unfolding htonl
frame_payload_len f = htonl (f.len24 * 2 ^ 8 % 2 ^ 32) % 2 ^ 24

unfoldable pub frame_stream_ind : Frame → ℕ
unfolding htonl
frame_stream_ind f = htonl (f.identifier * 2 % 2 ^ 32) % 2 ^ 31
