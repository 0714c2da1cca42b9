-- ===== src/Http2/Wire/Layout.antt =====
-- The header in memory against the layout of RFC 7540: lengths and stream numbers, highest byte
-- first, the reserved bit on top of the stream number.
use heaphttpd.Prelude.{
  ℕ, ◌+◌, ◌-◌, ◌*◌, ◌/◌, ◌%◌, ◌^◌, ◌<◌, ◌≡◌, refl, ap, ◌∙◌, [], ◌∷◌, ◌++◌, ◌↔◌, Bytes, arith,
}
use heaphttpd.Http2.Wire.{
  Frame, frame_bytes, read_frame, http2_set_length, http2_set_identifier, http2_get_length,
  http2_get_identifier, frame_payload_len, frame_stream_ind,
}

-- A number without its bit 24.
abbrev pub without_bit_24 : ℕ → ℕ
without_bit_24 n = n - n / 2 ^ 24 % 2 * 2 ^ 24

pub get-set_length : (f : Frame) (n : ℕ) → n < 2 ^ 24 → http2_get_length (http2_set_length f n) ≡ n
unfolding http2_set_length http2_get_length
get-set_length f n h = omega arith

pub get-set_identifier :
    (f : Frame) (n : ℕ)
    → n < 2 ^ 31
    → http2_get_identifier (http2_set_identifier f n) ≡ without_bit_24 n
unfolding http2_set_identifier http2_get_identifier
get-set_identifier f n h = omega arith

-- big-endian fields, as the RFC writes them
abbrev pub be24 : ℕ → Bytes
be24 n = n / 2 ^ 16 % 2 ^ 8 ∷ n / 2 ^ 8 % 2 ^ 8 ∷ n % 2 ^ 8 ∷ []

abbrev pub be32 : ℕ → Bytes
be32 n = n / 2 ^ 24 % 2 ^ 8 ∷ n / 2 ^ 16 % 2 ^ 8 ∷ n / 2 ^ 8 % 2 ^ 8 ∷ n % 2 ^ 8 ∷ []

-- A header whose length and stream number were stored by the setters goes out as RFC 7540 lays it
-- out, but for bit 24 of the stream number, which is lost.
pub frame_bytes_layout :
    (f : Frame) (len ind : ℕ)
    → len < 2 ^ 24
    → ind < 2 ^ 31
    → f.type < 256
    → f.flags < 256
    → f.r ≡ 0
    → frame_bytes (http2_set_identifier (http2_set_length f len) ind)
      ≡ be24 len ++ f.type ∷ f.flags ∷ be32 (without_bit_24 ind)
unfolding frame_bytes http2_set_identifier http2_set_length
frame_bytes_layout f len ind hl hi ht hf hr = ground arith

-- `ProtRecv` on nine bytes.
read_length :
    (b0 b1 b2 t fl i0 i1 i2 i3 : ℕ)
    → b0 < 256
    → b1 < 256
    → b2 < 256
    → frame_payload_len (read_frame (b0 ∷ b1 ∷ b2 ∷ t ∷ fl ∷ i0 ∷ i1 ∷ i2 ∷ i3 ∷ []))
      ≡ b0 * 2 ^ 16 + b1 * 2 ^ 8 + b2
unfolding frame_payload_len read_frame
read_length b0 b1 b2 t fl i0 i1 i2 i3 h0 h1 h2 = omega arith

read_stream_ind :
    (b0 b1 b2 t fl i0 i1 i2 i3 : ℕ)
    → i0 < 256
    → i1 < 256
    → i2 < 256
    → i3 < 256
    → frame_stream_ind (read_frame (b0 ∷ b1 ∷ b2 ∷ t ∷ fl ∷ i0 ∷ i1 ∷ i2 ∷ i3 ∷ []))
      ≡ without_bit_24 ((i0 * 2 ^ 24 + i1 * 2 ^ 16 + i2 * 2 ^ 8 + i3) % 2 ^ 31)
unfolding frame_stream_ind read_frame
read_stream_ind b0 b1 b2 t fl i0 i1 i2 i3 h0 h1 h2 h3 = omega arith

join24 :
    (n : ℕ) → n < 2 ^ 24 → n / 2 ^ 16 % 2 ^ 8 * 2 ^ 16 + n / 2 ^ 8 % 2 ^ 8 * 2 ^ 8 + n % 2 ^ 8 ≡ n
join24 n h = omega arith

pub join32 :
    (n : ℕ)
    → n < 2 ^ 32
    → n / 2 ^ 24 % 2 ^ 8 * 2 ^ 24
        + n / 2 ^ 16 % 2 ^ 8 * 2 ^ 16
        + n / 2 ^ 8 % 2 ^ 8 * 2 ^ 8
        + n % 2 ^ 8
      ≡ n
join32 n h = omega arith

read_be24 :
    (len t fl i0 i1 i2 i3 : ℕ)
    → len < 2 ^ 24
    → frame_payload_len (read_frame (be24 len ++ t ∷ fl ∷ i0 ∷ i1 ∷ i2 ∷ i3 ∷ [])) ≡ len
read_be24 len t fl i0 i1 i2 i3 h =
    read_length _ _ _ t fl i0 i1 i2 i3 (omega arith) (omega arith) (omega arith) ∙ join24 len h

read_be32 :
    (b0 b1 b2 t fl word : ℕ)
    → word < 2 ^ 32
    → frame_stream_ind (read_frame (b0 ∷ b1 ∷ b2 ∷ t ∷ fl ∷ be32 word))
      ≡ without_bit_24 (word % 2 ^ 31)
read_be32 b0 b1 b2 t fl word h =
    read_stream_ind b0 b1 b2 t fl _ _ _ _ (omega arith) (omega arith) (omega arith) (omega arith)
    ∙ ap (λ n. without_bit_24 (n % 2 ^ 31)) (join32 word h)

pub without_reserved :
    (reserved ind : ℕ) → ind < 2 ^ 31 → reserved < 2 → (reserved * 2 ^ 31 + ind) % 2 ^ 31 ≡ ind
without_reserved reserved ind hi hr = omega arith

-- From a header in the layout of RFC 7540, with the reserved bit set or not, `ProtRecv` gets the
-- type, the flags and the payload's length as they were sent, and the stream number without its
-- bit 24.
read_frame_layout :
    (len t fl reserved ind : ℕ)
    → len < 2 ^ 24
    → ind < 2 ^ 31
    → reserved < 2
    → let f = read_frame (be24 len ++ t ∷ fl ∷ be32 (reserved * 2 ^ 31 + ind)) in
      (frame_payload_len f ≡ len)
      × (frame_stream_ind f ≡ without_bit_24 ind)
      × (f.type ≡ t)
      × (f.flags ≡ fl)
unfolding read_frame
read_frame_layout len t fl reserved ind hl hi hr = (
  read_be24 len t fl _ _ _ _ hl,
  read_be32 _ _ _ t fl (reserved * 2 ^ 31 + ind) (omega arith)
      ∙ ap without_bit_24 (without_reserved reserved ind hi hr),
  refl,
  refl,
)

exact_iff :
    (n got : ℕ)
    → n < 2 ^ 31
    → got ≡ without_bit_24 (without_bit_24 n % 2 ^ 31)
    → (got ≡ n) ↔ (n / 2 ^ 24 % 2 ≡ 0)
exact_iff n got h e = (λ same. omega arith, λ clear. omega arith)

-- What one end sends the other receives: the length, type and flags always, and the stream number
-- exactly when its bit 24 is clear.
pub read_frame-frame_bytes :
    (f : Frame) (len ind : ℕ)
    → len < 2 ^ 24
    → ind < 2 ^ 31
    → f.type < 256
    → f.flags < 256
    → f.r ≡ 0
    → let g = read_frame (frame_bytes (http2_set_identifier (http2_set_length f len) ind)) in
      (frame_payload_len g ≡ len)
      × (g.type ≡ f.type)
      × (g.flags ≡ f.flags)
      × ((frame_stream_ind g ≡ ind) ↔ (ind / 2 ^ 24 % 2 ≡ 0))
unfolding read_frame
read_frame-frame_bytes f len ind hl hi ht hf hr = rw (frame_bytes_layout f len ind hl hi ht hf hr) (
  read_be24 len f.type f.flags _ _ _ _ hl,
  refl,
  refl,
  exact_iff ind _ hi (read_be32 _ _ _ f.type f.flags (without_bit_24 ind) (omega arith)),
)
