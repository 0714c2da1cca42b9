-- ===== src/Http2/Respond/Bounds.antt =====
-- The sizes of the DATA frames of a response.
use heaphttpd.Prelude.{
  ℕ, zero, suc, ◌-◌, ◌%◌, ◌≤◌, ◌≡◌, refl, ap, Bytes, length, take, if◌then◌else◌, arith,
  length-append, length-take_le,
}
use heaphttpd.Http2.Respond.{
  data_padding_len, is_padded, pre_send_len, curr_padding_len, zeros, data_payload,
}

pub length-zeros : (n : ℕ) → length (zeros n) ≡ n
length-zeros zero = refl
length-zeros (suc n) = ap suc (length-zeros n)

pre_send_len-le :
    (m w left : ℕ)
    → (pre_send_len m w left ≤ left)
      × (pre_send_len m w left ≤ w)
      × (pre_send_len m w left ≤ (if is_padded m then m - data_padding_len - 1 else m))
unfolding pre_send_len
pre_send_len-le m w left = (ground arith, ground arith, ground arith)

length-data_payload :
    (m : ℕ) (bytes : Bytes)
    → length bytes ≤ (if is_padded m then m - data_padding_len - 1 else m)
    → length (data_payload m bytes) ≤ m
unfolding data_payload curr_padding_len
length-data_payload m bytes h =
    let pad : ℕ = data_padding_len - length bytes % data_padding_len in
    ground (arith, length-append bytes (zeros pad), length-zeros pad)

-- Whatever the peer's largest frame and window, and whatever is left of the body, the payload of the
-- next DATA frame, padding included, is no longer than that frame, and the bytes of the body in it are
-- no more than the window, nor than what is left.
pub data_payload-pre_send_len :
    (max_frame_size window : ℕ) (buf : Bytes)
    → (length
          (data_payload max_frame_size (take (pre_send_len max_frame_size window (length buf)) buf))
        ≤ max_frame_size)
      × (pre_send_len max_frame_size window (length buf) ≤ window)
      × (pre_send_len max_frame_size window (length buf) ≤ length buf)
data_payload-pre_send_len m w buf =
    let pre : ℕ = pre_send_len m w (length buf) in
    let (few, fits, small) = pre_send_len-le m w (length buf) in
    let size : length (take pre buf) ≡ pre = length-take_le pre buf few in
    (length-data_payload m (take pre buf) (rw size small), fits, few)
