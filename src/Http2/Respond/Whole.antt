-- ===== src/Http2/Respond/Whole.antt =====
-- A body that fits the window is sent whole.
use heaphttpd.Prelude.{
  if◌then◌else◌, ◌%◌, ℕ, ◌+◌, ◌-◌, ◌^◌, ◌<◌, ◌≡◌, true, List, [], ◌∷◌, ◌++◌, Bytes, length, ltb,
}
use heaphttpd.Http2.Connection.{Conn}
use mathlib.Core.Option
use heaphttpd.Http2.Wire.Layout.{be24, be32, without_bit_24}
use heaphttpd.Http2.Respond.{Turns, zeros, finished, content_loop}

-- the pieces put together again
unfoldable pub joined : List Bytes → Bytes
joined [] = []
joined (p ∷ ps) = p ++ joined ps

-- A DATA frame as RFC 7540, 6.1, lays it out, padded or not, but for bit 24 of the stream number.
abbrev pub data_layout : ℕ → ℕ → Bytes → Bytes
data_layout max_frame_size ind p =
    let pad : ℕ = 8 - length p % 8 in
    if ltb 9 max_frame_size
    then be24 (1 + length p + pad) ++ 0 ∷ 8 ∷ be32 (without_bit_24 ind) ++ pad ∷ (p ++ zeros pad)
    else be24 (length p) ++ 0 ∷ 0 ∷ be32 (without_bit_24 ind) ++ p

-- the frames of the pieces, the last one first
unfoldable pub frames_sent : ℕ → ℕ → List Bytes → List Bytes → List Bytes
frames_sent max_frame_size ind [] sent = sent
frames_sent max_frame_size ind (p ∷ ps) sent =
    frames_sent max_frame_size ind ps (data_layout max_frame_size ind p ∷ sent)

module _ {H : Type 0} (t : Turns H) (sends : (k : ℕ) → t.sends k ≡ true) (ind : ℕ)
    (in_range : ind < 2 ^ 31) where
  abbrev Sends : ℕ → ℕ → Bytes → Conn H → Type 0
  Sends turns k buf c =
      (c' : Conn H) × (ps : List Bytes) × (content_loop t turns k ind buf c ≡ finished c')
      × (joined ps ≡ buf)
      × (c'.sent ≡ frames_sent c.max_frame_size ind ps c.sent)
