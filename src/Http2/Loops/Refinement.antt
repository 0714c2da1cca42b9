-- ===== src/Http2/Loops/Refinement.antt =====
-- `AsyncProcessing` does what ProtParse does to one frame after the other.
use heaphttpd.Prelude.{
  ℕ, zero, suc, not, ◌&&◌, Bool, true, Bytes, length, take, drop, ltb, if◌then◌else◌,
}
use heaphttpd.Http2.Wire.{frame_size, read_frame, frame_payload_len}
use heaphttpd.Http2.Protocol.Alone.{calls_chttp}

-- Whether no whole frame of the input goes to CHttp.
unfoldable pub is_without_requests : ℕ → Bytes → Bool
is_without_requests zero input = true
is_without_requests (suc turns) input =
    let f = read_frame (take frame_size input) in
    let len = frame_payload_len f in
    let mem = drop frame_size input in
    let rest = is_without_requests turns (drop len mem) in
    if ltb (length input) frame_size
    then true
    else if ltb (length mem) len
    then true
    else not (calls_chttp f.type) && rest
