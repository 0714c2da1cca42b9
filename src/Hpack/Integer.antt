-- ===== src/Hpack/Integer.antt =====
-- The prefixed integers of src/hpack.cpp: `decode_integer`, `encode_integer`, and the wrappers that
-- the field tags and the strings use. A buffer is the list of the bytes from its start to its end.
pub mod RoundTrip
use heaphttpd.Prelude.{
  ℕ, zero, suc, ◌+◌, ◌-◌, ◌*◌, ◌/◌, ◌%◌, ◌^◌, Bool, true, false, ◌&&◌, List, [], ◌∷◌, Option, none,
  some, Bytes, take, ltb, leb, ◌==◌, if◌then◌else◌, bit_and, bit_or,
}
use mathlib.Core.Option

-- `ok dst n`: the value and the number of bytes taken. `fail` is the result -1, on which every
-- caller drops the value. `undefined` is no result: the code shifts a uint32_t by 32 or more.
pub data Decoded : Type 0 where
  ok : ℕ → ℕ → Decoded
  fail : Decoded
  undefined : Decoded

-- The do loop: `dst` and `m` are its variables, `p` counts the bytes before the list.
unfoldable pub decode_integer_loop : Bytes → ℕ → ℕ → ℕ → Decoded
decode_integer_loop [] dst m p = fail
decode_integer_loop (b ∷ rest) dst m p =
    let added_value = bit_and b 0x7f in
    let dst' = (dst + added_value * 2 ^ m % 2 ^ 32) % 2 ^ 32 in
    let more = decode_integer_loop rest dst' (m + 7) (p + 1) in
    if leb 32 m
    then undefined
    else if ltb ((2 ^ 32 - 1) / 2 ^ m) added_value
    then fail
    else if bit_and b 0x80 == 0
    then ok dst' (p + 1)
    else more

unfoldable pub decode_integer : Bytes → ℕ → Decoded
decode_integer [] n = fail
decode_integer (b ∷ rest) n =
    let dst = bit_and b (2 ^ n - 1) in
    if dst == 2 ^ n - 1 then decode_integer_loop rest dst 0 1 else ok dst 1

-- The while loop and the byte behind it; `room` is `buf_end - p`. `none` is the result -1.
unfoldable pub encode_integer_loop : ℕ → ℕ → Option Bytes
encode_integer_loop zero value = none
encode_integer_loop (suc room) value =
    let more = encode_integer_loop room (value / 128) in
    if leb 128 value
    then Option.map (◌∷◌ (bit_or (bit_and value 0x7f) 0x80)) more
    else if room == 0
    then none
    else some (value ∷ [])

-- The bytes written into a buffer of `size` bytes.
unfoldable pub encode_integer : ℕ → ℕ → ℕ → Option Bytes
encode_integer zero value n = none
encode_integer (suc room) value n =
    if ltb value (2 ^ n - 1)
    then some (value ∷ [])
    else Option.map (◌∷◌ (2 ^ n - 1)) (encode_integer_loop room (value - (2 ^ n - 1)))

-- `MAX_BYTES_OF_LENGTH`: the size that the wrappers give every buffer.
abbrev pub max_bytes_of_length : ℕ
max_bytes_of_length = 256

unfoldable pub encode_http2_header_string : ℕ → Option Bytes
encode_http2_header_string len = encode_integer max_bytes_of_length len 7

unfoldable pub encode_http2_header_index : ℕ → ℕ → Option Bytes
encode_http2_header_index prefix len = encode_integer max_bytes_of_length len prefix

-- The decoders look at `memory` from the given address on, 256 bytes of it at most.
unfoldable pub decode_http2_header_string : Bytes → Decoded
decode_http2_header_string memory = decode_integer (take max_bytes_of_length memory) 7

unfoldable pub decode_http2_header_index : Bytes → ℕ → Decoded
decode_http2_header_index memory prefix = decode_integer (take max_bytes_of_length memory) prefix
