-- ===== src/Hpack/Huffman/Decode.antt =====
-- `hf_string_decode` of src/util/huffman.cpp.
use heaphttpd.Prelude.{
  ℕ, zero, suc, ◌+◌, ◌-◌, ◌*◌, ◌/◌, ◌%◌, ◌^◌, ◌||◌, not, [], ◌∷◌, none, some, Bytes, length, ltb,
  ◌==◌, if◌then◌else◌,
}
use heaphttpd.Hpack.Huffman.Tree.{Node, sym, code_len, size, children, get_child}

-- `decoded`: what is in `out_buff`, its length being the result. `invalid`: the result -1. `too_long`:
-- the result -2. `undefined`: a null pointer is followed, or `out_buff` written behind its end.
pub data Decoding : Type 0 where
  decoded : Bytes → Decoding
  invalid too_long undefined : Decoding

abbrev pub with_symbol : ℕ → Decoding → Decoding
with_symbol b (decoded bs) = decoded (b ∷ bs)
with_symbol b invalid = invalid
with_symbol b too_long = too_long
with_symbol b undefined = undefined

-- `out_buff[at++] = n->sym` in the first loop, with its check, and in the last one, without
abbrev pub put_checked : ℕ → ℕ → ℕ → Decoding → Decoding
put_checked out_sz at b rest =
    if ltb 0 out_sz
    then if ltb out_sz at then too_long else if at == out_sz then undefined else with_symbol b rest
    else undefined

abbrev pub put_unchecked : ℕ → ℕ → ℕ → Decoding → Decoding
put_unchecked out_sz at b rest = if ltb at out_sz then with_symbol b rest else undefined

-- The last loop: `nbits` bits of `cur` are left. A symbol takes a bit at least, which bounds the turns.
unfoldable pub decode_tail : ℕ → Node → Node → ℕ → ℕ → ℕ → ℕ → Decoding
decode_tail zero root n cur nbits out_sz at = decoded []
decode_tail (suc turns) root n cur nbits out_sz at =
    if nbits == 0
    then decoded []
    else elim (get_child (cur * 2 ^ (8 - nbits) % 2 ^ 8) (children n)) [
      | none ↦ undefined
      | some m ↦
          let rest = decode_tail turns root root cur (nbits - code_len m) out_sz (at + 1) in
          if not (size m == 0) || ltb nbits (code_len m)
          then decoded []
          else put_unchecked out_sz at (sym m) rest
    ]

-- The two loops around each other: with eight bits or more a child is followed, with less the next
-- byte is taken. Each turn takes a byte, eight bits or a symbol of one bit at least, which bounds
-- the turns.
unfoldable pub decode_loop : ℕ → Node → Node → Bytes → ℕ → ℕ → ℕ → ℕ → Decoding
decode_loop zero root n enc cur nbits out_sz at = undefined
decode_loop (suc turns) root n enc cur nbits out_sz at =
    if ltb nbits 8
    then elim enc [
      | [] ↦ decode_tail (nbits + 1) root n cur nbits out_sz at
      | b ∷ enc' ↦ decode_loop turns root n enc' ((cur * 2 ^ 8 + b) % 2 ^ 32) (nbits + 8) out_sz at
    ]
    else elim (get_child (cur / 2 ^ (nbits - 8) % 2 ^ 8) (children n)) [
      | none ↦ invalid
      | some m ↦
          let rest = decode_loop turns root root enc cur (nbits - code_len m) out_sz (at + 1) in
          if size m == 0
          then put_checked out_sz at (sym m) rest
          else decode_loop turns root m enc cur (nbits - 8) out_sz at
    ]

-- the bound on the turns: nine for each byte
unfoldable pub hf_string_decode : Node → Bytes → ℕ → Decoding
hf_string_decode root enc out_sz = decode_loop (9 * length enc + 1) root root enc 0 0 out_sz 0

-- `MAX_HUFFMAN_BUFF_LEN`
abbrev pub max_huffman_buff_len : ℕ → ℕ
max_huffman_buff_len l = l * 8 + 1
