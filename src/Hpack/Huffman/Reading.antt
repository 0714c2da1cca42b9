-- ===== src/Hpack/Huffman/Reading.antt =====
-- One turn of the loops of `hf_string_decode`, and what the tree makes of a string of codes.
use heaphttpd.Prelude.{
  ℕ, zero, suc, ◌+◌, ◌-◌, ◌*◌, ◌/◌, ◌%◌, ◌^◌, ◌≤◌, ◌<◌, ◌≡◌, refl, sym, true, ◌||◌, not, some, ltb,
  ◌==◌, arith, Bytes, [], ◌∷◌,
}
use heaphttpd.Hpack.Huffman.Tree.{Node, children, size, code_len, get_child}
use heaphttpd.Hpack.Huffman.Codes.{leads_to}
use heaphttpd.Hpack.Huffman.Decode.{decoded, with_symbol, decode_tail, decode_loop}
use heaphttpd.Hpack.Huffman.Leaves.{Leaf, leaf, Inner, inner}

module _ (root n : Node) (cur nbits out_sz at : ℕ) where
  pub decode_tail-Leaf :
      (turns c len : ℕ)
      → Leaf c len (get_child (cur * 2 ^ (8 - nbits) % 2 ^ 8) (children n))
      → len ≤ nbits
      → at < out_sz
      → decode_tail (suc turns) root n cur nbits out_sz at
        ≡ with_symbol c (decode_tail turns root root cur (nbits - len) out_sz (at + 1))
  unfolding decode_tail
  decode_tail-Leaf turns c len (leaf m o z s l p) hl ho = rw o (rw (sym s, sym l) (ground arith))

  pub decode_loop-Leaf :
      (turns c len : ℕ) (enc : Bytes)
      → Leaf c len (get_child (cur / 2 ^ (nbits - 8) % 2 ^ 8) (children n))
      → 8 ≤ nbits
      → at < out_sz
      → decode_loop (suc turns) root n enc cur nbits out_sz at
        ≡ with_symbol c (decode_loop turns root root enc cur (nbits - len) out_sz (at + 1))
  unfolding decode_loop
  decode_loop-Leaf turns c len enc (leaf m o z s l p) hb ho =
      rw o (rw (sym s, sym l) (ground arith))

  pub decode_loop-Inner :
      (turns k c code len : ℕ) (enc : Bytes)
      → (i : Inner k c code len (get_child (cur / 2 ^ (nbits - 8) % 2 ^ 8) (children n)))
      → 8 ≤ nbits
      → (m : Node) × (leads_to k m c code len ≡ true)
        × (decode_loop (suc turns) root n enc cur nbits out_sz at
            ≡ decode_loop turns root m enc cur (nbits - 8) out_sz at)
  unfolding decode_loop
  decode_loop-Inner turns k c code len enc (inner m o z h) hb = (m, h, rw o (ground arith))

  pub decode_loop-byte :
      (turns b : ℕ) (enc : Bytes)
      → nbits < 8
      → decode_loop (suc turns) root n (b ∷ enc) cur nbits out_sz at
        ≡ decode_loop turns root n enc ((cur * 2 ^ 8 + b) % 2 ^ 32) (nbits + 8) out_sz at
  unfolding decode_loop
  decode_loop-byte turns b enc h = ground arith

  pub decode_loop-end :
      (turns : ℕ)
      → nbits < 8
      → decode_loop (suc turns) root n [] cur nbits out_sz at
        ≡ decode_tail (nbits + 1) root n cur nbits out_sz at
  unfolding decode_loop
  decode_loop-end turns h = ground arith

  pub decode_tail-stop :
      (turns : ℕ) (m : Node)
      → get_child (cur * 2 ^ (8 - nbits) % 2 ^ 8) (children n) ≡ some m
      → (not (size m == 0) || ltb nbits (code_len m)) ≡ true
      → decode_tail (suc turns) root n cur nbits out_sz at ≡ decoded []
  unfolding decode_tail
  decode_tail-stop turns m o h = rw o (ground arith)

  pub decode_tail-done :
      (turns : ℕ) → nbits ≡ 0 → decode_tail turns root n cur nbits out_sz at ≡ decoded []
  unfolding decode_tail
  decode_tail-done zero h = refl
  decode_tail-done (suc turns) h = ground arith
