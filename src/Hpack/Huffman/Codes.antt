-- ===== src/Hpack/Huffman/Codes.antt =====
-- The tree that `hf_init` builds holds every code of the table, and only these.
use heaphttpd.Prelude.{
  ℕ, zero, suc, ◌+◌, ◌-◌, ◌*◌, ◌/◌, ◌%◌, ◌^◌, ◌≡◌, refl, Bool, true, false, ◌&&◌, not, Option, none,
  some, get_or, ltb, ◌==◌, if◌then◌else◌,
}
use heaphttpd.Prelude.Bits.{every_below}
use heaphttpd.Hpack.Huffman.Tables.{huffman_codes, huffman_code_len}
use heaphttpd.Hpack.Huffman.Tree.{
  Node, sym, code_len, size, children, get_child, set_child, fill_children, hf_add_node, add_codes,
  hf_init,
}

-- a child that ends a code
unfoldable pub is_leaf : ℕ → ℕ → Option Node → Bool
is_leaf s len none = false
is_leaf s len (some m) = size m == 0 && sym m == s && code_len m == len && ltb 0 len

-- Below `n` the `len` low bits of `code` lead to the symbol `s`, whatever follows them.
unfoldable pub leads_to : ℕ → Node → ℕ → ℕ → ℕ → Bool
leads_to zero n s code len = false
leads_to (suc turns) n s code len =
    let deeper : Bool = elim (get_child (code / 2 ^ (len - 8) % 2 ^ 8) (children n)) [
      | none ↦ false
      | some m ↦ not (size m == 0) && leads_to turns m s code (len - 8)
    ] in
    if ltb 8 len
    then deeper
    else every_below (2 ^ (8 - len))
        (λ r. is_leaf s len (get_child (code % 2 ^ len * 2 ^ (8 - len) + r) (children n)))

pub code_table :
    every_below 256
      (λ s. leads_to 4 hf_init s (get_or huffman_codes s 0) (get_or huffman_code_len s 0))
    ≡ true
unfolding every_below leads_to is_leaf get_child set_child fill_children hf_add_node add_codes
    hf_init
code_table = refl
