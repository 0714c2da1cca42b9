-- ===== src/Hpack/Huffman/Tree.antt =====
-- The decoding tree of src/util/huffman.cpp: `struct node`, `_hf_add_node` and `hf_init`.
use heaphttpd.Prelude.{
  ℕ, zero, suc, ◌+◌, ◌-◌, ◌*◌, ◌/◌, ◌%◌, ◌^◌, List, [], ◌∷◌, Option, none, some, ltb, ◌==◌,
  if◌then◌else◌,
}
use heaphttpd.Hpack.Huffman.Tables.{huffman_codes, huffman_code_len}

-- `node sym code_len size children`, without the field `code`, which is only written. The children
-- that are not null stand in a list with their places in the array.
mutual
  pub data Node : Type 0 where
    node : ℕ → ℕ → ℕ → Children → Node

  pub data Children : Type 0 where
    nil : Children
    child : ℕ → Node → Children → Children

abbrev pub sym : Node → ℕ
sym (node s l n cs) = s

abbrev pub code_len : Node → ℕ
code_len (node s l n cs) = l

abbrev pub size : Node → ℕ
size (node s l n cs) = n

abbrev pub children : Node → Children
children (node s l n cs) = cs

-- `node_create`
abbrev pub node_create : Node
node_create = node 0 0 0 nil

unfoldable pub get_child : ℕ → Children → Option Node
get_child i nil = none
get_child i (child j n cs) = if j == i then some n else get_child i cs

-- the child at a place, made anew if there is none
abbrev pub child_or_new : ℕ → Children → Node
child_or_new i cs = elim (get_child i cs) [ none ↦ node_create | some n ↦ n ]

unfoldable pub set_child : ℕ → Node → Children → Children
set_child i n nil = child i n nil
set_child i n (child j m cs) = if j == i then child i n cs else child j m (set_child i n cs)

-- The second loop, for the places from `start` on; `count` of them are left.
unfoldable pub fill_children : ℕ → ℕ → ℕ → ℕ → Node → Node
fill_children zero start s len n = n
fill_children (suc count) start s len (node s0 l0 n0 cs) = fill_children count (start + 1) s len (
    node s0 l0 (n0 + 1) (
      set_child start (node s len (size (child_or_new start cs)) (children (child_or_new start cs)))
        cs))

-- The first loop takes eight bits at a time. The first argument bounds its turns: a code has 30 bits
-- at most, so that the loop stops after three.
unfoldable pub hf_add_node : ℕ → ℕ → ℕ → ℕ → Node → Node
hf_add_node zero s code len n = n
hf_add_node (suc turns) s code len (node s0 l0 n0 cs) =
    let i = code / 2 ^ (len - 8) % 2 ^ 8 in
    let deeper = hf_add_node turns s code (len - 8) (child_or_new i cs) in
    let shift = 8 - len in
    if ltb 8 len
    then node s0 l0 n0 (set_child i deeper cs)
    else fill_children (2 ^ shift) (code * 2 ^ shift % 2 ^ 8) s len (node s0 l0 n0 cs)

-- `hf_init` from the symbol `i` on; the lists hold the codes and lengths that are left.
unfoldable pub add_codes : ℕ → List ℕ → List ℕ → Node → Node
add_codes i [] lens n = n
add_codes i (c ∷ codes) [] n = n
add_codes i (c ∷ codes) (l ∷ lens) n = add_codes (i + 1) codes lens (hf_add_node 4 i c l n)

unfoldable pub hf_init : Node
hf_init = add_codes 0 huffman_codes huffman_code_len node_create
