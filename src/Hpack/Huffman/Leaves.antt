-- ===== src/Hpack/Huffman/Leaves.antt =====
-- Where the codes of src/util/huffman.cpp lead in its tree, read off the child that is followed.
use heaphttpd.Prelude.{
  ℕ, zero, suc, ◌+◌, ◌-◌, ◌*◌, ◌/◌, ◌%◌, ◌^◌, ◌≤◌, ◌<◌, ◌≡◌, refl, sym, ap, ◌∙◌, Bool, true, false,
  ◌&&◌, not, Option, none, some, ◌==◌, arith,
}
use heaphttpd.Prelude.Bits.{every_below, every_below→at}
use heaphttpd.Hpack.Huffman.Tree.{Node, children, size, code_len, get_child, hf_init}
use heaphttpd.Hpack.Huffman.Tree
use heaphttpd.Hpack.Huffman.Codes.{is_leaf, leads_to}
use heaphttpd.Hpack.Huffman.Bits.{two_pow_pos}
use native.Mathlib.Nat.{mod-lt, div-add-mod'}
use mathlib.Core.Path.{subst}

-- what a child that ends the code of `s` is known to hold
pub data Leaf (s len : ℕ) (o : Option Node) : Type 0 where
  leaf :
      (m : Node)
      → o ≡ some m
      → size m ≡ 0
      → Tree.sym m ≡ s
      → code_len m ≡ len
      → 0 < len
      → Leaf s len o

pub Leaf-pos : {s len : ℕ} {o : Option Node} → Leaf s len o → 0 < len
Leaf-pos (leaf m e z s l p) = p

is_leaf-Leaf : (s len : ℕ) (o : Option Node) → is_leaf s len o ≡ true → Leaf s len o
unfolding is_leaf
is_leaf-Leaf s len none e = absurd (ground arith)
is_leaf-Leaf s len (some m) e =
    leaf m refl (ground arith) (ground arith) (ground arith) (ground arith)

-- the test that `leads_to` makes on the last byte of a code
abbrev leaf_test : Node → ℕ → ℕ → ℕ → ℕ → Bool
leaf_test n s code len r =
    is_leaf s len (get_child (code % 2 ^ len * 2 ^ (8 - len) + r) (children n))

leads_to-short :
    (k : ℕ) (n : Node) (s code len : ℕ)
    → leads_to (suc k) n s code len ≡ true
    → len ≤ 8
    → every_below (2 ^ (8 - len)) (leaf_test n s code len) ≡ true
unfolding leads_to
leads_to-short k n s code len h l = ground arith

pub leads_to-Leaf :
    (k : ℕ) (n : Node) (s code len idx : ℕ)
    → leads_to k n s code len ≡ true
    → len ≤ 8
    → idx / 2 ^ (8 - len) ≡ code % 2 ^ len
    → Leaf s len (get_child idx (children n))
unfolding leads_to
leads_to-Leaf zero n s code len idx h l e = absurd (ground arith)
leads_to-Leaf (suc k) n s code len idx h l e =
    let r : ℕ = idx % 2 ^ (8 - len) in
    let place : code % 2 ^ len * 2 ^ (8 - len) + r ≡ idx =
      ap (λ (q : ℕ). q * 2 ^ (8 - len) + r) (sym e) ∙ div-add-mod' idx (2 ^ (8 - len)) in
    subst (λ i. Leaf s len (get_child i (children n))) place
      (is_leaf-Leaf s len _ (
        every_below→at (2 ^ (8 - len)) (leaf_test n s code len) r
          (leads_to-short k n s code len h l) (mod-lt idx (two_pow_pos (8 - len)))))

-- below a child on the way
pub data Inner (k s code len : ℕ) (o : Option Node) : Type 0 where
  inner :
      (m : Node)
      → o ≡ some m
      → (size m == 0) ≡ false
      → leads_to k m s code len ≡ true
      → Inner k s code len o

abbrev inner_test : ℕ → ℕ → ℕ → ℕ → Option Node → Bool
inner_test k s code len none = false
inner_test k s code len (some m) = not (size m == 0) && leads_to k m s code len

inner_test-Inner :
    (k s code len : ℕ) (o : Option Node) → inner_test k s code len o ≡ true → Inner k s code len o
inner_test-Inner k s code len none h = absurd (ground arith)
inner_test-Inner k s code len (some m) h = inner m refl (ground arith) (ground arith)

-- a code of more than eight bits goes on below an inner child
pub leads_to-Inner :
    (k : ℕ) (n : Node) (s code len : ℕ)
    → leads_to k n s code len ≡ true
    → 8 < len
    → (j : ℕ) × Inner j s code (len - 8) (get_child (code / 2 ^ (len - 8) % 2 ^ 8) (children n))
unfolding leads_to
leads_to-Inner zero n s code len h l = absurd (ground arith)
leads_to-Inner (suc k) n s code len h l = (
  k,
  inner_test-Inner k s code (len - 8) (get_child (code / 2 ^ (len - 8) % 2 ^ 8) (children n))
      (ground arith),
)
