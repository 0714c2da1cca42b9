-- ===== src/Hpack/Huffman/Strings.antt =====
-- `hf_string_decode` reads back a string of codes that is padded with ones.
use heaphttpd.Prelude.{
  ℕ, zero, suc, ◌+◌, ◌-◌, ◌*◌, ◌/◌, ◌%◌, ◌^◌, ◌≤◌, ◌<◌, ◌≡◌, refl, sym, ap, ◌∙◌, Bool, true, false,
  ◌||◌, not, Option, none, some, ltb, ◌==◌, arith, Bytes, IsByte, All, [], ◌∷◌, ◌++◌, length,
  length-append,
}
use heaphttpd.Prelude.Bits.{every_below, every_below→at}
use heaphttpd.Hpack.Huffman.Tree.{
  Node, children, size, code_len, get_child, set_child, fill_children, hf_add_node, add_codes,
  hf_init,
}
use heaphttpd.Hpack.Huffman.Codes.{leads_to, code_table}
use heaphttpd.Hpack.Huffman.Bits.{
  Bits, bits_of, string_bits, code_of, len_of, length-bits_of, bits_of-split, bits_of_inj,
  append_inj, mod_pow-div_pow, div_pow, mul_pow-div_pow,
}
use heaphttpd.Hpack.Huffman.Decode.{decoded, with_symbol, decode_tail}
use heaphttpd.Hpack.Huffman.Leaves.{Leaf, Leaf-pos, leads_to-Leaf}
use heaphttpd.Hpack.Huffman.Reading.{decode_tail-Leaf, decode_tail-stop, decode_tail-done}
use mathlib.Core.List.{append_assoc, append-nil}
use mathlib.Core.Path.{subst}

-- The decoder at `n` is to read `s`, for which `bits` are left.
pub data Waits (n : Node) (s : Bytes) (bits : Bits) : Type 0 where
  idle : n ≡ hf_init → s ≡ [] → bits ≡ [] → Waits n s bits
  within :
      (k c code len : ℕ) (t : Bytes)
      → s ≡ c ∷ t
      → leads_to k n c code len ≡ true
      → All IsByte t
      → bits ≡ bits_of len code ++ string_bits t
      → Waits n s bits

leads_to-code : (c : ℕ) → c < 256 → leads_to 4 hf_init c (code_of c) (len_of c) ≡ true
leads_to-code c h =
    every_below→at 256 (λ s. leads_to 4 hf_init s (code_of s) (len_of s)) c code_table h

pub root-Waits : (s : Bytes) → All IsByte s → Waits hf_init s (string_bits s)
unfolding string_bits
root-Waits [] h = idle refl refl refl
root-Waits (c ∷ t) (b, h) = within 4 c (code_of c) (len_of c) t refl (leads_to-code c b) h refl

-- The code in front of the bits that are left is taken off.
pub take_code :
    (len nbits cur code : ℕ) (xs ys : Bits)
    → len ≤ nbits
    → bits_of nbits cur ++ xs ≡ bits_of len code ++ ys
    → (cur / 2 ^ (nbits - len) % 2 ^ len ≡ code % 2 ^ len) × (bits_of (nbits - len) cur ++ xs ≡ ys)
take_code len nbits cur code xs ys h e =
    let split : bits_of nbits cur
        ≡ bits_of len (cur / 2 ^ (nbits - len)) ++ bits_of (nbits - len) cur =
      ap (λ w. bits_of w cur) {x = nbits} {y = len + (nbits - len)} (omega arith)
      ∙ bits_of-split len (nbits - len) cur in
    let (same, rest) =
      append_inj (bits_of len (cur / 2 ^ (nbits - len))) (bits_of len code)
        (bits_of (nbits - len) cur ++ xs) ys (length-bits_of len _ ∙ sym (length-bits_of len code))
        (sym (append_assoc _ _ xs) ∙ ap (λ l. l ++ xs) (sym split) ∙ e) in
    (bits_of_inj len (cur / 2 ^ (nbits - len)) code same, rest)

-- The place of a child agrees with the code in the bits that both have.
pub loop_place :
    (len nbits cur : ℕ)
    → len ≤ 8
    → 8 ≤ nbits
    → cur / 2 ^ (nbits - 8) % 2 ^ 8 / 2 ^ (8 - len) ≡ cur / 2 ^ (nbits - len) % 2 ^ len
loop_place len nbits cur hl hn =
    ap (λ (w : ℕ). cur / 2 ^ (nbits - 8) % 2 ^ w / 2 ^ (8 - len)) {x = 8} {y = len + (8 - len)}
      (omega arith)
    ∙ mod_pow-div_pow (cur / 2 ^ (nbits - 8)) len (8 - len)
    ∙ ap (λ (q : ℕ). q % 2 ^ len) (sym (div_pow cur (8 - len) (nbits - 8)))
    ∙ ap (λ (w : ℕ). cur / 2 ^ w % 2 ^ len) {x = 8 - len + (nbits - 8)} {y = nbits - len}
        (omega arith)

tail_place :
    (len nbits cur : ℕ)
    → len ≤ nbits
    → nbits < 8
    → cur * 2 ^ (8 - nbits) % 2 ^ 8 / 2 ^ (8 - len) ≡ cur / 2 ^ (nbits - len) % 2 ^ len
tail_place len nbits cur hl hn =
    ap (λ (w : ℕ). cur * 2 ^ (8 - nbits) % 2 ^ w / 2 ^ (8 - len)) {x = 8} {y = len + (8 - len)}
      (omega arith)
    ∙ mod_pow-div_pow (cur * 2 ^ (8 - nbits)) len (8 - len)
    ∙ ap (λ (w : ℕ). cur * 2 ^ (8 - nbits) / 2 ^ w % 2 ^ len) {x = 8 - len}
        {y = nbits - len + (8 - nbits)} (omega arith)
    ∙ ap (λ (q : ℕ). q % 2 ^ len) (mul_pow-div_pow cur (8 - nbits) (nbits - len))

-- At the root the padding is no symbol.
abbrev stop_test : ℕ → Option Node → Bool
stop_test nbits none = false
stop_test nbits (some m) = not (size m == 0) || ltb nbits (code_len m)

abbrev padding_test : ℕ → Bool
padding_test zero = true
padding_test (suc b) =
    stop_test (suc b) (get_child (255 % 2 ^ suc b * 2 ^ (8 - suc b)) (children hf_init))

padding_stops : every_below 8 padding_test ≡ true
unfolding every_below get_child set_child fill_children hf_add_node add_codes hf_init
padding_stops = refl

stopping_child :
    (nbits : ℕ) (o : Option Node)
    → stop_test nbits o ≡ true
    → (m : Node) × (o ≡ some m) × ((not (size m == 0) || ltb nbits (code_len m)) ≡ true)
stopping_child nbits none h = absurd (ground arith)
stopping_child nbits (some m) h = (m, refl, h)

padding_place :
    (nbits cur : ℕ)
    → nbits < 8
    → cur % 2 ^ nbits ≡ 255 % 2 ^ nbits
    → 255 % 2 ^ nbits * 2 ^ (8 - nbits) ≡ cur * 2 ^ (8 - nbits) % 2 ^ 8
padding_place zero cur h e = omega arith
padding_place (suc zero) cur h e = omega arith
padding_place (suc (suc zero)) cur h e = omega arith
padding_place (suc (suc (suc zero))) cur h e = omega arith
padding_place (suc (suc (suc (suc zero)))) cur h e = omega arith
padding_place (suc (suc (suc (suc (suc zero))))) cur h e = omega arith
padding_place (suc (suc (suc (suc (suc (suc zero)))))) cur h e = omega arith
padding_place (suc (suc (suc (suc (suc (suc (suc zero))))))) cur h e = omega arith
padding_place (suc (suc (suc (suc (suc (suc (suc (suc n)))))))) cur h e = absurd (omega arith)

decode_tail-padding :
    (turns nbits cur out_sz at : ℕ)
    → nbits < 8
    → nbits < turns
    → cur % 2 ^ nbits ≡ 255 % 2 ^ nbits
    → decode_tail turns hf_init hf_init cur nbits out_sz at ≡ decoded []
decode_tail-padding zero nbits cur out_sz at h l e = absurd (omega arith)
decode_tail-padding (suc turns) zero cur out_sz at h l e =
    decode_tail-done hf_init hf_init cur 0 out_sz at (suc turns) refl
decode_tail-padding (suc turns) (suc b) cur out_sz at h l e =
    let place : ℕ = 255 % 2 ^ suc b * 2 ^ (8 - suc b) in
    let (m, o, t) =
      stopping_child (suc b) (get_child place (children hf_init))
        (every_below→at 8 padding_test (suc b) padding_stops h) in
    decode_tail-stop hf_init hf_init cur (suc b) out_sz at turns m
      (ap (λ i. get_child i (children hf_init)) (sym (padding_place (suc b) cur h e)) ∙ o) t

pub bits_length :
    (nbits cur len code : ℕ) (xs ys : Bits)
    → bits_of nbits cur ++ xs ≡ bits_of len code ++ ys
    → nbits + length xs ≡ len + length ys
bits_length nbits cur len code xs ys e =
    ap (λ n. n + length xs) (sym (length-bits_of nbits cur))
    ∙ sym (length-append (bits_of nbits cur) xs)
    ∙ ap length e
    ∙ length-append (bits_of len code) ys
    ∙ ap (λ n. n + length ys) (length-bits_of len code)

pub decode_tail-codes :
    (turns nbits cur p out_sz at : ℕ) (n : Node) (s : Bytes) (bits : Bits)
    → Waits n s bits
    → bits_of nbits cur ≡ bits ++ bits_of p 255
    → nbits < 8
    → nbits < turns
    → at + length s ≤ out_sz
    → decode_tail turns hf_init n cur nbits out_sz at ≡ decoded s
decode_tail-codes zero nbits cur p out_sz at n s bits w e h l o = absurd (omega arith)
decode_tail-codes (suc turns) nbits cur p out_sz at n s bits (idle r none_left no_bits) e h l o =
    let ones : bits_of nbits cur ≡ bits_of p 255 = e ∙ ap (λ b. b ++ bits_of p 255) no_bits in
    let same : nbits ≡ p = sym (length-bits_of nbits cur) ∙ ap length ones ∙ length-bits_of p 255 in
    rw r (
      rw none_left (
        decode_tail-padding (suc turns) nbits cur out_sz at h l
          (bits_of_inj nbits cur 255 (ones ∙ ap (λ w. bits_of w 255) (sym same)))))
decode_tail-codes (suc turns) nbits cur p out_sz at n s bits (within k c code len t es h0 ht eb) e h
      l o =
    let pad : Bits = bits_of p 255 in
    let codes : bits_of nbits cur ++ [] ≡ bits_of len code ++ (string_bits t ++ pad) =
      append-nil (bits_of nbits cur)
      ∙ e
      ∙ ap (λ b. b ++ pad) eb
      ∙ append_assoc (bits_of len code) (string_bits t) pad in
    let fits : len ≤ nbits =
      omega (arith, bits_length nbits cur len code [] (string_bits t ++ pad) codes) in
    let (first, rest) = take_code len nbits cur code [] (string_bits t ++ pad) fits codes in
    let found : Leaf c len (get_child (cur * 2 ^ (8 - nbits) % 2 ^ 8) (children n)) =
      leads_to-Leaf k n c code len _ h0 (omega arith) (tail_place len nbits cur fits h ∙ first) in
    let room : at + suc (length t) ≤ out_sz = subst (λ v. at + length v ≤ out_sz) es o in
    decode_tail-Leaf hf_init n cur nbits out_sz at turns c len found fits (omega arith)
    ∙ ap (with_symbol c) (
        decode_tail-codes turns (nbits - len) cur p out_sz (at + 1) hf_init t (string_bits t)
          (root-Waits t ht) (sym (append-nil _) ∙ rest) (omega arith)
          (omega (arith, Leaf-pos found)) (omega arith))
    ∙ ap decoded (sym es)
