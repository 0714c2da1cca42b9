-- ===== src/Hpack/Huffman/Input.antt =====
-- The loops of `hf_string_decode` on whole inputs, by induction on the turns that are left.
use heaphttpd.Prelude.{
  ℕ, zero, suc, ◌+◌, ◌-◌, ◌*◌, ◌/◌, ◌%◌, ◌^◌, ◌≤◌, ◌<◌, ◌≡◌, refl, sym, ap, ◌∙◌, true, arith, Bytes,
  IsByte, All, [], ◌∷◌, ◌++◌, length,
}
use heaphttpd.Hpack.Huffman.Tree.{Node, children, get_child, hf_init}
use heaphttpd.Hpack.Huffman.Codes.{leads_to}
use heaphttpd.Hpack.Huffman.Bits.{
  Bits, bits_of, byte_bits, string_bits, length-bits_of, bits_of-split, bits_of-shift,
}
use heaphttpd.Hpack.Huffman.Decode.{decoded, with_symbol, decode_loop}
use heaphttpd.Hpack.Huffman.Leaves.{Leaf, Leaf-pos, Inner, leads_to-Leaf, leads_to-Inner}
use heaphttpd.Hpack.Huffman.Reading.{
  decode_loop-Leaf, decode_loop-Inner, decode_loop-byte, decode_loop-end,
}
use mathlib.Core.List.{append_assoc, append-nil}
use mathlib.Core.Path.{subst}
use heaphttpd.Hpack.Huffman.Strings.{
  Waits, idle, within, root-Waits, take_code, loop_place, bits_length, decode_tail-codes,
}
use heaphttpd.Prelude.{inl, inr, lt_or_ge}

-- A byte more of the input, with the bits in order.
byte_in :
    (nbits cur b : ℕ) (enc : Bytes) (rest : Bits)
    → nbits < 8
    → b < 256
    → bits_of nbits cur ++ byte_bits (b ∷ enc) ≡ rest
    → bits_of (nbits + 8) ((cur * 2 ^ 8 + b) % 2 ^ 32) ++ byte_bits enc ≡ rest
unfolding byte_bits
byte_in nbits cur b enc rest h hb e =
    ap (λ l. l ++ byte_bits enc) (bits_of-shift nbits cur b (omega arith) hb)
    ∙ append_assoc (bits_of nbits cur) (bits_of 8 b) (byte_bits enc)
    ∙ e

module _ (p out_sz : ℕ) where
  -- what is known where the decoder stands at `n` with `nbits` bits of `cur`
  pub record Ready (n : Node) (s : Bytes) (bits : Bits) (enc : Bytes) (nbits cur at : ℕ)
      : Type 0 where
    pub waits : Waits n s bits
    pub codes : bits_of nbits cur ++ byte_bits enc ≡ bits ++ bits_of p 255
    pub input : All IsByte enc
    pub padding : p < 8
    pub few : nbits < 16
    pub room : at + length s ≤ out_sz

  -- The claim for the turns that are left.
  abbrev Decodes : ℕ → Type 0
  Decodes turns =
      (nbits cur at : ℕ) (enc : Bytes) (n : Node) (s : Bytes) (bits : Bits)
      → Ready n s bits enc nbits cur at
      → 9 * length enc + nbits < turns
      → decode_loop turns hf_init n enc cur nbits out_sz at ≡ decoded s

  module _ (turns : ℕ) (ih : Decodes turns) (nbits cur at : ℕ) (enc : Bytes) (n : Node) (s : Bytes)
      (bits : Bits) (r : Ready n s bits enc nbits cur at) (l : 9 * length enc + nbits < suc turns)
      (full : 8 ≤ nbits) (k c code len : ℕ) (t : Bytes) (es : s ≡ c ∷ t)
      (h : leads_to k n c code len ≡ true) (ht : All IsByte t)
      (eb : bits ≡ bits_of len code ++ string_bits t) where
    abbrev pad : Bits
    pad = bits_of p 255

    ordered : bits_of nbits cur ++ byte_bits enc ≡ bits_of len code ++ (string_bits t ++ pad)
    ordered = r.codes ∙ ap (λ b. b ++ pad) eb ∙ append_assoc (bits_of len code) (string_bits t) pad

    room' : at + suc (length t) ≤ out_sz
    room' = subst (λ v. at + length v ≤ out_sz) es r.room

    decode_loop-symbol :
        len ≤ 8 → decode_loop (suc turns) hf_init n enc cur nbits out_sz at ≡ decoded s
    decode_loop-symbol short =
        let (first, rest) =
          take_code len nbits cur code (byte_bits enc) (string_bits t ++ pad) (omega arith)
            ordered in
        let found : Leaf c len (get_child (cur / 2 ^ (nbits - 8) % 2 ^ 8) (children n)) =
          leads_to-Leaf k n c code len _ h short (loop_place len nbits cur short full ∙ first) in
        decode_loop-Leaf hf_init n cur nbits out_sz at turns c len enc found full
          (omega (arith, room'))
        ∙ ap (with_symbol c) (
            ih (nbits - len) cur (at + 1) enc hf_init t (string_bits t)
              record {
                waits = root-Waits t ht;
                codes = rest;
                input = r.input;
                padding = r.padding;
                few = omega (arith, r.few);
                room = omega (arith, room');
              }
              (omega (arith, Leaf-pos found)))
        ∙ ap decoded (sym es)

    decode_loop-deeper :
        8 < len → decode_loop (suc turns) hf_init n enc cur nbits out_sz at ≡ decoded s
    decode_loop-deeper long =
        let top : Bits = bits_of 8 (code / 2 ^ (len - 8)) in
        let low : Bits = bits_of (len - 8) code in
        let split : bits_of len code ≡ top ++ low =
          ap (λ w. bits_of w code) {x = len} {y = 8 + (len - 8)} (omega arith)
          ∙ bits_of-split 8 (len - 8) code in
        let (first, rest) =
          take_code 8 nbits cur (code / 2 ^ (len - 8)) (byte_bits enc)
            (low ++ (string_bits t ++ pad)) full
            (ordered
              ∙ ap (λ b. b ++ (string_bits t ++ pad)) split
              ∙ append_assoc top low (string_bits t ++ pad)) in
        let (j, i) = leads_to-Inner k n c code len h long in
        let (m, h', step) =
          decode_loop-Inner hf_init n cur nbits out_sz at turns j c code (len - 8) enc
            (subst (λ x. Inner j c code (len - 8) (get_child x (children n))) (sym first) i) full in
        step
        ∙ ih (nbits - 8) cur at enc m s (low ++ string_bits t)
            record {
              waits = within j c code (len - 8) t es h' ht refl;
              codes = rest ∙ sym (append_assoc low (string_bits t) pad);
              input = r.input;
              padding = r.padding;
              few = omega (arith, r.few);
              room = r.room;
            }
            (omega (arith, l))

  decode_loop-full :
      (turns : ℕ)
      → Decodes turns
      → (nbits cur at : ℕ) (enc : Bytes) (n : Node) (s : Bytes) (bits : Bits) → Waits n s bits
      → Ready n s bits enc nbits cur at
      → 9 * length enc + nbits < suc turns
      → 8 ≤ nbits
      → decode_loop (suc turns) hf_init n enc cur nbits out_sz at ≡ decoded s
  unfolding bits_of
  decode_loop-full turns ih nbits cur at enc n s bits (idle e es eb) r l full =
      let total : nbits + length (byte_bits enc) ≡ 0 + length (bits_of p 255) =
        bits_length nbits cur 0 0 (byte_bits enc) (bits_of p 255)
          (r.codes ∙ ap (λ b. b ++ bits_of p 255) eb) in
      absurd (omega (arith, total, length-bits_of p 255, r.padding))
  decode_loop-full turns ih nbits cur at enc n s bits (within k c code len t es h ht eb) r l full =
      elim (lt_or_ge 8 len) [
        | inl long ↦
            decode_loop-deeper turns ih nbits cur at enc n s bits r l full k c code len t es h ht eb
              long
        | inr short ↦
            decode_loop-symbol turns ih nbits cur at enc n s bits r l full k c code len t es h ht eb
              short
      ]

  decode_loop-few :
      (turns : ℕ)
      → Decodes turns
      → (nbits cur at : ℕ) (enc : Bytes) (n : Node) (s : Bytes) (bits : Bits)
      → Ready n s bits enc nbits cur at
      → 9 * length enc + nbits < suc turns
      → nbits < 8
      → decode_loop (suc turns) hf_init n enc cur nbits out_sz at ≡ decoded s
  unfolding byte_bits
  decode_loop-few turns ih nbits cur at [] n s bits r l h =
      decode_loop-end hf_init n cur nbits out_sz at turns h
      ∙ decode_tail-codes (nbits + 1) nbits cur p out_sz at n s bits r.waits
          (sym (append-nil _) ∙ r.codes) h (omega arith) r.room
  decode_loop-few turns ih nbits cur at (b ∷ enc) n s bits r l h =
      decode_loop-byte hf_init n cur nbits out_sz at turns b enc h
      ∙ ih (nbits + 8) ((cur * 2 ^ 8 + b) % 2 ^ 32) at enc n s bits
          record {
            waits = r.waits;
            codes = byte_in nbits cur b enc _ h r.input.0 r.codes;
            input = r.input.1;
            padding = r.padding;
            few = omega arith;
            room = r.room;
          }
          (omega (arith, l))

  pub decode_loop-codes : (turns : ℕ) → Decodes turns
  decode_loop-codes zero nbits cur at enc n s bits r l = absurd (omega (arith, l))
  decode_loop-codes (suc turns) nbits cur at enc n s bits r l = elim (lt_or_ge nbits 8) [
    | inl few ↦ decode_loop-few turns (decode_loop-codes turns) nbits cur at enc n s bits r l few
    | inr full ↦
        decode_loop-full turns (decode_loop-codes turns) nbits cur at enc n s bits r.waits r l full
  ]
