-- ===== src/Hpack/Ends.antt =====
-- `hpack::parse` (src/hpack.cpp) ends.
use heaphttpd.Prelude.{
  Option, none, some, ℕ, zero, suc, ◌+◌, ◌<◌, ◌≤◌, ◌≡◌, refl, ◌∙◌, inl, inr, false, List, [], ◌∷◌,
  ◌++◌, Bytes, ltb, arith, Bool-cases,
}
use heaphttpd.Hpack.Fields.{Header, Result, ok, failed, undefined, parse_field, parse_loop, parse}
use heaphttpd.Hpack.Progress.{parse_field-lt}

-- The loop as it goes on behind the result `f` for a field.
abbrev after_field :
    ℕ → Bytes → ℕ → List Header → Result (Header × ℕ) → Option (Result (List Header))
after_field turns m_field m_len hs f = elim f [
  | ok (header, next) ↦ parse_loop turns m_field m_len next (hs ++ header ∷ [])
  | failed ↦ some failed
  | undefined ↦ some undefined
]

abbrev Ends : Option (Result (List Header)) → Type 0
Ends o = (r : Result (List Header)) × (o ≡ some r)

after_field-Ends :
    (turns : ℕ) (m_field : Bytes) (m_len parsed : ℕ) (hs : List Header)
    → ((next : ℕ) (hs' : List Header)
        → parsed < next
        → Ends (parse_loop turns m_field m_len next hs'))
    → (f : Result (Header × ℕ)) → parse_field m_field parsed ≡ f
    → Ends (after_field turns m_field m_len hs f)
after_field-Ends turns m_field m_len parsed hs go failed e = (failed, refl)
after_field-Ends turns m_field m_len parsed hs go undefined e = (undefined, refl)
after_field-Ends turns m_field m_len parsed hs go (ok r) e =
    go r.1 (hs ++ r.0 ∷ []) (parse_field-lt m_field parsed r e)

-- A loop that has as many turns as bytes are left ends with a result.
parse_loop-Ends :
    (turns : ℕ) (m_field : Bytes) (m_len parsed : ℕ) (hs : List Header)
    → m_len ≤ parsed + turns
    → Ends (parse_loop turns m_field m_len parsed hs)
unfolding parse_loop
parse_loop-Ends zero m_field m_len parsed hs h =
    let over : ltb parsed m_len ≡ false = ground arith in (ok hs, rw over refl)
parse_loop-Ends (suc turns) m_field m_len parsed hs h = elim (Bool-cases (ltb parsed m_len)) [
  | inr over ↦ rw over (ok hs, refl)
  | inl more ↦ rw more (
      after_field-Ends turns m_field m_len parsed hs
        (λ next hs' l. parse_loop-Ends turns m_field m_len next hs' (omega arith))
        (parse_field m_field parsed) refl)
]

-- Turns that are left over change nothing.
after_field_more :
    (turns more : ℕ) (m_field : Bytes) (m_len : ℕ) (hs : List Header) (r : Result (List Header))
    → ((next : ℕ) (hs' : List Header)
        → parse_loop turns m_field m_len next hs' ≡ some r
        → parse_loop (turns + more) m_field m_len next hs' ≡ some r)
    → (f : Result (Header × ℕ)) → after_field turns m_field m_len hs f ≡ some r
    → after_field (turns + more) m_field m_len hs f ≡ some r
after_field_more turns more m_field m_len hs r go failed e = e
after_field_more turns more m_field m_len hs r go undefined e = e
after_field_more turns more m_field m_len hs r go (ok f) e = go f.1 (hs ++ f.0 ∷ []) e

parse_loop_over :
    (turns : ℕ) (m_field : Bytes) (m_len parsed : ℕ) (hs : List Header)
    → ltb parsed m_len ≡ false
    → parse_loop turns m_field m_len parsed hs ≡ some (ok hs)
unfolding parse_loop
parse_loop_over zero m_field m_len parsed hs over = rw over refl
parse_loop_over (suc turns) m_field m_len parsed hs over = rw over refl

parse_loop_more :
    (turns more : ℕ) (m_field : Bytes) (m_len parsed : ℕ) (hs : List Header)
    (r : Result (List Header))
    → parse_loop turns m_field m_len parsed hs ≡ some r
    → parse_loop (turns + more) m_field m_len parsed hs ≡ some r
unfolding parse_loop
parse_loop_more zero more m_field m_len parsed hs r e = elim (Bool-cases (ltb parsed m_len)) [
  | inr over ↦ parse_loop_over (0 + more) m_field m_len parsed hs over ∙ rw over at e
  | inl left ↦ let wrong : none ≡ some r = rw left at e in absurd (ground arith)
]
parse_loop_more (suc turns) more m_field m_len parsed hs r e =
    let one_more : suc turns + more ≡ suc (turns + more) = omega arith in
    elim (Bool-cases (ltb parsed m_len)) [
      | inr over ↦ parse_loop_over (suc turns + more) m_field m_len parsed hs over ∙ rw over at e
      | inl left ↦ rw one_more (
          rw left (
            after_field_more turns more m_field m_len hs r
              (λ next hs' l. parse_loop_more turns more m_field m_len next hs' r l)
              (parse_field m_field parsed) (rw left at e)))
    ]

-- `hpack::parse` ends by itself, with the headers, a failure or a read outside of the memory, and
-- never because its turns are over; with more turns the result is the same.
pub parse_ends :
    (hs : List Header) (field : Bytes) (len more : ℕ)
    → (r : Result (List Header)) × (parse hs field len ≡ some r)
      × (parse_loop (len + more) field len 0 hs ≡ some r)
unfolding parse
parse_ends hs field len more =
    let (r, e) = parse_loop-Ends len field len 0 hs (omega arith) in
    (r, e, parse_loop_more len more field len 0 hs r e)
