-- ===== src/Socket/Streams.antt =====
-- A socket whose peer keeps up: the order in which the bytes arrive or are taken does not matter.
use heaphttpd.Prelude.{
  ℕ, zero, suc, ◌+◌, ◌-◌, ◌≤◌, ◌<◌, ◌≡◌, refl, sym, ap, ◌∙◌, Bool, true, List, [], ◌∷◌, ◌++◌, Bytes,
  length, take, drop, ◌==◌, if◌then◌else◌, arith, length-append, Bool-cases, inl, inr,
}
use native.Mathlib.Decide.{dec_lt, dec_le}
use mathlib.Core.List.{append_assoc, append-nil}
use heaphttpd.Socket.{
  Arrival, arrived, again, broken, timeout, Uptake, taken, retry, refused, Socket, got, recv_loop,
  send_loop, send_all,
}

-- Nothing but bytes and retries arrives.
abbrev pub Healthy : List Arrival → Type 0
Healthy [] = Unit
Healthy (arrived bs ∷ es) = (0 < length bs) × Healthy es
Healthy (again ∷ es) = Healthy es
Healthy (broken ∷ es) = ⊥
Healthy (timeout ∷ es) = ⊥

-- all bytes that arrive
abbrev pub flat : List Arrival → Bytes
flat [] = []
flat (arrived bs ∷ es) = bs ++ flat es
flat (_ ∷ es) = flat es

-- Nothing but bytes and retries happens when something is sent.
abbrev pub Obliging : List Uptake → Type 0
Obliging [] = Unit
Obliging (taken n ∷ os) = (0 < n) × Obliging os
Obliging (retry ∷ os) = Obliging os
Obliging (refused ∷ os) = ⊥

-- how often bytes are taken
abbrev pub takings : List Uptake → ℕ
takings [] = 0
takings (taken n ∷ os) = takings os + 1
takings (_ ∷ os) = takings os

take-append_short : (n : ℕ) (xs ys : Bytes) → n ≤ length xs → take n (xs ++ ys) ≡ take n xs
take-append_short zero xs ys h = refl
take-append_short (suc n) [] ys h = absurd (omega arith)
take-append_short (suc n) (x ∷ xs) ys h = ap (◌∷◌ x) (take-append_short n xs ys (omega arith))

drop-append_short : (n : ℕ) (xs ys : Bytes) → n ≤ length xs → drop n (xs ++ ys) ≡ drop n xs ++ ys
drop-append_short zero xs ys h = refl
drop-append_short (suc n) [] ys h = absurd (omega arith)
drop-append_short (suc n) (x ∷ xs) ys h = drop-append_short n xs ys (omega arith)

take-append_long :
    (n : ℕ) (xs ys : Bytes) → length xs ≤ n → take n (xs ++ ys) ≡ xs ++ take (n - length xs) ys
take-append_long n [] ys h = ap (λ k. take k ys) {x = n} (omega arith)
take-append_long zero (x ∷ xs) ys h = absurd (omega arith)
take-append_long (suc n) (x ∷ xs) ys h = ground (arith, take-append_long n xs ys (omega arith))

drop-append_long :
    (n : ℕ) (xs ys : Bytes) → length xs ≤ n → drop n (xs ++ ys) ≡ drop (n - length xs) ys
drop-append_long n [] ys h = ap (λ k. drop k ys) {x = n} (omega arith)
drop-append_long zero (x ∷ xs) ys h = absurd (omega arith)
drop-append_long (suc n) (x ∷ xs) ys h = ground (arith, drop-append_long n xs ys (omega arith))

length-drop : (n : ℕ) (xs : Bytes) → length (drop n xs) ≡ length xs - n
length-drop zero xs = omega arith
length-drop (suc n) [] = omega arith
length-drop (suc n) (x ∷ xs) = omega (arith, length-drop n xs)

take-length : (xs : Bytes) → take (length xs) xs ≡ xs
take-length [] = refl
take-length (x ∷ xs) = ap (◌∷◌ x) (take-length xs)

drop-length : (xs : Bytes) → drop (length xs) xs ≡ []
drop-length [] = refl
drop-length (x ∷ xs) = drop-length xs

take_all : (n : ℕ) (xs : Bytes) → length xs ≤ n → take n xs ≡ xs
take_all zero [] h = refl
take_all zero (x ∷ xs) h = absurd (omega arith)
take_all (suc n) [] h = refl
take_all (suc n) (x ∷ xs) h = ap (◌∷◌ x) (take_all n xs (omega arith))

-- what is left of the arrivals when `want` bytes are taken from the first
after_first : ℕ → Bytes → List Arrival → List Arrival
after_first want bs es = if length bs == want then es else arrived (drop want bs) ∷ es

after_first-flat :
    (want : ℕ) (bs : Bytes) (es : List Arrival)
    → want ≤ length bs
    → flat (after_first want bs es) ≡ drop want (bs ++ flat es)
unfolding after_first
after_first-flat want bs es h = elim (Bool-cases (length bs == want)) [
  | inl same ↦ ground (arith, drop-append_long want bs (flat es) (ground arith))
  | inr more ↦ ground (arith, drop-append_short want bs (flat es) h)
]

after_first-Healthy :
    (want : ℕ) (bs : Bytes) (es : List Arrival)
    → want ≤ length bs
    → Healthy es
    → Healthy (after_first want bs es)
unfolding after_first
after_first-Healthy want bs es h good = elim (Bool-cases (length bs == want)) [
  | inl same ↦ rw same good
  | inr more ↦ rw more (ground (arith, length-drop want bs), good)
]

recv_enough :
    (ssl : Bool) (bs : Bytes) (es : List Arrival) (want : ℕ) (buf : Bytes)
    → 0 < length bs
    → want ≤ length bs
    → recv_loop ssl (arrived bs ∷ es) want buf ≡ got (buf ++ take want bs) (after_first want bs es)
unfolding recv_loop after_first
recv_enough ssl bs es want buf h l = ground arith

recv_more :
    (ssl : Bool) (bs : Bytes) (es : List Arrival) (want : ℕ) (buf : Bytes)
    → 0 < length bs
    → length bs < want
    → recv_loop ssl (arrived bs ∷ es) want buf ≡ recv_loop ssl es (want - length bs) (buf ++ bs)
unfolding recv_loop
recv_more ssl bs es want buf h l = ground arith

-- Whatever the pieces in which the bytes arrive, the loop fills the buffer with the first of them
-- and leaves the others.
pub recv_loop-flat :
    (ssl : Bool) (es : List Arrival) (want : ℕ) (buf : Bytes)
    → Healthy es
    → 0 < want
    → want ≤ length (flat es)
    → (es' : List Arrival) × (recv_loop ssl es want buf ≡ got (buf ++ take want (flat es)) es')
      × Healthy es'
      × (flat es' ≡ drop want (flat es))
unfolding recv_loop
recv_loop-flat ssl [] want buf good pos enough = absurd (omega arith)
recv_loop-flat ssl (arrived bs ∷ es) want buf good pos enough = elim (dec_le want (length bs)) [
  | yes all ↦ (
    after_first want bs es,
    recv_enough ssl bs es want buf good.0 all
        ∙ ap (λ t. got (buf ++ t) (after_first want bs es))
            (sym (take-append_short want bs (flat es) all)),
    after_first-Healthy want bs es all good.1,
    after_first-flat want bs es all,
  )
  | no part ↦
      let (es', r, g, f) =
        recv_loop-flat ssl es (want - length bs) (buf ++ bs) good.1 (omega arith)
          (omega (arith, length-append bs (flat es))) in
      (
        es',
        recv_more ssl bs es want buf good.0 (omega arith)
            ∙ r
            ∙ ap (λ t. got t es')
                (append_assoc buf bs (take (want - length bs) (flat es))
                  ∙ ap (◌++◌ buf) (sym (take-append_long want bs (flat es) (omega arith)))),
        g,
        f ∙ sym (drop-append_long want bs (flat es) (omega arith)),
      )
]
recv_loop-flat ssl (again ∷ es) want buf good pos enough =
    recv_loop-flat ssl es want buf good pos enough
recv_loop-flat ssl (broken ∷ es) want buf good pos enough = absurd good
recv_loop-flat ssl (timeout ∷ es) want buf good pos enough = absurd good

abbrev pub Sends : List Uptake → Bytes → Bytes → Type 0
Sends os bs sent =
    (os' : List Uptake) × (send_loop os bs sent ≡ (true, (sent ++ bs, os')))
    × Obliging os'
    × (takings os ≤ takings os' + length bs)

take-drop : (n : ℕ) (xs : Bytes) → take n xs ++ drop n xs ≡ xs
take-drop zero xs = refl
take-drop (suc n) [] = refl
take-drop (suc n) (x ∷ xs) = ap (◌∷◌ x) (take-drop n xs)

send_part :
    (n : ℕ) (os : List Uptake) (bs sent : Bytes)
    → 0 < n
    → n < length bs
    → send_loop (taken n ∷ os) bs sent ≡ send_loop os (drop n bs) (sent ++ take n bs)
unfolding send_loop
send_part n os bs sent h l = ground arith

send_rest :
    (n : ℕ) (os : List Uptake) (bs sent : Bytes)
    → 0 < n
    → length bs ≤ n
    → send_loop (taken n ∷ os) bs sent ≡ (true, (sent ++ bs, os))
unfolding send_loop
send_rest n os bs sent h l = ground arith

-- With at least as many takings as bytes all bytes go out, whatever the pieces.
pub send_loop-Sends :
    (os : List Uptake) (bs sent : Bytes)
    → Obliging os
    → 0 < length bs
    → length bs ≤ takings os
    → Sends os bs sent
unfolding send_loop
send_loop-Sends [] bs sent good pos enough = absurd (omega arith)
send_loop-Sends (taken n ∷ os) bs sent good pos enough = elim (dec_lt n (length bs)) [
  | yes part ↦
      let (os', r, g, l) =
        send_loop-Sends os (drop n bs) (sent ++ take n bs) good.1 (omega (arith, length-drop n bs))
          (omega (arith, length-drop n bs, good.0)) in
      (
        os',
        send_part n os bs sent good.0 part
            ∙ r
            ∙ ap (λ t. (true, (t, os')))
                (append_assoc sent (take n bs) (drop n bs) ∙ ap (◌++◌ sent) (take-drop n bs)),
        g,
        omega (arith, length-drop n bs, good.0),
      )
  | no all ↦ (os, send_rest n os bs sent good.0 (omega arith), good.1, omega arith)
]
send_loop-Sends (retry ∷ os) bs sent good pos enough = send_loop-Sends os bs sent good pos enough
send_loop-Sends (refused ∷ os) bs sent good pos enough = absurd good

-- `send_all` on a socket with enough takings
pub send_all-Sends :
    (bs : Bytes) (s : Socket)
    → Obliging s.outgoing
    → length bs ≤ takings s.outgoing
    → (os' : List Uptake) × (send_all bs s
        ≡ (true, record s { sent = s.sent ++ bs; outgoing = os' }))
      × Obliging os'
      × (takings s.outgoing ≤ takings os' + length bs)
unfolding send_all
send_all-Sends [] s good enough = (
  s.outgoing,
  ap (λ t. (true, record s { sent = t })) (sym (append-nil s.sent)),
  good,
  omega arith,
)
send_all-Sends (b ∷ bs) s good enough =
    let (os', r, g, l) = send_loop-Sends s.outgoing (b ∷ bs) s.sent good (omega arith) enough in
    (os', ap (λ t. (t.0, record s { sent = t.1.0; outgoing = t.1.1 })) r, g, l)
