-- ===== src/Http1/Pieces.antt =====
-- CHttp::LineParse (src/http.cpp) does not depend on the pieces in which a header comes.
use heaphttpd.Prelude.{
  ℕ, zero, suc, ◌<◌, ◌≡◌, ◌≢◌, refl, sym, ap, ◌∙◌, Bool, true, false, List, [], ◌∷◌, ◌++◌, Option,
  none, some, Bytes, All, length, ◌==◌, arith, length-append, Bool-cases, Option-cases, inl, inr,
}
use mathlib.Core.List.{append_assoc, append-nil}
use heaphttpd.Text.{c_str}
use heaphttpd.Text.Separator.{HasNoZero}
use heaphttpd.Http1.{HttpRequest, Outside}
use heaphttpd.Http1.Lines.{
  Parsing, out_of_fuel, waits, finished, take_line, cut_line, line_taken, line_loop, line_parse,
}

abbrev line_append : Option (Bytes × Bytes) → Bytes → Option (Bytes × Bytes)
line_append none ys = none
line_append (some (line, rest)) ys = some (line, rest ++ ys)

cut_line-append :
    (xs ys : Bytes) {line rest : Bytes}
    → cut_line xs ≡ some (line, rest)
    → cut_line (xs ++ ys) ≡ some (line, rest ++ ys)
unfolding cut_line
cut_line-append [] ys e = cc
cut_line-append (x ∷ xs) ys e = elim (Bool-cases (x == 0x0a)) [
  | inl end_ ↦ ground arith
  | inr inside ↦ elim (Option-cases (cut_line xs)) [
    | inl no_line ↦ cc (rw (inside, no_line) at e)
    | inr ((l, r), found) ↦
        rw (inside, cut_line-append xs ys found)
          (ap (λ o. line_append o ys) (rw (inside, found) at e))
  ]
]

length-cut_line :
    (xs : Bytes) {line rest : Bytes} → cut_line xs ≡ some (line, rest) → length rest < length xs
unfolding cut_line
length-cut_line [] e = cc
length-cut_line (x ∷ xs) {rest} e = elim (Bool-cases (x == 0x0a)) [
  | inl end_ ↦ ground arith
  | inr inside ↦ elim (Option-cases (cut_line xs)) [
    | inl no_line ↦ cc (rw (inside, no_line) at e)
    | inr ((l, r), found) ↦ ground (arith, length-cut_line xs found)
  ]
]

line_taken-eq :
    (rest : Bytes) (t : Bool × HttpRequest) (next next' : HttpRequest → Parsing)
    → ((r : HttpRequest) → next r ≡ next' r)
    → line_taken rest t next ≡ line_taken rest t next'
line_taken-eq rest (true, r) next next' h = refl
line_taken-eq rest (false, r) next next' h = h r

module _ (o : Outside) where
  -- More turns than bytes change nothing.
  line_loop-fuel :
      (f g : ℕ) (xs : Bytes) (r : HttpRequest)
      → length xs < f
      → length xs < g
      → line_loop f o xs r ≡ line_loop g o xs r
  unfolding line_loop
  line_loop-fuel zero g xs r hf hg = absurd (omega arith)
  line_loop-fuel (suc f) zero xs r hf hg = absurd (omega arith)
  line_loop-fuel (suc f) (suc g) xs r hf hg = elim (Option-cases (cut_line xs)) [
    | inl no_line ↦ rw no_line
    | inr ((line, rest), found) ↦ rw found (
        line_taken-eq rest (take_line o line r) (line_loop f o rest) (line_loop g o rest) (λ r'.
          line_loop-fuel f g rest r' (omega (arith, length-cut_line xs found))
            (omega (arith, length-cut_line xs found))))
  ]

  line_taken-ends :
      (rest : Bytes) (t : Bool × HttpRequest) (next : HttpRequest → Parsing)
      → ((r : HttpRequest) → next r ≢ out_of_fuel)
      → line_taken rest t next ≢ out_of_fuel
  line_taken-ends rest (true, r) next h = cc
  line_taken-ends rest (false, r) next h = h r

  line_loop-ends :
      (f : ℕ) (xs : Bytes) (r : HttpRequest) → length xs < f → line_loop f o xs r ≢ out_of_fuel
  unfolding line_loop
  line_loop-ends zero xs r h = absurd (omega arith)
  line_loop-ends (suc f) xs r h = elim (Option-cases (cut_line xs)) [
    | inl no_line ↦ rw no_line (cc)
    | inr ((line, rest), found) ↦ rw found (
        line_taken-ends rest (take_line o line r) (line_loop f o rest)
          (λ r'. line_loop-ends f rest r' (omega (arith, length-cut_line xs found))))
  ]

  -- what happens where more text stands behind
  abbrev extended : Parsing → Bytes → Parsing
  extended out_of_fuel ys = out_of_fuel
  extended (waits xs r) ys = line_loop (suc (length (xs ++ ys))) o (xs ++ ys) r
  extended (finished xs r) ys = finished (xs ++ ys) r

  line_taken-extended :
      (rest ys : Bytes) (t : Bool × HttpRequest) (next next' : HttpRequest → Parsing)
      → ((r : HttpRequest) → next' r ≡ extended (next r) ys)
      → line_taken (rest ++ ys) t next' ≡ extended (line_taken rest t next) ys
  line_taken-extended rest ys (true, r) next next' h = refl
  line_taken-extended rest ys (false, r) next next' h = h r

  line_loop-append :
      (f g : ℕ) (xs ys : Bytes) (r : HttpRequest)
      → length xs < f
      → length (xs ++ ys) < g
      → line_loop g o (xs ++ ys) r ≡ extended (line_loop f o xs r) ys
  unfolding line_loop
  line_loop-append zero g xs ys r hf hg = absurd (omega arith)
  line_loop-append (suc f) zero xs ys r hf hg = absurd (omega arith)
  line_loop-append (suc f) (suc g) xs ys r hf hg = elim (Option-cases (cut_line xs)) [
    | inl no_line ↦
        rw no_line (line_loop-fuel (suc g) (suc (length (xs ++ ys))) (xs ++ ys) r hg (omega arith))
    | inr ((line, rest), found) ↦
        let shorter : length rest < length xs = length-cut_line xs found in
        rw (found, cut_line-append xs ys found)
          (line_taken-extended rest ys (take_line o line r) (line_loop f o rest)
            (line_loop g o (rest ++ ys))
            (λ r'.
              line_loop-append f g rest ys r' (omega arith)
                (omega (arith, length-append xs ys, length-append rest ys))))
  ]

c_str-append : (xs ys : Bytes) → HasNoZero xs → c_str (xs ++ ys) ≡ c_str xs ++ c_str ys
unfolding c_str
c_str-append [] ys h = refl
c_str-append (x ∷ xs) ys h = ground (arith, c_str-append xs ys h.1)

-- What comes of a call with `more` behind what has come of the last: LineParse if it waits. What
-- comes behind the header is kept.
abbrev pub and_more : Outside → Parsing → Bytes → Parsing
and_more o out_of_fuel more = out_of_fuel
and_more o (waits line_text r) more = line_parse o more line_text r
and_more o (finished line_text r) more = finished (line_text ++ c_str more) r

-- the calls with the pieces
abbrev pub feed : Outside → Parsing → List Bytes → Parsing
feed o p [] = p
feed o p (t ∷ ts) = feed o (and_more o p t) ts

abbrev pub joined : List Bytes → Bytes
joined [] = []
joined (t ∷ ts) = t ++ joined ts

extended-line_parse :
    (o : Outside) (p : Parsing) (more : Bytes) → extended o p (c_str more) ≡ and_more o p more
unfolding line_parse
extended-line_parse o out_of_fuel more = refl
extended-line_parse o (waits xs r) more = refl
extended-line_parse o (finished xs r) more = refl

line_parse_whole :
    (o : Outside) (t u line_text : Bytes) (r : HttpRequest)
    → HasNoZero t
    → line_parse o (t ++ u) line_text r ≡ extended o (line_parse o t line_text r) (c_str u)
unfolding line_parse
line_parse_whole o t u line_text r h =
    rw (c_str-append t u h, ← append_assoc line_text (c_str t) (c_str u))
      (line_loop-append o (suc (length (line_text ++ c_str t)))
        (suc (length ((line_text ++ c_str t) ++ c_str u))) (line_text ++ c_str t) (c_str u) r
        (omega arith) (omega arith))

-- Two pieces that come one after the other.
line_parse-append :
    (o : Outside) (t u line_text : Bytes) (r : HttpRequest)
    → HasNoZero t
    → line_parse o (t ++ u) line_text r ≡ and_more o (line_parse o t line_text r) u
line_parse-append o t u line_text r h =
    line_parse_whole o t u line_text r h ∙ extended-line_parse o (line_parse o t line_text r) u

and_more-append :
    (o : Outside) (p : Parsing) (t u : Bytes)
    → HasNoZero t
    → and_more o (and_more o p t) u ≡ and_more o p (t ++ u)
and_more-append o out_of_fuel t u h = refl
and_more-append o (waits xs r) t u h = sym (line_parse-append o t u xs r h)
and_more-append o (finished xs r) t u h =
    ap (λ ys. finished ys r)
      (append_assoc xs (c_str t) (c_str u) ∙ ap (◌++◌ xs) (sym (c_str-append t u h)))

feed-joined :
    (o : Outside) (p : Parsing) (t : Bytes) (ts : List Bytes)
    → All HasNoZero (t ∷ ts)
    → feed o p (t ∷ ts) ≡ and_more o p (joined (t ∷ ts))
feed-joined o p t [] h = ap (and_more o p) (sym (append-nil t))
feed-joined o p t (u ∷ us) h =
    feed-joined o (and_more o p t) u us h.1 ∙ and_more-append o p t (joined (u ∷ us)) h.0

line_parse-ends :
    (o : Outside) (t line_text : Bytes) (r : HttpRequest) → line_parse o t line_text r ≢ out_of_fuel
unfolding line_parse
line_parse-ends o t line_text r =
    line_loop-ends o (suc (length (line_text ++ c_str t))) (line_text ++ c_str t) r (omega arith)

-- Whatever ParseMethod and WWW_Auth do, one call of LineParse with a text that has no zero ends, and
-- comes to the same, the whole request, the text that is left and how it is left included, as calls
-- with the pieces of the text, however it is cut, until the header is finished; what comes in later
-- pieces is then behind what is left.
pub line_parse-feed :
    (o : Outside) (t : Bytes) (ts : List Bytes) (line_text : Bytes) (r : HttpRequest)
    → All HasNoZero (t ∷ ts)
    → (line_parse o (joined (t ∷ ts)) line_text r ≢ out_of_fuel)
      × (line_parse o (joined (t ∷ ts)) line_text r ≡ feed o (waits line_text r) (t ∷ ts))
line_parse-feed o t ts line_text r h = (
  line_parse-ends o (joined (t ∷ ts)) line_text r,
  sym (feed-joined o (waits line_text r) t ts h),
)
