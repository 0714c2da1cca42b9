-- ===== src/Cgi/Ends.antt =====
-- The reading loops of src/cgi.cpp and src/scgi.cpp end by themselves.
use heaphttpd.Prelude.{
  ℕ, zero, suc, ◌+◌, ◌-◌, ◌*◌, ◌≤◌, ◌<◌, ◌≡◌, ◌≢◌, Bool, true, false, List, [], ◌∷◌, ◌++◌, Bytes,
  length, take, drop, ltb, leb, ◌==◌, if◌then◌else◌, arith, length-append, Bool-cases, inl, inr,
}
use heaphttpd.Socket.{
  Arrival, arrived, again, broken, timeout, Socket, Received, got, failed, ended, recv_loop,
  recv_all,
}
use heaphttpd.Socket.Streams.{flat}
use heaphttpd.Cgi.{received, cgi_recv, AppReading, out_of_fuel, piece_read, read_app_data}

-- the bytes that are got, and those that still come
abbrev size : Received → ℕ
size (got bs es) = length bs + length (flat es)
size (failed es) = length (flat es)

size-ended :
    (ssl : Bool) (buf : Bytes) (es : List Arrival)
    → size (ended ssl buf es) ≤ length buf + length (flat es)
unfolding ended
size-ended true buf es = omega arith
size-ended false buf es = omega arith

length-take : (n : ℕ) (xs : Bytes) → length (take n xs) + length (drop n xs) ≡ length xs
length-take zero xs = omega arith
length-take (suc n) [] = omega arith
length-take (suc n) (x ∷ xs) = omega (arith, length-take n xs)

size-enough :
    (want : ℕ) (bs buf : Bytes) (es : List Arrival)
    → want ≤ length bs
    → size
        (got (buf ++ take want bs) (if length bs == want then es else arrived (drop want bs) ∷ es))
      ≤ length buf + (length bs + length (flat es))
size-enough want bs buf es h = elim (Bool-cases (length bs == want)) [
  | inl same ↦ rw same (omega (arith, length-append buf (take want bs), length-take want bs))
  | inr more ↦ rw more (
      omega (
        arith,
        length-append buf (take want bs),
        length-take want bs,
        length-append (drop want bs) (flat es),
      ))
]

size-recv_loop :
    (ssl : Bool) (es : List Arrival) (want : ℕ) (buf : Bytes)
    → size (recv_loop ssl es want buf) ≤ length buf + length (flat es)
unfolding recv_loop
size-recv_loop ssl [] want buf = omega arith
size-recv_loop ssl (arrived bs ∷ es) want buf = elim (Bool-cases (length bs == 0)) [
  | inl closed ↦ rw closed (omega (arith, size-ended ssl buf es, length-append bs (flat es)))
  | inr some_ ↦ elim (Bool-cases (ltb (length bs) want)) [
    | inl less ↦
        rw (some_, less)
          (omega (
            arith,
            size-recv_loop ssl es (want - length bs) (buf ++ bs),
            length-append buf bs,
            length-append bs (flat es),
          ))
    | inr enough ↦
        rw (some_, enough)
          (omega (arith, size-enough want bs buf es (ground arith), length-append bs (flat es)))
  ]
]
size-recv_loop ssl (again ∷ es) want buf = size-recv_loop ssl es want buf
size-recv_loop ssl (broken ∷ es) want buf = size-ended ssl buf es
size-recv_loop ssl (timeout ∷ es) want buf = omega arith

size-recv_all : (want : ℕ) (s : Socket) → size (recv_all want s) ≤ length (flat s.incoming)
unfolding recv_all
size-recv_all want s = elim (Bool-cases (want == 0)) [
  | inl nothing ↦ rw nothing (omega (arith, size-ended s.ssl [] s.incoming))
  | inr something ↦ rw something (omega (arith, size-recv_loop s.ssl s.incoming want []))
]

piece_ends :
    (r : Received) (s : Socket) (response : Bytes) (next : Bytes → Socket → AppReading)
    → ((bs : Bytes) (s' : Socket) → length (flat s'.incoming) < size r → next bs s' ≢ out_of_fuel)
    → piece_read response (received r s) next ≢ out_of_fuel
piece_ends (got [] es) s response next ends = cc
piece_ends (got (b ∷ bs) es) s response next ends =
    elim (Bool-cases (leb (1024 * 64) (length (response ++ b ∷ bs)))) [
      | inl full ↦ rw full (cc)
      | inr more ↦ rw more (ends (response ++ b ∷ bs) (record s { incoming = es }) (omega arith))
    ]
piece_ends (failed es) s response next ends = cc

-- A turn takes a byte at least, so one turn more than bytes come is enough, whatever arrives.
pub read_app_data-ne-out_of_fuel :
    (fuel piece : ℕ) (opened : Bool) (response : Bytes) (s : Socket)
    → length (flat s.incoming) < fuel
    → read_app_data fuel piece opened response s ≢ out_of_fuel
unfolding read_app_data cgi_recv
read_app_data-ne-out_of_fuel zero piece opened response s h = absurd (omega arith)
read_app_data-ne-out_of_fuel (suc fuel) piece false response s h = cc
read_app_data-ne-out_of_fuel (suc fuel) piece true response s h =
    piece_ends (recv_all piece s) s response (read_app_data fuel piece true) (λ bs s' l.
      read_app_data-ne-out_of_fuel fuel piece true bs s' (omega (arith, size-recv_all piece s)))
