-- ===== src/Scgi/RoundTrip.antt =====
-- A request of the SCGI client of src/scgi.cpp, as the reader of the specification reads it.
use heaphttpd.Prelude.{
  ℕ, zero, suc, ◌+◌, ◌%◌, ◌^◌, ◌<◌, ◌≤◌, ◌≡◌, refl, sym, ap, ◌∙◌, true, ◌||◌, List, [], ◌∷◌, ◌++◌,
  none, some, Bytes, All, length, if◌then◌else◌, arith, Bool-cases, inl, inr, length-append,
}
use mathlib.Core.List.{append_assoc, append-nil}
use heaphttpd.Text.{c_str, same_string, decimal}
use heaphttpd.Socket.{Socket}
use heaphttpd.Socket.Streams.{Obliging, takings, send_all-Sends}
use heaphttpd.Cgi.{cgi_send}
use heaphttpd.FastCgi.Records.{split}
use heaphttpd.FastCgi.Length.{split-length}
use heaphttpd.Scgi.{
  Scgi, content_length_name, scgi_name, with_zero, other_params, scgi_headers,
  scgi_send_params_and_data,
}
use heaphttpd.Scgi.Netstring.{
  read_decimal, expect, read_netstring, read_text, read_headers, read_request,
}
use heaphttpd.Text.Separator.{HasNoZero}
use heaphttpd.Scgi.Decimal.{read_decimal-decimal, decimal-HasNoZero}

read_text-with_zero :
    (text rest : Bytes) → HasNoZero text → read_text (with_zero text ++ rest) ≡ some (text, rest)
unfolding read_text c_str
read_text-with_zero [] rest h = refl
read_text-with_zero (b ∷ bs) rest h = ground (arith, read_text-with_zero bs rest h.1)

read_headers_step :
    (fuel : ℕ) (bs r1 r2 name value : Bytes) (headers : List (Bytes × Bytes))
    → read_text bs ≡ some (name, r1)
    → read_text r1 ≡ some (value, r2)
    → read_headers fuel r2 ≡ some headers
    → read_headers (suc fuel) bs ≡ some ((name, value) ∷ headers)
unfolding read_headers
read_headers_step fuel [] r1 r2 name value headers e1 e2 e3 = cc (no_text, e1)
  where
    no_text : read_text [] ≡ none
    no_text = unfold read_text in refl
read_headers_step fuel (b ∷ bs) r1 r2 name value headers e1 e2 e3 = rw (e1, e2, e3)

-- The headers are read from this text, if it is looked at for long enough.
abbrev ReadsHeaders : Bytes → List (Bytes × Bytes) → Type 0
ReadsHeaders bs headers = (fuel : ℕ) → length bs ≤ fuel → read_headers fuel bs ≡ some headers

header-ReadsHeaders :
    (name value rest : Bytes) (headers : List (Bytes × Bytes))
    → HasNoZero name
    → HasNoZero value
    → ReadsHeaders rest headers
    → ReadsHeaders (with_zero name ++ (with_zero value ++ rest)) ((name, value) ∷ headers)
header-ReadsHeaders name value rest headers hn hv reads zero l = absurd (
    omega (
      arith,
      length-append (with_zero name) (with_zero value ++ rest),
      length-append (c_str name) (0 ∷ []),
    ))
header-ReadsHeaders name value rest headers hn hv reads (suc fuel) l =
    read_headers_step fuel (with_zero name ++ (with_zero value ++ rest)) (with_zero value ++ rest)
      rest name value headers (read_text-with_zero name (with_zero value ++ rest) hn)
      (read_text-with_zero value rest hv)
      (reads fuel (
        omega (
          arith,
          length-append (with_zero name) (with_zero value ++ rest),
          length-append (c_str name) (0 ∷ []),
          length-append (with_zero value) rest,
        )))

abbrev pub PairHasNoZero : Bytes × Bytes → Type 0
PairHasNoZero (name, value) = HasNoZero name × HasNoZero value

-- the parameters that are sent behind the first two
abbrev pub kept_params : List (Bytes × Bytes) → List (Bytes × Bytes)
kept_params [] = []
kept_params ((name, value) ∷ params) =
    if same_string name content_length_name || same_string value []
    then kept_params params
    else (name, value) ∷ kept_params params

nothing-ReadsHeaders : ReadsHeaders [] []
unfolding read_headers
nothing-ReadsHeaders zero l = refl
nothing-ReadsHeaders (suc fuel) l = refl

other_params-ReadsHeaders :
    (params : List (Bytes × Bytes))
    → All PairHasNoZero params
    → ReadsHeaders (other_params params) (kept_params params)
unfolding other_params
other_params-ReadsHeaders [] h = nothing-ReadsHeaders
other_params-ReadsHeaders ((name, value) ∷ params) h =
    elim (Bool-cases (same_string name content_length_name || same_string value [])) [
      | inl out ↦ rw out (other_params-ReadsHeaders params h.1)
      | inr stays ↦ rw stays (
          header-ReadsHeaders name value (other_params params) (kept_params params) h.0.0 h.0.1
            (other_params-ReadsHeaders params h.1))
    ]

-- all headers of a request
abbrev pub header_list : List (Bytes × Bytes) → ℕ → List (Bytes × Bytes)
header_list params n =
    (content_length_name, decimal n) ∷ (scgi_name, b'1' ∷ []) ∷ kept_params params

scgi_headers-ReadsHeaders :
    (params : List (Bytes × Bytes)) (n : ℕ)
    → All PairHasNoZero params
    → ReadsHeaders (scgi_headers params n) (header_list params n)
unfolding scgi_headers
scgi_headers-ReadsHeaders params n h =
    header-ReadsHeaders content_length_name (decimal n) _ _ (omega arith) (decimal-HasNoZero n) (
      header-ReadsHeaders scgi_name (b'1' ∷ []) (other_params params) (kept_params params)
        (omega arith) (omega arith) (other_params-ReadsHeaders params h))

read_decimal_stops : (n b : ℕ) (rest : Bytes) → b'9' < b → read_decimal n (b ∷ rest) ≡ (n, b ∷ rest)
unfolding read_decimal
read_decimal_stops n b rest h = ground arith

-- a netstring, and what stands behind it
read_netstring-decimal :
    (text rest : Bytes)
    → read_netstring (decimal (length text) ++ b':' ∷ (text ++ b',' ∷ rest)) ≡ some (text, rest)
unfolding read_netstring expect
read_netstring-decimal text rest = rw (
  read_decimal-decimal (length text) (b':' ∷ (text ++ b',' ∷ rest)),
  read_decimal_stops (length text) b':' (text ++ b',' ∷ rest) (omega arith),
  split-length text (b',' ∷ rest),
)

pub read_whole : (n : ℕ) → (read_decimal 0 (decimal n)).0 ≡ n
read_whole n =
    ap (λ t. (read_decimal 0 t).0) (sym (append-nil (decimal n)))
    ∙ ap (λ r. r.0) (read_decimal-decimal n [])
    ∙ unfold read_decimal in refl

split_whole : (xs : Bytes) → split (length xs) xs ≡ some (xs, [])
split_whole xs = ap (split (length xs)) (sym (append-nil xs)) ∙ split-length xs []

-- all bytes of a request
abbrev pub scgi_bytes : List (Bytes × Bytes) → Bytes → Bytes
scgi_bytes params postdata =
    let headers : Bytes = scgi_headers params (length postdata) in
    decimal (length headers) ++ b':' ∷ (headers ++ b',' ∷ postdata)

read_request-scgi_bytes :
    (params : List (Bytes × Bytes)) (postdata : Bytes)
    → All PairHasNoZero params
    → read_request (scgi_bytes params postdata)
      ≡ some (record { headers = header_list params (length postdata); body = postdata }, [])
unfolding read_request
read_request-scgi_bytes params postdata h =
    let headers : Bytes = scgi_headers params (length postdata) in
    rw (
      read_netstring-decimal headers postdata,
      scgi_headers-ReadsHeaders params (length postdata) h (length headers) (omega arith),
      read_whole (length postdata),
      split_whole postdata,
    )

clipped_size : (n : ℕ) → n < 2 ^ 32 → n % 2 ^ 32 ≡ n
clipped_size n h = omega arith

-- The two calls of Send put the bytes out, one call's behind the other's.
two_sends :
    (xs ys : Bytes) (c : Scgi)
    → c.opened ≡ true
    → Obliging c.socket.outgoing
    → length (xs ++ ys) ≤ takings c.socket.outgoing
    → ((cgi_send ys c.opened (cgi_send xs c.opened c.socket).1).0 ≡ true)
      × ((cgi_send ys c.opened (cgi_send xs c.opened c.socket).1).1.sent
          ≡ c.socket.sent ++ (xs ++ ys))
unfolding cgi_send
two_sends xs ys c open_ good enough =
    let sizes : length (xs ++ ys) ≡ length xs + length ys = length-append xs ys in
    let (os1, e1, g1, l1) = send_all-Sends xs c.socket good (omega arith) in
    let s1 : Socket = record c.socket { sent = c.socket.sent ++ xs; outgoing = os1 } in
    let (os2, e2, g2, l2) = send_all-Sends ys s1 g1 (omega arith) in
    rw (open_, e1, e2) (refl, append_assoc c.socket.sent xs ys)

-- Where no name or value has a zero in it, and the headers take less than 2 ^ 32 bytes, on a socket
-- that takes enough SendParamsAndData succeeds and sends what the specification reads as a request
-- with this body, and whose headers are CONTENT_LENGTH with the length of the body, SCGI with 1, and
-- then the parameters, in their order, but those with an empty value and CONTENT_LENGTH itself; and
-- nothing stands behind it.
pub scgi_send_params_and_data-read_request :
    (c : Scgi) (params : List (Bytes × Bytes)) (postdata : Bytes)
    → All PairHasNoZero params
    → length (scgi_headers params (length postdata)) < 2 ^ 32
    → c.opened ≡ true
    → Obliging c.socket.outgoing
    → length (scgi_bytes params postdata) ≤ takings c.socket.outgoing
    → (request : Bytes) × ((scgi_send_params_and_data params postdata c).0 ≡ true)
      × ((scgi_send_params_and_data params postdata c).1.socket.sent ≡ c.socket.sent ++ request)
      × (read_request request
          ≡ some (record { headers = header_list params (length postdata); body = postdata }, []))
unfolding scgi_send_params_and_data
scgi_send_params_and_data-read_request c params postdata h size open_ good enough =
    let headers : Bytes = scgi_headers params (length postdata) in
    let whole : (decimal (length headers) ++ b':' ∷ []) ++ (headers ++ b',' ∷ postdata)
        ≡ scgi_bytes params postdata =
      append_assoc (decimal (length headers)) (b':' ∷ []) (headers ++ b',' ∷ postdata) in
    let (done, wire) =
      two_sends (decimal (length headers) ++ b':' ∷ []) (headers ++ b',' ∷ postdata) c open_ good
        (omega (arith, ap length whole)) in
    (
      scgi_bytes params postdata,
      rw (clipped_size (length headers) size) done,
      rw (clipped_size (length headers) size) (wire ∙ ap (λ t. c.socket.sent ++ t) whole),
      read_request-scgi_bytes params postdata h,
    )
