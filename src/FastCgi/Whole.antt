-- ===== src/FastCgi/Whole.antt =====
-- SendParamsAndData of src/fastcgi.cpp as a whole: the records that it sends, one behind the other.
use heaphttpd.Prelude.{
  ℕ, ◌+◌, ◌≤◌, ◌<◌, ◌≡◌, refl, sym, ap, ◌∙◌, Bool, true, List, [], ◌∷◌, ◌++◌, Bytes, All, length,
  arith, length-append,
}
use mathlib.Core.Path.{subst}
use heaphttpd.FastCgi.{
  FastCgi, fcgi_send, on_success, fcgi_header, fcgi_begin_request, fcgi_params, fcgi_stdin,
  begin_request, count_params, content_length16, padding_of, pad_data, send_padding, send_pairs,
  send_params, send_empty_params, send_request_data, send_empty_request_data,
  send_params_unless_none, send_data_unless_none, send_params_and_data,
}
use heaphttpd.FastCgi.Length.{
  FitsPair, length-pair_layout, params_size, length-params_bytes, count_params_lem,
}
use heaphttpd.FastCgi.Sending.{
  IsReady, Sent, Puts, Sent-nil, Sent-append, Sent-IsReady, fcgi_send-Puts, on_success-Puts,
  fcgi_header-Sent, params_bytes, send_pairs-Sent, send_padding-Sent,
}
use heaphttpd.FastCgi.RoundTrip.{record_bytes, stream_bytes, request_bytes, begin_bytes, numbered}

pub fewer-IsReady : {c : FastCgi} {n : ℕ} (m : ℕ) → IsReady c n → m ≤ n → IsReady c m
fewer-IsReady m r h = record {
  opened = r.opened;
  willing = r.willing;
  room = omega (arith, r.room);
}

stream_bytes_lem :
    (c : FastCgi) (kind : ℕ) (content : Bytes)
    → 0 < length content
    → stream_bytes c kind content ≡ record_bytes c kind content
stream_bytes_lem c kind [] h = absurd (omega arith)
stream_bytes_lem c kind (b ∷ bs) h = refl

-- A header with any content length, what puts the content out, and the padding.
pub record-Puts :
    (c : FastCgi) (kind n : ℕ) (content : Bytes) (body : FastCgi → FastCgi)
    → ((c' : FastCgi) → IsReady c' (length content) → Sent c' content (body c'))
    → IsReady c
        (length (fcgi_header c kind n (padding_of n) ++ (content ++ pad_data (padding_of n))))
    → Puts c (fcgi_header c kind n (padding_of n) ++ (content ++ pad_data (padding_of n))) (
        on_success
          (fcgi_send (fcgi_header c kind n (padding_of n)) c)
          (λ c'. (true, send_padding (padding_of n) (body c'))))
record-Puts c kind n content body puts r =
    let head : Bytes = fcgi_header c kind n (padding_of n) in
    let sizes : length (content ++ pad_data (padding_of n))
        ≡ length content + length (pad_data (padding_of n)) =
      length-append content (pad_data (padding_of n)) in
    let first : Puts c head (fcgi_send head c) =
      fcgi_send-Puts head c (fewer-IsReady 8 r (omega arith)) in
    let ready : IsReady (fcgi_send head c).1 (length content + length (pad_data (padding_of n))) =
      Sent-IsReady r first.1 (omega arith) in
    let second : Sent (fcgi_send head c).1 content (body (fcgi_send head c).1) =
      puts (fcgi_send head c).1 (fewer-IsReady (length content) ready (omega arith)) in
    on_success-Puts c (fcgi_send head c) (λ c'. (true, send_padding (padding_of n) (body c'))) first
      (
        refl,
        Sent-append second (
            send_padding-Sent (padding_of n) (body (fcgi_send head c).1)
              (Sent-IsReady ready second (omega arith))),
      )

content_length16_lem : (n : ℕ) → n < 65536 → content_length16 n ≡ n
content_length16_lem n h = ground arith

params_length :
    (pairs : List (Bytes × Bytes))
    → All FitsPair pairs
    → params_size pairs < 65536
    → content_length16 (count_params pairs 0) ≡ length (params_bytes pairs)
params_length pairs fit h =
    ap content_length16 (count_params_lem pairs 0 fit (omega arith))
    ∙ content_length16_lem (0 + params_size pairs) (omega arith)
    ∙ omega (arith, length-params_bytes pairs fit)

module _ {c0 : FastCgi} {before : Bytes} (c : FastCgi) (same : Sent c0 before c) where
  header-Puts :
      (kind : ℕ)
      → IsReady c 8
      → Puts c (fcgi_header c0 kind 0 0) (fcgi_send (fcgi_header c kind 0 0) c)
  header-Puts kind r =
      rw (← fcgi_header-Sent kind 0 0 same) (fcgi_send-Puts (fcgi_header c kind 0 0) c r)

  record_bytes-Sent :
      (kind : ℕ) (content : Bytes) → record_bytes c kind content ≡ record_bytes c0 kind content
  record_bytes-Sent kind content =
      ap (λ h. h ++ (content ++ pad_data (padding_of (length content))))
        (fcgi_header-Sent kind (length content) (padding_of (length content)) same)

  params-Puts :
      (pairs : List (Bytes × Bytes))
      → All FitsPair pairs
      → params_size pairs < 65536
      → IsReady c (length (record_bytes c fcgi_params (params_bytes pairs)))
      → Puts c (record_bytes c fcgi_params (params_bytes pairs)) (send_params pairs c)
  unfolding send_params
  params-Puts pairs fit h r = rw (params_length pairs fit h) (
      record-Puts c fcgi_params (length (params_bytes pairs)) (params_bytes pairs)
        (send_pairs pairs) (send_pairs-Sent pairs) r)

  data-Puts :
      (postdata : Bytes)
      → length postdata < 65536
      → IsReady c (length (record_bytes c fcgi_stdin postdata))
      → Puts c (record_bytes c fcgi_stdin postdata) (send_request_data postdata c)
  unfolding send_request_data
  data-Puts postdata h r = rw (content_length16_lem (length postdata) h) (
      record-Puts c fcgi_stdin (length postdata) postdata (λ c'. (fcgi_send postdata c').1)
        (λ c' r'. (fcgi_send-Puts postdata c' r').1) r)

  -- SendParams is called for a map that is not empty.
  params_stream-Puts :
      (pairs : List (Bytes × Bytes))
      → All FitsPair pairs
      → params_size pairs < 65536
      → IsReady c (length (stream_bytes c0 fcgi_params (params_bytes pairs)))
      → Puts c (stream_bytes c0 fcgi_params (params_bytes pairs)) (send_params_unless_none pairs c)
  unfolding send_params_unless_none
  params_stream-Puts [] fit h r = (refl, Sent-nil r)
  params_stream-Puts ((name, value) ∷ pairs) fit h r =
      let some_bytes : 0 < length (params_bytes ((name, value) ∷ pairs)) = omega (
        arith,
        length-params_bytes ((name, value) ∷ pairs) fit,
        length-pair_layout name value fit.0,
      ) in
      let e : stream_bytes c0 fcgi_params (params_bytes ((name, value) ∷ pairs))
          ≡ record_bytes c fcgi_params (params_bytes ((name, value) ∷ pairs)) =
        stream_bytes_lem c0 fcgi_params (params_bytes ((name, value) ∷ pairs)) some_bytes
        ∙ sym (record_bytes-Sent fcgi_params (params_bytes ((name, value) ∷ pairs))) in
      subst (λ bs. Puts c bs (send_params ((name, value) ∷ pairs) c)) (sym e)
        (params-Puts ((name, value) ∷ pairs) fit h (subst (λ bs. IsReady c (length bs)) (e) r))

  data_stream-Puts :
      (postdata : Bytes)
      → length postdata < 65536
      → IsReady c (length (stream_bytes c0 fcgi_stdin postdata))
      → Puts c (stream_bytes c0 fcgi_stdin postdata) (send_data_unless_none postdata c)
  unfolding send_data_unless_none
  data_stream-Puts [] h r = (refl, Sent-nil r)
  data_stream-Puts (b ∷ bs) h r =
      let e : record_bytes c fcgi_stdin (b ∷ bs) ≡ record_bytes c0 fcgi_stdin (b ∷ bs) =
        record_bytes-Sent fcgi_stdin (b ∷ bs) in
      subst (λ bytes. Puts c bytes (send_request_data (b ∷ bs) c)) (e)
        (data-Puts (b ∷ bs) h (subst (λ bytes. IsReady c (length bytes)) (sym e) r))

-- One call, and another on what it leaves.
chain :
    (c : FastCgi) (bs1 bs2 : Bytes) (r : Bool × FastCgi) (next : FastCgi → Bool × FastCgi)
    → IsReady c (length (bs1 ++ bs2))
    → (IsReady c (length bs1) → Puts c bs1 r)
    → ((c' : FastCgi) → Sent c bs1 c' → IsReady c' (length bs2) → Puts c' bs2 (next c'))
    → Puts c (bs1 ++ bs2) (on_success r next)
chain c bs1 bs2 r next ready first then_next =
    let sizes : length (bs1 ++ bs2) ≡ length bs1 + length bs2 = length-append bs1 bs2 in
    let p : Puts c bs1 r = first (fewer-IsReady (length bs1) ready (omega arith)) in
    on_success-Puts c r next p (then_next r.1 p.1 (Sent-IsReady ready p.1 (omega arith)))

begin_request-Puts :
    (c : FastCgi)
    → IsReady (numbered c) (length (begin_bytes (numbered c)))
    → Puts (numbered c) (begin_bytes (numbered c)) (begin_request c)
unfolding begin_request
begin_request-Puts c r =
    chain (numbered c) (fcgi_header (numbered c) fcgi_begin_request 8 0)
      (0 ∷ 1 ∷ 0 ∷ 0 ∷ 0 ∷ 0 ∷ 0 ∷ 0 ∷ [])
      (fcgi_send (fcgi_header (numbered c) fcgi_begin_request 8 0) (numbered c))
      (fcgi_send (0 ∷ 1 ∷ 0 ∷ 0 ∷ 0 ∷ 0 ∷ 0 ∷ 0 ∷ [])) r
      (fcgi_send-Puts (fcgi_header (numbered c) fcgi_begin_request 8 0) (numbered c))
      (λ c' s r'. fcgi_send-Puts (0 ∷ 1 ∷ 0 ∷ 0 ∷ 0 ∷ 0 ∷ 0 ∷ 0 ∷ []) c' r')

-- The calls of SendParamsAndData, one behind the other.
pub request-Puts :
    (c : FastCgi) (params : List (Bytes × Bytes)) (postdata : Bytes)
    → All FitsPair params
    → params_size params < 65536
    → length postdata < 65536
    → IsReady (numbered c) (length (request_bytes (numbered c) params postdata))
    → Puts
        (numbered c)
        (request_bytes (numbered c) params postdata)
        (send_params_and_data params postdata c)
unfolding send_params_and_data send_empty_params send_empty_request_data
request-Puts c params postdata fit hp hd r =
    chain c0 (begin_bytes c0) _ (begin_request c) _ r (begin_request-Puts c) λ c1 s1 r1.
      chain c1 (stream_bytes c0 fcgi_params (params_bytes params)) _ _ _ r1
        (params_stream-Puts c1 s1 params fit hp)
        λ c2 s2 r2.
          chain c2 (fcgi_header c0 fcgi_params 0 0) _ _ _ r2
            (header-Puts c2 (Sent-append s1 s2) fcgi_params)
            λ c3 s3 r3.
              chain c3 (stream_bytes c0 fcgi_stdin postdata) _ _ _ r3
                (data_stream-Puts c3 (Sent-append (Sent-append s1 s2) s3) postdata hd)
                λ c4 s4 r4.
                  header-Puts c4 (Sent-append (Sent-append (Sent-append s1 s2) s3) s4) fcgi_stdin r4
  where
    c0 : FastCgi
    c0 = numbered c
