-- ===== src/FastCgi/Delivery.antt =====
-- What SendParamsAndData and SendRequestData of src/fastcgi.cpp deliver to a reader of the
-- specification.
use heaphttpd.Prelude.{
  ℕ, ◌+◌, ◌*◌, ◌/◌, ◌%◌, ◌≤◌, ◌<◌, ◌≡◌, refl, sym, ap, ◌∙◌, true, List, [], ◌∷◌, ◌++◌, some, Bytes,
  All, length, arith, length-append,
}
use mathlib.Core.List.{append_assoc}
use heaphttpd.FastCgi.{
  FastCgi, fcgi_header, fcgi_params, fcgi_stdin, padding_of, pad_data, content_length16, fcgi_send,
  send_request_data, send_params_and_data,
}
use heaphttpd.FastCgi.Records.{read_record, read_request}
use heaphttpd.FastCgi.Length.{FitsPair, params_size, length-params_bytes}
use heaphttpd.FastCgi.Sending.{IsReady, fcgi_send-Puts, params_bytes}
use heaphttpd.FastCgi.RoundTrip.{
  stream_bytes, request_bytes, numbered, length-pad_data, read_record-fcgi_header,
  read_request-request_bytes,
}
use heaphttpd.FastCgi.Whole.{fewer-IsReady, record-Puts, request-Puts}

length-stream_bytes :
    (c : FastCgi) (kind : ℕ) (content : Bytes)
    → length (stream_bytes c kind content) ≤ length content + 15
length-stream_bytes c kind [] = omega arith
length-stream_bytes c kind (b ∷ bs) = omega (
  arith,
  length-append (b ∷ bs) (pad_data (padding_of (length (b ∷ bs)))),
  length-pad_data (padding_of (length (b ∷ bs))),
)

length-request_bytes :
    (c : FastCgi) (params : List (Bytes × Bytes)) (postdata : Bytes)
    → All FitsPair params
    → length (request_bytes c params postdata) ≤ params_size params + length postdata + 62
length-request_bytes c params postdata fit = omega (
  arith,
  length-params_bytes params fit,
  length-stream_bytes c fcgi_params (params_bytes params),
  length-stream_bytes c fcgi_stdin postdata,
  length-append (stream_bytes c fcgi_params (params_bytes params)) (
      fcgi_header c fcgi_params 0 0
      ++ (stream_bytes c fcgi_stdin postdata ++ fcgi_header c fcgi_stdin 0 0)),
  length-append (stream_bytes c fcgi_stdin postdata) (fcgi_header c fcgi_stdin 0 0),
)

request_id_lem : (id : ℕ) → id < 65536 → id / 256 % 256 * 256 + id % 256 ≡ id
request_id_lem id h = omega arith

-- With a socket that takes enough, and where every name and value has a byte at least and fewer than
-- 65536, none has 128, and neither the parameters as the specification lays them out nor the body
-- take 65536 bytes, SendParamsAndData succeeds, and what it sends is read by the specification as a
-- request for a responder with the number of the request, these parameters and this body, and ends
-- there.
pub send_params_and_data-read_request :
    (c : FastCgi) (params : List (Bytes × Bytes)) (postdata : Bytes)
    → c.request_id < 65536
    → All FitsPair params
    → params_size params < 65536
    → length postdata < 65536
    → IsReady c (params_size params + length postdata + 62)
    → (request : Bytes) × ((send_params_and_data params postdata c).0 ≡ true)
      × ((send_params_and_data params postdata c).1.socket.sent ≡ c.socket.sent ++ request)
      × (read_request request
          ≡ some (record { role = 1; id = c.request_id; params = params; stdin = postdata }, []))
send_params_and_data-read_request c params postdata hid fit hp hd r =
    let (done, s) = request-Puts c params postdata fit hp hd (record {
      opened = r.opened;
      willing = r.willing;
      room = omega (arith, r.room, length-request_bytes (numbered c) params postdata fit);
    }) in
    (
      request_bytes (numbered c) params postdata,
      done,
      s.wire,
      read_request-request_bytes (numbered c) params postdata fit hp hd
          ∙ ap (λ id. some (record { role = 1; id = id; params = params; stdin = postdata }, []))
              (request_id_lem c.request_id hid),
    )

clipped_length :
    (body : Bytes) (b : ℕ) (others : Bytes)
    → length body ≡ 65535
    → content_length16 (length (body ++ b ∷ others)) ≡ 65535
clipped_length body b others h = ground (arith, length-append body (b ∷ others))

oversize_read :
    (c : FastCgi) (body : Bytes) (b : ℕ) (others more : Bytes)
    → length body ≡ 65535
    → read_record ((fcgi_header c fcgi_stdin 65535 1 ++ ((body ++ b ∷ others) ++ 0 ∷ [])) ++ more)
      ≡ some (record { kind = 5; id = c.id_b1 * 256 + c.id_b0; content = body }, others ++ 0 ∷ more)
oversize_read c body b others more h =
    ap (λ t. read_record (fcgi_header c fcgi_stdin 65535 1 ++ t))
      (append_assoc (body ++ b ∷ others) (0 ∷ []) more ∙ append_assoc body (b ∷ others) (0 ∷ more))
    ∙ ap
        (λ (n : ℕ).
          read_record (fcgi_header c fcgi_stdin n 1 ++ (body ++ (b ∷ (others ++ 0 ∷ more)))))
        (sym h)
    ∙ read_record-fcgi_header c fcgi_stdin 1 body (b ∷ []) (others ++ 0 ∷ more) (omega arith) refl

-- Of a body with more than 65535 bytes all are sent, but the record has the first 65535: the reader
-- takes the next byte, of the body, for the padding_of, and the others for the next record.
pub send_request_data-oversize :
    (c : FastCgi) (body : Bytes) (b : ℕ) (others more : Bytes)
    → length body ≡ 65535
    → IsReady c (length others + 65545)
    → (bytes : Bytes) × ((send_request_data (body ++ b ∷ others) c).0 ≡ true)
      × ((send_request_data (body ++ b ∷ others) c).1.socket.sent ≡ c.socket.sent ++ bytes)
      × (read_record (bytes ++ more)
          ≡ some (
            record { kind = 5; id = c.id_b1 * 256 + c.id_b0; content = body },
            others ++ 0 ∷ more,
          ))
unfolding send_request_data
send_request_data-oversize c body b others more h r = rw (clipped_length body b others h) (
    let sizes : length (body ++ b ∷ others) ≡ 65536 + length others =
      omega (arith, length-append body (b ∷ others)) in
    let (done, s) =
      record-Puts c fcgi_stdin 65535 (body ++ b ∷ others)
        (λ c'. (fcgi_send (body ++ b ∷ others) c').1)
        (λ c' r'. (fcgi_send-Puts (body ++ b ∷ others) c' r').1)
        (fewer-IsReady _ r (omega (arith, length-append (body ++ b ∷ others) (0 ∷ [])))) in
    (
      fcgi_header c fcgi_stdin 65535 1 ++ ((body ++ b ∷ others) ++ 0 ∷ []),
      done,
      s.wire,
      oversize_read c body b others more h,
    ))
