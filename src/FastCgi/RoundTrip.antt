-- ===== src/FastCgi/RoundTrip.antt =====
-- A request of the FastCGI client of src/fastcgi.cpp, as the reader of the specification reads it.
use heaphttpd.Prelude.{
  ℕ, zero, suc, ◌+◌, ◌*◌, ◌/◌, ◌%◌, ◌≤◌, ◌<◌, ◌≡◌, refl, sym, ap, ◌∙◌, List, [], ◌∷◌, ◌++◌, some,
  Bytes, All, length, arith, length-append,
}
use mathlib.Core.List.{append_assoc, append-nil}
use heaphttpd.FastCgi.{
  FastCgi, fcgi_header, fcgi_begin_request, fcgi_params, fcgi_stdin, padding_of, pad_data,
}
use heaphttpd.FastCgi.Records.{read_record, read_stream, read_request}
use heaphttpd.FastCgi.Length.{
  FitsPair, params_size, split-length, length-params_bytes, read_pairs-params_bytes,
}
use heaphttpd.FastCgi.Sending.{params_bytes}

-- a record as SendParams and SendRequestData fcgi_send it
abbrev pub record_bytes : FastCgi → ℕ → Bytes → Bytes
record_bytes c kind content =
    fcgi_header c kind (length content) (padding_of (length content))
    ++ (content ++ pad_data (padding_of (length content)))

-- nothing where there is nothing to be sent
abbrev pub stream_bytes : FastCgi → ℕ → Bytes → Bytes
stream_bytes c kind [] = []
stream_bytes c kind (b ∷ bs) = record_bytes c kind (b ∷ bs)

-- the client once BeginRequest has set the number
abbrev pub numbered : FastCgi → FastCgi
numbered c = record c { id_b0 = c.request_id % 256; id_b1 = c.request_id / 256 % 256 }

abbrev pub begin_bytes : FastCgi → Bytes
begin_bytes c = fcgi_header c fcgi_begin_request 8 0 ++ (0 ∷ 1 ∷ 0 ∷ 0 ∷ 0 ∷ 0 ∷ 0 ∷ 0 ∷ [])

pub length-pad_data : (n : ℕ) → length (pad_data n) ≡ n
length-pad_data zero = refl
length-pad_data (suc n) = ap suc (length-pad_data n)

-- Any record, with any padding_of, is read whole, and what stands behind it is left.
pub read_record-fcgi_header :
    (c : FastCgi) (kind p : ℕ) (content pad rest : Bytes)
    → length content < 65536
    → p ≡ length pad
    → read_record (fcgi_header c kind (length content) p ++ (content ++ (pad ++ rest)))
      ≡ some (record { kind = kind; id = c.id_b1 * 256 + c.id_b0; content = content }, rest)
unfolding read_record
read_record-fcgi_header c kind p content pad rest h e =
    let n : length content / 256 % 256 * 256 + length content % 256 ≡ length content =
      omega arith in
    rw (n, e, split-length content (pad ++ rest), split-length pad rest)

-- An empty record ends a stream.
read_stream_end :
    (fuel : ℕ) (c : FastCgi) (kind : ℕ) (rest : Bytes)
    → read_stream (suc fuel) kind (c.id_b1 * 256 + c.id_b0) (fcgi_header c kind 0 0 ++ rest)
      ≡ some ([], rest)
unfolding read_stream
read_stream_end fuel c kind rest =
    rw (read_record-fcgi_header c kind 0 [] [] rest (omega arith) refl) (ground arith)

read_stream_step :
    (fuel kind id b : ℕ) (bs bytes rest stream left : Bytes)
    → read_record bytes ≡ some (record { kind = kind; id = id; content = b ∷ bs }, rest)
    → read_stream fuel kind id rest ≡ some (stream, left)
    → read_stream (suc fuel) kind id bytes ≡ some ((b ∷ bs) ++ stream, left)
unfolding read_stream
read_stream_step fuel kind id b bs bytes rest stream left e r = rw (e, r) (ground arith)

read_record-record_bytes :
    (c : FastCgi) (kind : ℕ) (content rest : Bytes)
    → length content < 65536
    → read_record (record_bytes c kind content ++ rest)
      ≡ some (record { kind = kind; id = c.id_b1 * 256 + c.id_b0; content = content }, rest)
read_record-record_bytes c kind content rest h =
    rw (append_assoc content (pad_data (padding_of (length content))) rest) (
      read_record-fcgi_header c kind (padding_of (length content)) content
        (pad_data (padding_of (length content))) rest h
        (sym (length-pad_data (padding_of (length content)))))

-- A stream of one record or none, and the empty record behind it.
read_stream-stream_bytes :
    (fuel : ℕ) (c : FastCgi) (kind : ℕ) (content rest : Bytes)
    → length content < 65536
    → read_stream
        (suc (suc fuel))
        kind
        (c.id_b1 * 256 + c.id_b0)
        (stream_bytes c kind content ++ (fcgi_header c kind 0 0 ++ rest))
      ≡ some (content, rest)
read_stream-stream_bytes fuel c kind [] rest h = read_stream_end (suc fuel) c kind rest
read_stream-stream_bytes fuel c kind (b ∷ bs) rest h =
    read_stream_step (suc fuel) kind (c.id_b1 * 256 + c.id_b0) b bs
      (record_bytes c kind (b ∷ bs) ++ (fcgi_header c kind 0 0 ++ rest))
      (fcgi_header c kind 0 0 ++ rest) [] rest
      (read_record-record_bytes c kind (b ∷ bs) (fcgi_header c kind 0 0 ++ rest) h)
      (read_stream_end fuel c kind rest)
    ∙ ap (λ t. some (t, rest)) (append-nil (b ∷ bs))

read_stream_enough :
    (fuel : ℕ) (c : FastCgi) (kind : ℕ) (content rest : Bytes)
    → length content < 65536
    → 2 ≤ fuel
    → read_stream fuel kind
        (c.id_b1 * 256 + c.id_b0)
        (stream_bytes c kind content ++ (fcgi_header c kind 0 0 ++ rest))
      ≡ some (content, rest)
read_stream_enough zero c kind content rest h l = absurd (omega arith)
read_stream_enough (suc zero) c kind content rest h l = absurd (omega arith)
read_stream_enough (suc (suc fuel)) c kind content rest h l =
    read_stream-stream_bytes fuel c kind content rest h

-- all bytes of a request
abbrev pub request_bytes : FastCgi → List (Bytes × Bytes) → Bytes → Bytes
request_bytes c params postdata =
    begin_bytes c
    ++ (stream_bytes c fcgi_params (params_bytes params)
        ++ (fcgi_header c fcgi_params 0 0
            ++ (stream_bytes c fcgi_stdin postdata ++ fcgi_header c fcgi_stdin 0 0)))

-- They are read as the request.
pub read_request-request_bytes :
    (c : FastCgi) (params : List (Bytes × Bytes)) (postdata : Bytes)
    → All FitsPair params
    → params_size params < 65536
    → length postdata < 65536
    → read_request (request_bytes c params postdata)
      ≡ some
          (record { role = 1; id = c.id_b1 * 256 + c.id_b0; params = params; stdin = postdata }, [])
unfolding read_request
read_request-request_bytes c params postdata fit hp hd =
    let id : ℕ = c.id_b1 * 256 + c.id_b0 in
    let r2 : Bytes = stream_bytes c fcgi_stdin postdata ++ fcgi_header c fcgi_stdin 0 0 in
    let r1 : Bytes =
      stream_bytes c fcgi_params (params_bytes params) ++ (fcgi_header c fcgi_params 0 0 ++ r2) in
    rw (
      read_record-fcgi_header c 1 0 (0 ∷ 1 ∷ 0 ∷ 0 ∷ 0 ∷ 0 ∷ 0 ∷ 0 ∷ []) [] r1 (omega arith) refl,
      read_stream_enough (length r1) c fcgi_params (params_bytes params) r2
          (omega (arith, length-params_bytes params fit))
          (omega (
            arith,
            length-append (stream_bytes c fcgi_params (params_bytes params))
                (fcgi_header c fcgi_params 0 0 ++ r2),
          )),
      read_pairs-params_bytes params (length (params_bytes params)) fit
          (omega (arith, length-params_bytes params fit)),
      read_stream_enough (length r2) c fcgi_stdin postdata [] hd (
          omega (
            arith,
            length-append (stream_bytes c fcgi_stdin postdata) (fcgi_header c fcgi_stdin 0 0),
          )),
    )
