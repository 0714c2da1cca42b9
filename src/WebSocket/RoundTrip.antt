-- ===== src/WebSocket/RoundTrip.antt =====
-- `WebSocket::Recv` on the frames that `WebSocket::Send` makes.
use heaphttpd.Prelude.{
  ℕ, zero, suc, ◌%◌, ◌^◌, ◌<◌, ◌≡◌, refl, sym, ap, ◌∙◌, Bool, true, false, List, [], ◌∷◌, ◌++◌,
  Bytes, length, take, drop, get_or, All, IsByte, leb, ◌==◌, if◌then◌else◌, arith, length-append,
  Bool-cases, inl, inr, take-length_append, drop-length_append,
}
use mathlib.Core.Path.{ap₂}
use mathlib.Core.List.{append_assoc}
use heaphttpd.Prelude.Bits.{bit_xor-bit_xor}
use heaphttpd.Socket.{Arrival, Socket, got, recv_all, recv_loop, ended}
use heaphttpd.Socket.Streams.{Healthy, flat, recv_loop-flat}
use heaphttpd.WebSocket.{
  WebSocketBuffer, hstruct, htons, htobe64, word_2, word_8, masked_from, Reading, frame, nothing,
  read_part, read_length, read_key, read_payload, unmasked, recv,
}
use heaphttpd.WebSocket.Layout.{
  header_bytes, be_2, be_8, length_code, length_bytes, key_bytes, payload_bytes, rfc_masked,
  masked_from-rfc_masked, frame_layout, length_code-lt,
}

abbrev socket_of : Bool → List Arrival → Socket
socket_of ssl es = record { ssl = ssl; incoming = es; outgoing = []; sent = [] }

-- `bs`, which is not empty, is got in one go, and `rest` is left.
abbrev Gets : Bool → List Arrival → Bytes → Bytes → Type 0
Gets ssl es bs rest =
    (es' : List Arrival) × (recv_all (length bs) (socket_of ssl es) ≡ got bs es')
    × Healthy es'
    × (flat es' ≡ rest)

recv_all-Gets :
    (ssl : Bool) (es : List Arrival) (bs rest : Bytes)
    → Healthy es
    → 0 < length bs
    → flat es ≡ bs ++ rest
    → Gets ssl es bs rest
unfolding recv_all
recv_all-Gets ssl es bs rest good pos e =
    let (es', r, g, f) =
      recv_loop-flat ssl es (length bs) [] good pos (rw e (omega (arith, length-append bs rest))) in
    (
      es',
      not_zero (length bs) pos
          ∙ r
          ∙ ap (λ t. got t es') (ap (take (length bs)) e ∙ take-length_append bs rest),
      g,
      f ∙ ap (drop (length bs)) e ∙ drop-length_append bs rest,
    )
  where
    not_zero :
        (n : ℕ)
        → 0 < n
        → (if n == 0 then ended ssl [] es else recv_loop ssl es n []) ≡ recv_loop ssl es n []
    not_zero n h = ground arith

abbrev Next : Type 0
Next = List Arrival → Reading × List Arrival

read_part-Gets :
    (ssl : Bool) (es : List Arrival) (bs rest : Bytes)
    → Healthy es
    → 0 < length bs
    → flat es ≡ bs ++ rest
    → (es' : List Arrival) × ((next : Bytes → Next)
        → read_part (length bs) ssl es next ≡ next bs es')
      × Healthy es'
      × (flat es' ≡ rest)
unfolding read_part
read_part-Gets ssl es bs rest good pos e =
    let (es', r, g, f) = recv_all-Gets ssl es bs rest good pos e in
    (es', λ next. rw (r, read_part) (ground arith), g, f)

htons-be_2 : (n : ℕ) → n < 2 ^ 16 → htons (word_2 (be_2 n)) ≡ n
unfolding htons
htons-be_2 n h = omega arith

htobe64-be_8 : (n : ℕ) → n < 2 ^ 64 → htobe64 (word_8 (be_8 n)) ≡ n
unfolding htobe64
htobe64-be_8 n h = omega arith

-- the length, behind a header with its code
read_length-Gets :
    (ssl : Bool) (es : List Arrival) (len : ℕ) (rest : Bytes)
    → len < 2 ^ 31
    → Healthy es
    → flat es ≡ length_bytes len ++ rest
    → (es' : List Arrival) × ((next : ℕ → Next)
        → read_length (length_code len) ssl es next ≡ next len es')
      × Healthy es'
      × (flat es' ≡ rest)
unfolding read_length
read_length-Gets ssl es len rest h good e = elim (Bool-cases (leb len 125)) [
  | inl short ↦ (es, λ next. rw short (ground arith), good, e ∙ rw short)
  | inr long ↦ elim (Bool-cases (leb len 65534)) [
    | inl two ↦
        let (es', r, g, f) =
          read_part-Gets ssl es (be_2 len) rest good (omega arith) (e ∙ rw (long, two)) in
        (
          es',
          λ next.
              rw (long, two)
                (r (λ bs. next (htons (word_2 bs)))
                  ∙ ap (λ n. next n es') (htons-be_2 len (ground arith))),
          g,
          f,
        )
    | inr eight ↦
        let (es', r, g, f) =
          read_part-Gets ssl es (be_8 len) rest good (omega arith) (e ∙ rw (long, eight)) in
        (
          es',
          λ next.
              rw (long, eight)
                (r (λ bs. next (htobe64 (word_8 bs)))
                  ∙ ap (λ n. next n es') (htobe64-be_8 len (omega arith))),
          g,
          f,
        )
  ]
]

get_or-IsByte : (key : Bytes) (i : ℕ) → All IsByte key → get_or key i 0 < 256
get_or-IsByte [] i h = omega arith
get_or-IsByte (k ∷ key) zero h = h.0
get_or-IsByte (k ∷ key) (suc i) h = get_or-IsByte key i h.1

-- Masking twice with the same key gives the bytes back.
masked_from-masked_from :
    (i : ℕ) (key bs : Bytes)
    → All IsByte key
    → All IsByte bs
    → masked_from i key (masked_from i key bs) ≡ bs
unfolding masked_from
masked_from-masked_from i key [] hk hb = refl
masked_from-masked_from i key (b ∷ bs) hk hb =
    ap₂ ◌∷◌ (bit_xor-bit_xor b (get_or key (i % 4) 0) hb.0 (get_or-IsByte key (i % 4) hk))
      (masked_from-masked_from (suc i) key bs hk hb.1)

length-masked_from : (i : ℕ) (key bs : Bytes) → length (masked_from i key bs) ≡ length bs
unfolding masked_from
length-masked_from i key [] = refl
length-masked_from i key (b ∷ bs) = ap suc (length-masked_from (suc i) key bs)

-- what `Recv` makes of the header's two bytes
hstruct-header_bytes :
    (opcode : ℕ) (mask : Bool) (code : ℕ)
    → opcode < 16
    → code < 128
    → let h = hstruct (htons (word_2 (header_bytes opcode mask code))) in
      (h.payload_len_7bit ≡ code) × ((h.mask == 1) ≡ mask)
unfolding hstruct htons
hstruct-header_bytes opcode true code ho hc = (omega arith, ground arith)
hstruct-header_bytes opcode false code ho hc = (omega arith, ground arith)

read_key-Gets :
    (ssl mask : Bool) (es : List Arrival) (key rest : Bytes)
    → length key ≡ 4
    → Healthy es
    → flat es ≡ key_bytes mask key ++ rest
    → (es' : List Arrival) × ((next : Bytes → Next)
        → read_key mask ssl es next ≡ next (key_bytes mask key) es')
      × Healthy es'
      × (flat es' ≡ rest)
unfolding read_key
read_key-Gets ssl true es key rest h good e =
    let (es', r, g, f) = read_part-Gets ssl es key rest good (omega (arith, h)) e in
    (es', λ next. ap (λ n. read_part n ssl es next) {x = 4} (sym h) ∙ r next, g, f)
read_key-Gets ssl false es key rest h good e = (es, λ next. refl, good, e)

-- the reading of a frame with the payload `buf`
abbrev pub reading_of : Bytes → Reading
reading_of [] = nothing
reading_of (b ∷ buf) = frame (b ∷ buf) (length (b ∷ buf))

length-payload_bytes :
    (mask : Bool) (key buf : Bytes) → length (payload_bytes mask key buf) ≡ length buf
length-payload_bytes true key buf =
    rw (← masked_from-rfc_masked key buf) (length-masked_from 0 key buf)
length-payload_bytes false key buf = refl

unmasked-payload_bytes :
    (mask : Bool) (key buf : Bytes)
    → All IsByte key
    → All IsByte buf
    → unmasked mask (key_bytes mask key) (payload_bytes mask key buf) ≡ buf
unmasked-payload_bytes true key buf hk hb =
    rw (← masked_from-rfc_masked key buf) (masked_from-masked_from 0 key buf hk hb)
unmasked-payload_bytes false key buf hk hb = refl

payload_got :
    (mask ssl : Bool) (key bs : Bytes) (len : ℕ) (es : List Arrival) {es' : List Arrival}
    → 0 < len
    → len < 2 ^ 31
    → recv_all len (socket_of ssl es) ≡ got bs es'
    → read_payload mask key len ssl es ≡ (frame (unmasked mask key bs) len, es')
unfolding read_payload
payload_got mask ssl key bs len es {es'} pos h r =
    let e : len % 2 ^ 32 ≡ len = omega arith in rw (e, read_payload) (rw r (ground arith))

empty_payload : (mask : Bool) (key rest : Bytes) → payload_bytes mask key [] ++ rest ≡ rest
unfolding rfc_masked
empty_payload true key rest = refl
empty_payload false key rest = refl

read_payload-Gets :
    (mask ssl : Bool) (es : List Arrival) (key buf rest : Bytes)
    → All IsByte key
    → All IsByte buf
    → length buf < 2 ^ 31
    → Healthy es
    → flat es ≡ payload_bytes mask key buf ++ rest
    → (es' : List Arrival) × (read_payload mask (key_bytes mask key) (length buf) ssl es
        ≡ (reading_of buf, es'))
      × Healthy es'
      × (flat es' ≡ rest)
read_payload-Gets mask ssl es key [] rest hk hb h good e =
    (es, unfold read_payload in refl, good, e ∙ empty_payload mask key rest)
read_payload-Gets mask ssl es key (b ∷ buf) rest hk hb h good e =
    let payload = payload_bytes mask key (b ∷ buf) in
    let size = length-payload_bytes mask key (b ∷ buf) in
    let (es', r, g, f) = recv_all-Gets ssl es payload rest good (rw size (omega arith)) e in
    (
      es',
      payload_got mask ssl (key_bytes mask key) payload (length (b ∷ buf)) es (omega arith) h
            (ap (λ n. recv_all n (socket_of ssl es)) (sym size) ∙ r)
          ∙ ap (λ t. (frame t (length (b ∷ buf)), es'))
              (unmasked-payload_bytes mask key (b ∷ buf) hk hb),
      g,
      f,
    )

split_frame :
    (len key payload more : Bytes)
    → (len ++ (key ++ payload)) ++ more ≡ len ++ (key ++ (payload ++ more))
split_frame len key payload more =
    append_assoc len (key ++ payload) more ∙ ap (◌++◌ len) (append_assoc key payload more)

-- `Recv` behind the header
abbrev after_header : ℕ → Bool → Bool → List Arrival → Reading × List Arrival
after_header code mask ssl es =
    read_length code ssl es
      (λ payload_len es'. read_key mask ssl es' (λ key. read_payload mask key payload_len ssl))

-- What `Send` puts on the wire `Recv` reads back, in whatever pieces it arrives, masked or not, at
-- every length below 2^31, and the bytes behind the frame are left. An empty payload gives the
-- result 0.
pub recv-frame_layout :
    (b : WebSocketBuffer) (key more : Bytes) (s : Socket)
    → b.opcode < 16
    → length b.buf < 2 ^ 31
    → length key ≡ 4
    → All IsByte key
    → All IsByte b.buf
    → Healthy s.incoming
    → flat s.incoming ≡ frame_layout b key ++ more
    → (es' : List Arrival) × (recv s ≡ (reading_of b.buf, es')) × Healthy es' × (flat es' ≡ more)
unfolding recv
recv-frame_layout b key more s ho hl h4 hk hb good e =
    let code = length_code (length b.buf) in
    let tail = key_bytes b.mask key ++ (payload_bytes b.mask key b.buf ++ more) in
    let (is_code, is_mask) =
      hstruct-header_bytes b.opcode b.mask code ho (length_code-lt (length b.buf)) in
    let (es1, r1, g1, f1) =
      read_part-Gets s.ssl s.incoming (header_bytes b.opcode b.mask code)
        (length_bytes (length b.buf) ++ tail) good (omega arith)
        (e
          ∙ ap (λ t. header_bytes b.opcode b.mask code ++ t)
              (split_frame (length_bytes (length b.buf)) _ _ more)) in
    let (es2, r2, g2, f2) = read_length-Gets s.ssl es1 (length b.buf) tail hl g1 f1 in
    let (es3, r3, g3, f3) =
      read_key-Gets s.ssl b.mask es2 key (payload_bytes b.mask key b.buf ++ more) h4 g2 f2 in
    let (es4, r4, g4, f4) = read_payload-Gets b.mask s.ssl es3 key b.buf more hk hb hl g3 f3 in
    (es4, r1 _ ∙ ap₂ (λ c m. after_header c m s.ssl es1) is_code is_mask ∙ r2 _ ∙ r3 _ ∙ r4, g4, f4)
