-- ===== src/WebSocket/Layout.antt =====
-- What `WebSocket::Send` puts on the wire, against RFC 6455.
use heaphttpd.Prelude.{
  suc, get_or, bit_xor, ℕ, ◌+◌, ◌*◌, ◌/◌, ◌%◌, ◌^◌, ◌≤◌, ◌<◌, ◌≡◌, refl, ap, ◌∙◌, Bool, true, false,
  List, [], ◌∷◌, ◌++◌, Bytes, length, leb, if◌then◌else◌, arith, length-append, Bool-cases, inl,
  inr,
}
use mathlib.Core.List.{append_assoc}
use heaphttpd.Socket.{Uptake, Socket, send_all}
use heaphttpd.Socket.Streams.{Obliging, takings, send_all-Sends}
use heaphttpd.WebSocket.{
  WebSocketBuffer, huint16, htons, htobe64, bytes_2, bytes_8, masked_from, bit_of, payload_len_code,
  header_of, and_then, send_length, send,
}

-- the two bytes of a header: FIN and the opcode, the mask bit and the length's code
abbrev pub header_bytes : ℕ → Bool → ℕ → Bytes
header_bytes opcode mask code = (128 + opcode) ∷ (bit_of mask * 128 + code) ∷ []

header_layout :
    (opcode : ℕ) (mask : Bool) (code : ℕ)
    → opcode < 16
    → code < 128
    → bytes_2 (htons (huint16 (header_of opcode mask code))) ≡ header_bytes opcode mask code
unfolding htons huint16
header_layout opcode true code ho hc = ground arith
header_layout opcode false code ho hc = ground arith

-- big-endian numbers
abbrev pub be_2 : ℕ → Bytes
be_2 n = n / 2 ^ 8 % 2 ^ 8 ∷ n % 2 ^ 8 ∷ []

abbrev pub be_8 : ℕ → Bytes
be_8 n =
    n / 2 ^ 56 % 2 ^ 8
    ∷ n / 2 ^ 48 % 2 ^ 8
    ∷ n / 2 ^ 40 % 2 ^ 8
    ∷ n / 2 ^ 32 % 2 ^ 8
    ∷ n / 2 ^ 24 % 2 ^ 8
    ∷ n / 2 ^ 16 % 2 ^ 8
    ∷ n / 2 ^ 8 % 2 ^ 8
    ∷ n % 2 ^ 8
    ∷ []

bytes_2-htons : (n : ℕ) → n < 2 ^ 16 → bytes_2 (htons (n % 2 ^ 16)) ≡ be_2 n
unfolding htons
bytes_2-htons n h = ground arith

bytes_8-htobe64 : (n : ℕ) → n < 2 ^ 64 → bytes_8 (htobe64 n) ≡ be_8 n
unfolding htobe64
bytes_8-htobe64 n h = ground arith

-- The length as it stands behind the header's code: in the code itself up to 125, in two bytes up
-- to 65534, in eight bytes from 65535 on.
abbrev pub length_code : ℕ → ℕ
length_code len = if leb len 125 then len else if leb len 65534 then 126 else 127

abbrev pub length_bytes : ℕ → Bytes
length_bytes len = if leb len 125 then [] else if leb len 65534 then be_2 len else be_8 len

pub payload_len_code-length_code : (len : ℕ) → payload_len_code len ≡ length_code len
unfolding payload_len_code
payload_len_code-length_code len = ground arith

abbrev pub key_bytes : Bool → Bytes → Bytes
key_bytes mask key = if mask then key else []

-- RFC 6455, 5.3: octet `i` of the payload is XORed with octet `i` modulo 4 of the key, so that the key's
-- four octets take turns.
unfoldable pub rfc_masked : ℕ → ℕ → ℕ → ℕ → Bytes → Bytes
rfc_masked k0 k1 k2 k3 [] = []
rfc_masked k0 k1 k2 k3 (b ∷ bs) = bit_xor b k0 ∷ rfc_masked k1 k2 k3 k0 bs

abbrev pub key_octet : Bytes → ℕ → ℕ
key_octet key i = get_or key i 0

abbrev pub payload_bytes : Bool → Bytes → Bytes → Bytes
payload_bytes mask key buf =
    if mask
    then rfc_masked (key_octet key 0) (key_octet key 1) (key_octet key 2) (key_octet key 3) buf
    else buf

masked_from-turns :
    (i : ℕ) (key bs : Bytes)
    → masked_from i key bs
      ≡ rfc_masked
          (key_octet key (i % 4))
          (key_octet key (suc i % 4))
          (key_octet key (suc (suc i) % 4))
          (key_octet key (suc (suc (suc i)) % 4))
          bs
unfolding masked_from rfc_masked
masked_from-turns i key [] = refl
masked_from-turns i key (b ∷ bs) =
    let around : suc (suc (suc (suc i))) % 4 ≡ i % 4 = omega arith in
    ap (λ rest. bit_xor b (key_octet key (i % 4)) ∷ rest)
      (masked_from-turns (suc i) key bs
        ∙ ap
            (λ n.
              rfc_masked (key_octet key (suc i % 4)) (key_octet key (suc (suc i) % 4))
                (key_octet key (suc (suc (suc i)) % 4)) (key_octet key n) bs)
            around)

pub masked_from-rfc_masked :
    (key bs : Bytes)
    → masked_from 0 key bs
      ≡ rfc_masked (key_octet key 0) (key_octet key 1) (key_octet key 2) (key_octet key 3) bs
masked_from-rfc_masked key bs = masked_from-turns 0 key bs

-- a whole frame
abbrev pub frame_layout : WebSocketBuffer → Bytes → Bytes
frame_layout b key =
    header_bytes b.opcode b.mask (length_code (length b.buf))
    ++ length_bytes (length b.buf)
    ++ (key_bytes b.mask key ++ payload_bytes b.mask key b.buf)

-- On a socket that takes enough, `step` succeeds and sends `bs`.
abbrev pub Writes : (Socket → Bool × Socket) → Bytes → Type 0
Writes step bs =
    (s : Socket)
    → Obliging s.outgoing
    → length bs ≤ takings s.outgoing
    → (os' : List Uptake) × (step s ≡ (true, record s { sent = s.sent ++ bs; outgoing = os' }))
      × Obliging os'
      × (takings s.outgoing ≤ takings os' + length bs)

and_then-Writes :
    (f g : Socket → Bool × Socket) (bs cs : Bytes)
    → Writes f bs
    → Writes g cs
    → Writes (λ s. and_then (f s) g) (bs ++ cs)
and_then-Writes f g bs cs wf wg s good enough =
    let (os1, r1, g1, l1) = wf s good (omega (arith, length-append bs cs)) in
    let s1 = record s { sent = s.sent ++ bs; outgoing = os1 } in
    let (os2, r2, g2, l2) = wg s1 g1 (omega (arith, length-append bs cs)) in
    (
      os2,
      ap (λ r. and_then r g) r1
          ∙ r2
          ∙ ap (λ t. (true, record s { sent = t; outgoing = os2 })) (append_assoc s.sent bs cs),
      g2,
      omega (arith, length-append bs cs),
    )

send_all-Writes : (bs : Bytes) → Writes (send_all bs) bs
send_all-Writes bs s good enough = send_all-Sends bs s good enough

Writes-ext :
    (f g : Socket → Bool × Socket) (bs : Bytes)
    → ((s : Socket) → f s ≡ g s)
    → Writes g bs
    → Writes f bs
Writes-ext f g bs same w s good enough =
    let (os', r, g, l) = w s good enough in (os', same s ∙ r, g, l)

pub length_code-lt : (len : ℕ) → length_code len < 128
length_code-lt len = ground arith

send_header-Writes :
    (opcode : ℕ) (mask : Bool) (code : ℕ)
    → opcode < 16
    → code < 128
    → Writes
        (send_all (bytes_2 (htons (huint16 (header_of opcode mask code)))))
        (header_bytes opcode mask code)
send_header-Writes opcode mask code ho hc =
    rw (header_layout opcode mask code ho hc) (send_all-Writes (header_bytes opcode mask code))

send_length-send_all :
    (len : ℕ) (s : Socket)
    → len < 2 ^ 31
    → send_length (length_code len) len s ≡ send_all (length_bytes len) s
unfolding send_length
send_length-send_all len s h = elim (Bool-cases (leb len 125)) [
  | inl short ↦ rw short (unfold send_all in ground arith)
  | inr long ↦ elim (Bool-cases (leb len 65534)) [
    | inl two ↦ rw (long, two, bytes_2-htons len (ground arith))
    | inr eight ↦ rw (long, eight, bytes_8-htobe64 len (omega arith))
  ]
]

send_payload-send_all :
    (b : WebSocketBuffer) (key : Bytes) (s : Socket)
    → (if b.mask
        then and_then (send_all key s) (send_all (masked_from 0 key b.buf))
        else send_all b.buf s)
      ≡ and_then (send_all (key_bytes b.mask key) s) (send_all (payload_bytes b.mask key b.buf))
unfolding send_all
send_payload-send_all b key s = elim (Bool-cases b.mask) [
  | inl masked ↦ rw (masked, masked_from-rfc_masked key b.buf)
  | inr plain ↦ rw plain
]

abbrev send_payload : WebSocketBuffer → Bytes → Socket → Bool × Socket
send_payload b key s =
    if b.mask
    then and_then (send_all key s) (send_all (masked_from 0 key b.buf))
    else send_all b.buf s

abbrev send_with : ℕ → WebSocketBuffer → Bytes → Socket → Bool × Socket
send_with code b key s =
    and_then
      (and_then (send_all (bytes_2 (htons (huint16 (header_of b.opcode b.mask code)))) s)
        (send_length code (length b.buf)))
      (send_payload b key)

send-send_with :
    (b : WebSocketBuffer) (key : Bytes) (s : Socket)
    → send b key s ≡ send_with (length_code (length b.buf)) b key s
unfolding send
send-send_with b key s =
    ap (λ code. send_with code b key s) (payload_len_code-length_code (length b.buf))

send_payload-Writes :
    (b : WebSocketBuffer) (key : Bytes)
    → Writes (send_payload b key) (key_bytes b.mask key ++ payload_bytes b.mask key b.buf)
send_payload-Writes b key =
    let keyed = send_all (key_bytes b.mask key) in
    let payload = payload_bytes b.mask key b.buf in
    Writes-ext (send_payload b key) (λ s. and_then (keyed s) (send_all payload)) _
      (send_payload-send_all b key)
      (and_then-Writes keyed (send_all payload) _ _ (send_all-Writes _) (send_all-Writes _))

-- On a socket that takes enough, `Send` succeeds and sends the frame as RFC 6455 lays it out, FIN
-- set: the payload, masked by the key if the buffer says so, behind its length and the key. Only
-- for 65535 bytes the length is not the shortest form.
pub send-Writes :
    (b : WebSocketBuffer) (key : Bytes) (s : Socket)
    → b.opcode < 16
    → length b.buf < 2 ^ 31
    → Obliging s.outgoing
    → length (frame_layout b key) ≤ takings s.outgoing
    → (os' : List Uptake) × (send b key s
        ≡ (true, record s { sent = s.sent ++ frame_layout b key; outgoing = os' }))
      × Obliging os'
      × (takings s.outgoing ≤ takings os' + length (frame_layout b key))
send-Writes b key s ho hl good enough =
    let code = length_code (length b.buf) in
    let first = send_all (bytes_2 (htons (huint16 (header_of b.opcode b.mask code)))) in
    let len = length_bytes (length b.buf) in
    let sized =
      Writes-ext (send_length code (length b.buf)) (send_all len) len
        (λ s. send_length-send_all (length b.buf) s hl) (send_all-Writes len) in
    let header =
      and_then-Writes first (send_length code (length b.buf)) _ len
        (send_header-Writes b.opcode b.mask code ho (length_code-lt (length b.buf))) sized in
    Writes-ext (send b key) (send_with code b key) (frame_layout b key) (send-send_with b key)
      (and_then-Writes (λ s. and_then (first s) (send_length code (length b.buf)))
        (send_payload b key) _ _ header (send_payload-Writes b key))
      s good enough
