-- ===== src/Scgi/Netstring.antt =====
-- How the SCGI specification reads a request, written from that document and not from src/scgi.cpp: a
-- netstring of headers, each a name and a value with a zero behind, and the body.
use heaphttpd.Prelude.{
  ℕ, zero, suc, ◌+◌, ◌-◌, ◌*◌, ◌&&◌, List, [], ◌∷◌, Option, none, some, Bytes, length, leb, ◌==◌,
  if◌then◌else◌,
}
use heaphttpd.FastCgi.Records.{bind, split}

-- decimal digits as far as they go, behind those whose number is `n`
unfoldable pub read_decimal : ℕ → Bytes → ℕ × Bytes
read_decimal n [] = (n, [])
read_decimal n (b ∷ bs) =
    if leb b'0' b && leb b b'9' then read_decimal (n * 10 + (b - b'0')) bs else (n, b ∷ bs)

-- the byte `b` and what stands behind it
unfoldable pub expect : ℕ → Bytes → Option Bytes
expect b [] = none
expect b (c ∷ bs) = if b == c then some bs else none

-- `expect` behind a number of bytes
unfoldable pub read_netstring : Bytes → Option (Bytes × Bytes)
read_netstring bs =
    let (n, r1) = read_decimal 0 bs in
    bind (expect b':' r1)
      λ r2. bind (split n r2) λ (headers, r3). bind (expect b',' r3) λ r4. some (headers, r4)

abbrev text_with : ℕ → Option (Bytes × Bytes) → Option (Bytes × Bytes)
text_with b more = bind more λ (text, rest). some (b ∷ text, rest)

-- the bytes in front of the next zero, and those behind it
unfoldable pub read_text : Bytes → Option (Bytes × Bytes)
read_text [] = none
read_text (b ∷ bs) = if b == 0 then some ([], bs) else text_with b (read_text bs)

unfoldable pub read_headers : ℕ → Bytes → Option (List (Bytes × Bytes))
read_headers fuel [] = some []
read_headers zero (b ∷ bs) = none
read_headers (suc fuel) (b ∷ bs) = bind (read_text (b ∷ bs)) λ (name, r1).
    bind (read_text r1)
      λ (value, r2). bind (read_headers fuel r2) λ headers. some ((name, value) ∷ headers)

pub record Request : Type 0 where
  pub headers : List (Bytes × Bytes)
  pub body : Bytes

-- The body is as long as the first header says.
abbrev first_value : List (Bytes × Bytes) → ℕ
first_value [] = 0
first_value ((name, value) ∷ _) = (read_decimal 0 value).0

unfoldable pub read_request : Bytes → Option (Request × Bytes)
read_request bs = bind (read_netstring bs) λ (text, r1).
    bind (read_headers (length text) text) λ headers.
      bind (split (first_value headers) r1)
        λ (body, left). some (record { headers = headers; body = body }, left)
