-- ===== src/FastCgi/Records.antt =====
-- How the FastCGI specification reads what a web server sends, written from that document and not
-- from src/fastcgi.cpp: records, streams of records, pairs of names and values.
use heaphttpd.Prelude.{
  ℕ, zero, suc, ◌+◌, ◌-◌, ◌*◌, ◌&&◌, List, [], ◌∷◌, ◌++◌, Option, none, some, Bytes, length, take,
  drop, ltb, leb, ◌==◌, if◌then◌else◌,
}

pub record Record : Type 0 where
  pub kind : ℕ
  pub id : ℕ
  pub content : Bytes

-- `split n bs`: the first `n` bytes and the others, if there are so many.
unfoldable pub split : ℕ → Bytes → Option (Bytes × Bytes)
split n bs = if leb n (length bs) then some (take n bs, drop n bs) else none

abbrev pub bind {ℓ κ} : {A : Type ℓ} {B : Type κ} → Option A → (A → Option B) → Option B
bind none next = none
bind (some a) next = next a

-- a header of eight bytes, the content, the padding
unfoldable pub read_record : Bytes → Option (Record × Bytes)
unfolding split
read_record (version ∷ kind ∷ i1 ∷ i0 ∷ l1 ∷ l0 ∷ padding ∷ reserved ∷ rest) =
    if version == 1
    then bind (split (l1 * 256 + l0) rest) (λ (content, more).
      bind (split padding more)
        (λ (_, left). some (record { kind = kind; id = i1 * 256 + i0; content = content }, left)))
    else none
read_record _ = none

-- An empty record ends a stream; any other stands in front of what follows.
abbrev stream_with : Bytes → Bytes → Option (Bytes × Bytes) → Option (Bytes × Bytes)
stream_with [] rest more = some ([], rest)
stream_with (b ∷ bs) rest more = bind more λ (stream, left). some ((b ∷ bs) ++ stream, left)

-- The stream of one kind and one request, and what stands behind it. No stream has more records
-- than there are bytes, so their number is fuel enough.
unfoldable pub read_stream : ℕ → ℕ → ℕ → Bytes → Option (Bytes × Bytes)
unfolding read_record
read_stream zero kind id bs = none
read_stream (suc fuel) kind id bs = bind (read_record bs) λ (r, rest).
    if r.kind == kind && r.id == id
    then stream_with r.content rest (read_stream fuel kind id rest)
    else none

-- A length on four bytes, of the first of which the top bit is no part.
unfoldable pub read_long : ℕ → Bytes → Option (ℕ × Bytes)
read_long b3 (b2 ∷ b1 ∷ b0 ∷ rest) = some ((b3 - 128) * 16777216 + b2 * 65536 + b1 * 256 + b0, rest)
read_long b3 _ = none

unfoldable pub read_length : Bytes → Option (ℕ × Bytes)
unfolding read_long
read_length [] = none
read_length (b ∷ bs) = if ltb b 128 then some (b, bs) else read_long b bs

unfoldable pub read_pair : Bytes → Option ((Bytes × Bytes) × Bytes)
unfolding read_length split
read_pair bs = bind (read_length bs) λ (name_len, r1). bind (read_length r1) λ (value_len, r2).
    bind (split name_len r2)
      λ (name, r3). bind (split value_len r3) λ (value, r4). some ((name, value), r4)

unfoldable pub read_pairs : ℕ → Bytes → Option (List (Bytes × Bytes))
unfolding read_pair
read_pairs fuel [] = some []
read_pairs zero (b ∷ bs) = none
read_pairs (suc fuel) (b ∷ bs) =
    bind (read_pair (b ∷ bs))
      λ (pair, rest). bind (read_pairs fuel rest) λ pairs. some (pair ∷ pairs)

pub record Request : Type 0 where
  pub role : ℕ
  pub id : ℕ
  pub params : List (Bytes × Bytes)
  pub stdin : Bytes

-- The role in the body of the first record, a BEGIN_REQUEST.
abbrev role_of : Bytes → ℕ
role_of (r1 ∷ r0 ∷ _) = r1 * 256 + r0
role_of _ = 0

-- A request: BEGIN_REQUEST, the stream of parameters (4), the stream of the body (5).
unfoldable pub read_request : Bytes → Option (Request × Bytes)
read_request bs = bind (read_record bs) λ (begin, r1).
    if begin.kind == 1
    then bind (read_stream (length r1) 4 begin.id r1) (λ (params, r2).
      bind (read_pairs (length params) params) (λ pairs.
        bind (read_stream (length r2) 5 begin.id r2) (λ (stdin, r3). some (
          record { role = role_of begin.content; id = begin.id; params = pairs; stdin = stdin },
          r3,
        ))))
    else none
