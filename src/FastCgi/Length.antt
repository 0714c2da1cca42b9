-- ===== src/FastCgi/Length.antt =====
-- The lengths in the pairs of names and values: what SendParams of src/fastcgi.cpp counts is what it
-- sends, and the reader of the specification gets the pairs.
use heaphttpd.Prelude.{
  ℕ, zero, suc, ◌+◌, ◌/◌, ◌%◌, ◌^◌, ◌≤◌, ◌<◌, ◌≡◌, ◌≢◌, refl, ap, ◌∙◌, List, [], ◌∷◌, ◌++◌, none,
  some, Bytes, All, length, ltb, if◌then◌else◌, arith, length-append, take-length_append,
  drop-length_append,
}
use heaphttpd.Prelude.Bits.{bit_or_80}
use mathlib.Core.List.{append_assoc}
use heaphttpd.FastCgi.{pair_kind, long_length, len32, counted, count_params}
use heaphttpd.FastCgi.Records.{split, read_length, read_pair, read_pairs}
use heaphttpd.FastCgi.Sending.{pair_bytes, params_bytes}

-- a length that SendParams sends and that fits a record
abbrev pub FitsLength : ℕ → Type 0
FitsLength n = (0 < n) × (n < 65536) × (n ≢ 0x80)

abbrev pub FitsPair : Bytes × Bytes → Type 0
FitsPair (name, value) = FitsLength (length name) × FitsLength (length value)

-- a length as the specification writes it
abbrev pub length_field : ℕ → Bytes
length_field n = if ltb n 0x80 then n ∷ [] else long_length n

abbrev pub pair_layout : Bytes → Bytes → Bytes
pair_layout name value =
    length_field (length name) ++ (length_field (length value) ++ (name ++ value))

-- the size of the parameters in the layout of the specification
abbrev pub params_size : List (Bytes × Bytes) → ℕ
params_size [] = 0
params_size ((name, value) ∷ pairs) = length (pair_layout name value) + params_size pairs

len32_lem : (text : Bytes) → length text < 65536 → len32 text ≡ length text
len32_lem text h = omega arith

pair_bytes_layout :
    (n v : ℕ) (name value : Bytes)
    → FitsLength n
    → FitsLength v
    → len32 name ≡ n
    → len32 value ≡ v
    → pair_bytes (pair_kind n v) name value ≡ length_field n ++ (length_field v ++ (name ++ value))
unfolding pair_kind
pair_bytes_layout n v name value (n1, n2, n3) (v1, v2, v3) en ev = ground arith

read_length_field :
    (n : ℕ) (rest : Bytes) → n < 65536 → read_length (length_field n ++ rest) ≡ some (n, rest)
unfolding read_length
read_length_field n rest h = ground (arith, bit_or_80 (n / 2 ^ 24 % 256))

pub split-length : (xs ys : Bytes) → split (length xs) (xs ++ ys) ≡ some (xs, ys)
unfolding split
split-length xs ys =
    ground (arith, length-append xs ys, take-length_append xs ys, drop-length_append xs ys)

read_pair_layout :
    (name value rest : Bytes)
    → FitsPair (name, value)
    → read_pair (pair_layout name value ++ rest) ≡ some ((name, value), rest)
unfolding read_pair
read_pair_layout name value rest (fn, fv) = rw (
  append_assoc (length_field (length name)) (length_field (length value) ++ (name ++ value)) rest,
  append_assoc (length_field (length value)) (name ++ value) rest,
  append_assoc name value rest,
  read_length_field (length name) (length_field (length value) ++ (name ++ (value ++ rest))) fn.1,
  read_length_field (length value) (name ++ (value ++ rest)) fv.1,
  split-length name (value ++ rest),
  split-length value rest,
)

pair_bytes-layout :
    (name value : Bytes)
    → FitsPair (name, value)
    → pair_bytes (pair_kind (len32 name) (len32 value)) name value ≡ pair_layout name value
pair_bytes-layout name value (fn, fv) =
    rw (len32_lem name fn.1, len32_lem value fv.1)
      (pair_bytes_layout (length name) (length value) name value fn fv (len32_lem name fn.1)
        (len32_lem value fv.1))

pub length-params_bytes :
    (pairs : List (Bytes × Bytes))
    → All FitsPair pairs
    → length (params_bytes pairs) ≡ params_size pairs
length-params_bytes [] fit = refl
length-params_bytes ((name, value) ∷ pairs) fit = rw (pair_bytes-layout name value fit.0) (
    length-append (pair_layout name value) (params_bytes pairs)
    ∙ ap (λ (n : ℕ). length (pair_layout name value) + n) (length-params_bytes pairs fit.1))

counted_layout :
    (n v : ℕ) (name value : Bytes)
    → FitsLength n
    → FitsLength v
    → n ≡ length name
    → v ≡ length value
    → counted (pair_kind n v) n v ≡ length (length_field n ++ (length_field v ++ (name ++ value)))
unfolding counted pair_kind
counted_layout n v name value (n1, n2, n3) (v1, v2, v3) en ev =
    ground (arith, length-append name value)

count_step :
    (name value : Bytes)
    → FitsPair (name, value)
    → counted (pair_kind (len32 name) (len32 value)) (len32 name) (len32 value)
      ≡ length (pair_layout name value)
count_step name value (fn, fv) =
    rw (len32_lem name fn.1, len32_lem value fv.1)
      (counted_layout (length name) (length value) name value fn fv refl refl)

-- The first loop counts the bytes that the second sends.
pub count_params_lem :
    (pairs : List (Bytes × Bytes)) (total : ℕ)
    → All FitsPair pairs
    → total + params_size pairs < 2 ^ 64
    → count_params pairs total ≡ total + params_size pairs
unfolding count_params
count_params_lem [] total fit h = omega arith
count_params_lem ((name, value) ∷ pairs) total fit h = rw (count_step name value fit.0) (
    count_params_lem pairs ((total + length (pair_layout name value)) % 2 ^ 64) fit.1 (omega arith)
    ∙ omega arith)

empty_pair : read_pair [] ≡ none
unfolding read_pair
empty_pair = refl

read_pairs_none : (fuel : ℕ) → read_pairs fuel [] ≡ some []
unfolding read_pairs
read_pairs_none zero = refl
read_pairs_none (suc fuel) = refl

read_pairs_step :
    (fuel : ℕ) (bs rest : Bytes) (pair : Bytes × Bytes) (pairs : List (Bytes × Bytes))
    → read_pair bs ≡ some (pair, rest)
    → read_pairs fuel rest ≡ some pairs
    → read_pairs (suc fuel) bs ≡ some (pair ∷ pairs)
unfolding read_pairs
read_pairs_step fuel [] rest pair pairs e r = cc (empty_pair, e)
read_pairs_step fuel (b ∷ bs) rest pair pairs e r = rw (e, r)

pub length-pair_layout :
    (name value : Bytes) → FitsPair (name, value) → 0 < length (pair_layout name value)
length-pair_layout name value (fn, fv) = omega (
  arith,
  fn.0,
  length-append (length_field (length name)) (length_field (length value) ++ (name ++ value)),
  length-append (length_field (length value)) (name ++ value),
  length-append name value,
)

-- The specification's reader gets the pairs back.
pub read_pairs-params_bytes :
    (pairs : List (Bytes × Bytes)) (fuel : ℕ)
    → All FitsPair pairs
    → params_size pairs ≤ fuel
    → read_pairs fuel (params_bytes pairs) ≡ some pairs
read_pairs-params_bytes [] fuel fit h = read_pairs_none fuel
read_pairs-params_bytes ((name, value) ∷ pairs) zero fit h =
    absurd (omega (arith, length-pair_layout name value fit.0))
read_pairs-params_bytes ((name, value) ∷ pairs) (suc fuel) fit h =
    rw (pair_bytes-layout name value fit.0) (
      read_pairs_step fuel (pair_layout name value ++ params_bytes pairs) (params_bytes pairs)
        (name, value) pairs (read_pair_layout name value (params_bytes pairs) fit.0)
        (read_pairs-params_bytes pairs fuel fit.1
          (omega (arith, length-pair_layout name value fit.0))))
