-- ===== src/Hpack/Meaning.antt =====
-- What a field that `hpack::build` writes means to `hpack::parse`.
use heaphttpd.Prelude.{
  ℕ, ◌+◌, ◌-◌, ◌*◌, ◌^◌, ◌<◌, ◌≤◌, ◌≡◌, refl, inl, inr, true, false, [], ◌∷◌, Bytes, All, arith,
  Bool-cases,
}
use heaphttpd.Text.{same_ignoring_case}
use heaphttpd.Hpack.Fields.{IndexType, type_indexed, type_with_indexing_indexed_name, ok}
use heaphttpd.Hpack.Build.{StaticTable, field_tag, find_index}

-- the table has the name and the value at the index `i`
pub data Entry (i : ℕ) (first second : Bytes) : StaticTable → Type 0 where
  here : (table : StaticTable) → Entry i first second ((i, first, second) ∷ table)
  there :
      (e : ℕ × Bytes × Bytes) (table : StaticTable)
      → Entry i first second table
      → Entry i first second (e ∷ table)

-- an index that fits its tag, and is not taken for a new name
abbrev pub IsIndex : ℕ × Bytes × Bytes → Type 0
IsIndex e = (1 ≤ e.0) × (e.0 < 63)

abbrev pub OtherName : Bytes → ℕ × Bytes × Bytes → Type 0
OtherName name e = same_ignoring_case (e.1) name ≡ false

-- What the search of the table may give, where `c` stands for no entry.
pub data Choice (table : StaticTable) (name value : Bytes) (c r : IndexType × ℕ) : Type 0 where
  both :
      (i : ℕ) (first second : Bytes)
      → Entry i first second table
      → 1 ≤ i
      → i < 63
      → same_ignoring_case first name ≡ true
      → same_ignoring_case second value ≡ true
      → r ≡ (type_indexed, i + 1 * 2 ^ 7)
      → Choice table name value c r
  named :
      (i : ℕ) (first second : Bytes)
      → Entry i first second table
      → 1 ≤ i
      → i < 63
      → same_ignoring_case first name ≡ true
      → r ≡ (type_with_indexing_indexed_name, i + 1 * 2 ^ 6)
      → Choice table name value c r
  kept : r ≡ c → All (OtherName name) table → Choice table name value c r

field_tag-ok :
    (prefix code i : ℕ) → i < 2 ^ prefix - 1 → field_tag prefix code i ≡ ok (i + code * 2 ^ prefix)
unfolding field_tag
field_tag-ok prefix code i h = ground arith

-- The entry at the front does not have the name.
Choice-other :
    {table : StaticTable} {name value : Bytes} {c r : IndexType × ℕ} {e : ℕ × Bytes × Bytes}
    → OtherName name e
    → Choice table name value c r
    → Choice (e ∷ table) name value c r
Choice-other {table} {e = e} o (both i first second m h1 h2 s s' q) =
    both i first second (there e table m) h1 h2 s s' q
Choice-other {table} {e = e} o (named i first second m h1 h2 s q) =
    named i first second (there e table m) h1 h2 s q
Choice-other o (kept q others) = kept q (o, others)

-- The entry at the front has the name only.
Choice-named :
    (i : ℕ) (first second : Bytes) {table : StaticTable} {name value : Bytes} {c r : IndexType × ℕ}
    → 1 ≤ i
    → i < 63
    → same_ignoring_case first name ≡ true
    → Choice table name value (type_with_indexing_indexed_name, i + 1 * 2 ^ 6) r
    → Choice ((i, first, second) ∷ table) name value c r
Choice-named i first second {table} g1 g2 g (both j f s m h1 h2 e e' q) =
    both j f s (there (i, first, second) table m) h1 h2 e e' q
Choice-named i first second {table} g1 g2 g (named j f s m h1 h2 e q) =
    named j f s (there (i, first, second) table m) h1 h2 e q
Choice-named i first second {table} g1 g2 g (kept q others) =
    named i first second (here table) g1 g2 g q

pub find_index-Choice :
    (table : StaticTable) (name value : Bytes) (c : IndexType × ℕ)
    → All IsIndex table
    → (r : IndexType × ℕ) × (find_index table name value c ≡ ok r) × Choice table name value c r
unfolding find_index
find_index-Choice [] name value c h = (c, refl, kept refl tt)
find_index-Choice ((i, first, second) ∷ table) name value c ((h1, h2), h) =
    elim (Bool-cases (same_ignoring_case first name)) [
      | inr other ↦
          let (r, e, choice) = find_index-Choice table name value c h in
          (r, rw other e, Choice-other other choice)
      | inl same ↦ elim (Bool-cases (same_ignoring_case second value)) [
        | inl too ↦ (
          (type_indexed, i + 1 * 2 ^ 7),
          rw (same, field_tag-ok 6 1 i h2) (rw (too, field_tag-ok 7 1 i (omega arith)) refl),
          both i first second (here table) h1 h2 same too refl,
        )
        | inr not_too ↦
            let (r, e, choice) =
              find_index-Choice table name value (type_with_indexing_indexed_name, i + 1 * 2 ^ 6)
                h in
            (
              r,
              rw (same, field_tag-ok 6 1 i h2) (rw not_too e),
              Choice-named i first second h1 h2 same choice,
            )
      ]
    ]
