-- ===== src/Http1/FieldValues.antt =====
-- What LineParse of src/http.cpp keeps of a field: its name and its value, for the handlers.
use heaphttpd.Prelude.{
  ◌^◌, ◌<◌, ◌≡◌, refl, sym, ap, ◌∙◌, Bool, true, false, List, [], ◌∷◌, ◌++◌, Bytes, length,
  if◌then◌else◌, arith, Bool-cases, inl, inr,
}
use heaphttpd.Text.{strtrim, same_string}
use heaphttpd.Http1.{HttpRequest, Outside, set_entry, get_entry, set_meta, set_field}
use heaphttpd.Http1.Header.{
  FieldKind, connection, upgrade, content_length, content_type, cookie, host, auth_basic,
  auth_digest, proxy_basic, proxy_digest, cache_control, pragma, other, store_field, keep_field,
  field_kind, connection_field, upgrade_field, content_type_field, host_field, authorization_field,
  proxy_field, cache_control_field, pragma_field, apply_field, field_line,
}
use heaphttpd.Text.Separator.{HasNoZero, HasNo, strcut_name, strcut_value}

pub same_string_refl : (xs : Bytes) → same_string xs xs ≡ true
unfolding same_string
same_string_refl [] = refl
same_string_refl (x ∷ xs) = ground (arith, same_string_refl xs)

same_string_eq : (xs ys : Bytes) → same_string xs ys ≡ true → xs ≡ ys
unfolding same_string
same_string_eq [] [] h = refl
same_string_eq [] (y ∷ ys) h = cc
same_string_eq (x ∷ xs) [] h = cc
same_string_eq (x ∷ xs) (y ∷ ys) h = ground (arith, same_string_eq xs ys)

if_twice :
    (b : Bool) (x y z : Bytes) → (if b then x else z) ≡ (if b then x else (if b then y else z))
if_twice true x y z = refl
if_twice false x y z = refl

if_swap :
    (n j k v value z : Bytes)
    → same_string n j ≡ false
    → (if same_string n k then v else (if same_string j k then value else z))
      ≡ (if same_string j k then value else (if same_string n k then v else z))
if_swap n j k v value z differs = elim (Bool-cases (same_string n k)) [
  | inr other_n ↦ rw other_n
  | inl same_n ↦ elim (Bool-cases (same_string j k)) [
    | inr other_j ↦ rw (same_n, other_j)
    | inl same_j ↦
        let e : n ≡ j = same_string_eq n k same_n ∙ sym (same_string_eq j k same_j) in
        let wrong : false ≡ true = sym differs ∙ ap (same_string n) (sym e) ∙ same_string_refl n in
        cc
  ]
]

-- An entry that is set is found, and all others are as they were.
pub get_entry-set_entry :
    (j k value : Bytes) (entries : List (Bytes × Bytes))
    → get_entry k (set_entry j value entries)
      ≡ (if same_string j k then value else get_entry k entries)
unfolding get_entry set_entry
get_entry-set_entry j k value [] = refl
get_entry-set_entry j k value ((n, v) ∷ entries) = elim (Bool-cases (same_string n j)) [
  | inl same ↦
      rw (same, same_string_eq n j same) (if_twice (same_string j k) value v (get_entry k entries))
  | inr differs ↦
      rw (differs, get_entry-set_entry j k value entries)
        (if_swap n j k v value (get_entry k entries) differs)
]

-- No handler of a field touches the fields.
apply_field-fields :
    (o : Outside) (kind : FieldKind) (line : Bytes) (r : HttpRequest)
    → (apply_field o kind line r).fields ≡ r.fields
unfolding apply_field connection_field upgrade_field content_type_field host_field
    authorization_field proxy_field cache_control_field pragma_field set_meta
apply_field-fields o connection line r = ground arith
apply_field-fields o upgrade line r = ground arith
apply_field-fields o content_length line r = refl
apply_field-fields o content_type line r = ground arith
apply_field-fields o cookie line r = refl
apply_field-fields o host line r = refl
apply_field-fields o auth_basic line r = ground arith
apply_field-fields o auth_digest line r = ground arith
apply_field-fields o proxy_basic line r = refl
apply_field-fields o proxy_digest line r = refl
apply_field-fields o cache_control line r = ground arith
apply_field-fields o pragma line r = ground arith
apply_field-fields o other line r = refl

-- No colon stands in a name.
abbrev pub HasNoColon : Bytes → Type 0
HasNoColon = HasNo b':'

not_empty : (xs : Bytes) → 0 < length xs → same_string xs [] ≡ false
unfolding same_string
not_empty [] h = absurd (omega arith)
not_empty (x ∷ xs) h = refl

store_field-fields : (line : Bytes) (r : HttpRequest) → (store_field line r).fields ≡ r.fields
unfolding store_field
store_field-fields line r = ground arith

keep_field-fields :
    (name value : Bytes) (r : HttpRequest)
    → HasNoColon name
    → HasNoZero (name ++ b':' ∷ value)
    → length (name ++ b':' ∷ value) < 2 ^ 64
    → 0 < length (strtrim name)
    → (keep_field (name ++ b':' ∷ value) r).fields
      ≡ set_entry (strtrim name) (strtrim value) r.fields
unfolding keep_field set_meta set_field
keep_field-fields name value r colon zero_ short some_name = rw (
  strcut_name b':' name value colon zero_ short,
  strcut_value b':' name value colon zero_ short,
  not_empty (strtrim name) some_name,
)

-- A line with a name without a colon, in which something is left when it is trimmed, a colon and a
-- value, no zero in them, sets the field of the trimmed name to the trimmed value, whatever the
-- program does for fields of this name and whatever WWW_Auth says, and leaves all other fields.
pub field_line-get_entry :
    (o : Outside) (name value k : Bytes) (r : HttpRequest)
    → HasNoColon name
    → HasNoZero (name ++ b':' ∷ value)
    → length (name ++ b':' ∷ value) < 2 ^ 64
    → 0 < length (strtrim name)
    → get_entry k (field_line o (name ++ b':' ∷ value) r).fields
      ≡ (if same_string (strtrim name) k then strtrim value else get_entry k r.fields)
unfolding field_line
field_line-get_entry o name value k r colon zero_ short some_name =
    let line : Bytes = name ++ b':' ∷ value in
    ap (get_entry k) (
      apply_field-fields o (field_kind line) line (keep_field line (store_field line r))
      ∙ keep_field-fields name value (store_field line r) colon zero_ short some_name
      ∙ ap (set_entry (strtrim name) (strtrim value)) (store_field-fields line r))
    ∙ get_entry-set_entry (strtrim name) k (strtrim value) r.fields
