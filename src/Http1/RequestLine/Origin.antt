-- ===== src/Http1/RequestLine/Origin.antt =====
-- ParseMethod (src/http.cpp) on a line that asks this server for a resource.
use heaphttpd.Prelude.{
  ℕ, ◌≡◌, refl, Bool, true, false, ◌||◌, [], ◌∷◌, ◌++◌, Bytes, All, arith, drop-length_append, List,
}
use heaphttpd.Text.{lower}
use heaphttpd.Text.Separator.{HasNoZero, c_str_whole}
use heaphttpd.Http1.{HttpRequest, get_entry, set_entry, set_meta}
use heaphttpd.Http1.Words.{text, starts_ignoring_case}
use heaphttpd.Http1.FieldValues.{get_entry-set_entry, same_string_refl}
use heaphttpd.Http1.RequestLine.{
  Proxying, scan, is_method, is_no_slash, is_query, is_resource, scan_target, local_target,
  other_target, parse_method,
}

abbrev pub AreOf : (ℕ → Bool) → Bytes → Type 0
AreOf good = All (λ b. good b ≡ true)

scan_stops :
    (good : ℕ → Bool) (xs : Bytes) (b : ℕ) (rest : Bytes)
    → AreOf good xs
    → good b ≡ false
    → scan good (xs ++ b ∷ rest) ≡ xs
unfolding scan
scan_stops good [] b rest h e = rw e refl
scan_stops good (x ∷ xs) b rest h e = rw (h.0, scan_stops good xs b rest h.1 e) refl

method_no_slash : (b : ℕ) → is_method b ≡ true → is_no_slash b ≡ true
method_no_slash b h = ground arith

methods_no_slash : (xs : Bytes) → AreOf is_method xs → AreOf is_no_slash xs
methods_no_slash [] h = h
methods_no_slash (x ∷ xs) h = (method_no_slash x h.0, methods_no_slash xs h.1)

abbrev pub origin_line : Bytes → Bytes → Bytes → Bytes → Bytes
origin_line method resource query version =
    method ++ b'/' ∷ (resource ++ b'?' ∷ (query ++ b' ' ∷ version))

scan_target-origin_line :
    (m : ℕ) (ms resource query version : Bytes)
    → AreOf is_method (m ∷ ms)
    → AreOf is_resource resource
    → AreOf is_query query
    → scan_target (origin_line (m ∷ ms) resource query version) ≡ (b'/' ∷ resource, query)
unfolding scan_target
scan_target-origin_line m ms resource query version hm hr hq =
    rw
      (
        front,
        drop-length_append (m ∷ ms) behind,
        middle,
        drop-length_append resource behind_resource,
        scan_stops is_query query b' ' version hq refl,
      )
      refl
  where
    behind_resource : Bytes
    behind_resource = b'?' ∷ (query ++ b' ' ∷ version)

    behind : Bytes
    behind = b'/' ∷ (resource ++ behind_resource)

    front : scan is_no_slash ((m ∷ ms) ++ behind) ≡ m ∷ ms
    front =
        scan_stops is_no_slash (m ∷ ms) b'/' (resource ++ behind_resource)
          (methods_no_slash (m ∷ ms) hm) refl

    middle : scan is_resource behind ≡ b'/' ∷ resource
    middle = scan_stops is_resource (b'/' ∷ resource) b'?' (query ++ b' ' ∷ version) (refl, hr) refl

no_url :
    (rest : Bytes)
    → (starts_ignoring_case (text "http://") (b'/' ∷ rest)
        || starts_ignoring_case (text "https://") (b'/' ∷ rest))
      ≡ false
unfolding starts_ignoring_case lower
no_url rest = refl

-- Where no server stands behind this one, a line of a method other than CONNECT, a resource, a
-- question mark and a query, each of the bytes that the code looks for and none zero, is left as it
-- is, the resource is decoded, and the query is taken as it stands.
pub parse_method-origin_line :
    (p : Proxying) (m : ℕ) (ms resource query version : Bytes) (r : HttpRequest)
    → p.reverse_proxy ≡ false
    → AreOf is_method (m ∷ ms)
    → starts_ignoring_case (text "CONNECT ") (m ∷ ms) ≡ false
    → AreOf is_resource resource
    → AreOf is_query query
    → HasNoZero (origin_line (m ∷ ms) resource query version)
    → let line : Bytes = origin_line (m ∷ ms) resource query version in
      let (line', r') = parse_method p line r in
      (line' ≡ line)
      × (r'.target.resource ≡ p.decode (b'/' ∷ resource))
      × (r'.target.querystring ≡ query)
      × (get_entry (text "QUERY_STRING") r'.metas ≡ query)
unfolding parse_method other_target local_target set_meta
parse_method-origin_line p m ms resource query version r off hm connect hr hq whole =
    rw
      (
        off,
        c_str_whole line whole,
        method,
        connect,
        drop-length_append (m ∷ ms) behind,
        no_url (resource ++ b'?' ∷ (query ++ b' ' ∷ version)),
        scan_target-origin_line m ms resource query version hm hr hq,
      )
      (refl, refl, refl, query_entry _)
  where
    query_entry :
        (entries : List (Bytes × Bytes))
        → get_entry (text "QUERY_STRING") (set_entry (text "QUERY_STRING") query entries) ≡ query
    query_entry entries =
        rw
          (
            get_entry-set_entry (text "QUERY_STRING") (text "QUERY_STRING") query entries,
            same_string_refl (text "QUERY_STRING"),
          )
          refl

    behind : Bytes
    behind = b'/' ∷ (resource ++ b'?' ∷ (query ++ b' ' ∷ version))

    line : Bytes
    line = origin_line (m ∷ ms) resource query version

    method : scan is_method line ≡ m ∷ ms
    method =
        scan_stops is_method (m ∷ ms) b'/' (resource ++ b'?' ∷ (query ++ b' ' ∷ version)) hm refl
