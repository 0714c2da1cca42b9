-- ===== src/Http1/Lines.antt =====
-- The loop of CHttp::LineParse (src/http.cpp) over the lines of a text.
use heaphttpd.Prelude.{
  ℕ, zero, suc, Bool, true, false, [], ◌∷◌, ◌++◌, Option, none, some, Bytes, length, ◌==◌,
  if◌then◌else◌,
}
use heaphttpd.Text.{c_str, strtrim}
use heaphttpd.Http1.{
  HttpMethod, hm_options, hm_get, hm_head, hm_post, hm_put, hm_delete, hm_trace, hm_connect,
  HttpRequest, Outside, set_meta,
}
use heaphttpd.Http1.Words.{text, capitalise, starts_ignoring_case}
use heaphttpd.Http1.Header.{crlf, store_line, field_line}

unfoldable pub method_of : Bytes → Option HttpMethod
method_of line =
    if starts_ignoring_case (text "GET ") line
    then some hm_get
    else if starts_ignoring_case (text "POST ") line
    then some hm_post
    else if starts_ignoring_case (text "PUT ") line
    then some hm_put
    else if starts_ignoring_case (text "HEAD ") line
    then some hm_head
    else if starts_ignoring_case (text "DELETE ") line
    then some hm_delete
    else if starts_ignoring_case (text "OPTIONS ") line
    then some hm_options
    else if starts_ignoring_case (text "TRACE ") line
    then some hm_trace
    else if starts_ignoring_case (text "CONNECT ") line
    then some hm_connect
    else none

abbrev pub method_name : HttpMethod → Bytes
method_name hm_options = text "OPTIONS"
method_name hm_get = text "GET"
method_name hm_head = text "HEAD"
method_name hm_post = text "POST"
method_name hm_put = text "PUT"
method_name hm_delete = text "DELETE"
method_name hm_trace = text "TRACE"
method_name hm_connect = text "CONNECT"

unfoldable pub method_line : Outside → HttpMethod → Bytes → HttpRequest → HttpRequest
method_line o method line r =
    let r1 : HttpRequest = record (set_meta (text "REQUEST_METHOD") (method_name method) r) {
      method = method;
    } in
    let (line', r2) = o.parse_method line r1 in store_line line' r2

-- The Boolean is whether the header is finished.
abbrev pub by_method : Outside → Option HttpMethod → Bytes → HttpRequest → Bool × HttpRequest
by_method o (some method) line r = (false, method_line o method line r)
by_method o none [] r =
    (true, record r { header_content = r.header_content ++ crlf; req_data = true })
by_method o none (b ∷ bs) r = (false, field_line o (b ∷ bs) r)

-- one turn of the loop, with the line, its end included
unfoldable pub take_line : Outside → Bytes → HttpRequest → Bool × HttpRequest
take_line o raw r =
    let line : Bytes = capitalise true (strtrim raw) in by_method o (method_of line) line r

-- `substr(0, new_line + 1)` and `substr(new_line + 1)`, or `none` if `find('\n')` finds nothing
abbrev pub line_with : ℕ → Option (Bytes × Bytes) → Option (Bytes × Bytes)
line_with b none = none
line_with b (some (line, rest)) = some (b ∷ line, rest)

unfoldable pub cut_line : Bytes → Option (Bytes × Bytes)
cut_line [] = none
cut_line (b ∷ bs) = if b == 0x0a then some (0x0a ∷ [], bs) else line_with b (cut_line bs)

-- How LineParse is left: at the end of the loop, with httpContinue, or where the header is finished:
-- with httpContinue or what DataParse gives, by the build. The text is m_line_text.
pub data Parsing : Type 0 where
  out_of_fuel : Parsing
  waits : Bytes → HttpRequest → Parsing
  finished : Bytes → HttpRequest → Parsing

abbrev pub line_taken : Bytes → Bool × HttpRequest → (HttpRequest → Parsing) → Parsing
line_taken rest (true, r) next = finished rest r
line_taken rest (false, r) next = next r

abbrev pub line_found :
    Outside
    → Bytes
    → HttpRequest
    → Option (Bytes × Bytes)
    → (Bytes → HttpRequest → Parsing)
    → Parsing
line_found o line_text r none next = waits line_text r
line_found o line_text r (some (line, rest)) next = line_taken rest (take_line o line r) (next rest)

-- A turn takes a byte at least.
unfoldable pub line_loop : ℕ → Outside → Bytes → HttpRequest → Parsing
line_loop zero o line_text r = out_of_fuel
line_loop (suc fuel) o line_text r =
    line_found o line_text r (cut_line line_text) (line_loop fuel o)

-- `line_text` is m_line_text as the last call has left it.
unfoldable pub line_parse : Outside → Bytes → Bytes → HttpRequest → Parsing
line_parse o received line_text r =
    let all : Bytes = line_text ++ c_str received in line_loop (suc (length all)) o all r
