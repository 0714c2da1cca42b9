-- ===== src/FastCgi/Receive.antt =====
-- RecvAppData of src/fastcgi.cpp: one record of the application's answer.
pub mod Answer
use heaphttpd.Prelude.{
  ℕ, zero, suc, ◌+◌, ◌*◌, ◌%◌, ◌^◌, Bool, true, false, List, [], ◌∷◌, ◌++◌, Option, none, some,
  Bytes, length, take, drop, get_or, ltb, ◌==◌, if◌then◌else◌,
}
use heaphttpd.Text.{c_str}
use heaphttpd.Socket.{Socket}
use heaphttpd.Cgi.{cgi_recv}
use heaphttpd.FastCgi.{FastCgi, fcgi_end_request}

-- What the caller passes by reference.
pub record AppData : Type 0 where
  pub response : Bytes
  pub strerr : Bytes
  pub appstatus : ℕ
  pub protocolstatus : ℕ
  pub continue_recv : Bool

abbrev pub fcgi_stdout : ℕ
fcgi_stdout = 6

abbrev pub fcgi_stderr : ℕ
fcgi_stderr = 7

abbrev pub fcgi_unknown_status : ℕ
fcgi_unknown_status = 0xFF

unfoldable pub fcgi_recv : ℕ → FastCgi → Option Bytes × FastCgi
fcgi_recv len c = let (r, s) = cgi_recv len c.opened c.socket in (r, record c { socket = s })

-- The content in its buffer, and what stands in memory behind: where fewer bytes have come, the
-- buffer keeps what was there.
abbrev pub overlay : Bytes → Bytes → Bytes
overlay bs heap = bs ++ drop (length bs) heap

-- The switch. `contentBuffer` is added to the errors as far as its first zero, wherever that is, and
-- the body of END_REQUEST is read whatever the length.
unfoldable pub take_content : ℕ → ℕ → Bytes → AppData → AppData
take_content kind content_length memory d =
    if kind == fcgi_stdout
    then record d {
      response =
          if ltb 0 content_length then d.response ++ take content_length memory else d.response;
      continue_recv = true;
    }
    else if kind == fcgi_stderr
    then record d {
      strerr = if ltb 0 content_length then d.strerr ++ c_str memory else d.strerr;
      continue_recv = true;
    }
    else if kind == fcgi_end_request
    then if ltb 0 content_length
      then record d {
        appstatus =
            (get_or memory 0 0 * 2 ^ 24
              + get_or memory 1 0 * 2 ^ 16
              + get_or memory 2 0 * 2 ^ 8
              + get_or memory 3 0)
            % 2 ^ 32;
        protocolstatus = get_or memory 4 0;
      }
      else record d { appstatus = 0; protocolstatus = fcgi_unknown_status }
    else d

-- The padding is read, whatever comes of it, and the record is dealt with.
unfoldable pub after_content :
    ℕ → ℕ → ℕ → Bytes → AppData → FastCgi → Option ℕ × (AppData × FastCgi)
after_content kind content_length padding_length memory d c = (
  some content_length,
  (
    take_content kind content_length memory d,
    if ltb 0 padding_length then (fcgi_recv padding_length c).1 else c,
  ),
)

abbrev pub content_read :
    ℕ → ℕ → ℕ → Bytes → AppData → Option Bytes × FastCgi → Option ℕ × (AppData × FastCgi)
content_read kind content_length padding_length heap d (none, c) = (none, (d, c))
content_read kind content_length padding_length heap d (some bs, c) =
    after_content kind content_length padding_length (overlay bs heap) d c

-- behind the header
unfoldable pub header_done : ℕ → ℕ → ℕ → Bytes → AppData → FastCgi → Option ℕ × (AppData × FastCgi)
header_done kind content_length padding_length heap d c =
    if ltb 0 content_length
    then content_read kind content_length padding_length heap d (fcgi_recv content_length c)
    else after_content kind content_length padding_length heap d c

-- A header that is not whole ends it.
abbrev pub header_read : Bytes → AppData → Option Bytes × FastCgi → Option ℕ × (AppData × FastCgi)
header_read heap d (some (_ ∷ kind ∷ _ ∷ _ ∷ l1 ∷ l0 ∷ padding_length ∷ _ ∷ []), c) =
    header_done kind ((l1 * 256 + l0) % 65536) padding_length heap d c
header_read heap d (_, c) = (none, (d, c))

-- The result is the content's length, or `none` for -1. `heap` is the memory from the place on where
-- the buffer for the content is allocated.
unfoldable pub recv_app_data : Bytes → AppData → FastCgi → Option ℕ × (AppData × FastCgi)
recv_app_data heap d c = header_read heap (record d { continue_recv = false }) (fcgi_recv 8 c)
