-- ===== src/FastCgi.antt =====
-- The FastCGI client of src/fastcgi.cpp: what it sends. The map of parameters is the list of its
-- pairs in the order of their names, in which the loops go through it.
pub mod Records
pub mod Sending
pub mod Length
pub mod RoundTrip
pub mod Whole
pub mod Delivery
pub mod Receive
mod Tests
use heaphttpd.Prelude.{
  ℕ, zero, suc, ◌+◌, ◌-◌, ◌*◌, ◌/◌, ◌%◌, ◌^◌, bit_or, Bool, true, false, ◌||◌, List, [], ◌∷◌, ◌++◌,
  Bytes, length, take, ltb, ◌==◌, if◌then◌else◌,
}
use heaphttpd.Socket.{Socket}
use heaphttpd.Cgi.{Peek, connect, cgi_send}

-- `connected` is m_is_connected, `opened` that there is a socket; `id_b0` and `id_b1` are what
-- BeginRequest has set.
pub record FastCgi : Type 0 where
  pub request_id : ℕ
  pub id_b0 : ℕ
  pub id_b1 : ℕ
  pub connected : Bool
  pub opened : Bool
  pub socket : Socket

-- The types of records.
abbrev pub fcgi_begin_request : ℕ
fcgi_begin_request = 1

abbrev pub fcgi_abort_request : ℕ
fcgi_abort_request = 2

abbrev pub fcgi_end_request : ℕ
fcgi_end_request = 3

abbrev pub fcgi_params : ℕ
fcgi_params = 4

abbrev pub fcgi_stdin : ℕ
fcgi_stdin = 5

abbrev pub fcgi_get_values : ℕ
fcgi_get_values = 9

unfoldable pub fcgi_send : Bytes → FastCgi → Bool × FastCgi
fcgi_send bs c = let (done, s) = cgi_send bs c.opened c.socket in (done, record c { socket = s })

-- `a >= 0 && b >= 0`
abbrev pub on_success : Bool × FastCgi → (FastCgi → Bool × FastCgi) → Bool × FastCgi
on_success (true, c) next = next c
on_success (false, c) next = (false, c)

-- FCGI_Header, with a content length of 16 bits
abbrev pub fcgi_header : FastCgi → ℕ → ℕ → ℕ → Bytes
fcgi_header c kind content_length padding_length =
    1
    ∷ kind
    ∷ c.id_b1
    ∷ c.id_b0
    ∷ content_length / 256 % 256
    ∷ content_length % 256
    ∷ padding_length
    ∷ 0
    ∷ []

-- Each call of Connect counts a request, in an `unsigned short`.
unfoldable pub fastcgi_connect : Peek → Bool × Bool → FastCgi → Bool × FastCgi
fastcgi_connect peek base c =
    let (connected, (opened, done)) = connect c.connected c.opened peek base in
    (
      done,
      record c { request_id = (c.request_id + 1) % 2 ^ 16; connected = connected; opened = opened },
    )

unfoldable pub begin_request : FastCgi → Bool × FastCgi
begin_request c =
    let c' : FastCgi = record c { id_b0 = c.request_id % 256; id_b1 = c.request_id / 256 % 256 } in
    on_success (fcgi_send (fcgi_header c' fcgi_begin_request 8 0) c')
      (fcgi_send (0 ∷ 1 ∷ 0 ∷ 0 ∷ 0 ∷ 0 ∷ 0 ∷ 0 ∷ []))

-- The structures in front of a name and its value; `wrong`: a length is 0x80 exactly.
pub data PairKind : Type 0 where
  empty wrong pair11 pair14 pair41 pair44 : PairKind

unfoldable pub pair_kind : ℕ → ℕ → PairKind
pair_kind name_len value_len =
    if name_len == 0 || value_len == 0
    then empty
    else if name_len == 0x80 || value_len == 0x80
    then wrong
    else if ltb name_len 0x80
    then if ltb value_len 0x80 then pair11 else pair14
    else if ltb value_len 0x80
    then pair41
    else pair44

-- the sizes of the structures
abbrev pub pair_size : PairKind → ℕ
pair_size pair11 = 2
pair_size pair14 = 5
pair_size pair41 = 5
pair_size pair44 = 8
pair_size _ = 0

-- A length on four bytes, with the top bit set.
abbrev pub long_length : ℕ → Bytes
long_length n = bit_or (n / 2 ^ 24 % 256) 0x80 ∷ n / 2 ^ 16 % 256 ∷ n / 256 % 256 ∷ n % 256 ∷ []

abbrev pub pair_header : PairKind → ℕ → ℕ → Bytes
pair_header pair11 name_len value_len = name_len ∷ value_len ∷ []
pair_header pair14 name_len value_len = name_len ∷ long_length value_len
pair_header pair41 name_len value_len = long_length name_len ++ value_len ∷ []
pair_header pair44 name_len value_len = long_length name_len ++ long_length value_len
pair_header _ name_len value_len = []

-- `unsigned int name_len = it->first.length()`
abbrev pub len32 : Bytes → ℕ
len32 text = length text % 2 ^ 32

-- what one parameter adds to contentLength_32bit
unfoldable pub counted : PairKind → ℕ → ℕ → ℕ
counted empty name_len value_len = 0
counted wrong name_len value_len = 0
counted kind name_len value_len = pair_size kind + name_len + value_len

-- The first loop of SendParams. An `unsigned long` has 64 bits.
unfoldable pub count_params : List (Bytes × Bytes) → ℕ → ℕ
count_params [] total = total
count_params ((name, value) ∷ pairs) total =
    count_params pairs
      ((total + counted (pair_kind (len32 name) (len32 value)) (len32 name) (len32 value)) % 2 ^ 64)

-- The results of the three calls of Send are not looked at.
unfoldable pub send_as : PairKind → Bytes → Bytes → FastCgi → FastCgi
send_as empty name value c = c
send_as wrong name value c = c
send_as kind name value c =
    (fcgi_send value
      (fcgi_send name (fcgi_send (pair_header kind (len32 name) (len32 value)) c).1).1).1

-- The second loop.
unfoldable pub send_pairs : List (Bytes × Bytes) → FastCgi → FastCgi
send_pairs [] c = c
send_pairs ((name, value) ∷ pairs) c =
    send_pairs pairs (send_as (pair_kind (len32 name) (len32 value)) name value c)

abbrev pub content_length16 : ℕ → ℕ
content_length16 total = if ltb 0xFFFF total then 0xFFFF else total

abbrev pub padding_of : ℕ → ℕ
padding_of content_length = (8 - content_length % 8) % 8

abbrev pub pad_data : ℕ → Bytes
pad_data zero = []
pad_data (suc n) = 0 ∷ pad_data n

unfoldable pub send_padding : ℕ → FastCgi → FastCgi
send_padding n c = if ltb 0 n then (fcgi_send (pad_data n) c).1 else c

unfoldable pub send_params : List (Bytes × Bytes) → FastCgi → Bool × FastCgi
send_params pairs c =
    let n : ℕ = content_length16 (count_params pairs 0) in
    on_success (fcgi_send (fcgi_header c fcgi_params n (padding_of n)) c)
      (λ c'. (true, send_padding (padding_of n) (send_pairs pairs c')))

unfoldable pub send_empty_params : FastCgi → Bool × FastCgi
send_empty_params c = fcgi_send (fcgi_header c fcgi_params 0 0) c

unfoldable pub send_request_data : Bytes → FastCgi → Bool × FastCgi
send_request_data inbuf c =
    let n : ℕ = content_length16 (length inbuf) in
    on_success (fcgi_send (fcgi_header c fcgi_stdin n (padding_of n)) c)
      (λ c'. (true, send_padding (padding_of n) (fcgi_send inbuf c').1))

unfoldable pub send_empty_request_data : FastCgi → Bool × FastCgi
send_empty_request_data c = fcgi_send (fcgi_header c fcgi_stdin 0 0) c

unfoldable pub abort_request : FastCgi → Bool × FastCgi
abort_request c = fcgi_send (fcgi_header c fcgi_abort_request 0 0) c

-- Three statements set appStatusB1, the last of which stays; B2 and B3 keep the 0 of memset.
unfoldable pub end_request : ℕ → ℕ → FastCgi → Bool × FastCgi
end_request app_status protocol_status c =
    on_success (fcgi_send (fcgi_header c fcgi_end_request 8 0) c) (
      fcgi_send
        (0 ∷ 0 ∷ app_status / 2 ^ 24 % 256 ∷ app_status % 256 ∷ protocol_status ∷ 0 ∷ 0 ∷ 0 ∷ []))

-- `name` is the text and `stack` what stands in memory where the pointer `name` itself does: those
-- bytes are sent in its place. The loop that would read the answer is not entered, since `bQuit` is
-- false when it starts, and the value stays.
unfoldable pub get_app_value : Bytes → Bytes → FastCgi → Bool × FastCgi
get_app_value name stack c =
    on_success (fcgi_send (fcgi_header c fcgi_get_values (length name % 256) 0) c) (λ c1.
      on_success (fcgi_send (take (length name) stack) c1)
        (fcgi_send (fcgi_header c fcgi_get_values 0 0)))

unfoldable pub send_params_unless_none : List (Bytes × Bytes) → FastCgi → Bool × FastCgi
send_params_unless_none [] c = (true, c)
send_params_unless_none (pair ∷ pairs) c = send_params (pair ∷ pairs) c

unfoldable pub send_data_unless_none : Bytes → FastCgi → Bool × FastCgi
send_data_unless_none [] c = (true, c)
send_data_unless_none (b ∷ bs) c = send_request_data (b ∷ bs) c

unfoldable pub send_params_and_data : List (Bytes × Bytes) → Bytes → FastCgi → Bool × FastCgi
send_params_and_data params postdata c = on_success (begin_request c) (λ c1.
    on_success (send_params_unless_none params c1) (λ c2.
      on_success (send_empty_params c2)
        (λ c3. on_success (send_data_unless_none postdata c3) send_empty_request_data)))
