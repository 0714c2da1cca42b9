-- ===== src/FastCgi/Sending.antt =====
-- What the FastCGI client puts on a socket whose peer keeps up: the operations of src/fastcgi.cpp
-- as the bytes that each adds to those sent.
use heaphttpd.Prelude.{
  ℕ, zero, suc, ◌+◌, ◌≤◌, ◌≡◌, refl, sym, ap, ◌∙◌, Bool, true, false, List, [], ◌∷◌, ◌++◌, Bytes,
  length, arith, length-append, ltb,
}
use mathlib.Core.List.{append_assoc, append-nil}
use heaphttpd.Cgi.{cgi_send}
use heaphttpd.Socket.Streams.{Obliging, takings, send_all-Sends}
use heaphttpd.FastCgi.{
  FastCgi, fcgi_send, on_success, fcgi_header, PairKind, empty, wrong, pair11, pair14, pair41,
  pair44, pair_kind, pair_header, len32, send_as, send_pairs, pad_data, send_padding,
}

-- a client with a socket that takes `n` bytes at least
pub record IsReady (c : FastCgi) (n : ℕ) : Type 0 where
  pub opened : c.opened ≡ true
  pub willing : Obliging c.socket.outgoing
  pub room : n ≤ takings c.socket.outgoing

-- From `c` to `c'` these bytes have gone out, and the number of the request is as it was.
pub record Sent (c : FastCgi) (bs : Bytes) (c' : FastCgi) : Type 0 where
  pub opened : c'.opened ≡ true
  pub willing : Obliging c'.socket.outgoing
  pub room : takings c.socket.outgoing ≤ takings c'.socket.outgoing + length bs
  pub wire : c'.socket.sent ≡ c.socket.sent ++ bs
  pub same_id : (c'.id_b1 ≡ c.id_b1) × (c'.id_b0 ≡ c.id_b0)

-- The call succeeds and puts these bytes out.
abbrev pub Puts : FastCgi → Bytes → Bool × FastCgi → Type 0
Puts c bs r = (r.0 ≡ true) × Sent c bs r.1

pub Sent-nil : {c : FastCgi} {n : ℕ} → IsReady c n → Sent c [] c
Sent-nil {c} r = record {
  opened = r.opened;
  willing = r.willing;
  room = omega arith;
  wire = sym (append-nil c.socket.sent);
  same_id = (refl, refl);
}

pub Sent-append :
    {c c1 c2 : FastCgi} {bs1 bs2 : Bytes} → Sent c bs1 c1 → Sent c1 bs2 c2 → Sent c (bs1 ++ bs2) c2
Sent-append {c} {c1} {c2} {bs1} {bs2} s t = record {
  opened = t.opened;
  willing = t.willing;
  room = omega (arith, length-append bs1 bs2, s.room, t.room);
  wire = t.wire ∙ ap (λ u. u ++ bs2) s.wire ∙ append_assoc c.socket.sent bs1 bs2;
  same_id = (t.same_id.0 ∙ s.same_id.0, t.same_id.1 ∙ s.same_id.1);
}

pub Sent-IsReady :
    {c c' : FastCgi} {bs : Bytes} {n m : ℕ}
    → IsReady c n
    → Sent c bs c'
    → length bs + m ≤ n
    → IsReady c' m
Sent-IsReady r s h = record {
  opened = s.opened;
  willing = s.willing;
  room = omega (arith, r.room, s.room);
}

pub fcgi_send-Puts : (bs : Bytes) (c : FastCgi) → IsReady c (length bs) → Puts c bs (fcgi_send bs c)
unfolding fcgi_send cgi_send
fcgi_send-Puts bs c r =
    let (os', e, w, l) = send_all-Sends bs c.socket r.willing r.room in
    rw (r.opened, e)
      (refl, record { opened = refl; willing = w; room = l; wire = refl; same_id = (refl, refl) })

pub on_success-Puts :
    (c : FastCgi) (r : Bool × FastCgi) (next : FastCgi → Bool × FastCgi) {bs1 bs2 : Bytes}
    → Puts c bs1 r
    → Puts r.1 bs2 (next r.1)
    → Puts c (bs1 ++ bs2) (on_success r next)
on_success-Puts c (true, c1) next p q = (q.0, Sent-append p.1 q.1)
on_success-Puts c (false, c1) next p q = cc

-- The records after the first carry the number that it carries.
pub fcgi_header-Sent :
    {c c' : FastCgi} {bs : Bytes} (kind n p : ℕ)
    → Sent c bs c'
    → fcgi_header c' kind n p ≡ fcgi_header c kind n p
fcgi_header-Sent kind n p s = rw (s.same_id.0, s.same_id.1)

-- what stands on the wire for one parameter
abbrev pub pair_bytes : PairKind → Bytes → Bytes → Bytes
pair_bytes empty name value = []
pair_bytes wrong name value = []
pair_bytes kind name value = pair_header kind (len32 name) (len32 value) ++ (name ++ value)

abbrev pub params_bytes : List (Bytes × Bytes) → Bytes
params_bytes [] = []
params_bytes ((name, value) ∷ pairs) =
    pair_bytes (pair_kind (len32 name) (len32 value)) name value ++ params_bytes pairs

-- Three calls of Send, one after the other.
three_sends :
    (c : FastCgi) (bs1 bs2 bs3 : Bytes)
    → IsReady c (length (bs1 ++ (bs2 ++ bs3)))
    → Sent c (bs1 ++ (bs2 ++ bs3)) (fcgi_send bs3 (fcgi_send bs2 (fcgi_send bs1 c).1).1).1
three_sends c bs1 bs2 bs3 r =
    let sizes1 : length (bs1 ++ (bs2 ++ bs3)) ≡ length bs1 + length (bs2 ++ bs3) =
      length-append bs1 (bs2 ++ bs3) in
    let sizes2 : length (bs2 ++ bs3) ≡ length bs2 + length bs3 = length-append bs2 bs3 in
    let s1 : Sent c bs1 (fcgi_send bs1 c).1 =
      (fcgi_send-Puts bs1 c
        (record { opened = r.opened; willing = r.willing; room = omega (arith, r.room) })).1 in
    let r1 : IsReady (fcgi_send bs1 c).1 (length bs2 + length bs3) =
      Sent-IsReady r s1 (omega arith) in
    let s2 : Sent (fcgi_send bs1 c).1 bs2 (fcgi_send bs2 (fcgi_send bs1 c).1).1 =
      (fcgi_send-Puts bs2 (fcgi_send bs1 c).1
        (record { opened = r1.opened; willing = r1.willing; room = omega (arith, r1.room) })).1 in
    let r2 : IsReady (fcgi_send bs2 (fcgi_send bs1 c).1).1 (length bs3) =
      Sent-IsReady r1 s2 (omega arith) in
    Sent-append s1 (Sent-append s2 (fcgi_send-Puts bs3 (fcgi_send bs2 (fcgi_send bs1 c).1).1 r2).1)

send_as-Sent :
    (kind : PairKind) (name value : Bytes) (c : FastCgi)
    → IsReady c (length (pair_bytes kind name value))
    → Sent c (pair_bytes kind name value) (send_as kind name value c)
unfolding send_as
send_as-Sent empty name value c r = Sent-nil r
send_as-Sent wrong name value c r = Sent-nil r
send_as-Sent pair11 name value c r = three_sends c _ name value r
send_as-Sent pair14 name value c r = three_sends c _ name value r
send_as-Sent pair41 name value c r = three_sends c _ name value r
send_as-Sent pair44 name value c r = three_sends c _ name value r

pub send_pairs-Sent :
    (pairs : List (Bytes × Bytes)) (c : FastCgi)
    → IsReady c (length (params_bytes pairs))
    → Sent c (params_bytes pairs) (send_pairs pairs c)
unfolding send_pairs
send_pairs-Sent [] c r = Sent-nil r
send_pairs-Sent ((name, value) ∷ pairs) c r =
    let kind : PairKind = pair_kind (len32 name) (len32 value) in
    let sizes : length (pair_bytes kind name value ++ params_bytes pairs)
        ≡ length (pair_bytes kind name value) + length (params_bytes pairs) =
      length-append (pair_bytes kind name value) (params_bytes pairs) in
    let s : Sent c (pair_bytes kind name value) (send_as kind name value c) =
      send_as-Sent kind name value c
        (record { opened = r.opened; willing = r.willing; room = omega (arith, r.room) }) in
    Sent-append s
      (send_pairs-Sent pairs (send_as kind name value c) (Sent-IsReady r s (omega arith)))

some_padding : (n : ℕ) → ltb 0 (suc n) ≡ true
some_padding n = ground arith

pub send_padding-Sent :
    (n : ℕ) (c : FastCgi) → IsReady c (length (pad_data n)) → Sent c (pad_data n) (send_padding n c)
unfolding send_padding
send_padding-Sent zero c r = Sent-nil r
send_padding-Sent (suc n) c r = rw (some_padding n) (fcgi_send-Puts (pad_data (suc n)) c r).1
