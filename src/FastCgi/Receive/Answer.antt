-- ===== src/FastCgi/Receive/Answer.antt =====
-- A record of the answer on a socket whose peer keeps up, as the specification means it.
use heaphttpd.Prelude.{
  ℕ, suc, ◌+◌, ◌*◌, ◌/◌, ◌%◌, ◌<◌, ◌≡◌, refl, sym, ap, ◌∙◌, true, false, [], ◌∷◌, ◌++◌, Option,
  none, some, Bytes, IsByte, All, length, drop, ltb, ◌==◌, if◌then◌else◌, arith, length-append,
  take-length_append, drop-length_append, Bool-cases, inl, inr, ==_iff,
}
use mathlib.Core.List.{append-nil}
use mathlib.Core.Path.{subst}
use heaphttpd.Socket.{Socket, recv_all, recv_loop}
use heaphttpd.Socket.Streams.{Healthy, flat, recv_loop-flat}
use heaphttpd.Cgi.{cgi_recv}
use heaphttpd.FastCgi.{FastCgi, fcgi_header}
use heaphttpd.FastCgi.Receive.{
  AppData, fcgi_recv, overlay, take_content, after_content, header_done, recv_app_data,
}

-- a client whose socket has these bytes coming
pub record Awaits (c : FastCgi) (bs : Bytes) : Type 0 where
  pub opened : c.opened ≡ true
  pub healthy : Healthy c.socket.incoming
  pub coming : flat c.socket.incoming ≡ bs

some_content : (n : ℕ) → ltb 0 (suc n) ≡ true
some_content n = ground arith

recv_all-flat :
    (want : ℕ) (s : Socket) → 0 < want → recv_all want s ≡ recv_loop s.ssl s.incoming want []
unfolding recv_all
recv_all-flat want s h = ground arith

fcgi_recv-Awaits :
    (xs ys : Bytes) (c : FastCgi)
    → 0 < length xs
    → Awaits c (xs ++ ys)
    → (c' : FastCgi) × (fcgi_recv (length xs) c ≡ (some xs, c')) × Awaits c' ys
unfolding fcgi_recv cgi_recv
fcgi_recv-Awaits xs ys c h a =
    let (es', e, g, f) =
      recv_loop-flat c.socket.ssl c.socket.incoming (length xs) [] a.healthy h
        (omega (arith, ap length a.coming, length-append xs ys)) in
    (
      record c { socket = record c.socket { incoming = es' } },
      rw (a.opened, recv_all-flat (length xs) c.socket h, e, a.coming, take-length_append xs ys),
      record {
        opened = a.opened;
        healthy = g;
        coming = f ∙ ap (drop (length xs)) a.coming ∙ drop-length_append xs ys;
      },
    )

-- END_REQUEST: the status in four bytes, and the one behind it.
abbrev pub ended_with : Bytes → AppData → Option AppData
ended_with (b3 ∷ b2 ∷ b1 ∷ b0 ∷ status ∷ _) d =
    let appstatus : ℕ = b3 * 16777216 + b2 * 65536 + b1 * 256 + b0 in
    some (record d { appstatus = appstatus; protocolstatus = status; continue_recv = false })
ended_with _ d = none

-- What an application says with a record of the kinds STDOUT and END_REQUEST; `none` for any other,
-- and for an END_REQUEST that is cut short.
abbrev pub accepted : ℕ → Bytes → AppData → Option AppData
accepted kind content d =
    if kind == 6
    then some (record d { response = d.response ++ content; continue_recv = true })
    else if kind == 3
    then ended_with content d
    else none

stdout_content :
    (content behind : Bytes) (d : AppData)
    → take_content 6 (length content) (content ++ behind) (record d { continue_recv = false })
      ≡ record d { response = d.response ++ content; continue_recv = true }
unfolding take_content
stdout_content [] behind d =
    ap (λ t. record d { response = t; continue_recv = true }) (sym (append-nil d.response))
stdout_content (b ∷ bs) behind d = rw (some_content (length bs)) (
    ap (λ t. record d { response = d.response ++ b ∷ t; continue_recv = true })
      (take-length_append bs behind))

end_content :
    (content behind : Bytes) (d : AppData) {d' : AppData}
    → All IsByte content
    → ended_with content d ≡ some d'
    → take_content 3 (length content) (content ++ behind) (record d { continue_recv = false }) ≡ d'
unfolding take_content
end_content (b3 ∷ b2 ∷ b1 ∷ b0 ∷ status ∷ others) behind d (h3, (h2, (h1, (h0, _)))) e =
    ground arith
end_content _ behind d h e = cc

take_content-accepted :
    (kind : ℕ) (content behind : Bytes) (d : AppData) {d' : AppData}
    → All IsByte content
    → accepted kind content d ≡ some d'
    → take_content kind (length content) (content ++ behind) (record d { continue_recv = false })
      ≡ d'
take_content-accepted kind content behind d {d'} h e = elim (Bool-cases (kind == 6)) [
  | inl out ↦
      subst
        (λ (k : ℕ).
          take_content k (length content) (content ++ behind) (record d { continue_recv = false })
          ≡ d')
        (sym ((==_iff kind 6).0 out)) (stdout_content content behind d ∙ ground arith)
  | inr not_out ↦ elim (Bool-cases (kind == 3)) [
    | inl over ↦
        subst
          (λ (k : ℕ).
            take_content k (length content) (content ++ behind) (record d { continue_recv = false })
            ≡ d')
          (sym ((==_iff kind 3).0 over)) (end_content content behind d h (rw (not_out, over) at e))
    | inr not_over ↦ cc (rw (not_out, not_over) at e)
  ]
]

after_content-Awaits :
    (kind n : ℕ) (memory pad left : Bytes) (d : AppData) (c : FastCgi)
    → Awaits c (pad ++ left)
    → (c' : FastCgi) × (after_content kind n (length pad) memory d c
        ≡ (some n, (take_content kind n memory d, c')))
      × Awaits c' left
unfolding after_content
after_content-Awaits kind n memory [] left d c a = (c, refl, a)
after_content-Awaits kind n memory (p ∷ ps) left d c a =
    let (c', e, a') = fcgi_recv-Awaits (p ∷ ps) left c (omega arith) a in
    (c', rw (some_content (length ps), e), a')

header_done-Awaits :
    (kind : ℕ) (heap content pad left : Bytes) (d : AppData) (c : FastCgi)
    → Awaits c (content ++ (pad ++ left))
    → (c' : FastCgi) × (behind : Bytes) × (header_done kind (length content) (length pad) heap d c
        ≡ (some (length content), (take_content kind (length content) (content ++ behind) d, c')))
      × Awaits c' left
unfolding header_done
header_done-Awaits kind heap [] pad left d c a =
    let (c', e, a') = after_content-Awaits kind 0 heap pad left d c a in (c', heap, e, a')
header_done-Awaits kind heap (b ∷ bs) pad left d c a =
    let (c1, e1, a1) = fcgi_recv-Awaits (b ∷ bs) (pad ++ left) c (omega arith) a in
    let (c', e, a') =
      after_content-Awaits kind (suc (length bs)) (overlay (b ∷ bs) heap) pad left d c1 a1 in
    (c', drop (suc (length bs)) heap, rw (some_content (length bs), e1) e, a')

-- A record of the answer that comes whole, in whatever pieces, is taken as the specification means
-- it, where it is a piece of the output or a whole end of the request: the result is the length of
-- the content, another call is wanted exactly for the output, and the bytes behind the record are
-- left.
pub recv_app_data-accepted :
    (heap : Bytes) (d : AppData) {d' : AppData} (c c0 : FastCgi) (kind : ℕ)
    (content pad left : Bytes)
    → All IsByte content
    → length content < 65536
    → accepted kind content d ≡ some d'
    → Awaits c (fcgi_header c0 kind (length content) (length pad) ++ (content ++ (pad ++ left)))
    → (c' : FastCgi) × (recv_app_data heap d c ≡ (some (length content), (d', c'))) × Awaits c' left
unfolding recv_app_data
recv_app_data-accepted heap d {d'} c c0 kind content pad left h n e a =
    let (c1, e1, a1) =
      fcgi_recv-Awaits (fcgi_header c0 kind (length content) (length pad))
        (content ++ (pad ++ left)) c (omega arith) a in
    let (c', behind, e2, a2) =
      header_done-Awaits kind heap content pad left (record d { continue_recv = false }) c1 a1 in
    let size : (length content / 256 % 256 * 256 + length content % 256) % 65536 ≡ length content =
      omega arith in
    (c', rw (e1, size, e2, take_content-accepted kind content behind d h e), a2)
