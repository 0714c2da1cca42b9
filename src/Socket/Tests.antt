-- ===== src/Socket/Tests.antt =====
-- The socket loops at concrete inputs.
use heaphttpd.Prelude.{◌≡◌, refl, true, false, List, [], ◌∷◌, ◌++◌, take, drop, arith}
use heaphttpd.Socket.{
  Arrival, arrived, again, Uptake, taken, retry, got, failed, ended, recv_loop, send_loop,
}
use heaphttpd.Socket.Streams.{Healthy, flat, recv_loop-flat}

abbrev pieces : List Arrival
pieces = arrived (1 ∷ []) ∷ again ∷ arrived (2 ∷ 3 ∷ 4 ∷ []) ∷ []

recv_three : recv_loop false pieces 3 [] ≡ got (1 ∷ 2 ∷ 3 ∷ []) (arrived (4 ∷ []) ∷ [])
unfolding recv_loop
recv_three = refl

-- The peer's end in the middle is a short result of `_Recv_` and a failure of `SSLRead`.
recv_short : recv_loop false (arrived (1 ∷ []) ∷ arrived [] ∷ []) 3 [] ≡ got (1 ∷ []) []
unfolding recv_loop ended
recv_short = refl

recv_short_ssl : recv_loop true (arrived (1 ∷ []) ∷ arrived [] ∷ []) 3 [] ≡ failed []
unfolding recv_loop ended
recv_short_ssl = refl

recv_loop-flat_example :
    (es' : List Arrival) × (recv_loop true pieces 3 [] ≡ got ([] ++ take 3 (flat pieces)) es')
    × Healthy es'
    × (flat es' ≡ drop 3 (flat pieces))
recv_loop-flat_example =
    recv_loop-flat true pieces 3 [] (omega arith, (omega arith, tt)) (omega arith) (omega arith)

abbrev uptakes : List Uptake
uptakes = taken 2 ∷ retry ∷ taken 5 ∷ taken 1 ∷ []

send_three : send_loop uptakes (7 ∷ 8 ∷ 9 ∷ []) [] ≡ (true, (7 ∷ 8 ∷ 9 ∷ [], taken 1 ∷ []))
unfolding send_loop
send_three = refl
