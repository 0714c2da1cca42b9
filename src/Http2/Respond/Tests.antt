-- ===== src/Http2/Respond/Tests.antt =====
-- The body of a response at concrete inputs.
use heaphttpd.Prelude.{ℕ, ◌≡◌, ◌≤◌, refl, true, [], ◌∷◌, Bytes, length, take}
use heaphttpd.Http2.Respond.{Turns, pre_send_len, curr_padding_len, data_payload}
use heaphttpd.Http2.Respond.Bounds.{data_payload-pre_send_len}

abbrev no_wait : Turns ℕ
no_wait = record { sends = λ k. true; wait = λ k c. c }

abbrev three : Bytes
three = 1 ∷ 2 ∷ 3 ∷ []

-- three bytes and five of padding
payload_three : data_payload 16384 three ≡ 5 ∷ 1 ∷ 2 ∷ 3 ∷ 0 ∷ 0 ∷ 0 ∷ 0 ∷ 0 ∷ []
unfolding data_payload curr_padding_len
payload_three = refl

data_payload-pre_send_len_example :
    (length (data_payload 11 (take (pre_send_len 11 65535 3) three)) ≤ 11)
    × (pre_send_len 11 65535 3 ≤ 65535)
    × (pre_send_len 11 65535 3 ≤ 3)
data_payload-pre_send_len_example = data_payload-pre_send_len 11 65535 three
