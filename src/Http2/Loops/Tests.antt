-- ===== src/Http2/Loops/Tests.antt =====
-- The loops at concrete inputs.
use heaphttpd.Prelude.{take, drop, ℕ, ◌≡◌, ◌⊎◌, refl, false, [], ◌∷◌, ◌++◌, Bytes, arith}
use heaphttpd.Http2.Connection.{Conn}
use heaphttpd.Http2.Loops.{Ended, http_close, processing, returned, Arrived, client_preface}
use heaphttpd.Http2.Loops.Ends.{settings_ack, processing_ends, processing-settings_ack}
use heaphttpd.Http2.Loops.Pieces.{all_of, fresh, greeted, async_calls, async_processing_preface}
use heaphttpd.Http2.Sample.{silent, full}

abbrev at_thirty : ℕ → ℕ
at_thirty k = 30

-- two frames and the beginning of a third, in two pieces
abbrev first_piece : Bytes
first_piece = 0 ∷ 0 ∷ 0 ∷ 4 ∷ []

abbrev second_piece : Arrived
second_piece = record { bytes = 1 ∷ 0 ∷ 0 ∷ 0 ∷ 0 ∷ settings_ack ++ 0 ∷ 0 ∷ []; broken = false }

processing_ends_example :
    (processing silent at_thirty 19 0 (settings_ack ++ settings_ack) full ≡ Ended.lost)
    ⊎ ((c : Conn ℕ) × (processing silent at_thirty 19 0 (settings_ack ++ settings_ack) full
          ≡ http_close c))
processing_ends_example =
    processing_ends silent at_thirty 19 0 (settings_ack ++ settings_ack) full (omega arith)

processing-settings_ack_example :
    processing silent at_thirty 1 0 (settings_ack ++ settings_ack) full ≡ http_close full
processing-settings_ack_example = processing-settings_ack silent at_thirty 0 0 settings_ack full

-- the preface in three pieces, the last of which has a frame behind it
async_processing_preface_example :
    async_calls silent at_thirty 0
      ((take 10 client_preface ∷ take 5 (drop 10 client_preface) ∷ [])
        ++ (drop 15 client_preface ++ settings_ack) ∷ [])
      (fresh [] full)
    ≡ returned (greeted settings_ack full) false
async_processing_preface_example =
    async_processing_preface silent at_thirty 0 []
      (take 10 client_preface ∷ take 5 (drop 10 client_preface) ∷ [])
      (drop 15 client_preface ++ settings_ack) settings_ack full (unfold all_of in omega arith)
      (unfold all_of in refl) (omega arith) (omega arith)
