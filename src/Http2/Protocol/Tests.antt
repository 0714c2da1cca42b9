-- ===== src/Http2/Protocol/Tests.antt =====
-- `ProtParse` at concrete inputs.
use heaphttpd.Prelude.{◌≡◌, refl, [], arith, if◌then◌else◌}
use heaphttpd.Http2.Connection.{half_closed_remote, update_stream, refresh_last_used_time}
use heaphttpd.Http2.Connection.Streams.{Ascends}
use heaphttpd.Http2.Send.{send_goaway, protocol_error}
use heaphttpd.Http2.Admit.{enter_stream}
use heaphttpd.Http2.Frames.{end_session}
use heaphttpd.Http2.Protocol.{prot_parse, receive_frame}
use heaphttpd.Http2.Protocol.Guard.{
  accepts, refusal_error, prot_parse-guard, prot_parse_first_frame,
}
use heaphttpd.Http2.Sample.{silent, full, frame_of, two_streams-Ascends, no_seven, stream_three}
use heaphttpd.Http2.Protocol.Alone.{prot_parse-Ascends}

prot_parse-guard_example :
    let c' = update_stream 3 (refresh_last_used_time 30) full in
    prot_parse silent 30 (frame_of 0) [] 0 3 full ≡ (
      if accepts half_closed_remote 0
      then receive_frame silent 30 (frame_of 0) [] 0 3 c'
      else (send_goaway 3 (refusal_error half_closed_remote) c', end_session))
prot_parse-guard_example =
    prot_parse-guard silent 30 (frame_of 0) [] 0 3 full (omega arith) stream_three

prot_parse_first_frame_example :
    prot_parse silent 30 (frame_of 0) [] 0 7 full
    ≡ (send_goaway 7 protocol_error (enter_stream 30 7 full), end_session)
prot_parse_first_frame_example =
    prot_parse_first_frame silent 30 (frame_of 0) [] 0 7 full (omega arith) no_seven (ground arith)
      (ground arith)

prot_parse-Ascends_example : Ascends 0 (prot_parse silent 30 (frame_of 3) [] 0 7 full).0.streams
prot_parse-Ascends_example =
    prot_parse-Ascends silent 30 (frame_of 3) [] 0 7 full refl two_streams-Ascends
