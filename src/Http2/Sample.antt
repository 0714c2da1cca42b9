-- ===== src/Http2/Sample.antt =====
-- A connection and an application to run the tests on.
use heaphttpd.Prelude.{ℕ, true, List, [], ◌∷◌, some, none, ◌≡◌, refl, arith}
use heaphttpd.Http2.Wire.{Frame}
use heaphttpd.Http2.Connection.{StreamState, open_state, half_closed_remote, Stream, Conn, find}
use heaphttpd.Http2.Connection.Streams.{Ascends}
use heaphttpd.Http2.Frames.{Upper}

-- A CHttp that decodes no header and answers no request.
abbrev pub silent : Upper ℕ
silent = record {
  hpack_parse = λ hs mem len. some hs;
  translate = λ ind hs c. c;
  push_post_data = λ ind bytes c. (c, true);
  response = λ ind c. c;
}

abbrev pub stream_in : StreamState → ℕ → Stream ℕ
stream_in state time = record {
  state = state;
  dependency_stream = 0;
  priority_weight = 16;
  peer_window_size = 65535;
  local_window_size = 65535;
  last_used_time = time;
  hpack = none;
}

abbrev pub two_streams : List (ℕ × Stream ℕ)
two_streams = (1, stream_in open_state 20) ∷ (3, stream_in half_closed_remote 10) ∷ []

-- a connection with a full table
abbrev pub full : Conn ℕ
full = record {
  streams = two_streams;
  header_table_size = 4096;
  enable_push = true;
  max_concurrent_streams = 2;
  initial_local_window_size = 65535;
  initial_peer_window_size = 65535;
  local_control_window_size = 65535;
  peer_control_window_size = 65535;
  max_frame_size = 16384;
  max_header_list_size = 8192;
  sent = [];
}

abbrev pub frame_of : ℕ → Frame
frame_of type = record { len24 = 0; type = type; flags = 0; r = 0; identifier = 0 }

pub two_streams-Ascends : Ascends 0 two_streams
two_streams-Ascends = (omega arith, (omega arith, tt))

pub no_seven : find 7 two_streams ≡ none
unfolding find
no_seven = refl

pub stream_one : find 1 two_streams ≡ some (stream_in open_state 20)
unfolding find
stream_one = refl

pub stream_three : find 3 two_streams ≡ some (stream_in half_closed_remote 10)
unfolding find
stream_three = refl
