-- ===== src/Http2/Frames.antt =====
-- `CHttp2::ProtParse` of src/http2.cpp: one frame of a connection. What CHttp does with a request is
-- a parameter: `Upper` is the interface that the connection uses.
pub mod HeaderBlocks
pub mod Control
pub mod Data
pub mod Order
pub mod Priorities
use heaphttpd.Prelude.{
  ℕ, zero, suc, ◌+◌, ◌-◌, ◌*◌, ◌/◌, ◌%◌, ◌^◌, Bool, true, false, not, ◌&&◌, ◌||◌, List, [], ◌∷◌,
  Option, none, some, Bytes, length, take, drop, get_elem?, ltb, leb, ◌==◌, if◌then◌else◌, bit_and,
  map,
}
use heaphttpd.Prelude.Words.{add32, sub32}
use heaphttpd.Http2.Wire.{htonl}
use heaphttpd.Http2.Connection.{
  StreamState, idle, open_state, half_closed_remote, half_closed_local, closed, Stream, Conn, find,
  insert, erase, get_stream_instance, update_stream, set_stream_state, set_priority_weight,
  set_dependency_stream, create_stream_instance, increase_peer_window_size,
}
use heaphttpd.Http2.Send.{
  frame_type_data, frame_type_headers, frame_type_priority, frame_type_rst_stream,
  frame_type_settings, frame_type_push_promise, frame_type_ping, frame_type_goaway,
  frame_type_window_update, frame_type_continuation, no_error, protocol_error, stream_closed_error,
  compression_error, http_send, send_setting_ack, send_goaway, send_window_update,
  decrease_local_window_size, ping_ack_bytes, field_31,
}
use heaphttpd.Http2.Admit.{enter_stream, refused_with}
use mathlib.Core.Option

-- The result of `ProtParse`: the payload's length, or -1. `undefined`: the code reads outside of the
-- memory that it was given.
pub data Reply : Type 0 where
  done : ℕ → Reply
  end_session : Reply
  undefined : Reply

-- `hpack_parse` appends to the headers decoded so far; it is given the memory from the fragment on
-- and the fragment's length, and answers `none` for a negative result. `translate` is
-- `TransHttp2ParseHttp1Header`, `push_post_data` and `response` are those of the stream. All three
-- may send frames and change the streams, but for the one whose frame is parsed, which they leave in
-- the table, and they return without `AsyncProcessing` or `ProtRecv`: a response that uses up its
-- window calls those (src/http2.cpp, lines 1665 to 1671), which an Upper does not express.
pub record Upper (H : Type 0) : Type 0 where
  pub hpack_parse : List H → Bytes → ℕ → Option (List H)
  pub translate : ℕ → List H → Conn H → Conn H
  pub push_post_data : ℕ → Bytes → Conn H → Conn H × Bool
  pub response : ℕ → Conn H → Conn H

abbrev pub has_flag : ℕ → ℕ → Bool
has_flag flags flag = bit_and flags flag == flag

abbrev pub flag_end_stream : ℕ
flag_end_stream = 0x01

abbrev pub flag_ack : ℕ
flag_ack = 0x01

abbrev pub flag_end_headers : ℕ
flag_end_headers = 0x04

abbrev pub flag_padded : ℕ
flag_padded = 0x08

abbrev pub flag_priority : ℕ
flag_priority = 0x20

-- Words of the payload; `none` if they are not all in the memory.
infixl 5 ◌>>=◌
abbrev ◌>>=◌ : {A B : Type 0} → Option A → (A → Option B) → Option B
none >>= f = none
some a >>= f = f a

-- a little-endian load, as the struct's fields are read
unfoldable pub load_word : Bytes → ℕ → Option ℕ
load_word mem i = do
  b0 ← get_elem? mem i
  b1 ← get_elem? mem (i + 1)
  b2 ← get_elem? mem (i + 2)
  b3 ← get_elem? mem (i + 3)
  some (b0 + b1 * 2 ^ 8 + b2 * 2 ^ 16 + b3 * 2 ^ 24)

-- `ntohl(field << 1) & 0x7FFFFFFF` of the 31-bit field in such a word
abbrev pub decode_31 : ℕ → ℕ
decode_31 word = htonl (word / 2 * 2 % 2 ^ 32) % 2 ^ 31

-- `e`, `dep_ind` and `weight` of a PRIORITY payload, or of the priority part of HEADERS
pub record Priority : Type 0 where
  pub e : ℕ
  pub dep_ind : ℕ
  pub weight : ℕ

unfoldable pub load_priority : Bytes → ℕ → Option Priority
unfolding load_word
load_priority mem i = do
  word ← load_word mem i
  w ← get_elem? mem (i + 4)
  some (record { e = word % 2; dep_ind = decode_31 word; weight = w })

module _ {H : Type 0} where
  -- `SetDependencyStream` and `SetPriorityWeight` on the stream, then the loop for the `e` bit
  unfoldable pub reprioritise : ℕ → Priority → Conn H → Conn H
  unfolding set_dependency_stream
  reprioritise ind p c =
      let c' =
        update_stream ind (λ s. set_priority_weight p.weight (set_dependency_stream c p.dep_ind s))
          c in
      if p.e == 1 && not (p.dep_ind == 0)
      then record c' {
        streams =
            map
              (λ (e : ℕ × Stream H). (
                e.0,
                if e.1.dependency_stream == p.dep_ind
                    then set_dependency_stream c' ind e.1
                    else e.1,
              ))
              c'.streams;
      }
      else c'

  unfoldable pub receive_priority : Bytes → ℕ → ℕ → Conn H → Conn H × Reply
  unfolding load_priority reprioritise get_stream_instance
  receive_priority mem len ind c =
      if ind == 0
      then (send_goaway ind protocol_error c, end_session)
      else elim (get_stream_instance c ind) [
        | none ↦ (c, end_session)
        | some _ ↦ elim (load_priority mem 0) [
          | none ↦ (c, undefined)
          | some p ↦ (reprioritise ind p c, done len)
        ]
      ]
