-- ===== src/Http2/Connection.antt =====
-- The state of a connection, `CHttp2` of src/http2.h, and of a stream, `http2_stream` of
-- src/http2stream.h, with the operations of src/http2stream.cpp on one stream. The pointers to the
-- server's services, which only CHttp uses, are left out.
pub mod Streams
use heaphttpd.Prelude.{
  ℕ, zero, suc, ◌+◌, Bool, List, [], ◌∷◌, ◌++◌, Option, none, some, Bytes, ltb, ◌==◌, ◌^◌,
  if◌then◌else◌,
}
use heaphttpd.Prelude.Words.{add32, sub32}
use mathlib.Core.Option

-- `stream_state_e`
pub data StreamState : Type 0 where
  idle reserved_local reserved_remote open_state : StreamState
  half_closed_remote half_closed_local closed : StreamState

-- The windows are `int`s, kept as bit patterns. `hpack` is the list `m_decoded_headers` of
-- `m_hpack`, and `none` stands for the null pointer. `H` is the type of a decoded header.
pub record Stream (H : Type 0) : Type 0 where
  pub state : StreamState
  pub dependency_stream : ℕ
  pub priority_weight : ℕ
  pub peer_window_size : ℕ
  pub local_window_size : ℕ
  pub last_used_time : ℕ
  pub hpack : Option (List H)

-- `streams` is `m_stream_list`, in the order of its keys. `sent` lists the buffers that were handed
-- to `HttpSend`, the last one first.
pub record Conn (H : Type 0) : Type 0 where
  pub streams : List (ℕ × Stream H)
  pub header_table_size : ℕ
  pub enable_push : Bool
  pub max_concurrent_streams : ℕ
  pub initial_local_window_size : ℕ
  pub initial_peer_window_size : ℕ
  pub local_control_window_size : ℕ
  pub peer_control_window_size : ℕ
  pub max_frame_size : ℕ
  pub max_header_list_size : ℕ
  pub sent : List Bytes

module _ {V : Type 0} where
  -- `map::find`, `map::insert` (which keeps an entry that is there), `map::erase` and a write
  -- through the iterator that `find` returned
  unfoldable pub find : ℕ → List (ℕ × V) → Option V
  find k [] = none
  find k ((j, v) ∷ m) = if j == k then some v else find k m

  unfoldable pub insert : ℕ → V → List (ℕ × V) → List (ℕ × V)
  insert k v [] = (k, v) ∷ []
  insert k v ((j, w) ∷ m) =
      if k == j then (j, w) ∷ m else if ltb k j then (k, v) ∷ (j, w) ∷ m else (j, w) ∷ insert k v m

  unfoldable pub erase : ℕ → List (ℕ × V) → List (ℕ × V)
  erase k [] = []
  erase k ((j, v) ∷ m) = if j == k then m else (j, v) ∷ erase k m

  unfoldable pub modify : ℕ → (V → V) → List (ℕ × V) → List (ℕ × V)
  modify k f [] = []
  modify k f ((j, v) ∷ m) = if j == k then (j, f v) ∷ m else (j, v) ∷ modify k f m

module _ {H : Type 0} where
  abbrev pub set_stream_state : StreamState → Stream H → Stream H
  set_stream_state state s = record s { state = state }

  abbrev pub set_priority_weight : ℕ → Stream H → Stream H
  set_priority_weight weight s = record s { priority_weight = weight }

  abbrev pub refresh_last_used_time : ℕ → Stream H → Stream H
  refresh_last_used_time now s = record s { last_used_time = now }

  unfoldable pub increase_peer_window_size : ℕ → Stream H → Stream H
  increase_peer_window_size n s = record s { peer_window_size = add32 s.peer_window_size n }

  unfoldable pub decrease_peer_window_size : ℕ → Stream H → Stream H
  decrease_peer_window_size n s = record s { peer_window_size = sub32 s.peer_window_size n }

  unfoldable pub increase_local_window_size : ℕ → Stream H → Stream H
  increase_local_window_size n s = record s { local_window_size = add32 s.local_window_size n }

  -- `CHttp2::get_stream_instance`
  unfoldable pub get_stream_instance : Conn H → ℕ → Option (Stream H)
  unfolding find
  get_stream_instance c ind = if ltb 0 ind then find ind c.streams else none

  -- `create_stream_instance` and the constructor of `http2_stream`, for a positive number
  abbrev pub create_stream_instance : Conn H → ℕ → Stream H
  create_stream_instance c now = record {
    state = idle;
    dependency_stream = 0;
    priority_weight = 16;
    peer_window_size = c.initial_peer_window_size;
    local_window_size = c.initial_local_window_size;
    last_used_time = now;
    hpack = none;
  }

  abbrev pub update_stream : ℕ → (Stream H → Stream H) → Conn H → Conn H
  update_stream ind f c = record c { streams = modify ind f c.streams }

  -- `SetDependencyStream`: a stream that is not there counts as 0
  unfoldable pub set_dependency_stream : Conn H → ℕ → Stream H → Stream H
  unfolding get_stream_instance
  set_dependency_stream c dependency s = record s {
    dependency_stream =
        if dependency == 0
        then dependency
        else elim (get_stream_instance c dependency) [ none ↦ 0 | some _ ↦ dependency ];
  }
