-- ===== src/Http2/Admit/Eviction.antt =====
-- Which stream is given up when a new one finds the table full, and what stays.
use heaphttpd.Prelude.{
  ℕ, ◌≤◌, ◌≡◌, refl, ap, ◌∙◌, List, [], ◌∷◌, none, some, length, ◌==◌, if◌then◌else◌, arith,
}
use native.Mathlib.Decide.{dec_lt}
use heaphttpd.Http2.Connection.{
  Conn, find, modify, closed, set_stream_state, create_stream_instance,
}
use heaphttpd.Http2.Connection.Streams.{
  Ascends, modify-Ascends, find-insert, find-modify, find-erase, find-erase-none,
}
use heaphttpd.Http2.Send.{send_rst_stream, rst_stream_bytes}
use heaphttpd.Http2.Admit.{make_room, admit_stream}
use heaphttpd.Http2.Admit.Table.{
  Entry, NoneClosed, Least, oldest_one, make_room_full, make_room_free, oldest_from-Least,
  admit_new,
}

module _ {H : Type 0} where
  -- what a lookup finds after `make_room`
  make_room-find :
      (c : Conn H) (first : Entry H) (m : List (Entry H)) (j : ℕ)
      → c.streams ≡ first ∷ m
      → Ascends 0 (first ∷ m)
      → c.max_concurrent_streams ≤ length (first ∷ m)
      → find j (make_room c (first ∷ m)).streams
        ≡ (if (oldest_one first m).0 == j then none else find j c.streams)
  make_room-find c first m j e s full =
      let k = (oldest_one first m).0 in
      rw (make_room_full c first m full, e)
        (find-erase 0 k j (modify k (set_stream_state closed) (first ∷ m))
            (modify-Ascends 0 k (set_stream_state closed) (first ∷ m) s)
          ∙ ground (arith, find-modify k j (set_stream_state closed) (first ∷ m)))

  make_room-fresh :
      (c : Conn H) (m : List (Entry H)) (now : ℕ)
      → create_stream_instance (make_room c m) now ≡ create_stream_instance c now
  unfolding make_room send_rst_stream
  make_room-fresh c [] now = refl
  make_room-fresh c (first ∷ m) now = ground arith

  -- no stream appears in `make_room`
  make_room-absent :
      (c : Conn H) (m : List (Entry H)) (j : ℕ)
      → find j c.streams ≡ none
      → find j (make_room c m).streams ≡ none
  make_room-absent c [] j e = unfold make_room in e
  make_room-absent c (first ∷ m) j e = elim (dec_lt (length (first ∷ m)) c.max_concurrent_streams) [
    | yes free ↦ rw (make_room_free c first m free) e
    | no full ↦
        let k = (oldest_one first m).0 in
        rw (make_room_full c first m (omega arith)) (
          find-erase-none k j (modify k (set_stream_state closed) c.streams)
            (find-modify k j (set_stream_state closed) c.streams ∙ ground arith))
  ]

  -- the new stream is in the table
  pub admit_new-find_self :
      (now ind : ℕ) (c : Conn H)
      → find ind c.streams ≡ none
      → find ind (admit_stream now ind c).streams ≡ some (create_stream_instance c now)
  admit_new-find_self now ind c e =
      let room = make_room c c.streams in
      rw (admit_new now ind c e, make_room-fresh c c.streams now)
        (find-insert ind ind (create_stream_instance c now) room.streams
            (make_room-absent c c.streams ind e)
          ∙ ground arith)

  make_room-sent :
      (c : Conn H) (first : Entry H) (m : List (Entry H))
      → c.max_concurrent_streams ≤ length (first ∷ m)
      → (make_room c (first ∷ m)).sent ≡ rst_stream_bytes (oldest_one first m).0 ∷ c.sent
  unfolding make_room send_rst_stream
  make_room-sent c first m h = ground arith

  admit_new-sent :
      (now ind : ℕ) (c : Conn H)
      → find ind c.streams ≡ none
      → (admit_stream now ind c).sent ≡ (make_room c c.streams).sent
  unfolding admit_stream
  admit_new-sent now ind c e = rw (e, admit_stream)

  admit_new-find :
      (now ind j : ℕ) (c : Conn H) (k : ℕ)
      → find ind c.streams ≡ none
      → find ind (make_room c c.streams).streams ≡ (if k == ind then none else find ind c.streams)
      → find j (make_room c c.streams).streams ≡ (if k == j then none else find j c.streams)
      → find j (admit_stream now ind c).streams ≡ (
          if ind == j
          then some (create_stream_instance c now)
          else if k == j
          then none
          else find j c.streams)
  admit_new-find now ind j c k absent at_ind at_j =
      let room = make_room c c.streams in
      let gone : find ind room.streams ≡ none = ground arith in
      rw (admit_new now ind c absent, make_room-fresh c c.streams now)
        (find-insert ind j (create_stream_instance c now) room.streams gone ∙ ground arith)

  -- A new stream that finds the table full, with no closed stream in it, takes the place of a least
  -- recently used one: that one is gone and its RST_STREAM is sent, the new one is idle with the
  -- initial windows, and a lookup of any other stream finds what it found.
  pub admit_stream_evicts :
      (now ind : ℕ) (c : Conn H) (first : Entry H) (m : List (Entry H))
      → c.streams ≡ first ∷ m
      → Ascends 0 (first ∷ m)
      → c.max_concurrent_streams ≤ length (first ∷ m)
      → NoneClosed (first ∷ m)
      → find ind c.streams ≡ none
      → let k = (oldest_one first m).0 in
        let c' = admit_stream now ind c in
        Least (oldest_one first m) (first ∷ m)
        × (c'.sent ≡ rst_stream_bytes k ∷ c.sent)
        × ((j : ℕ)
            → find j c'.streams ≡ (
                if ind == j
                then some (create_stream_instance c now)
                else if k == j
                then none
                else find j c.streams))
  admit_stream_evicts now ind c first m e s full live absent = (
    (oldest_from-Least first (first ∷ m) live).1,
    admit_new-sent now ind c absent
        ∙ ap (λ r. r.sent) (ap (make_room c) e)
        ∙ make_room-sent c first m full,
    λ j. admit_new-find now ind j c (oldest_one first m).0 absent (room_find ind) (room_find j),
  )
    where
      room_find :
          (j : ℕ)
          → find j (make_room c c.streams).streams
            ≡ (if (oldest_one first m).0 == j then none else find j c.streams)
      room_find j =
          ap (λ r. find j r.streams) (ap (make_room c) e) ∙ make_room-find c first m j e s full
