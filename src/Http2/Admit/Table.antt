-- ===== src/Http2/Admit/Table.antt =====
-- The stream table across the admission of a stream.
use heaphttpd.Prelude.{
  ℕ, ◌+◌, ◌≤◌, ◌<◌, ◌≡◌, refl, Bool, true, false, ◌||◌, List, [], ◌∷◌, none, some, length, ltb,
  arith, All, sym, ◌∙◌, ◌⊎◌, inl, inr, Bool-cases, Option-cases,
}
use mathlib.Core.Path.{subst}
use native.Mathlib.Decide.{dec_lt}
use Prim.Native.Nat.{max}
use heaphttpd.Http2.Connection.{
  set_stream_state, closed, Stream, Conn, find, insert, erase, modify, create_stream_instance,
}
use heaphttpd.Http2.Connection.Streams.{
  Ascends, insert-Ascends, erase-Ascends, modify-Ascends, length-modify, length-insert,
  length-erase, find-modify,
}
use heaphttpd.Http2.Send.{send_rst_stream}
use heaphttpd.Http2.Admit.{is_closed, oldest_from, make_room, admit_stream}

abbrev pub Entry : Type 0 → Type 0
Entry H = ℕ × Stream H

module _ {H : Type 0} where
  abbrev In : Entry H → List (Entry H) → Type 0
  In e [] = ⊥
  In e (x ∷ m) = (e ≡ x) ⊎ In e m

  find-In :
      (low k : ℕ) (v : Stream H) (m : List (Entry H))
      → Ascends low m
      → In (k, v) m
      → (low < k) × (find k m ≡ some v)
  unfolding find
  find-In low k v [] s h = absurd h
  find-In low k v ((j, w) ∷ m) s (inl e) = ground arith
  find-In low k v ((j, w) ∷ m) s (inr h) = ground (arith, find-In j k v m s.1 h)

  abbrev replaces : Entry H → Entry H → Bool
  replaces each oldest = is_closed each.1.state || ltb each.1.last_used_time oldest.1.last_used_time

  from_new :
      (oldest each : Entry H) (m : List (Entry H))
      → replaces each oldest ≡ true
      → oldest_from oldest (each ∷ m) ≡ oldest_from each m
  unfolding oldest_from
  from_new oldest each m h = rw h

  from_old :
      (oldest each : Entry H) (m : List (Entry H))
      → replaces each oldest ≡ false
      → oldest_from oldest (each ∷ m) ≡ oldest_from oldest m
  unfolding oldest_from
  from_old oldest each m h = rw h

  -- the chosen stream is the first one or one of the list
  oldest_from-In : (oldest : Entry H) (m : List (Entry H)) → In (oldest_from oldest m) (oldest ∷ m)
  oldest_from-In oldest [] = inl (unfold oldest_from in refl)
  oldest_from-In oldest (each ∷ m) = elim (Bool-cases (replaces each oldest)) [
    | inl new ↦
        subst (λ e. In e (oldest ∷ each ∷ m)) (sym (from_new oldest each m new))
          (inr (oldest_from-In each m))
    | inr old ↦
        subst (λ e. In e (oldest ∷ each ∷ m)) (sym (from_old oldest each m old))
          (skip (oldest_from-In oldest m))
  ]
    where
      skip : In (oldest_from oldest m) (oldest ∷ m) → In (oldest_from oldest m) (oldest ∷ each ∷ m)
      skip (inl e) = inl e
      skip (inr h) = inr (inr h)

  abbrev pub Least : Entry H → List (Entry H) → Type 0
  Least e m = All (λ x. e.1.last_used_time ≤ x.1.last_used_time) m

  abbrev pub NoneClosed : List (Entry H) → Type 0
  NoneClosed m = All (λ x. is_closed x.1.state ≡ false) m

  -- With no closed stream in the list the choice is a least recently used one.
  pub oldest_from-Least :
      (oldest : Entry H) (m : List (Entry H))
      → NoneClosed m
      → Least (oldest_from oldest m) (oldest ∷ m)
  oldest_from-Least oldest [] h = unfold oldest_from in (omega arith, tt)
  oldest_from-Least oldest (each ∷ m) h = elim (Bool-cases (replaces each oldest)) [
    | inl new ↦
        let r = oldest_from-Least each m h.1 in
        subst (λ e. Least e (oldest ∷ each ∷ m)) (sym (from_new oldest each m new))
          (ground arith, r)
    | inr old ↦
        let r = oldest_from-Least oldest m h.1 in
        subst (λ e. Least e (oldest ∷ each ∷ m)) (sym (from_old oldest each m old))
          (r.0, (ground arith, r.1))
  ]

  -- the stream that `make_room` gives up
  abbrev pub oldest_one : Entry H → List (Entry H) → Entry H
  oldest_one first m = oldest_from first (first ∷ m)

  oldest_one-In : (first : Entry H) (m : List (Entry H)) → In (oldest_one first m) (first ∷ m)
  oldest_one-In first m = elim (oldest_from-In first (first ∷ m)) [ inl e ↦ inl e | inr h ↦ h ]

  oldest_one-find :
      (first : Entry H) (m : List (Entry H))
      → Ascends 0 (first ∷ m)
      → find (oldest_one first m).0 (first ∷ m) ≡ some (oldest_one first m).1
  oldest_one-find first m s =
      (find-In 0 (oldest_one first m).0 (oldest_one first m).1 (first ∷ m) s
        (oldest_one-In first m)).1

  -- the table that `make_room` leaves when the limit is reached
  abbrev pub shrunk : ℕ → List (Entry H) → List (Entry H)
  shrunk k m = erase k (modify k (set_stream_state closed) m)

  shrunk-length :
      (k : ℕ) {v : Stream H} (m : List (Entry H))
      → find k m ≡ some v
      → length (shrunk k m) + 1 ≡ length m
  shrunk-length k {v} m e =
      length-erase k {v = set_stream_state closed v} (modify k (set_stream_state closed) m)
        (find-modify k k (set_stream_state closed) m ∙ ground arith)
      ∙ length-modify k (set_stream_state closed) m

  pub make_room_full :
      (c : Conn H) (first : Entry H) (m : List (Entry H))
      → c.max_concurrent_streams ≤ length (first ∷ m)
      → (make_room c (first ∷ m)).streams ≡ shrunk (oldest_one first m).0 c.streams
  unfolding make_room send_rst_stream
  make_room_full c first m h = ground arith

  pub make_room_free :
      (c : Conn H) (first : Entry H) (m : List (Entry H))
      → length (first ∷ m) < c.max_concurrent_streams
      → make_room c (first ∷ m) ≡ c
  unfolding make_room
  make_room_free c first m h = ground arith

  -- There is room for one more stream, or the table has one stream less.
  make_room-length :
      (c : Conn H) (m : List (Entry H))
      → c.streams ≡ m
      → Ascends 0 m
      → (length (make_room c m).streams + 1 ≤ max 1 c.max_concurrent_streams)
        ⊎ (length (make_room c m).streams + 1 ≡ length m)
  make_room-length c [] e s = inl (unfold make_room in ground arith)
  make_room-length c (first ∷ m) e s = elim (dec_lt (length (first ∷ m)) c.max_concurrent_streams) [
    | yes free ↦ inl (rw (make_room_free c first m free, e) (omega arith))
    | no full ↦ inr (
        rw (make_room_full c first m (omega arith), e)
          (shrunk-length (oldest_one first m).0 {v = (oldest_one first m).1} (first ∷ m)
            (oldest_one-find first m s)))
  ]

  make_room-Ascends :
      (c : Conn H) (m : List (Entry H))
      → c.streams ≡ m
      → Ascends 0 m
      → Ascends 0 (make_room c m).streams
  make_room-Ascends c [] e s = unfold make_room in rw e tt
  make_room-Ascends c (first ∷ m) e s =
      elim (dec_lt (length (first ∷ m)) c.max_concurrent_streams) [
        | yes free ↦ rw (make_room_free c first m free, e) s
        | no full ↦
            rw (make_room_full c first m (omega arith), e)
              (erase-Ascends 0 (oldest_one first m).0 _
                (modify-Ascends 0 (oldest_one first m).0 (set_stream_state closed) (first ∷ m) s))
      ]

  pub admit_old :
      (now ind : ℕ) (c : Conn H) {s : Stream H}
      → find ind c.streams ≡ some s
      → admit_stream now ind c ≡ c
  unfolding admit_stream
  admit_old now ind c e = rw (e, admit_stream)

  pub admit_new :
      (now ind : ℕ) (c : Conn H)
      → find ind c.streams ≡ none
      → (admit_stream now ind c).streams
        ≡ insert ind
            (create_stream_instance (make_room c c.streams) now)
            (make_room c c.streams).streams
  unfolding admit_stream
  admit_new now ind c e = rw (e, admit_stream)

  -- The table stays ordered by stream number, and has at most the larger of its old size and the
  -- limit (a limit of 0 counts as 1).
  pub admit_stream_bound :
      (now ind : ℕ) (c : Conn H)
      → 0 < ind
      → Ascends 0 c.streams
      → Ascends 0 (admit_stream now ind c).streams
        × (length (admit_stream now ind c).streams
            ≤ max (length c.streams) (max 1 c.max_concurrent_streams))
  admit_stream_bound now ind c hi s = elim (Option-cases (find ind c.streams)) [
    | inl absent ↦
        let room = make_room c c.streams in
        let new = create_stream_instance room now in
        rw (admit_new now ind c absent) (
          insert-Ascends 0 ind new room.streams hi (make_room-Ascends c c.streams refl s),
          omega (arith, length-insert ind new room.streams, make_room-length c c.streams refl s),
        )
    | inr (old, e) ↦ rw (admit_old now ind c e) (s, omega arith)
  ]
