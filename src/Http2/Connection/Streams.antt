-- ===== src/Http2/Connection/Streams.antt =====
-- The stream table: an ordered map from stream numbers.
use heaphttpd.Prelude.{
  ℕ, ◌+◌, ◌≤◌, ◌<◌, ◌≡◌, refl, List, [], ◌∷◌, none, some, length, ◌==◌, if◌then◌else◌, arith,
}
use heaphttpd.Http2.Connection.{find, insert, erase, modify, Conn, get_stream_instance}
use mathlib.Core.Option

module _ {V : Type 0} where
  -- keys above `low`, in increasing order
  abbrev pub Ascends : ℕ → List (ℕ × V) → Type 0
  Ascends low [] = Unit
  Ascends low ((k, v) ∷ m) = (low < k) × Ascends k m

  pub Ascends-weaken : (a b : ℕ) (m : List (ℕ × V)) → a ≤ b → Ascends b m → Ascends a m
  Ascends-weaken a b [] h s = tt
  Ascends-weaken a b ((k, v) ∷ m) h s = (omega arith, s.1)

  pub insert-Ascends :
      (low k : ℕ) (v : V) (m : List (ℕ × V)) → low < k → Ascends low m → Ascends low (insert k v m)
  unfolding insert
  insert-Ascends low k v [] h s = omega arith
  insert-Ascends low k v ((j, w) ∷ m) h s = ground (arith, insert-Ascends j k v m)

  pub erase-Ascends : (low k : ℕ) (m : List (ℕ × V)) → Ascends low m → Ascends low (erase k m)
  unfolding erase
  erase-Ascends low k [] s = tt
  erase-Ascends low k ((j, w) ∷ m) s = ground (arith, erase-Ascends j k m, Ascends-weaken low j m)

  pub modify-Ascends :
      (low k : ℕ) (f : V → V) (m : List (ℕ × V)) → Ascends low m → Ascends low (modify k f m)
  unfolding modify
  modify-Ascends low k f [] s = tt
  modify-Ascends low k f ((j, w) ∷ m) s = ground (arith, modify-Ascends j k f m)

  pub length-modify : (k : ℕ) (f : V → V) (m : List (ℕ × V)) → length (modify k f m) ≡ length m
  unfolding modify
  length-modify k f [] = refl
  length-modify k f ((j, w) ∷ m) = ground (arith, length-modify k f m)

  pub length-insert : (k : ℕ) (v : V) (m : List (ℕ × V)) → length (insert k v m) ≤ length m + 1
  unfolding insert
  length-insert k v [] = omega arith
  length-insert k v ((j, w) ∷ m) = ground (arith, length-insert k v m)

  pub length-erase :
      (k : ℕ) {v : V} (m : List (ℕ × V)) → find k m ≡ some v → length (erase k m) + 1 ≡ length m
  unfolding erase find
  length-erase k {v} [] e = cc
  length-erase k {v} ((j, w) ∷ m) e = ground (arith, length-erase k {v = v} m)

  pub find-insert :
      (k j : ℕ) (v : V) (m : List (ℕ × V))
      → find k m ≡ none
      → find j (insert k v m) ≡ (if k == j then some v else find j m)
  unfolding find insert
  find-insert k j v [] e = ground arith
  find-insert k j v ((i, w) ∷ m) e = ground (arith, find-insert k j v m)

  pub find-modify :
      (k j : ℕ) (f : V → V) (m : List (ℕ × V))
      → find j (modify k f m) ≡ (if k == j then Option.map f (find j m) else find j m)
  unfolding find modify
  find-modify k j f [] = ground arith
  find-modify k j f ((i, w) ∷ m) = ground (arith, find-modify k j f m)

  below_low : (low k : ℕ) (m : List (ℕ × V)) → k ≤ low → Ascends low m → find k m ≡ none
  unfolding find
  below_low low k [] h s = refl
  below_low low k ((j, w) ∷ m) h s = ground (arith, below_low j k m)

  pub find-erase :
      (low k j : ℕ) (m : List (ℕ × V))
      → Ascends low m
      → find j (erase k m) ≡ (if k == j then none else find j m)
  unfolding find erase
  find-erase low k j [] s = ground arith
  find-erase low k j ((i, w) ∷ m) s = ground (arith, find-erase i k j m, below_low i j m)

  pub find-erase-none : (k j : ℕ) (m : List (ℕ × V)) → find j m ≡ none → find j (erase k m) ≡ none
  unfolding find erase
  find-erase-none k j [] e = refl
  find-erase-none k j ((i, w) ∷ m) e = ground (arith, find-erase-none k j m)

module _ {H : Type 0} where
  pub get-find : (c : Conn H) (ind : ℕ) → 0 < ind → get_stream_instance c ind ≡ find ind c.streams
  unfolding get_stream_instance
  get-find c ind h = ground arith
