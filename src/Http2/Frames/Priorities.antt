-- ===== src/Http2/Frames/Priorities.antt =====
-- What PRIORITY does to the dependencies.
use heaphttpd.Prelude.{
  ℕ, ◌<◌, ◌≡◌, refl, ap, ◌∙◌, true, not, ◌&&◌, ◌||◌, List, [], ◌∷◌, some, ◌==◌, if◌then◌else◌,
  arith, map,
}
use mathlib.Core.Option
use heaphttpd.Http2.Connection.{
  Stream, Conn, find, update_stream, set_dependency_stream, set_priority_weight,
}
use heaphttpd.Http2.Connection.Streams.{find-modify, get-find}
use heaphttpd.Http2.Frames.{Priority, reprioritise}

module _ {H : Type 0} where
  find-map :
      (j : ℕ) (f : Stream H → Stream H) (m : List (ℕ × Stream H))
      → find j (map (λ (e : ℕ × Stream H). (e.0, f e.1)) m) ≡ Option.map f (find j m)
  unfolding find
  find-map j f [] = refl
  find-map j f ((i, s) ∷ m) = ground (arith, find-map j f m)

  -- a dependency on a stream of the table is set
  set_dependency_present :
      (c : Conn H) (dependency : ℕ) (s : Stream H) {d : Stream H}
      → 0 < dependency
      → find dependency c.streams ≡ some d
      → set_dependency_stream c dependency s ≡ record s { dependency_stream = dependency }
  unfolding set_dependency_stream
  set_dependency_present c dependency s pos e =
      rw (get-find c dependency pos, set_dependency_stream) (rw e (ground arith))

  -- the streams once the exclusive bit has been handled
  abbrev moved : ℕ → Priority → Conn H → Stream H → Stream H
  moved ind p c' t = if t.dependency_stream == p.dep_ind then set_dependency_stream c' ind t else t

  abbrev depends_on : ℕ → Priority → Conn H → Conn H
  depends_on ind p c =
      update_stream ind (λ s. set_priority_weight p.weight (set_dependency_stream c p.dep_ind s)) c

  reprioritise-find :
      (ind : ℕ) (p : Priority) (c : Conn H) (j : ℕ)
      → p.e ≡ 1
      → 0 < p.dep_ind
      → find j (reprioritise ind p c).streams
        ≡ Option.map (moved ind p (depends_on ind p c)) (find j (depends_on ind p c).streams)
  unfolding reprioritise
  reprioritise-find ind p c j e pos =
      let test : (p.e == 1 && not (p.dep_ind == 0)) ≡ true = ground arith in
      rw test (find-map j (moved ind p (depends_on ind p c)) (depends_on ind p c).streams)

  -- the stream `t` with the number `j`, when `ind` comes to depend on `p.dep_ind` alone
  abbrev pub rearranged : ℕ → Priority → ℕ → Stream H → Stream H
  rearranged ind p j t = record t {
    dependency_stream =
        if ind == j || t.dependency_stream == p.dep_ind then ind else t.dependency_stream;
    priority_weight = if ind == j then p.weight else t.priority_weight;
  }

  depends_on-find :
      (ind : ℕ) (p : Priority) (c : Conn H) (j : ℕ) {t d : Stream H}
      → 0 < p.dep_ind
      → find p.dep_ind c.streams ≡ some d
      → find j c.streams ≡ some t
      → find j (depends_on ind p c).streams
        ≡ some (
            if ind == j
            then record t { dependency_stream = p.dep_ind; priority_weight = p.weight }
            else t)
  depends_on-find ind p c j {t} pos target there =
      let set =
        λ (s : Stream H). set_priority_weight p.weight (set_dependency_stream c p.dep_ind s) in
      ground
        (arith, find-modify ind j set c.streams, set_dependency_present c p.dep_ind t pos target)

  moved_lem :
      (ind : ℕ) (p : Priority) (c' : Conn H) (j : ℕ) (t : Stream H) {s : Stream H}
      → 0 < ind
      → find ind c'.streams ≡ some s
      → moved ind p c' (
          if ind == j
          then record t { dependency_stream = p.dep_ind; priority_weight = p.weight }
          else t)
        ≡ rearranged ind p j t
  moved_lem ind p c' j t pos there =
      let made = record t { dependency_stream = p.dep_ind; priority_weight = p.weight } in
      ground (
        arith,
        set_dependency_present c' ind made pos there,
        set_dependency_present c' ind t pos there,
      )

  -- PRIORITY with the exclusive bit, on a stream of the table, for another one of the table or the
  -- same: every stream that depended on that one depends on the stream now. So does the stream
  -- itself, which was made to depend on that one just before. The other streams, the weights of all
  -- others and the rest of every stream stay.
  pub reprioritise_exclusive :
      (ind : ℕ) (p : Priority) (c : Conn H) (j : ℕ) {s d t : Stream H}
      → p.e ≡ 1
      → 0 < p.dep_ind
      → 0 < ind
      → find ind c.streams ≡ some s
      → find p.dep_ind c.streams ≡ some d
      → find j c.streams ≡ some t
      → find j (reprioritise ind p c).streams ≡ some (rearranged ind p j t)
  reprioritise_exclusive ind p c j {s} {d} {t} e pos_dep pos there target at_j =
      reprioritise-find ind p c j e pos_dep
      ∙ ap (Option.map (moved ind p (depends_on ind p c)))
          (depends_on-find ind p c j pos_dep target at_j)
      ∙ ap some (
          moved_lem ind p (depends_on ind p c) j t pos
            (depends_on-find ind p c ind pos_dep target there))
