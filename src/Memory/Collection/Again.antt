-- ===== src/Memory/Collection/Again.antt =====
-- The memory after `do_gc` (vm/memory.c) is one that can be collected again.
use littlesmalltalk.Prelude.{
  ℕ, ◌+◌, ◌*◌, ◌≤◌, ◌≡◌, ◌⊎◌, refl, sym, ap, ◌∙◌, inl, inr, true, false, List, [], ◌∷◌,
  if◌then◌else◌, Bool-cases, arith,
}
use littlesmalltalk.Prelude.Result.{ok}
use littlesmalltalk.Memory.Collector.{
  Mobject, Store, Spaces, is_small_int, in_newspace, in_oldspace, forward, last,
}
use littlesmalltalk.Memory.Collector.Frame.{
  Among, bytes_of, holds_pointer, Moved, Copied, IsClosed, IsFine,
}
use littlesmalltalk.Memory.Collector.Grows.{not_old}
use littlesmalltalk.Memory.Collection.{Memory, spaces, do_gc}
use littlesmalltalk.Memory.Collection.Roots.{AreMoved}
use littlesmalltalk.Memory.Collection.Live.{
  IsHeap, Collected, heap_bytes, collected, afterwards, returns,
}

-- The copies of the objects that have been moved.
unfoldable pub copies : Store → List ℕ → List ℕ
copies s [] = []
copies s (a ∷ os) = if (s.at a).done then forward (s.at a) ∷ copies s os else copies s os

module _ (s : Store) where
  abbrev Origin : List ℕ → ℕ → Type 0
  Origin os x = (b : ℕ) × Among b os × ((s.at b).done ≡ true) × (x ≡ forward (s.at b))

  later : (os : List ℕ) (a x : ℕ) → Origin os x → Origin (a ∷ os) x
  later os a x (b, in_, done, is) = (b, inr in_, done, is)

  origin : (os : List ℕ) (x : ℕ) → Among x (copies s os) → Origin os x
  unfolding copies
  origin [] x m = absurd m
  origin (a ∷ os) x m = elim (Bool-cases ((s.at a).done)) [
    | inl d ↦ first d (origin os x) (rw d at m)
    | inr d ↦ later os a x (origin os x (rw d at m))
  ]
    where
      first :
          (s.at a).done ≡ true
          → (Among x (copies s os) → Origin os x)
          → (x ≡ forward (s.at a)) ⊎ Among x (copies s os)
          → Origin (a ∷ os) x
      first d rest (inl e) = (a, inl refl, d, e)
      first d rest (inr in_) = later os a x (rest in_)

  Among-copies :
      (os : List ℕ) (b : ℕ)
      → Among b os
      → (s.at b).done ≡ true
      → Among (forward (s.at b)) (copies s os)
  unfolding copies
  Among-copies [] b m d = absurd m
  Among-copies (a ∷ os) b (inl e) d = rw (← e) (rw d (inl refl))
  Among-copies (a ∷ os) b (inr m) d = elim (Bool-cases ((s.at a).done)) [
    | inl e ↦ rw e (inr (Among-copies os b m d))
    | inr e ↦ rw e (Among-copies os b m d)
  ]

  heap_bytes-copies :
      (h : ℕ → Mobject) (os : List ℕ)
      → ((b : ℕ)
          → Among b os
          → (s.at b).done ≡ true
          → bytes_of (s.at (forward (s.at b))) ≡ bytes_of (h b))
      → heap_bytes s.at (copies s os) ≤ heap_bytes h os
  unfolding copies heap_bytes
  heap_bytes-copies h [] same = omega arith
  heap_bytes-copies h (a ∷ os) same =
      let rest = heap_bytes-copies h os (λ b m. same b (inr m)) in
      elim (Bool-cases ((s.at a).done)) [
        | inl d ↦ rw d (let e = same a (inl refl) d in omega arith)
        | inr d ↦ rw d (omega arith)
      ]

AreMoved-from :
    (sp : Spaces) (s : Store) (r : ℕ) (ws rs : List ℕ)
    → AreMoved sp s ws rs
    → Among r rs
    → (w : ℕ) × Among w ws × Moved sp s w r
unfolding AreMoved
AreMoved-from sp s r ws [] m at = absurd at
AreMoved-from sp s r [] (q ∷ rs) m at = absurd m
AreMoved-from sp s r (w ∷ ws) (q ∷ rs) (m, ms) (inl e) = (w, inl refl, rw e m)
AreMoved-from sp s r (w ∷ ws) (q ∷ rs) (m, ms) (inr at) =
    (let (v, in_, moved) = AreMoved-from sp s r ws rs ms at in (v, inr in_, moved))

-- The spaces of the next collection are those of this one with their parts changed.
module _ (m m' : Memory) (os : List ℕ) (c : Collected m os m') where
  flipped :
      (a : ℕ)
      → (in_oldspace (spaces m') a ≡ in_newspace (spaces m) a)
        × (in_newspace (spaces m') a ≡ in_oldspace (spaces m) a)
  flipped a = elim (Bool-cases (m.in_space_one)) [
    | inl b ↦ rw (c.swapped, c.space_one, c.space_two, c.space_size, b) (refl, refl)
    | inr b ↦ rw (c.swapped, c.space_one, c.space_two, c.space_size, b) (refl, refl)
  ]

module _ (m m' : Memory) (os : List ℕ) (heap : IsHeap m os) (c : Collected m os m') where
  old_of : (a : ℕ) → in_oldspace (spaces m') a ≡ in_newspace (spaces m) a
  old_of a = (flipped m m' os c a).0

  new_of : (a : ℕ) → in_newspace (spaces m') a ≡ in_oldspace (spaces m) a
  new_of a = (flipped m m' os c a).1

  copy_new :
      (b : ℕ)
      → Among b os
      → (m'.store.at b).done ≡ true
      → in_newspace (spaces m) (forward (m'.store.at b)) ≡ true
  copy_new b a d =
      let w = c.within b a d in
      let from = w.from in
      let to = w.to in
      let base = c.base in let base_of = c.base_of in let top = c.top in ground arith

  result_fine :
      (w r : ℕ)
      → IsFine (spaces m) m.store.at os w
      → Moved (spaces m) m'.store w r
      → IsFine (spaces m') m'.store.at (copies m'.store os) r
  result_fine w r fine moved = elim (Bool-cases (is_small_int w)) [
    | inl small ↦
        let same : r ≡ w = moved.fixed (rw small refl) in
        record {
          not_new = λ ref. cc (rw same at ref, small);
          object = λ ref o. cc (rw same at ref, small);
        }
    | inr ref ↦ elim (Bool-cases (in_oldspace (spaces m) w)) [
      | inr outside ↦
          let same : r ≡ w = moved.fixed (rw (ref, outside) refl) in
          rw same (record {
            not_new = λ _. new_of w ∙ outside;
            object = λ _ o. cc (sym (old_of w) ∙ o, fine.not_new ref);
          })
      | inl old ↦
          let (done, to) = moved.moved ref old in
          let a = fine.object ref old in
          rw to (record {
            not_new =
                λ _. new_of _ ∙ not_old (spaces m) m.store.at os heap.closed _ (copy_new w a done);
            object = λ _ _. Among-copies m'.store os w a done;
          })
    ]
  ]

  same_last :
      (b : ℕ)
      → Copied (spaces m) m.store.at m'.store b
      → last (m'.store.at (forward (m'.store.at b))) ≡ last (m.store.at b)
  same_last b k = rw (k.binary, k.size) refl

  copies_closed : IsClosed (spaces m') m'.store.at (copies m'.store os)
  copies_closed = record {
    apart = λ a o. (new_of a ∙ not_old (spaces m) m.store.at os heap.closed a (sym (old_of a) ∙ o));
    null = old_of 0 ∙ zero_outside;
    old =
        λ x at. (let (b, a, d, is) = origin m'.store os x at in rw is (old_of _ ∙ copy_new b a d));
    fields = λ x j at le p. field_fine x j at le p;
  }
    where
      zero_outside : in_newspace (spaces m) 0 ≡ false
      zero_outside =
          let (one, two) = heap.not_null in
          elim (Bool-cases (m.in_space_one)) [
            | inl b ↦ rw b (ground arith)
            | inr b ↦ rw b (ground arith)
          ]

      field_fine :
          (x j : ℕ)
          → Among x (copies m'.store os)
          → j ≤ last (m'.store.at x)
          → holds_pointer (m'.store.at x) j ≡ true
          → IsFine (spaces m') m'.store.at (copies m'.store os) ((m'.store.at x).words j)
      field_fine x j at le p =
          let (b, a, d, is) = origin m'.store os x at in
          let k = c.copied b a d in
          let le' : j ≤ last (m.store.at b) = rw (is, same_last b k) at le in
          let p' : holds_pointer (m.store.at b) j ≡ true = rw (is, k.binary) at p in
          rw is (
            result_fine ((m.store.at b).words j) _ (heap.closed.fields b j a le' p')
              ((k.words j le').pointer p'))

  next_heap : IsHeap m' (copies m'.store os)
  next_heap = record {
    closed = copies_closed;
    unmarked =
        λ x at. (let (b, a, d, is) = origin m'.store os x at in rw is ((c.copied b a d).live));
    stack = λ x at.
        (let (w, in_, moved) =
            AreMoved-from (spaces m) m'.store x m.root_stack m'.root_stack c.stack at in
          result_fine w x (heap.stack w in_) moved);
    statics = λ a at.
        (let at' = rw (c.static_roots) at at in
          result_fine (m.static_words a) _ (heap.statics a at') (c.statics a at'));
    unique = rw (c.static_roots) heap.unique;
    fits =
        (let l =
            heap_bytes-copies m'.store m.store.at os
              (λ b a d. ap (λ (n : ℕ). 8 * (n + 2)) (same_last b (c.copied b a d))) in
          let f = heap.fits in let z = c.space_size in omega arith);
    aligned = rw (c.space_one, c.space_two) heap.aligned;
    not_null = rw (c.space_one, c.space_two) heap.not_null;
  }

-- Where the two spaces are apart, at multiples of eight and not at NULL, the roots lead to objects that
-- lie in the old space, are not marked, point to each other or out of both spaces, and fit the new space,
-- and no place is twice among the static roots, `do_gc` returns, within a round of `gc_move` for each byte
-- of a space and two more. Then the root stack and the static roots hold what has become of the words
-- there, and no other static word is changed; each object that is reachable from them has been moved; each
-- that has been moved has a copy in the new space with the same size, flag and bytes and with what becomes
-- of its words; the copies do not overlap and take no more than the bytes of the objects; the spaces are
-- swapped and the method cache is flushed. The copies are again such objects, for the next collection.
pub do_gc-IsHeap :
    (m : Memory) (os : List ℕ) (fuel : ℕ)
    → IsHeap m os
    → 16 * m.space_size + 2 ≤ fuel
    → (m' : Memory) × (do_gc fuel m ≡ ok m') × Collected m os m' × IsHeap m' (copies m'.store os)
do_gc-IsHeap m os fuel heap enough =
    let c = collected m os heap fuel enough in
    (afterwards m os heap fuel enough, returns m os heap fuel enough, c, next_heap m _ os heap c)
