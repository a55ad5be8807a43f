-- ===== src/Memory/Collection/Live.antt =====
-- What `do_gc` (vm/memory.c) makes of the objects that are reachable from the roots.
use littlesmalltalk.Prelude.{
  ℕ, ◌+◌, ◌*◌, ◌%◌, ◌≤◌, ◌<◌, ◌≡◌, ◌≢◌, refl, inl, inr, true, false, not, List, [], ◌∷◌, Bool-cases,
  arith,
}
use littlesmalltalk.Prelude.Result.{ok}
use littlesmalltalk.Methods.{flush_cache}
use littlesmalltalk.Memory.StaticRoots.{is_root, IsUnique}
use littlesmalltalk.Memory.Collector.{Mobject, Store, Spaces, is_small_int, in_oldspace, last}
use littlesmalltalk.Memory.Collector.Frame.{
  Among, bytes_of, holds_pointer, remaining, Moved, Copied, Extends-Follows, IsClosed, IsReady,
  IsFine, IsNew, Within, AreApart,
}
use littlesmalltalk.Memory.Collector.Grows.{Grows, Grows-trans}
use littlesmalltalk.Memory.Collection.{Memory, spaces, do_gc, flushed}
use littlesmalltalk.Memory.Collection.Roots
use littlesmalltalk.Memory.Collection.Roots.{
  AreMoved, AreMoved-Follows, move_roots-Moved, move_statics-Moved,
}

-- The objects in the old space that a root leads to.
pub data Reachable (m : Memory) : ℕ → Type 0 where
  on_stack :
      (w : ℕ)
      → Among w m.root_stack
      → is_small_int w ≡ false
      → in_oldspace (spaces m) w ≡ true
      → Reachable m w
  static :
      (a w : ℕ)
      → is_root a m.static_roots ≡ true
      → m.static_words a ≡ w
      → is_small_int w ≡ false
      → in_oldspace (spaces m) w ≡ true
      → Reachable m w
  field :
      (b j w : ℕ)
      → Reachable m b
      → j ≤ last (m.store.at b)
      → holds_pointer (m.store.at b) j ≡ true
      → (m.store.at b).words j ≡ w
      → is_small_int w ≡ false
      → in_oldspace (spaces m) w ≡ true
      → Reachable m w

unfoldable pub heap_bytes : (ℕ → Mobject) → List ℕ → ℕ
heap_bytes h [] = 0
heap_bytes h (a ∷ os) = bytes_of (h a) + heap_bytes h os

remaining-le : (h : ℕ → Mobject) (s : Store) (os : List ℕ) → remaining h s os ≤ heap_bytes h os
unfolding remaining heap_bytes
remaining-le h s [] = omega arith
remaining-le h s (a ∷ os) =
    let rest = remaining-le h s os in
    elim (Bool-cases ((s.at a).done)) [ inl d ↦ rw d (omega arith) | inr d ↦ rw d (omega arith) ]

-- The memory before a collection: objects `os` that are closed under their pointers, none of them marked,
-- to which the roots lead, and which fit the new space.
pub record IsHeap (m : Memory) (os : List ℕ) : Type 0 where
  pub closed : IsClosed (spaces m) m.store.at os
  pub unmarked : (b : ℕ) → Among b os → (m.store.at b).done ≡ false
  pub stack : (w : ℕ) → Among w m.root_stack → IsFine (spaces m) m.store.at os w
  pub statics :
      (a : ℕ) → is_root a m.static_roots ≡ true → IsFine (spaces m) m.store.at os (m.static_words a)
  pub unique : IsUnique m.static_roots
  pub fits : heap_bytes m.store.at os ≤ 16 * m.space_size
  pub aligned : (m.space_one % 8 ≡ 0) × (m.space_two % 8 ≡ 0)
  pub not_null : (0 < m.space_one) × (0 < m.space_two)

-- The memory after it: the roots are what has become of them, all that is reachable has been moved, and
-- all that has been moved has its copy.
pub record Collected (m : Memory) (os : List ℕ) (m' : Memory) : Type 0 where
  pub stack : AreMoved (spaces m) m'.store m.root_stack m'.root_stack
  pub statics :
      (a : ℕ)
      → is_root a m.static_roots ≡ true
      → Moved (spaces m) m'.store (m.static_words a) (m'.static_words a)
  pub others : (a : ℕ) → is_root a m.static_roots ≡ false → m'.static_words a ≡ m.static_words a
  pub live : (b : ℕ) → Reachable m b → Among b os × ((m'.store.at b).done ≡ true)
  pub copied :
      (b : ℕ) → Among b os → (m'.store.at b).done ≡ true → Copied (spaces m) m.store.at m'.store b
  pub within :
      (b : ℕ)
      → Among b os
      → (m'.store.at b).done ≡ true
      → Within (spaces m) m.store.at os m'.store m'.memory_top b
  pub apart :
      (b c : ℕ)
      → Among b os
      → Among c os
      → b ≢ c
      → (m'.store.at b).done ≡ true
      → (m'.store.at c).done ≡ true
      → AreApart (spaces m) m.store.at os m'.store b c
  pub base : m'.memory_base ≤ m'.store.memory_pointer
  pub top : m'.memory_top ≡ m'.memory_base + 16 * m.space_size
  pub used : m'.memory_top ≤ m'.store.memory_pointer + heap_bytes m.store.at os
  pub base_of : m'.memory_base ≡ (spaces m).memory_base
  pub swapped : m'.in_space_one ≡ not (m.in_space_one)
  pub space_one : m'.space_one ≡ m.space_one
  pub space_two : m'.space_two ≡ m.space_two
  pub space_size : m'.space_size ≡ m.space_size
  pub static_roots : m'.static_roots ≡ m.static_roots
  pub cache : m'.cache ≡ flush_cache m.cache

AreMoved-at :
    (sp : Spaces) (s : Store) (w : ℕ) (ws rs : List ℕ)
    → AreMoved sp s ws rs
    → Among w ws
    → (r : ℕ) × Moved sp s w r
unfolding AreMoved
AreMoved-at sp s w [] rs m at = absurd at
AreMoved-at sp s w (v ∷ ws) [] m at = absurd m
AreMoved-at sp s w (v ∷ ws) (r ∷ rs) (m, ms) (inl e) = (r, rw e m)
AreMoved-at sp s w (v ∷ ws) (r ∷ rs) (m, ms) (inr at) = AreMoved-at sp s w ws rs ms at

module _ (m : Memory) (os : List ℕ) (heap : IsHeap m os) where
  among : (b : ℕ) → Reachable m b → Among b os
  among _ (on_stack w at ref old) = (heap.stack w at).object ref old
  among _ (static a w at is ref old) = (rw is at (heap.statics a at)).object ref old
  among _ (field b j w r le p is ref old) =
      (let f = heap.closed.fields b j (among b r) le p in (rw is at f).object ref old)

  -- The two loops have returned.
  module _ (fuel : ℕ) (enough : 16 * m.space_size + 2 ≤ fuel) where
    start : Store
    start = record m.store { memory_pointer = (spaces m).memory_top }

    top_aligned : (spaces m).memory_top % 8 ≡ 0
    top_aligned =
        let (one, two) = heap.aligned in
        elim (Bool-cases (m.in_space_one)) [
          | inl b ↦ rw b (omega arith)
          | inr b ↦ rw b (omega arith)
        ]

    ready : IsReady (spaces m) m.store.at os start
    unfolding start
    ready = record {
      fresh = λ b o u. refl;
      room = (let l = remaining-le m.store.at start os in let f = heap.fits in omega arith);
      below = omega arith;
      aligned = top_aligned;
    }

    stack_moved : Roots.RootsMoved (spaces m) m.store.at os heap.closed fuel start m.root_stack
    unfolding start
    stack_moved =
        move_roots-Moved (spaces m) m.store.at os heap.closed fuel start m.root_stack ready
          heap.stack (omega arith)

    statics_moved :
        Roots.StaticsMoved
          (spaces m)
          m.store.at
          os
          heap.closed
          fuel
          stack_moved.after_
          m.static_roots
          m.static_words
    unfolding start
    statics_moved =
        move_statics-Moved (spaces m) m.store.at os heap.closed fuel stack_moved.after_
          m.static_roots m.static_words stack_moved.grows.ready heap.unique heap.statics
          (let l = stack_moved.grows.extends.lower in omega arith)

    pub afterwards : Memory
    afterwards = flushed m stack_moved.rs statics_moved.words' statics_moved.after_

    grown : Grows (spaces m) m.store.at os 0 (spaces m).memory_top start statics_moved.after_
    unfolding start
    grown =
        Grows-trans (spaces m) m.store.at os heap.closed (omega arith) stack_moved.grows
          statics_moved.grows

    pub returns : do_gc fuel m ≡ ok afterwards
    unfolding do_gc start afterwards
    returns = rw (stack_moved.returns, statics_moved.returns) refl

    stack_done : AreMoved (spaces m) statics_moved.after_ m.root_stack stack_moved.rs
    stack_done =
        AreMoved-Follows (spaces m) stack_moved.after_ statics_moved.after_ m.root_stack
          stack_moved.rs
          (Extends-Follows (spaces m) (heap.closed.apart) statics_moved.grows.extends)
          stack_moved.moved

    is_new :
        (b : ℕ)
        → Among b os
        → (statics_moved.after_.at b).done ≡ true
        → IsNew (spaces m) m.store.at os start statics_moved.after_ b
    unfolding start
    is_new b a d = (heap.closed.old b a, heap.unmarked b a, d)

    not_null : (b : ℕ) → Among b os → b ≢ 0
    not_null b a e = (let o = heap.closed.old b a in cc (rw e at o, heap.closed.null))

    is_done : (b : ℕ) → Reachable m b → (statics_moved.after_.at b).done ≡ true
    is_done w (on_stack _ at ref old) =
        ((AreMoved-at (spaces m) statics_moved.after_ w m.root_stack stack_moved.rs stack_done
            at).1.moved
          ref old).0
    is_done w (static a _ at is ref old) =
        (let v = statics_moved.moved a at in ((rw is at v).moved ref old).0)
    is_done w (field b j _ r le p is ref old) =
        let x = among b r in
        let c = grown.copied b (not_null b x) (is_new b x (is_done b r)) in
        let v = (c.words j le).pointer p in ((rw is at v).moved ref old).0

    pub collected : Collected m os afterwards
    unfolding afterwards start
    collected = record {
      stack = stack_done;
      statics = statics_moved.moved;
      others = statics_moved.others;
      live = λ b r. (among b r, is_done b r);
      copied = λ b a d. grown.copied b (not_null b a) (is_new b a d);
      within = λ b a d. grown.within b (not_null b a) (is_new b a d);
      apart = λ b c x y ne d e.
          grown.apart b c (not_null b x) (not_null c y) ne (is_new b x d) (is_new c y e);
      base = (let q = grown.ready.room in omega arith);
      top = refl;
      used = (let u = grown.used in let l = remaining-le m.store.at start os in omega arith);
      base_of = refl;
      swapped = refl;
      space_one = refl;
      space_two = refl;
      space_size = refl;
      static_roots = refl;
      cache = refl;
    }
