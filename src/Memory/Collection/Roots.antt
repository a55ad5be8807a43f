-- ===== src/Memory/Collection/Roots.antt =====
-- The two loops of `do_gc` (vm/memory.c) over the roots.
use littlesmalltalk.Prelude.{
  ℕ, suc, ◌+◌, ◌-◌, ◌≤◌, ◌≡◌, refl, sym, ap, ◌∙◌, inl, inr, true, false, ◌||◌, List, [], ◌∷◌, ◌==◌,
  ==_iff, Bool-cases, arith,
}
use littlesmalltalk.Prelude.Result.{ok}
use littlesmalltalk.Memory.StaticRoots.{is_root, IsUnique}
use littlesmalltalk.Memory.Collector.{Mobject, Store, Spaces, set_word, move_loop, gc_move}
use littlesmalltalk.Memory.Collector.Frame.{
  Among, remaining, Moved, Moved-Follows, Extends-Follows, Follows, IsClosed, IsReady, IsFine,
}
use littlesmalltalk.Memory.Collector.Grows.{Grows, Grows-trans, Grows-refl}
use littlesmalltalk.Memory.Collector.Gray.{==_self}
use littlesmalltalk.Memory.Collector.Rounds.{after, after-add}
use littlesmalltalk.Memory.Collector.Visit.{visit}
use littlesmalltalk.Memory.Collection.{move_roots, move_statics}

-- A list of words, and what has become of each.
unfoldable pub AreMoved : Spaces → Store → (ws rs : List ℕ) → Type 0
AreMoved sp s [] [] = Unit {0}
AreMoved sp s (w ∷ ws) (r ∷ rs) = Moved sp s w r × AreMoved sp s ws rs
AreMoved sp s [] (r ∷ rs) = ⊥
AreMoved sp s (w ∷ ws) [] = ⊥

pub AreMoved-Follows :
    (sp : Spaces) (s s' : Store) (ws rs : List ℕ)
    → Follows sp s s'
    → AreMoved sp s ws rs
    → AreMoved sp s' ws rs
unfolding AreMoved
AreMoved-Follows sp s s' [] [] f m = tt
AreMoved-Follows sp s s' (w ∷ ws) (r ∷ rs) f (m, ms) =
    (Moved-Follows sp f m, AreMoved-Follows sp s s' ws rs f ms)
AreMoved-Follows sp s s' [] (r ∷ rs) f m = m
AreMoved-Follows sp s s' (w ∷ ws) [] f m = m

module _ (sp : Spaces) (h : ℕ → Mobject) (os : List ℕ) (closed : IsClosed sp h os) (fuel : ℕ) where
  -- Fuel for each byte of the new space that is left.
  abbrev pub IsEnough : Store → Type 0
  IsEnough s = s.memory_pointer + 2 ≤ sp.memory_base + fuel

  pub record Moves (s : Store) (w : ℕ) : Type 0 where
    pub r : ℕ
    pub after_ : Store
    pub returns : gc_move fuel sp w s ≡ ok (r, after_)
    pub grows : Grows sp h os 0 s.memory_pointer s after_
    pub moved : Moved sp after_ w r

  -- `gc_move` of a SmallInt, of a place outside the spaces or of one of a closed set of objects returns,
  -- if no object that is unmoved differs from the start and the new space, which ends at a multiple of
  -- eight, has room for those of the set: within a round for each byte of that room and two more. An old
  -- object is forwarded to the result; any other word is the result itself. Each object that has been moved
  -- has a copy with the same size and flag, with the same bytes or with what becomes of its words; the new
  -- copies stand apart from each other in the room. What was moved before, the part of the new space that
  -- was taken and all that is in neither space stay as they were.
  pub gc_move-Moved :
      (s : Store) (w : ℕ) → IsReady sp h os s → IsFine sp h os w → IsEnough s → Moves s w
  unfolding gc_move move_loop
  gc_move-Moved s w ready fine enough =
      let v = visit sp h os closed (suc (remaining h s os)) s w 0 ready (omega arith) fine in
      let few = v.few in
      let room = v.grows.ready.room in
      let left : after v.rounds (suc (fuel - v.rounds - 1)) ≡ fuel =
        omega (arith, after-add v.rounds (suc (fuel - v.rounds - 1))) in
      record {
        r = v.r;
        after_ = v.after_;
        returns =
            ap (λ (n : ℕ). gc_move n sp w s) (sym left) ∙ v.run (suc (fuel - v.rounds - 1)) ∙ refl;
        grows = v.grows;
        moved = v.moved;
      }

  follows : (s s' : Store) → Grows sp h os 0 s.memory_pointer s s' → Follows sp s s'
  follows s s' g = Extends-Follows sp closed.apart g.extends

  after_-IsEnough :
      (s s' : Store) → Grows sp h os 0 s.memory_pointer s s' → IsEnough s → IsEnough s'
  after_-IsEnough s s' g e = (let l = g.extends.lower in omega arith)

  pub record RootsMoved (s : Store) (ws : List ℕ) : Type 0 where
    pub rs : List ℕ
    pub after_ : Store
    pub returns : move_roots fuel sp ws s ≡ ok (rs, after_)
    pub grows : Grows sp h os 0 s.memory_pointer s after_
    pub moved : AreMoved sp after_ ws rs

  pub move_roots-Moved :
      (s : Store) (ws : List ℕ)
      → IsReady sp h os s
      → ((w : ℕ) → Among w ws → IsFine sp h os w)
      → IsEnough s
      → RootsMoved s ws
  unfolding move_roots AreMoved
  move_roots-Moved s [] ready fine enough = record {
    rs = [];
    after_ = s;
    returns = refl;
    grows = Grows-refl sp h os s ready;
    moved = tt;
  }
  move_roots-Moved s (w ∷ ws) ready fine enough =
      let one = gc_move-Moved s w ready (fine w (inl refl)) enough in
      let rest =
        move_roots-Moved one.after_ ws one.grows.ready (λ v at. fine v (inr at))
          (after_-IsEnough s one.after_ one.grows enough) in
      record {
        rs = one.r ∷ rest.rs;
        after_ = rest.after_;
        returns = rw (one.returns, rest.returns) refl;
        grows = Grows-trans sp h os closed ready.below one.grows rest.grows;
        moved =
            (Moved-Follows sp (follows one.after_ rest.after_ rest.grows) one.moved, rest.moved);
      }

  -- What stands at the roots `roots` has been moved, all else stands as before.
  pub record StaticsMoved (s : Store) (roots : List ℕ) (words : ℕ → ℕ) : Type 0 where
    pub words' : ℕ → ℕ
    pub after_ : Store
    pub returns : move_statics fuel sp roots words s ≡ ok (words', after_)
    pub grows : Grows sp h os 0 s.memory_pointer s after_
    pub moved : (a : ℕ) → is_root a roots ≡ true → Moved sp after_ (words a) (words' a)
    pub others : (a : ℕ) → is_root a roots ≡ false → words' a ≡ words a

  module _ (s : Store) (a : ℕ) (roots : List ℕ) (words : ℕ → ℕ) (new : is_root a roots ≡ false)
      (one : Moves s (words a))
      (rest : StaticsMoved one.after_ roots (set_word words a one.r)) where
    rest_moved :
        (b : ℕ)
        → (b == a || is_root b roots) ≡ true
        → Moved sp rest.after_ (words b) (rest.words' b)
    rest_moved b there = elim (Bool-cases (b == a)) [
      | inl e ↦
          let same : b ≡ a = (==_iff b a).0 e in
          let result : rest.words' a ≡ one.r = rest.others a new ∙ rw (==_self a) refl in
          rw (same, result) (Moved-Follows sp (follows one.after_ rest.after_ rest.grows) one.moved)
      | inr e ↦
          let later = rest.moved b (rw e at there) in
          let value : set_word words a one.r b ≡ words b = rw e refl in rw (← value) later
    ]

    rest_others : (b : ℕ) → (b == a || is_root b roots) ≡ false → rest.words' b ≡ words b
    rest_others b away = elim (Bool-cases (b == a)) [
      | inl e ↦ cc (rw e at away)
      | inr e ↦ rest.others b (rw e at away) ∙ rw e refl
    ]

  later_root :
      (a b : ℕ) (roots : List ℕ)
      → is_root a roots ≡ false
      → is_root b roots ≡ true
      → (b == a) ≡ false
  later_root a b roots new there = elim (Bool-cases (b == a)) [
    | inl e ↦ (let same : b ≡ a = (==_iff b a).0 e in cc (rw same at there, new))
    | inr e ↦ e
  ]

  pub move_statics-Moved :
      (s : Store) (roots : List ℕ) (words : ℕ → ℕ)
      → IsReady sp h os s
      → IsUnique roots
      → ((a : ℕ) → is_root a roots ≡ true → IsFine sp h os (words a))
      → IsEnough s
      → StaticsMoved s roots words
  unfolding move_statics is_root
  move_statics-Moved s [] words ready unique fine enough = record {
    words' = words;
    after_ = s;
    returns = refl;
    grows = Grows-refl sp h os s ready;
    moved = λ a there. cc;
    others = λ a away. refl;
  }
  move_statics-Moved s (a ∷ roots) words ready (new, unique) fine enough =
      let one = gc_move-Moved s (words a) ready (fine a (rw (==_self a) refl)) enough in
      let rest =
        move_statics-Moved one.after_ roots (set_word words a one.r) one.grows.ready unique
          (λ b there.
            (let later = later_root a b roots new there in
              rw later (fine b (rw (later, there) refl))))
          (after_-IsEnough s one.after_ one.grows enough) in
      record {
        words' = rest.words';
        after_ = rest.after_;
        returns = rw (one.returns, rest.returns) refl;
        grows = Grows-trans sp h os closed ready.below one.grows rest.grows;
        moved = rest_moved s a roots words new one rest;
        others = rest_others s a roots words new one rest;
      }
