-- ===== src/Memory/Collector/Words.antt =====
-- `gc_move` (vm/memory.c) through the words of an object, from the last one to its class.
use littlesmalltalk.Prelude.{
  ℕ, zero, suc, ◌+◌, ◌*◌, ◌≤◌, ◌<◌, ◌≡◌, ◌≢◌, refl, inl, inr, true, false, List, Bool-cases, arith,
}
use littlesmalltalk.Memory.Collector.{Mobject, Store, Spaces, down, up, forward}
use littlesmalltalk.Memory.Collector.Frame.{
  Among, holds_pointer, remaining, remaining-done, Extends-Follows, Moved, Copied, IsClosed,
  IsReady, IsFine,
}
use littlesmalltalk.Memory.Collector.Grows.{Grows}
use littlesmalltalk.Memory.Collector.Steps.{
  Target, Gray, Gray-Grows, step_up-class, ended, ended-Grows, ended-Copied, ended-forward,
  ended-done,
}
use littlesmalltalk.Memory.Collector.Fields
use littlesmalltalk.Memory.Collector.Rounds.{after, after-add, Runs, Runs-trans, Runs-up}

module _ (sp : Spaces) (h : ℕ → Mobject) (os : List ℕ) (closed : IsClosed sp h os) where
  -- The word `w` has been moved from `s` on, and the loop goes on at `p`.
  pub record Visited (s : Store) (w p : ℕ) : Type 0 where
    pub rounds : ℕ
    pub r : ℕ
    pub after_ : Store
    pub run : Runs sp rounds (down w p) s (up p r) after_
    pub few : rounds + after_.memory_pointer ≤ s.memory_pointer + 1
    pub grows : Grows sp h os 0 s.memory_pointer s after_
    pub moved : Moved sp after_ w r

  abbrev pub Visits : ℕ → Type 0
  Visits bound =
      (s : Store) (w p : ℕ)
      → IsReady sp h os s
      → remaining h s os < bound
      → IsFine sp h os w
      → Visited s w p

  pub Grows-remaining :
      (s s' : Store) → Grows sp h os 0 s.memory_pointer s s' → remaining h s' os ≤ remaining h s os
  Grows-remaining s s' g =
      remaining-done sp h os s s' os
        (λ b m d. (Extends-Follows sp closed.apart g.extends b (closed.old b m) d).0)

  module _ (bound : ℕ) (visits : Visits bound) (s₀ : Store) (a p n : ℕ)
      (t : Target sp h os closed s₀ a p n) (among : Among a os) where
    -- All words of the object from `i` down have been moved.
    pub record Finished (i : ℕ) (s : Store) : Type 0 where
      pub rounds : ℕ
      pub after_ : Store
      pub run : Runs sp rounds (down ((h a).words i) a) s (up p n) after_
      pub few : rounds + after_.memory_pointer ≤ s.memory_pointer + 2 * (i + 1)
      pub grows : Grows sp h os a n s₀ after_
      pub copied : Copied sp h after_ a
      pub done : (after_.at a).done ≡ true
      pub forwards : forward (after_.at a) ≡ n

    not_null : a ≢ 0
    not_null e = (let o = t.old in cc (rw e at o, closed.null))

    pointer_at :
        (i : ℕ) (s : Store) → Gray sp h os closed s₀ a p n i s → holds_pointer (h a) i ≡ true
    pointer_at i s g = elim (Bool-cases ((h a).binary)) [
      | inl b ↦ rw (b, g.is_class b) refl
      | inr f ↦ rw f refl
    ]

    not_class : (i : ℕ) (s : Store) → Gray sp h os closed s₀ a p n (suc i) s → (h a).binary ≡ false
    not_class i s g = elim (Bool-cases ((h a).binary)) [
      | inl b ↦ (let z = g.is_class b in absurd (omega arith))
      | inr f ↦ f
    ]

    pub fields :
        (fuel i : ℕ) (s : Store)
        → i < fuel
        → Gray sp h os closed s₀ a p n i s
        → remaining h s os < bound
        → Finished i s
    fields zero i s l g m = absurd (omega arith)
    fields (suc fuel) zero s l g m =
        let v =
          visits s ((h a).words 0) a g.grows.ready m
            (closed.fields a 0 among g.bound (pointer_at 0 s g)) in
        let g' = Gray-Grows sp h os closed s₀ a p n t 0 s v.after_ g v.grows in
        record {
          rounds = after v.rounds 1;
          after_ = ended sp h os closed s₀ a p n t v.after_ v.r;
          run = Runs-trans sp v.rounds 1 _ _ _ _ _ _ v.run (
              Runs-up sp a v.r v.after_ _ _ not_null
                (step_up-class sp h os closed s₀ a p n t v.after_ v.r g'));
          few = (let f = v.few in omega (arith, after-add v.rounds 1));
          grows = ended-Grows sp h os closed s₀ a p n t v.after_ v.r g';
          copied = ended-Copied sp h os closed s₀ a p n t v.after_ v.r g' v.moved;
          done = ended-done sp h os closed s₀ a p n t v.after_ v.r g';
          forwards = ended-forward sp h os closed s₀ a p n t v.after_ v.r g';
        }
    fields (suc fuel) (suc i) s l g m =
        let v =
          visits s ((h a).words (suc i)) a g.grows.ready m
            (closed.fields a (suc i) among g.bound (pointer_at (suc i) s g)) in
        let g' = Gray-Grows sp h os closed s₀ a p n t (suc i) s v.after_ g v.grows in
        let plain = not_class i s g in
        let next : ℕ = Fields.next sp h os closed s₀ a p n t i v.after_ g' plain v.r in
        let le : next ≤ i = Fields.next_le sp h os closed s₀ a p n t i v.after_ g' plain v.r in
        let s' = Fields.stepped sp h os closed s₀ a p n t i v.after_ g' plain v.r in
        let rest =
          fields fuel next s' (omega arith)
            (Fields.stepped-Gray sp h os closed s₀ a p n t i v.after_ g' plain v.r v.moved)
            (let x = Fields.stepped-remaining sp h os closed s₀ a p n t i v.after_ g' plain v.r in
              let y = Grows-remaining s v.after_ v.grows in omega arith) in
        record {
          rounds = after v.rounds (after 1 rest.rounds);
          after_ = rest.after_;
          run = Runs-trans sp v.rounds (after 1 rest.rounds) _ _ _ _ _ _ v.run (
              Runs-trans sp 1 rest.rounds _ _ _ _ _ _
                (Runs-up sp a v.r v.after_ _ s' not_null
                  (Fields.step_up-field sp h os closed s₀ a p n t i v.after_ g' plain v.r))
                rest.run);
          few =
              (let f = v.few in
                let f' = rest.few in omega (arith, after-add v.rounds (after 1 rest.rounds)));
          grows = rest.grows;
          copied = rest.copied;
          done = rest.done;
          forwards = rest.forwards;
        }
