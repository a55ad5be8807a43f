-- ===== src/Memory/Collector/Steps.antt =====
-- The rounds of `gc_move` (vm/memory.c) at an object whose words are being moved.
use littlesmalltalk.Prelude.{
  ℕ, ◌+◌, ◌≤◌, ◌<◌, ◌≡◌, ◌≢◌, refl, sym, ap, ◌∙◌, inl, inr, true, false, ◌||◌, List, ◌==◌, ==_iff,
  Bool-cases, arith,
}
use mathlib.Core.Path.{subst}
use littlesmalltalk.Memory.Collector.{
  Mobject, Store, Spaces, up, in_newspace, in_oldspace, set_word, forward, last, class_up, step_up,
}
use littlesmalltalk.Memory.Collector.Frame.{
  bytes_of, holds_pointer, Extends-Follows, Moved, Moved-Follows, Slot, Slot-Follows, Copied,
  IsClosed, Kept-moved,
}
use littlesmalltalk.Memory.Collector.Grows.{Grows, Grows-trans, Kept-taken}
use littlesmalltalk.Memory.Collector.Gray.{
  two, two-object, two-copy, two-other, ==_ne, Change, Change-Follows, Change-Grows,
}

class_pointer : (o : Mobject) → holds_pointer o 0 ≡ true
class_pointer o = elim (Bool-cases (o.binary)) [ inl b ↦ rw b refl | inr f ↦ rw f refl ]

module _ (sp : Spaces) (h : ℕ → Mobject) (os : List ℕ) (closed : IsClosed sp h os) (s₀ : Store)
    (a p n : ℕ) where
  -- What holds of the object throughout.
  pub record Target : Type 0 where
    pub old : in_oldspace sp a ≡ true
    pub undone : (s₀.at a).done ≡ false
    pub new : in_newspace sp n ≡ true
    pub top : s₀.memory_pointer ≤ sp.memory_top
    pub size : n + bytes_of (h a) ≡ s₀.memory_pointer

  -- The word at `i` is being moved, the way back from the object is `p`.
  pub record Gray (i : ℕ) (s : Store) : Type 0 where
    pub grows : Grows sp h os a n s₀ s
    pub size : (h a).binary ≡ false → (s.at a).size ≡ i
    pub binary : (s.at a).binary ≡ (h a).binary
    pub is_class : (h a).binary ≡ true → i ≡ 0
    pub done : (s.at a).done ≡ true
    pub bound : i ≤ last (h a)
    pub below : (j : ℕ) → j < i → (s.at a).words j ≡ (h a).words j
    pub here : (s.at a).words i ≡ n
    pub copy_size : (s.at n).size ≡ (h a).size
    pub copy_binary : (s.at n).binary ≡ (h a).binary
    pub copy_live : (s.at n).done ≡ false
    pub back : (s.at n).words i ≡ p
    pub filled : (j : ℕ) → i < j → j ≤ last (h a) → Slot sp h s a j ((s.at n).words j)

  module _ (t : Target) where
    pub apart : a ≢ n
    apart = (let o = t.old in λ e. cc (closed.apart n (rw e at o), t.new))

    -- While a word is moved, the object and its copy stay.
    pub Gray-kept :
        (i : ℕ) (s s' : Store)
        → Gray i s
        → Grows sp h os 0 s.memory_pointer s s'
        → (s'.at a ≡ s.at a) × (s'.at n ≡ s.at n)
    Gray-kept i s s' g g' = (
      g'.extends.same a (Kept-moved sp {s = s} a (closed.apart a) t.old g.done),
      g'.extends.same n (Kept-taken sp h os closed s n t.new g.grows.bound),
    )

    pub Gray-Grows :
        (i : ℕ) (s s' : Store) → Gray i s → Grows sp h os 0 s.memory_pointer s s' → Gray i s'
    Gray-Grows i s s' g g' =
        let (at_a, at_n) = Gray-kept i s s' g g' in
        record {
          grows =
              Grows-trans sp h os closed (let z = t.size in let u = t.top in omega arith) (g.grows)
                g';
          size = λ b. ap Mobject.size at_a ∙ g.size b;
          binary = ap Mobject.binary at_a ∙ g.binary;
          is_class = g.is_class;
          done = ap Mobject.done at_a ∙ g.done;
          bound = g.bound;
          below = λ j l. ap (λ (o : Mobject). o.words j) at_a ∙ g.below j l;
          here = ap (λ (o : Mobject). o.words i) at_a ∙ g.here;
          copy_size = ap Mobject.size at_n ∙ g.copy_size;
          copy_binary = ap Mobject.binary at_n ∙ g.copy_binary;
          copy_live = ap Mobject.done at_n ∙ g.copy_live;
          back = ap (λ (o : Mobject). o.words i) at_n ∙ g.back;
          filled = λ j l u.
              rw at_n
                (Slot-Follows sp h (Extends-Follows sp closed.apart g'.extends) (g.filled j l u));
        }

    -- The object is forwarded to its copy.
    pub Gray-forward : (i : ℕ) (s : Store) → Gray i s → forward (s.at a) ≡ n
    Gray-forward i s g = elim (Bool-cases ((h a).binary)) [
      | inl b ↦ rw (g.binary, b) (ap (s.at a).words (sym (g.is_class b)) ∙ g.here)
      | inr f ↦ rw (g.binary, f) (ap (s.at a).words (g.size f) ∙ g.here)
    ]

    -- A word of the copy is right where the word of the object has been moved.
    pub Slot-moved :
        (s : Store) (j v : ℕ)
        → Moved sp s ((h a).words j) v
        → holds_pointer (h a) j ≡ true
        → Slot sp h s a j v
    Slot-moved s j v m pointer = record { pointer = λ _. m; raw = λ no_. cc }

    -- The memory after the class has been moved.
    abbrev pub ended : Store → ℕ → Store
    ended s r =
        two s n (record (s.at n) { words = set_word (s.at n).words 0 r }) a
          (record (s.at a) { words = set_word (s.at a).words 0 n })

    at_class : (s : Store) → Gray 0 s → ((s.at a).binary || (s.at a).size == 0) ≡ true
    at_class s g = elim (Bool-cases ((h a).binary)) [
      | inl b ↦ rw (g.binary, b) refl
      | inr f ↦ rw (g.binary, f, g.size f) refl
    ]

    pub step_up-class : (s : Store) (r : ℕ) → Gray 0 s → step_up a r s ≡ (up p n, ended s r)
    unfolding step_up class_up
    step_up-class s r g = rw (at_class s g, g.here, g.back, ==_ne a n apart) refl

    pub ended-forward : (s : Store) (r : ℕ) → Gray 0 s → forward ((ended s r).at a) ≡ n
    ended-forward s r g =
        rw
          (two-object s n a (record (s.at n) { words = set_word (s.at n).words 0 r })
            (record (s.at a) { words = set_word (s.at a).words 0 n }) apart)
          (elim (Bool-cases ((h a).binary)) [
            | inl b ↦ rw (g.binary, b) refl
            | inr f ↦ rw (g.binary, f, g.size f) refl
          ])

    pub ended-done : (s : Store) (r : ℕ) → Gray 0 s → ((ended s r).at a).done ≡ true
    ended-done s r g = ap Mobject.done (two-object s n a _ _ apart) ∙ g.done

    ended-Change : (s : Store) (r : ℕ) → Gray 0 s → Change sp h os closed a n s (ended s r)
    ended-Change s r g = record {
      pointer = refl;
      others = two-other s n a _ _ apart;
      done = ended-done s r g;
      forwards = ended-forward s r g ∙ sym (Gray-forward 0 s g);
    }

    pub under : n < s₀.memory_pointer
    under = (let z = t.size in omega arith)

    pub ended-Grows : (s : Store) (r : ℕ) → Gray 0 s → Grows sp h os a n s₀ (ended s r)
    ended-Grows s r g =
        Change-Grows sp h os closed t.old t.new (ended-Change s r g) s₀ t.top t.undone under g.grows

    pub ended-Copied :
        (s : Store) (r : ℕ) → Gray 0 s → Moved sp s ((h a).words 0) r → Copied sp h (ended s r) a
    ended-Copied s r g m =
        let follows = Change-Follows sp h os closed t.old t.new (ended-Change s r g) in
        let copied : Mobject = record (s.at n) { words = set_word (s.at n).words 0 r } in
        let there : (ended s r).at (forward ((ended s r).at a)) ≡ copied =
          ap (ended s r).at (ended-forward s r g) ∙ two-copy s n a _ _ apart in
        let words : (j : ℕ) → j ≤ last (h a) → Slot sp h (ended s r) a j (copied.words j) = λ j le.
          elim (Bool-cases (j == 0)) [
            | inl e ↦
                let zero_ : j ≡ 0 = (==_iff j 0).0 e in
                rw (e, zero_)
                  (Slot-moved (ended s r) 0 r (Moved-Follows sp follows m) (class_pointer (h a)))
            | inr e ↦ rw e (Slot-Follows sp h follows (g.filled j (ground arith) le))
          ] in
        record {
          size = ap Mobject.size there ∙ g.copy_size;
          binary = ap Mobject.binary there ∙ g.copy_binary;
          live = ap Mobject.done there ∙ g.copy_live;
          words = λ j le.
              subst (λ (o : Mobject). Slot sp h (ended s r) a j (o.words j)) (sym there)
                (words j le);
        }
