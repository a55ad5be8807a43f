-- ===== src/Memory/Collector/Fields.antt =====
-- The round of `gc_move` (vm/memory.c) from one field of an object to the next one below it.
use littlesmalltalk.Prelude.{
  ℕ, suc, ◌-◌, ◌≤◌, ◌<◌, ◌≡◌, ◌≢◌, refl, sym, ap, ◌∙◌, inl, inr, true, false, ◌||◌, List, ◌==◌,
  ==_iff, Bool-cases, lt_cases, arith,
}
use littlesmalltalk.Memory.Collector.{
  Mobject, Store, Spaces, down, set_word, forward, last, skip_zeros, field_up, step_up,
}
use littlesmalltalk.Memory.Collector.Frame.{
  holds_pointer, remaining, Follows, Moved, Moved-Follows, Slot, Slot-Follows, IsClosed,
}
use littlesmalltalk.Memory.Collector.Gray.{
  two, two-object, two-copy, two-other, ==_ne, ==_self, Skipped, skip_zeros-Skipped, Change,
  Change-Follows, Change-Grows, Change-remaining,
}
use littlesmalltalk.Memory.Collector.Steps.{Target, Gray, Gray-forward, Slot-moved, apart, under}

module _ (sp : Spaces) (h : ℕ → Mobject) (os : List ℕ) (closed : IsClosed sp h os) (s₀ : Store)
    (a p n : ℕ) (t : Target sp h os closed s₀ a p n) (m : ℕ) (s : Store)
    (g : Gray sp h os closed s₀ a p n (suc m) s) (plain : (h a).binary ≡ false) (r : ℕ) where
  -- The words of the copy with the result, and the next field.
  abbrev pub written : ℕ → ℕ
  written = set_word (s.at n).words (suc m) r

  pub next : ℕ
  next = (skip_zeros m (s.at a).words written).0

  abbrev pub zeroed : ℕ → ℕ
  zeroed = (skip_zeros m (s.at a).words written).1

  abbrev pub copy : Mobject
  copy = record (s.at n) { words = set_word zeroed next p }

  abbrev pub object : Mobject
  object = record {
    size = next;
    binary = false;
    done = true;
    words = set_word (s.at a).words next n;
  }

  abbrev pub stepped : Store
  stepped = two s n copy a object

  skipped : Skipped m (s.at a).words written next zeroed
  unfolding next
  skipped = skip_zeros-Skipped m (s.at a).words written

  pub next_le : next ≤ m
  next_le = skipped.within

  at_field : ((s.at a).binary || (s.at a).size == 0) ≡ false
  at_field = rw (g.binary, plain, g.size plain) (==_ne (suc m) 0 (λ e. omega (arith, e)))

  pub step_up-field : step_up a r s ≡ (down ((h a).words next) a, stepped)
  unfolding step_up field_up next
  step_up-field =
      let size : (s.at a).size ≡ suc m = g.size plain in
      let one : suc m - 1 ≡ m = omega arith in
      let word : (s.at a).words next ≡ (h a).words next =
        g.below next (let l = next_le in omega arith) in
      rw (at_field, size, one, g.here, g.back, word) refl

  ne : a ≢ n
  ne = apart sp h os closed s₀ a p n t

  stepped-Change : Change sp h os closed a n s stepped
  stepped-Change = record {
    pointer = refl;
    others = two-other s n a copy object ne;
    done = ap Mobject.done (two-object s n a copy object ne);
    forwards =
        ap forward (two-object s n a copy object ne)
        ∙ rw (==_self next) (sym (Gray-forward sp h os closed s₀ a p n t (suc m) s g));
  }

  follows : Follows sp s stepped
  follows = Change-Follows sp h os closed t.old t.new stepped-Change

  pub stepped-remaining : remaining h stepped os ≤ remaining h s os
  stepped-remaining = Change-remaining sp h os closed t.old t.new stepped-Change

  holds : (j : ℕ) → holds_pointer (h a) j ≡ true
  holds j = rw plain refl

  filled :
      Moved sp s ((h a).words (suc m)) r
      → (j : ℕ) → next < j
      → j ≤ last (h a)
      → Slot sp h stepped a j (set_word zeroed next p j)
  filled moved j l u = rw (==_ne j next (λ e. omega (arith, e))) (elim (lt_cases m j) [
    | inl above ↦ rw (skipped.above j above) (elim (Bool-cases (j == suc m)) [
      | inl e ↦
          let same : j ≡ suc m = (==_iff j (suc m)).0 e in
          rw (e, same)
            (Slot-moved sp h os closed s₀ a p n t stepped (suc m) r (Moved-Follows sp follows moved)
              (holds (suc m)))
      | inr e ↦ rw e (Slot-Follows sp h follows (g.filled j (ground arith) u))
    ])
    | inr (inl same) ↦ zero_slot j l (omega arith)
    | inr (inr under) ↦ zero_slot j l (omega arith)
  ])
    where
      zero_slot : (j : ℕ) → next < j → j ≤ m → Slot sp h stepped a j (zeroed j)
      zero_slot j l u =
          let (was, is) = skipped.zeros j l u in
          rw is (
            Slot-moved sp h os closed s₀ a p n t stepped j 0
              (let z : (h a).words j ≡ 0 = sym (g.below j (omega arith)) ∙ was in
                rw z (record { fixed = λ _. refl; moved = λ _ o. cc (closed.null, o) }))
              (holds j))

  pub stepped-Gray : Moved sp s ((h a).words (suc m)) r → Gray sp h os closed s₀ a p n next stepped
  stepped-Gray moved =
      let at_a : stepped.at a ≡ object = two-object s n a copy object ne in
      let at_n : stepped.at n ≡ copy = two-copy s n a copy object ne in
      let le = next_le in
      record {
        grows =
            Change-Grows sp h os closed t.old t.new stepped-Change s₀ t.top t.undone
              (under sp h os closed s₀ a p n t) g.grows;
        size = λ b. ap Mobject.size at_a;
        binary = ap Mobject.binary at_a ∙ sym plain;
        is_class = λ b. cc;
        done = ap Mobject.done at_a;
        bound = (let b = g.bound in omega arith);
        below = λ j l.
            ap (λ (o : Mobject). o.words j) at_a
            ∙ rw (==_ne j next (λ e. omega (arith, e))) (g.below j (omega arith));
        here = ap (λ (o : Mobject). o.words next) at_a ∙ rw (==_self next) refl;
        copy_size = ap Mobject.size at_n ∙ g.copy_size;
        copy_binary = ap Mobject.binary at_n ∙ g.copy_binary;
        copy_live = ap Mobject.done at_n ∙ g.copy_live;
        back = ap (λ (o : Mobject). o.words next) at_n ∙ rw (==_self next) refl;
        filled = λ j l u. rw at_n (filled moved j l u);
      }
