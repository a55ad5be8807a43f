-- ===== src/Memory/Collector/Grows.antt =====
-- Rounds of `gc_move` (vm/memory.c) put together: what has been moved between two states of the memory.
use littlesmalltalk.Prelude.{
  ℕ, ◌+◌, ◌%◌, ◌≤◌, ◌≡◌, ◌≢◌, ◌⊎◌, refl, ap, ◌∙◌, inl, inr, true, false, ◌&&◌, List, leb,
  Bool-cases, arith,
}
use littlesmalltalk.Memory.Collector.{Mobject, Store, Spaces, in_newspace, in_oldspace, forward}
use littlesmalltalk.Memory.Collector.Frame.{
  remaining, Kept, Extends, Extends-trans, Extends-Follows, Follows, Copied, Copied-Follows,
  IsClosed, IsReady, IsNew, Within, AreApart,
}

in_range : (lo hi a : ℕ) → lo ≤ a → a ≤ hi → (leb lo a && leb a hi) ≡ true
in_range lo hi a l u = ground arith

module _ (sp : Spaces) (h : ℕ → Mobject) (os : List ℕ) where
  -- The objects moved since `s`, but for the one at `x`, have been copied below `upper`.
  pub record Grows (x upper : ℕ) (s s' : Store) : Type 0 where
    pub ready : IsReady sp h os s'
    pub extends : Extends sp s s'
    pub bound : s'.memory_pointer ≤ upper
    pub used : s.memory_pointer + remaining h s' os ≤ s'.memory_pointer + remaining h s os
    pub copied : (b : ℕ) → b ≢ x → IsNew sp h os s s' b → Copied sp h s' b
    pub within : (b : ℕ) → b ≢ x → IsNew sp h os s s' b → Within sp h os s' upper b
    pub apart :
        (b c : ℕ)
        → b ≢ x
        → c ≢ x
        → b ≢ c
        → IsNew sp h os s s' b
        → IsNew sp h os s s' c
        → AreApart sp h os s' b c

  not_new_refl : (s : Store) (b : ℕ) → IsNew sp h os s s b → ⊥
  not_new_refl s b (o, u, d) = cc (u, d)

  pub Grows-refl : (s : Store) → IsReady sp h os s → Grows 0 s.memory_pointer s s
  Grows-refl s ready = record {
    ready = ready;
    extends = record { same = λ a k. refl; lower = omega arith };
    bound = omega arith;
    used = omega arith;
    copied = λ b ne m. absurd (not_new_refl s b m);
    within = λ b ne m. absurd (not_new_refl s b m);
    apart = λ b c nb nc ne m n. absurd (not_new_refl s b m);
  }

  pub new_in_newspace :
      (s : Store) (a : ℕ)
      → IsReady sp h os s
      → s.memory_pointer ≤ a
      → a ≤ sp.memory_top
      → in_newspace sp a ≡ true
  new_in_newspace s a ready from to =
      in_range sp.memory_base sp.memory_top a (let r = ready.room in omega arith) to

  module _ (closed : IsClosed sp h os) where
    pub not_old : (a : ℕ) → in_newspace sp a ≡ true → in_oldspace sp a ≡ false
    not_old a new = elim (Bool-cases (in_oldspace sp a)) [
      | inl old ↦ cc (closed.apart a old, new)
      | inr no_ ↦ no_
    ]

    pub Kept-taken :
        (s : Store) (a : ℕ) → in_newspace sp a ≡ true → s.memory_pointer ≤ a → Kept sp s a
    Kept-taken s a new from = record { moved = λ old. cc (not_old a new, old); taken = λ _. from }

    module _ {x upper : ℕ} {s s₁ s₂ : Store} (top : upper ≤ sp.memory_top) (g : Grows x upper s s₁)
        (g' : Grows 0 s₁.memory_pointer s₁ s₂) where
      follows : Follows sp s₁ s₂
      follows = Extends-Follows sp closed.apart g'.extends

      not_null : (b : ℕ) → in_oldspace sp b ≡ true → b ≢ 0
      not_null b old e = cc (rw e at old, closed.null)

      copy_kept :
          (b : ℕ)
          → b ≢ x
          → IsNew sp h os s s₁ b
          → s₂.at (forward (s₁.at b)) ≡ s₁.at (forward (s₁.at b))
      copy_kept b ne new =
          let w = g.within b ne new in
          let from : s₁.memory_pointer ≤ forward (s₁.at b) = w.from in
          let to : forward (s₁.at b) ≤ sp.memory_top = (let t = w.to in omega arith) in
          g'.extends.same (forward (s₁.at b))
            (Kept-taken s₁ _ (new_in_newspace s₁ _ g.ready from to) from)

      Earlier : ℕ → Type 0
      Earlier b = IsNew sp h os s s₁ b ⊎ IsNew sp h os s₁ s₂ b

      earlier : (b : ℕ) → IsNew sp h os s s₂ b → Earlier b
      unfolding Earlier
      earlier b (old, undone, done) = elim (Bool-cases ((s₁.at b).done)) [
        | inl d ↦ inl (old, undone, d)
        | inr d ↦ inr (old, d, done)
      ]

      Grows-Copied : (b : ℕ) → b ≢ x → Earlier b → Copied sp h s₂ b
      unfolding Earlier
      Grows-Copied b ne (inl new) =
          Copied-Follows sp h b follows new.0 new.2 (copy_kept b ne new) (g.copied b ne new)
      Grows-Copied b ne (inr new) = g'.copied b (not_null b new.0) new

      Grows-Within : (b : ℕ) → b ≢ x → Earlier b → Within sp h os s₂ upper b
      unfolding Earlier
      Grows-Within b ne (inl new) =
          let to = (follows b new.0 new.2).1 in
          let w = g.within b ne new in
          record {
            from = (let f = w.from in let l = g'.extends.lower in omega arith);
            to = (let t = w.to in omega arith);
            aligned = ap (λ (n : ℕ). n % 8) to ∙ w.aligned;
          }
      Grows-Within b ne (inr new) =
          let w = g'.within b (not_null b new.0) new in
          record {
            from = w.from;
            to = (let t = w.to in let u = g.bound in omega arith);
            aligned = w.aligned;
          }

      Grows-apart :
          (b c : ℕ) → b ≢ x → c ≢ x → b ≢ c → Earlier b → Earlier c → AreApart sp h os s₂ b c
      unfolding Earlier
      Grows-apart b c nb nc ne (inl m) (inl n) =
          rw ((follows b m.0 m.2).1, (follows c n.0 n.2).1) (g.apart b c nb nc ne m n)
      Grows-apart b c nb nc ne (inr m) (inr n) =
          g'.apart b c (not_null b m.0) (not_null c n.0) ne m n
      Grows-apart b c nb nc ne (inl m) (inr n) =
          let f = (g.within b nb m).from in
          let t = (g'.within c (not_null c n.0) n).to in
          let e = (follows b m.0 m.2).1 in inr (omega arith)
      Grows-apart b c nb nc ne (inr m) (inl n) =
          let f = (g.within c nc n).from in
          let t = (g'.within b (not_null b m.0) m).to in
          let e = (follows c n.0 n.2).1 in inl (omega arith)

      pub Grows-trans : Grows x upper s s₂
      Grows-trans = record {
        ready = g'.ready;
        extends = Extends-trans sp g.extends g'.extends;
        bound = (let u = g.bound in let l = g'.extends.lower in omega arith);
        used = (let u = g.used in let u' = g'.used in omega arith);
        copied = λ b ne new. Grows-Copied b ne (earlier b new);
        within = λ b ne new. Grows-Within b ne (earlier b new);
        apart = λ b c nb nc ne m n. Grows-apart b c nb nc ne (earlier b m) (earlier c n);
      }
