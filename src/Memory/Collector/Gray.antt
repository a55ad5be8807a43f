-- ===== src/Memory/Collector/Gray.antt =====
-- An object whose words `gc_move` (vm/memory.c) is moving: the word that is being moved holds the way
-- back in the copy, and the address of the copy in the object. The words behind it have been moved.
use littlesmalltalk.Prelude.{
  ℕ, zero, suc, ◌%◌, ◌≤◌, ◌<◌, ◌≡◌, ◌≢◌, refl, sym, ap, ◌∙◌, inl, inr, true, false, List, ◌==◌,
  ==_iff, Bool-cases, arith,
}
use littlesmalltalk.Memory.Collector.{
  Mobject, Store, Spaces, in_newspace, in_oldspace, set_word, set_object, forward, skip_zeros,
}
use littlesmalltalk.Memory.Collector.Frame.{
  remaining, Kept, Follows, Copied, Copied-Follows, IsClosed, IsReady, IsNew, Within,
  remaining-done,
}
use littlesmalltalk.Memory.Collector.Grows.{Grows, new_in_newspace, not_old}

pub ==_ne : (a b : ℕ) → a ≢ b → (a == b) ≡ false
==_ne a b ne = ground arith

pub ==_self : (a : ℕ) → (a == a) ≡ true
==_self a = ground arith

-- The copy and the object are written.
abbrev pub two : Store → ℕ → Mobject → ℕ → Mobject → Store
two s n c a o = set_object (set_object s n c) a o

module _ (s : Store) (n a : ℕ) (c o : Mobject) (ne : a ≢ n) where
  pub two-object : (two s n c a o).at a ≡ o
  two-object = rw (==_self a) refl

  pub two-copy : (two s n c a o).at n ≡ c
  two-copy = rw (==_ne n a (λ e. ne (sym e)), ==_self n) refl

  pub two-other : (b : ℕ) → b ≢ a → b ≢ n → (two s n c a o).at b ≡ s.at b
  two-other b not_a not_n = rw (==_ne b a not_a, ==_ne b n not_n) refl

-- Where the zeros end, and what is written.
pub record Skipped (m : ℕ) (old new : ℕ → ℕ) (j : ℕ) (words : ℕ → ℕ) : Type 0 where
  pub within : j ≤ m
  pub zeros : (t : ℕ) → j < t → t ≤ m → (old t ≡ 0) × (words t ≡ 0)
  pub above : (t : ℕ) → m < t → words t ≡ new t

pub skip_zeros-Skipped :
    (m : ℕ) (old new : ℕ → ℕ) → Skipped m old new (skip_zeros m old new).0 (skip_zeros m old new).1
unfolding skip_zeros
skip_zeros-Skipped zero old new = record {
  within = omega arith;
  zeros = λ t l u. absurd (omega arith);
  above = λ t l. refl;
}
skip_zeros-Skipped (suc m) old new =
    let rest = skip_zeros-Skipped m old (set_word new (suc m) 0) in
    elim (Bool-cases (old (suc m) == 0)) [
      | inl z ↦ rw z (record {
        within = (let w = rest.within in omega arith);
        zeros = λ t l u. elim (Bool-cases (t == suc m)) [
          | inl e ↦
              let same : t ≡ suc m = (==_iff t (suc m)).0 e in
              rw same
                ((==_iff _ 0).0 z, rest.above (suc m) (omega arith) ∙ rw (==_self (suc m)) refl)
          | inr ne ↦ rest.zeros t l (ground arith)
        ];
        above = λ t l. rest.above t (omega arith) ∙ rw (==_ne t (suc m) (λ e. omega arith)) refl;
      })
      | inr nz ↦ rw nz (record {
        within = omega arith;
        zeros = λ t l u. absurd (omega arith);
        above = λ t l. refl;
      })
    ]

module _ (sp : Spaces) (h : ℕ → Mobject) (os : List ℕ) (closed : IsClosed sp h os) where
  -- Only the object at `a` and its copy at `n` differ, and the object stays forwarded.
  pub record Change (a n : ℕ) (s s' : Store) : Type 0 where
    pub pointer : s'.memory_pointer ≡ s.memory_pointer
    pub others : (b : ℕ) → b ≢ a → b ≢ n → s'.at b ≡ s.at b
    pub done : (s'.at a).done ≡ true
    pub forwards : forward (s'.at a) ≡ forward (s.at a)

  module _ {a n : ℕ} {s s' : Store} (old : in_oldspace sp a ≡ true) (new : in_newspace sp n ≡ true)
      (c : Change a n s s') where
    pub ne_copy : (b : ℕ) → in_oldspace sp b ≡ true → b ≢ n
    ne_copy b o e = cc (rw e at o, not_old sp h os closed n new)

    pub ne_old : (b : ℕ) → in_newspace sp b ≡ true → b ≢ a
    ne_old b o e = cc (rw e at o, closed.apart a old)

    pub Change-Follows : Follows sp s s'
    Change-Follows b o d = elim (Bool-cases (b == a)) [
      | inl e ↦ let same : b ≡ a = (==_iff b a).0 e in rw same (c.done, c.forwards)
      | inr ne ↦
          let same = c.others b (λ e. cc (ne, (==_iff b a).1 e)) (ne_copy b o) in
          (ap Mobject.done same ∙ d, ap forward same)
    ]

    to : (b : ℕ) → b ≢ a → in_oldspace sp b ≡ true → forward (s'.at b) ≡ forward (s.at b)
    to b ne o = ap forward (c.others b ne (ne_copy b o))

    undone_same : (b : ℕ) → in_oldspace sp b ≡ true → (s'.at b).done ≡ false → s'.at b ≡ s.at b
    undone_same b o u = c.others b (λ e. cc (rw e at u, c.done)) (ne_copy b o)

    pub Change-remaining : remaining h s' os ≤ remaining h s os
    Change-remaining =
        remaining-done sp h os s s' os (λ b m d. (Change-Follows b (closed.old b m) d).0)

    Change-IsReady : IsReady sp h os s → IsReady sp h os s'
    Change-IsReady r = record {
      fresh = λ b o u.
          (let same = undone_same b o u in same ∙ r.fresh b o (sym (ap Mobject.done same) ∙ u));
      room = (let m = Change-remaining in let p = c.pointer in let q = r.room in omega arith);
      below = (let p = c.pointer in let q = r.below in omega arith);
      aligned = ap (λ (x : ℕ). x % 8) (c.pointer) ∙ r.aligned;
    }

    module _ (s₀ : Store) (top : s₀.memory_pointer ≤ sp.memory_top)
        (undone : (s₀.at a).done ≡ false) (under : n < s₀.memory_pointer)
        (g : Grows sp h os a n s₀ s) where
      before : (b : ℕ) → b ≢ a → IsNew sp h os s₀ s' b → IsNew sp h os s₀ s b
      before b ne (o, u, d) = (o, u, sym (ap Mobject.done (c.others b ne (ne_copy b o))) ∙ d)

      Change-Copied : (b : ℕ) → b ≢ a → IsNew sp h os s₀ s b → Copied sp h s' b
      Change-Copied b ne m =
          let w = g.within b ne m in
          let from = w.from in
          let below = w.to in
          let there : in_newspace sp (forward (s.at b)) ≡ true =
            new_in_newspace sp h os s (forward (s.at b)) g.ready from (omega arith) in
          Copied-Follows sp h b Change-Follows m.0 m.2
            (c.others _ (ne_old _ there) (λ e. omega arith)) (g.copied b ne m)

      Change-Within : (b : ℕ) → b ≢ a → IsNew sp h os s₀ s b → Within sp h os s' n b
      Change-Within b ne m =
          let w = g.within b ne m in
          let e = to b ne m.0 in
          record {
            from = (let f = w.from in let p = c.pointer in omega arith);
            to = (let t = w.to in omega arith);
            aligned = ap (λ (x : ℕ). x % 8) e ∙ w.aligned;
          }

      Change-same : (b : ℕ) → Kept sp s₀ b → s'.at b ≡ s₀.at b
      Change-same b k =
          let not_a : b ≢ a = λ e. (let d = k.moved (rw e old) in cc (rw e at d, undone)) in
          let not_n : b ≢ n = λ e. (let t = k.taken (rw e new) in omega (arith, e)) in
          c.others b not_a not_n ∙ g.extends.same b k

      pub Change-Grows : Grows sp h os a n s₀ s'
      Change-Grows = record {
        ready = Change-IsReady g.ready;
        extends = record {
          same = Change-same;
          lower = (let p = c.pointer in let l = g.extends.lower in omega arith);
        };
        bound = (let p = c.pointer in let l = g.bound in omega arith);
        used = (let p = c.pointer in let u = g.used in let l = Change-remaining in omega arith);
        copied = λ b ne m. Change-Copied b ne (before b ne m);
        within = λ b ne m. Change-Within b ne (before b ne m);
        apart = λ b d nb nd ne m m'.
            (let m₁ = before b nb m in
              let m₂ = before d nd m' in
              rw (to b nb m₁.0, to d nd m₂.0) (g.apart b d nb nd ne m₁ m₂));
      }
