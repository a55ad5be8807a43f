-- ===== src/Memory/Collector/Visit.antt =====
-- `gc_move` (vm/memory.c) from a word to what becomes of it.
use littlesmalltalk.Prelude.{
  ℕ, zero, suc, ◌<◌, ◌≡◌, ◌≢◌, refl, sym, ◌∙◌, inl, inr, false, List, ◌==◌, ==_iff, Bool-cases,
  arith,
}
use littlesmalltalk.Prelude.Result.{ok}
use littlesmalltalk.Memory.Collector.{
  Mobject, Store, Spaces, up, is_small_int, in_newspace, in_oldspace, forward, step_down,
}
use littlesmalltalk.Memory.Collector.Frame.{
  Among, remaining, Moved, Copied, IsClosed, IsReady, IsNew, Within, AreApart,
}
use littlesmalltalk.Memory.Collector.Grows.{Grows, Grows-refl}
use littlesmalltalk.Memory.Collector.Steps.{Target}
use littlesmalltalk.Memory.Collector.Mark
use littlesmalltalk.Memory.Collector.Rounds.{
  after, Runs-trans, Runs-down, step_down-small, step_down-outside, step_down-done, fixed_absurd,
}
use littlesmalltalk.Memory.Collector.Words.{Visited, Visits, Finished, fields}

module _ (sp : Spaces) (h : ℕ → Mobject) (os : List ℕ) (closed : IsClosed sp h os) where
  -- With its own copy, the object belongs to what has grown.
  module _ (bound : ℕ) (visits : Visits sp h os closed bound) (s : Store) (a p n : ℕ)
      (t : Target sp h os closed s a p n) (among : Among a os) (first : ℕ) (s₁ : Store)
      (ready : IsReady sp h os s)
      (f : Finished sp h os closed bound visits s a p n t among first s₁) where
    object-Within : Within sp h os f.after_ s.memory_pointer a
    object-Within = record {
      from = (let e = f.forwards in let b = f.grows.bound in omega arith);
      to = (let e = f.forwards in let z = t.size in omega arith);
      aligned = (let e = f.forwards in let z = t.size in let l = ready.aligned in omega arith);
    }

    whole-Within : (b : ℕ) → IsNew sp h os s f.after_ b → Within sp h os f.after_ s.memory_pointer b
    whole-Within b m = elim (Bool-cases (b == a)) [
      | inl e ↦ let same : b ≡ a = (==_iff b a).0 e in rw same object-Within
      | inr e ↦
          let w = f.grows.within b (λ x. cc (e, (==_iff b a).1 x)) m in
          record {
            from = w.from;
            to = (let u = w.to in let z = t.size in omega arith);
            aligned = w.aligned;
          }
    ]

    whole-Copied : (b : ℕ) → IsNew sp h os s f.after_ b → Copied sp h f.after_ b
    whole-Copied b m = elim (Bool-cases (b == a)) [
      | inl e ↦ let same : b ≡ a = (==_iff b a).0 e in rw same f.copied
      | inr e ↦ f.grows.copied b (λ x. cc (e, (==_iff b a).1 x)) m
    ]

    whole-apart :
        (b c : ℕ)
        → b ≢ c
        → IsNew sp h os s f.after_ b
        → IsNew sp h os s f.after_ c
        → AreApart sp h os f.after_ b c
    whole-apart b c ne m m' = elim (Bool-cases (b == a)) [
      | inl e ↦
          let same : b ≡ a = (==_iff b a).0 e in
          let other : c ≢ a = λ x. ne (same ∙ sym x) in
          let w = (f.grows.within c other m').to in
          inr (rw same (let at = f.forwards in omega arith))
      | inr e ↦
          let not_b : b ≢ a = λ x. cc (e, (==_iff b a).1 x) in
          elim (Bool-cases (c == a)) [
            | inl e' ↦
                let same : c ≡ a = (==_iff c a).0 e' in
                let w = (f.grows.within b not_b m).to in
                inl (rw same (let at = f.forwards in omega arith))
            | inr e' ↦ f.grows.apart b c not_b (λ x. cc (e', (==_iff c a).1 x)) ne m m'
          ]
    ]

    whole : Grows sp h os 0 s.memory_pointer s f.after_
    whole = record {
      ready = f.grows.ready;
      extends = f.grows.extends;
      bound = f.grows.extends.lower;
      used = f.grows.used;
      copied = λ b ne m. whole-Copied b m;
      within = λ b ne m. whole-Within b m;
      apart = λ b c nb nc ne m m'. whole-apart b c ne m m';
    }

  -- Nothing is moved.
  stays :
      (s : Store) (w p r : ℕ)
      → IsReady sp h os s
      → step_down sp w p s ≡ ok (up p r, s)
      → Moved sp s w r
      → Visited sp h os closed s w p
  stays s w p r ready step moved = record {
    rounds = 1;
    r = r;
    after_ = s;
    run = Runs-down sp w p s (up p r) s step;
    few = omega arith;
    grows = Grows-refl sp h os s ready;
    moved = moved;
  }

  module _ (bound : ℕ) (visits : Visits sp h os closed bound) (s : Store) (a p : ℕ)
      (ready : IsReady sp h os s) (among : Among a os) (undone : (s.at a).done ≡ false)
      (ref : is_small_int a ≡ false) (not_new : in_newspace sp a ≡ false)
      (m : remaining h s os < suc bound) where
    moves : Visited sp h os closed s a p
    moves =
        let first : ℕ = Mark.first sp h os closed s a p ready among undone in
        let n : ℕ = Mark.place sp h os closed s a p ready among undone in
        let t = Mark.marked-Target sp h os closed s a p ready among undone in
        let s₁ = Mark.marked sp h os closed s a p ready among undone in
        let gray = Mark.marked-Gray sp h os closed s a p ready among undone in
        let less = Mark.marked-remaining sp h os closed s a p ready among undone in
        let z = t.size in
        let f =
          fields sp h os closed bound visits s a p n t among (suc first) first s₁ (omega arith) gray
            (omega arith) in
        record {
          rounds = after 1 f.rounds;
          r = n;
          after_ = f.after_;
          run =
              Runs-trans sp 1 f.rounds _ _ _ _ _ _
                (Runs-down sp a p s _ s₁
                  (Mark.step_down-marked sp h os closed s a p ready among undone ref not_new))
                f.run;
          few = (let k = f.few in let b = gray.bound in omega arith);
          grows = whole bound visits s a p n t among first s₁ ready f;
          moved = record {
            fixed = λ no_. fixed_absurd sp a ref t.old no_;
            moved = λ _ _. (f.done, sym f.forwards);
          };
        }

  pub visit : (bound : ℕ) → Visits sp h os closed bound
  visit zero s w p ready m fine = absurd (omega arith)
  visit (suc bound) s w p ready m fine = elim (Bool-cases (is_small_int w)) [
    | inl small ↦
        stays s w p w ready (step_down-small sp w p s small)
          (record { fixed = λ _. refl; moved = λ r. cc (small, r) })
    | inr ref ↦ elim (Bool-cases (in_oldspace sp w)) [
      | inr outside ↦
          stays s w p w ready (step_down-outside sp w p s ref (fine.not_new ref) outside)
            (record { fixed = λ _. refl; moved = λ _ o. cc (outside, o) })
      | inl old ↦ elim (Bool-cases ((s.at w).done)) [
        | inl done ↦
            stays s w p (forward (s.at w)) ready
              (step_down-done sp w p s ref (fine.not_new ref) old done)
              (record { fixed = λ no_. fixed_absurd sp w ref old no_; moved = λ _ _. (done, refl) })
        | inr undone ↦
            moves bound (visit bound) s w p ready (fine.object ref old) undone ref
              (fine.not_new ref) m
      ]
    ]
  ]
