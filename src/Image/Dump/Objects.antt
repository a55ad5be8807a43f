-- ===== src/Image/Dump/Objects.antt =====
-- The loop over the objects of a version 2 image (vm/image.c).
use littlesmalltalk.Prelude.{
  ℕ, zero, suc, ◌+◌, ◌*◌, ◌%◌, ◌≤◌, ◌<◌, ◌≡◌, ◌≢◌, refl, sym, ◌∙◌, inl, inr, true, false, List, [],
  ◌∷◌, ltb, lt→ltb, Bool-cases, length, arith,
}
use littlesmalltalk.Prelude.Result.{ok}
use littlesmalltalk.Memory.Collector.{Mobject, Store, set_word, set_object, last}
use littlesmalltalk.Memory.Collector.Frame.{Among}
use littlesmalltalk.Memory.Collector.Gray.{==_ne, ==_self}
use littlesmalltalk.Image.Dump.{new_offset, object_fix_up, fix_up_loop}
use littlesmalltalk.Image.Dump.Relocated.{
  Lands, IsField, Fixed, fix_offset-Lands, fix_fields-Fixed, rw_set,
}

-- Objects one behind the other from `p` to `top`.
abbrev pub AreLaid : (ℕ → Mobject) → ℕ → List ℕ → ℕ → Type 0
AreLaid h p [] top = p ≡ top
AreLaid h p (a ∷ os) top = (a ≡ p) × AreLaid h (p + 8 * (last (h a) + 2)) os top

AreLaid-le : (h : ℕ → Mobject) (p : ℕ) (os : List ℕ) (top : ℕ) → AreLaid h p os top → p ≤ top
AreLaid-le h p [] top e = omega arith
AreLaid-le h p (a ∷ os) top (e, l) =
    (let rest = AreLaid-le h (p + 8 * (last (h a) + 2)) os top l in omega arith)

AreLaid-above :
    (h : ℕ → Mobject) (p : ℕ) (os : List ℕ) (top b : ℕ) → AreLaid h p os top → Among b os → p ≤ b
AreLaid-above h p [] top b l m = absurd m
AreLaid-above h p (a ∷ os) top b (e, l) (inl m) = omega arith
AreLaid-above h p (a ∷ os) top b (e, l) (inr m) =
    (let rest = AreLaid-above h (p + 8 * (last (h a) + 2)) os top b l m in omega arith)

not_below : (a b : ℕ) → b ≤ a → ltb a b ≡ false
not_below a b l = ground arith

module _ (low high nil mb ib : ℕ) (base : mb % 8 ≡ 0) (image : ib % 8 ≡ 0) where
  -- The class and the fields land in the part of the memory that is filled.
  pub record IsObject (o : Mobject) : Type 0 where
    pub class_ : (v : ℕ) × Lands low high nil mb ib base image (o.words 0) v
    pub fields :
        o.binary ≡ false
        → (j : ℕ) → 1 ≤ j
        → j ≤ o.size
        → IsField low high nil mb ib base image (o.words j)

  -- The object with its addresses moved.
  pub record Relocated (o o' : Mobject) : Type 0 where
    pub size : o'.size ≡ o.size
    pub binary : o'.binary ≡ o.binary
    pub class_ : o'.words 0 + ib ≡ o.words 0 + mb
    pub fields :
        o.binary ≡ false
        → (j : ℕ) → 1 ≤ j
        → j ≤ o.size
        → Fixed low high nil mb ib base image (o.words j) (o'.words j)
    pub raw : o.binary ≡ true → (j : ℕ) → j ≢ 0 → o'.words j ≡ o.words j

  pub record Stepped (s : Store) (a : ℕ) : Type 0 where
    pub after_ : Store
    pub returns :
        object_fix_up low high nil (new_offset mb ib) a s ≡ ok (a + 8 * (last (s.at a) + 2), after_)
    pub relocated : Relocated (s.at a) (after_.at a)
    pub others : (b : ℕ) → b ≢ a → after_.at b ≡ s.at b

  object_fix_up-Relocated : (s : Store) (a : ℕ) → a ≢ 0 → IsObject (s.at a) → Stepped s a
  unfolding object_fix_up
  object_fix_up-Relocated s a ne object =
      let o = s.at a in
      let (c, lands) = object.class_ in
      let found = fix_offset-Lands low high nil mb ib base image (o.words 0) c lands in
      let words₁ : ℕ → ℕ = set_word o.words 0 c in
      elim (Bool-cases (o.binary)) [
        | inl b ↦ record {
          after_ = set_object s a (record o { words = words₁ });
          returns = rw (==_ne a 0 ne, found, b) refl;
          relocated = rw (==_self a) (record {
            size = refl;
            binary = refl;
            class_ = lands.shift;
            fields = λ f j l u. cc (b, f);
            raw = λ _ j not_0. rw_set o.words 0 c j not_0;
          });
          others = λ d nd. rw (==_ne d a nd) refl;
        }
        | inr f ↦
            let (words', done, fixed) =
              fix_fields-Fixed low high nil mb ib base image o.size 1 words₁ (λ j l u.
                rw (rw_set o.words 0 c j (λ e. omega arith)) (object.fields f j l (omega arith))) in
            record {
              after_ = set_object s a (record o { words = words' });
              returns = rw (==_ne a 0 ne, found, f, done) refl;
              relocated = rw (==_self a) (record {
                size = refl;
                binary = refl;
                class_ =
                    (let zero_ = fixed.before 0 (omega arith) in
                      let sh = lands.shift in omega arith);
                fields = λ _ j l u.
                    rw (rw_set o.words 0 c j (λ e. omega arith)) at (fixed.fixed j l (omega arith));
                raw = λ b j not_0. cc (f, b);
              });
              others = λ d nd. rw (==_ne d a nd) refl;
            }
      ]

  pub record Loaded (s : Store) (p : ℕ) (os : List ℕ) (fuel : ℕ) : Type 0 where
    pub after_ : Store
    pub returns : fix_up_loop low high nil (new_offset mb ib) fuel p s ≡ ok after_
    pub relocated : (a : ℕ) → Among a os → Relocated (s.at a) (after_.at a)
    pub others : (b : ℕ) → b < p → after_.at b ≡ s.at b

  AreLaid-same :
      (h h' : ℕ → Mobject) (p : ℕ) (os : List ℕ) (top : ℕ)
      → ((b : ℕ) → Among b os → h' b ≡ h b)
      → AreLaid h p os top
      → AreLaid h' p os top
  AreLaid-same h h' p [] top same l = l
  AreLaid-same h h' p (a ∷ os) top same (e, l) = (
    e,
    rw (same a (inl refl))
        (AreLaid-same h h' (p + 8 * (last (h a) + 2)) os top (λ b m. same b (inr m)) l),
  )

  pub fix_up_loop-Loaded :
      (s : Store) (p : ℕ) (os : List ℕ) (fuel : ℕ)
      → AreLaid s.at p os high
      → ((a : ℕ) → Among a os → IsObject (s.at a))
      → 0 < p
      → length os < fuel
      → Loaded s p os fuel
  unfolding fix_up_loop
  fix_up_loop-Loaded s p os zero laid objects positive enough = absurd (omega arith)
  fix_up_loop-Loaded s p [] (suc fuel) laid objects positive enough = record {
    after_ = s;
    returns = rw (not_below p high (omega arith), fix_up_loop) refl;
    relocated = λ a m. absurd m;
    others = λ b l. refl;
  }
  fix_up_loop-Loaded s p (a ∷ os) (suc fuel) (e, behind) objects positive enough =
      let step = object_fix_up-Relocated s p (λ z. omega (arith, z)) (objects p (inl (sym e))) in
      let next : ℕ = p + 8 * (last (s.at p) + 2) in
      let laid : AreLaid s.at next os high = rw e at behind in
      let ahead = λ (b : ℕ) (m : Among b os). AreLaid-above s.at next os high b laid m in
      let apart =
        λ (b : ℕ) (m : Among b os). step.others b (λ z. (let x = ahead b m in omega (arith, z))) in
      let rest =
        fix_up_loop-Loaded step.after_ next os fuel
          (AreLaid-same s.at step.after_.at next os high apart laid)
          (λ b m. rw (apart b m) (objects b (inr m))) (omega arith) (omega arith) in
      let below : ltb p high ≡ true =
        lt→ltb p high (let x = AreLaid-le s.at next os high laid in omega arith) in
      record {
        after_ = rest.after_;
        returns = rw (below, fix_up_loop) (rw (step.returns) (rest.returns));
        relocated = λ b m. relocated b m step rest apart;
        others = λ b l. rest.others b (omega arith) ∙ step.others b (λ z. omega (arith, z));
      }
    where
      relocated :
          (b : ℕ)
          → Among b (a ∷ os)
          → (step : Stepped s p) → (rest : Loaded step.after_ (p + 8 * (last (s.at p) + 2)) os fuel)
          → ((b : ℕ) → Among b os → step.after_.at b ≡ s.at b)
          → Relocated (s.at b) (rest.after_.at b)
      relocated b (inl z) step rest apart =
          let here : b ≡ p = z ∙ e in
          let kept = rest.others p (omega arith) in rw (here, kept) step.relocated
      relocated b (inr m) step rest apart = rw (apart b m) at (rest.relocated b m)
