-- ===== src/Memory/Collector/Rounds.antt =====
-- Rounds of `gc_move` (vm/memory.c), one after the other.
use littlesmalltalk.Prelude.{
  ℕ, zero, suc, ◌+◌, ◌≡◌, ◌≢◌, refl, ap, ◌∙◌, true, false, ◌&&◌, not, arith,
}
use littlesmalltalk.Prelude.Result.{ok}
use littlesmalltalk.Memory.Collector.{
  Store, Spaces, Place, down, up, is_small_int, in_newspace, in_oldspace, forward, step_down,
  step_up, move_loop,
}
use littlesmalltalk.Memory.Collector.Gray.{==_ne}

-- `k` rounds, and `fuel` more.
abbrev pub after : (k fuel : ℕ) → ℕ
after zero fuel = fuel
after (suc k) fuel = suc (after k fuel)

pub after-after : (k l fuel : ℕ) → after (after k l) fuel ≡ after k (after l fuel)
after-after zero l fuel = refl
after-after (suc k) l fuel = ap suc (after-after k l fuel)

pub after-add : (k l : ℕ) → after k l ≡ k + l
after-add zero l = omega arith
after-add (suc k) l = omega (arith, after-add k l)

module _ (sp : Spaces) where
  abbrev pub Runs : (k : ℕ) (q : Place) (s : Store) (q' : Place) (s' : Store) → Type 0
  Runs k q s q' s' = (fuel : ℕ) → move_loop (after k fuel) sp q s ≡ move_loop fuel sp q' s'

  pub Runs-trans :
      (k l : ℕ) (q q' q'' : Place) (s s' s'' : Store)
      → Runs k q s q' s'
      → Runs l q' s' q'' s''
      → Runs (after k l) q s q'' s''
  Runs-trans k l q q' q'' s s' s'' first second fuel =
      ap (λ (n : ℕ). move_loop n sp q s) (after-after k l fuel) ∙ first (after l fuel) ∙ second fuel

  pub Runs-down :
      (x p : ℕ) (s : Store) (q : Place) (s' : Store)
      → step_down sp x p s ≡ ok (q, s')
      → Runs 1 (down x p) s q s'
  unfolding move_loop
  Runs-down x p s q s' e fuel = rw e refl

  pub Runs-up :
      (x r : ℕ) (s : Store) (q : Place) (s' : Store)
      → x ≢ 0
      → step_up x r s ≡ (q, s')
      → Runs 1 (up x r) s q s'
  unfolding move_loop
  Runs-up x r s q s' ne e fuel = rw (==_ne x 0 ne, move_loop) (rw e refl)

  pub step_down-small :
      (w p : ℕ) (s : Store) → is_small_int w ≡ true → step_down sp w p s ≡ ok (up p w, s)
  unfolding step_down
  step_down-small w p s small = rw small refl

  pub step_down-outside :
      (w p : ℕ) (s : Store)
      → is_small_int w ≡ false
      → in_newspace sp w ≡ false
      → in_oldspace sp w ≡ false
      → step_down sp w p s ≡ ok (up p w, s)
  unfolding step_down
  step_down-outside w p s ref not_new outside = rw (ref, not_new, outside) refl

  pub step_down-done :
      (w p : ℕ) (s : Store)
      → is_small_int w ≡ false
      → in_newspace sp w ≡ false
      → in_oldspace sp w ≡ true
      → (s.at w).done ≡ true
      → step_down sp w p s ≡ ok (up p (forward (s.at w)), s)
  unfolding step_down
  step_down-done w p s ref not_new old done = rw (ref, not_new, old, done) refl

  pub fixed_absurd {ℓ} :
      {P : Type ℓ} (w : ℕ)
      → is_small_int w ≡ false
      → in_oldspace sp w ≡ true
      → (not (is_small_int w) && in_oldspace sp w) ≡ false
      → P
  fixed_absurd w ref old no_ = (let z = rw (ref, old) at no_ in cc z)
