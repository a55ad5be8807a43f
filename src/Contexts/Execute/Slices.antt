-- ===== src/Contexts/Execute/Slices.antt =====
-- The loop of `execute` (vm/interp.c) with its ticks, as steps from one machine to the next.
use littlesmalltalk.Prelude.{
  ℕ, zero, suc, ◌-◌, ◌<◌, ◌≡◌, ◌⊎◌, refl, inl, inr, ◌==◌, Bool, false, arith,
}
use littlesmalltalk.Prelude.Result.{Result, ok, error, fault, out_of_fuel, ◌>>=◌, >>=-eq-ok}
use littlesmalltalk.Image.Graph.{Oop}
use littlesmalltalk.Contexts.{Memory, Known, Machine, Outcome, running, finished, put, new_integer}
use littlesmalltalk.Contexts.Returns.{leave, suspend, tick}
use littlesmalltalk.Contexts.Blocks.{Ended}
use littlesmalltalk.Contexts.Execute.{step, run}

-- So many rounds, each of which goes on.
pub data Steps (next : Machine → Result Outcome) : ℕ → Machine → Machine → Type 0 where
  stop : {m : Machine} → Steps next 0 m m
  and_then :
      {n : ℕ} {m m' m'' : Machine}
      → next m ≡ ok (running m')
      → Steps next n m' m''
      → Steps next (suc n) m m''

-- The rest of a round behind a tick.
abbrev go_round : (ℕ → Machine → Result Outcome) → ℕ → Outcome → Result Outcome
go_round go left outcome = elim outcome [
  | finished code v m ↦ ok (finished code v m)
  | running m ↦ go left m
]

-- Where a result is no machine that goes on, the loop ends with it.
ends_with :
    (go : ℕ → Machine → Result Outcome) (r : Result Outcome)
    → ((m : Machine) → r ≡ ok (running m) → ⊥)
    → ◌>>=◌ {A = ℕ × Outcome} (r >>= λ outcome. ok (zero, outcome)) (λ x. go_round go x.0 x.1) ≡ r
ends_with go (ok (finished code v m)) h = refl
ends_with go (ok (running m)) h = absurd (h m refl)
ends_with go error h = refl
ends_with go fault h = refl
ends_with go out_of_fuel h = refl

suspend-ends : (k : Known) (code : ℕ) (m m' : Machine) → suspend k code m ≡ ok (running m') → ⊥
unfolding suspend
suspend-ends k code m m' h =
    let (m₁, first, h₁) = >>=-eq-ok (leave k m) _ h in
    let (m₂, second, h₂) =
      >>=-eq-ok (put m₁.memory m.context 4 (new_integer m.byte_pointer)) _ h₁ in
    let (m₃, third, h₃) = >>=-eq-ok (put m₂ m.context 5 (new_integer m.stack_top)) _ h₂ in cc h₃

-- A tick that is not the last one.
tick-on :
    (k : Known) (ticks : ℕ) (m : Machine)
    → (ticks ≡ 0) ⊎ (1 < ticks)
    → tick k ticks m ≡ ok (ticks - 1, running m)
unfolding tick
tick-on k zero m h = refl
tick-on k (suc ticks) m h =
    let more : (ticks == 0) ≡ false = elim h [
      | inl e ↦ absurd (omega arith)
      | inr l ↦ ground arith
    ] in
    let one_less : suc ticks - 1 ≡ ticks = omega arith in rw (more, one_less) refl

module _ (k : Known) (gcollect : ℕ → Memory → Result (Oop × Memory)) (is_dynamic : Oop → Bool)
    (others : (high low : ℕ) → Machine → Result Ended) (classes : ℕ) where
  abbrev next : Machine → Result Outcome
  next = step k gcollect is_dynamic others classes

  abbrev loop : ℕ → ℕ → Machine → Result Outcome
  loop = run k gcollect is_dynamic others classes

  -- Where `n` rounds go on, the loop with `n + 1` ticks runs them and then ends the time slice at the
  -- machine they lead to. A fuel above `n` is enough.
  pub run-suspended :
      (n : ℕ) (m m' : Machine) (fuel : ℕ)
      → Steps next n m m'
      → n < fuel
      → loop fuel (suc n) m ≡ suspend k 5 m'
  unfolding run tick
  run-suspended n m m' zero steps h = absurd (omega arith)
  run-suspended zero m m' (suc fuel) stop h =
      ends_with
        (λ left m''. next m'' >>= λ o. elim o [
          | finished code v m₁ ↦ ok (finished code v m₁)
          | running m₁ ↦ loop fuel left m₁
        ])
        (suspend k 5 m) (suspend-ends k 5 m)
  run-suspended (suc n) m m'' (suc fuel) (and_then {m' = m'} goes steps) h =
      rw (tick-on k (suc (suc n)) m (inr (omega arith)), goes)
        (let one_less : suc (suc n) - 1 ≡ suc n = omega arith in
          rw one_less (run-suspended n m' m'' fuel steps (omega arith)))

  -- Where `n` rounds go on and the next one ends `execute`, the loop ends that way without a limit and
  -- with more than `n + 1` ticks. A fuel above `n` is enough.
  pub run-finished :
      (n : ℕ) (m m' m'' : Machine) (fuel ticks code : ℕ) (v : Oop)
      → Steps next n m m'
      → next m' ≡ ok (finished code v m'')
      → n < fuel
      → (ticks ≡ 0) ⊎ (suc n < ticks)
      → loop fuel ticks m ≡ ok (finished code v m'')
  unfolding run
  run-finished n m m' m'' zero ticks code v steps ends h enough = absurd (omega arith)
  run-finished zero m m' m'' (suc fuel) ticks code v stop ends h enough =
      rw (tick-on k ticks m enough, ends) refl
  run-finished (suc n) m m' m'' (suc fuel) ticks code v (and_then {m' = m₁} goes steps) ends h
        enough =
      let more : (ticks ≡ 0) ⊎ (1 < ticks) = elim enough [
        | inl e ↦ inl e
        | inr l ↦ inr (omega arith)
      ] in
      let left : (ticks - 1 ≡ 0) ⊎ (suc n < ticks - 1) = elim enough [
        | inl e ↦ inl (omega arith)
        | inr l ↦ inr (omega arith)
      ] in
      rw (tick-on k ticks m more, goes)
        (run-finished n m₁ m' m'' fuel (ticks - 1) code v steps ends (omega arith) left)
