-- ===== src/Contexts/Blocks/Runs.antt =====
-- `Array at put:` of `execute` (vm/interp.c), the primitive 5, on every branch.
use littlesmalltalk.Prelude.{
  ℕ, zero, suc, ◌-◌, ◌<◌, ◌≤◌, ◌≡◌, ◌⊎◌, refl, List, some, length, get_elem?, set, true, Bool,
  Bool-cases, inl, inr, ltb, leb, ltb→lt, arith,
}
use littlesmalltalk.Prelude.Int.{ℤ, pos, negsuc}
use littlesmalltalk.Prelude.Result.{Result, ok}
use littlesmalltalk.Image.Graph.{Oop, small, ref}
use littlesmalltalk.Contexts.{Memory, Known, Machine, pop}
use littlesmalltalk.Contexts.Registers.{note_static}
use littlesmalltalk.Contexts.Yields.{
  Yields, Yields-ok, Yields->>=, object, Only, SameBounds, get-at, put-Only,
}
use littlesmalltalk.Contexts.Blocks.{value, failed, size_of, drop_values, array_at_put}

-- The index `i`, which counts from 1, is not one of `size` places.
abbrev pub Outside : ℤ → ℕ → Type 0
Outside (negsuc i) size = Unit
Outside (pos zero) size = Unit
Outside (pos (suc i)) size = size ≤ i

pop-at :
    (m : Machine) (n st : ℕ) (c v : Oop) (values : List Oop)
    → m.stack ≡ ref st
    → m.memory.heap st ≡ some (object c values)
    → m.stack_top ≡ suc n
    → get_elem? values n ≡ some v
    → pop m ≡ ok (v, record m { stack_top = n })
unfolding pop
pop-at m n st c v values stack there top at =
    rw (top, stack, get-at m.memory st n c v values there at) refl

module _ (k : Known) (gcollect : ℕ → Memory → Result (Oop × Memory)) (is_dynamic : Oop → Bool) where
  -- With an index on the stack, an array of the dynamic memory below it and a value below that: where the
  -- index is from 1 to the size, the primitive puts the value at that place, changes nothing else, and
  -- comes to the array; where it is not, it fails and changes nothing. The three are popped in both cases.
  pub array_at_put-bounds :
      (m : Machine) (n st a : ℕ) (i : ℤ) (v c ac : Oop) (values os : List Oop)
      → m.stack ≡ ref st
      → m.memory.heap st ≡ some (object c values)
      → m.stack_top ≡ suc (suc (suc n))
      → get_elem? values (suc (suc n)) ≡ some (small i)
      → get_elem? values (suc n) ≡ some (ref a)
      → get_elem? values n ≡ some v
      → m.memory.heap a ≡ some (object ac os)
      → is_dynamic (ref a) ≡ true
      → ((j : ℕ) × (i ≡ pos (suc j))
          × (j < length os)
          × Yields
              (λ e.
                (m' : Machine) × (e ≡ value (ref a) m')
                × (m'.stack_top ≡ n)
                × Only m.memory.heap m'.memory a (object ac (set os j v))
                × SameBounds m.memory m'.memory)
              (array_at_put k gcollect is_dynamic m))
        ⊎ (Outside i (length os)
            × (array_at_put k gcollect is_dynamic m ≡ ok (failed (record m { stack_top = n }))))
  unfolding array_at_put size_of drop_values note_static
  array_at_put-bounds m n st a (negsuc j) v c ac values os stack there top at_i at_a at_v array
        dynamic =
      let first = pop-at m (suc (suc n)) st c (small (negsuc j)) values stack there top at_i in
      let second =
        pop-at (record m { stack_top = suc (suc n) }) (suc n) st c (ref a) values stack there refl
          at_a in
      let enough : leb 1 (suc n) ≡ true = ground arith in
      let one_less : suc n - 1 ≡ n = omega arith in
      inr (tt, rw (first, second, array, enough, one_less) refl)
  array_at_put-bounds m n st a (pos zero) v c ac values os stack there top at_i at_a at_v array
        dynamic =
      let first = pop-at m (suc (suc n)) st c (small (pos zero)) values stack there top at_i in
      let second =
        pop-at (record m { stack_top = suc (suc n) }) (suc n) st c (ref a) values stack there refl
          at_a in
      let enough : leb 1 (suc n) ≡ true = ground arith in
      let one_less : suc n - 1 ≡ n = omega arith in
      inr (tt, rw (first, second, array, enough, one_less) refl)
  array_at_put-bounds m n st a (pos (suc j)) v c ac values os stack there top at_i at_a at_v array
        dynamic =
      let first = pop-at m (suc (suc n)) st c (small (pos (suc j))) values stack there top at_i in
      let second =
        pop-at (record m { stack_top = suc (suc n) }) (suc n) st c (ref a) values stack there refl
          at_a in
      let enough : leb 1 (suc n) ≡ true = ground arith in
      let one_less : suc n - 1 ≡ n = omega arith in
      let third = pop-at (record m { stack_top = suc n }) n st c v values stack there refl at_v in
      elim (Bool-cases (ltb j (length os))) [
        | inr outside ↦
            inr (ground arith, rw (first, second, array, outside, enough, one_less) refl)
        | inl inside ↦
            let h = ltb→lt j (length os) inside in
            inl (
              j,
              refl,
              h,
              rw (first, second, array, inside, third)
                  (Yields->>= _
                    (put-Only m.memory.heap m.memory a j ac v os (array, λ b ne. refl) h)
                    (λ mem (only, same). rw dynamic (
                      Yields-ok _
                        (record m { memory = mem; stack_top = n }, refl, refl, only, same)))),
            )
      ]
