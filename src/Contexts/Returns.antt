-- ===== src/Contexts/Returns.antt =====
-- Returns (vm/interp.c): SelfReturn, StackReturn and BlockReturn, and the two early ends of `execute`, the
-- time slice and the breakpoint.
pub mod Sent
use littlesmalltalk.Prelude.{ℕ, zero, suc, ◌+◌, ◌-◌, ◌||◌, ◌==◌, if◌then◌else◌}
use littlesmalltalk.Prelude.Result.{Result, ok, error, ◌>>=◌}
use littlesmalltalk.Image.Graph.{Oop, null, ref}
use littlesmalltalk.Contexts.Registers.{with_arguments}
use littlesmalltalk.Contexts.{
  Memory, Known, Machine, Outcome, running, finished, get, put, is_same, natural_value, new_integer,
  pop, push, pop_root,
}

abbrev return_time_expired : ℕ
return_time_expired = 5

abbrev pub return_returned : ℕ
return_returned = 4

abbrev return_break : ℕ
return_break = 6

module _ (k : Known) where
  -- The process that runs is under everything on `rootStack`.
  unfoldable pub leave : Machine → Result Machine
  leave m = pop_root m.memory >>= λ (process, m₁). put m₁ process 0 m.context >>= λ m₂.
      put m₂ process 2 m.returned_value >>= λ m₃. ok (record m { memory = m₃ })

  -- The local variables for the context that goes on.
  unfoldable pub resume : Oop → Oop → Machine → Result Machine
  resume context v m = get m.memory context 3 >>= λ stack.
      get m.memory context 5 >>= natural_value >>= λ stack_top.
      put m.memory stack stack_top v >>= λ memory. get memory context 0 >>= λ method.
      get memory method 1 >>= λ bp. get memory context 4 >>= natural_value >>= λ byte_pointer.
      ok (record {
        memory = memory;
        context = context;
        method = method;
        arguments = null;
        temporaries = null;
        instance_variables = null;
        literals = null;
        stack = stack;
        bp = bp;
        returned_value = v;
        stack_top = suc stack_top;
        byte_pointer = byte_pointer;
      })

  -- `doReturn2:` with `v` the returned value.
  unfoldable pub do_return_2 : Oop → Oop → Machine → Result Outcome
  do_return_2 context v m =
      let last = record m { context = context; returned_value = v } in
      if is_same context null || is_same context (ref k.nil_object)
      then (leave last >>= λ m'. ok (finished return_returned v m'))
      else (resume context v m >>= λ m'. ok (running m'))

  -- `doReturn:`
  unfoldable pub do_return : Oop → Machine → Result Outcome
  do_return v m = get m.memory m.context 6 >>= λ context. do_return_2 context v m

  unfoldable pub self_return : Machine → Result Outcome
  self_return m = with_arguments m >>= λ m'. get m'.memory m'.arguments 0 >>= λ v. do_return v m'

  unfoldable pub stack_return : Machine → Result Outcome
  stack_return m = pop m >>= λ (v, m'). do_return v m'

  unfoldable pub block_return : Machine → Result Outcome
  block_return m = pop m >>= λ (v, m'). get m'.memory m'.context 8 >>= λ creator.
      get m'.memory creator 6 >>= λ context. do_return_2 context v m'

  -- The place is saved in the context as well.
  unfoldable pub suspend : ℕ → Machine → Result Outcome
  suspend code m = leave m >>= λ m'.
      put m'.memory m.context 4 (new_integer m.byte_pointer) >>= λ m₁.
      put m₁ m.context 5 (new_integer m.stack_top) >>= λ m₂.
      ok (finished code m.returned_value (record m { memory = m₂ }))

  unfoldable pub breakpoint : Machine → Result Outcome
  breakpoint m = suspend return_break (record m { byte_pointer = m.byte_pointer - 1 })

  -- `if (ticks && (--ticks == 0))`: the ticks that are left, or the end of the time slice.
  unfoldable pub tick : ℕ → Machine → Result (ℕ × Outcome)
  tick zero m = ok (0, running m)
  tick (suc ticks) m =
      if ticks == 0
      then (suspend return_time_expired m >>= λ outcome. ok (0, outcome))
      else ok (ticks, running m)
