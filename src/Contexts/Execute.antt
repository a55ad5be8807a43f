-- ===== src/Contexts/Execute.antt =====
-- `execute` (vm/interp.c) as a whole: the entry from a process, one instruction, and the loop with its
-- ticks. `others` runs the primitives that are not in Contexts.Blocks, `is_dynamic` tells the memory that is
-- collected, and the fuel of an instruction is that of the method lookup. The loop has a fuel that
-- counts instructions, since without ticks it need not end.
pub mod Slices
pub mod Again
pub mod Tests
use littlesmalltalk.Prelude.{ℕ, zero, suc, ◌+◌, ◌*◌, ◌/◌, ◌%◌, Bool, ◌==◌, if◌then◌else◌}
use littlesmalltalk.Prelude.Result.{Result, ok, error, fault, out_of_fuel, ◌>>=◌}
use littlesmalltalk.Image.Graph.{Oop, null, small, ref}
use littlesmalltalk.Contexts.{
  Memory, Known, Machine, Outcome, running, finished, get, push_root, natural_value, byte_at, pop,
  push,
}
use littlesmalltalk.Contexts.Registers.{
  with_arguments, with_temporaries, with_literals, with_receiver, push_field, push_constant,
  assign_instance, assign_temporary, duplicate, pop_top, branch_if, branch,
}
use littlesmalltalk.Contexts.Sends.{
  mark_arguments, send_message, send_to_super, send_unary, send_binary,
}
use littlesmalltalk.Contexts.Returns.{self_return, stack_return, block_return, breakpoint, tick}
use littlesmalltalk.Contexts.Blocks.{Ended, push_block, do_primitive}

-- An instruction that stays in `execute`.
abbrev go_on : Result Machine → Result Outcome
go_on r = r >>= λ m. ok (running m)

-- `low = (high = bp[bytePointer++]) & 0x0F; high >>= 4;` and the byte behind an Extended.
unfoldable pub decode : Machine → Result (ℕ × ℕ × Machine)
decode m = byte_at m m.byte_pointer >>= λ b.
    let m' : Machine = record m { byte_pointer = m.byte_pointer + 1 } in
    if b / 16 == 0
    then (byte_at m' m'.byte_pointer >>= λ low.
        ok (b % 16, low, record m { byte_pointer = m.byte_pointer + 2 }))
    else ok (b / 16, b % 16, m')

-- The entry of `execute`: the local variables for the context of the process.
unfoldable pub start : Known → Oop → Memory → Result Machine
start k process mem = push_root process mem >>= λ memory. get memory process 0 >>= λ context.
    get memory context 0 >>= λ method. get memory method 1 >>= λ bp.
    get memory context 4 >>= natural_value >>= λ byte_pointer. get memory context 3 >>= λ stack.
    get memory context 5 >>= natural_value >>= λ stack_top. ok (record {
      memory = memory;
      context = context;
      method = method;
      arguments = null;
      temporaries = null;
      instance_variables = null;
      literals = null;
      stack = stack;
      bp = bp;
      returned_value = ref k.nil_object;
      stack_top = stack_top;
      byte_pointer = byte_pointer;
    })

module _ (k : Known) (gcollect : ℕ → Memory → Result (Oop × Memory)) (is_dynamic : Oop → Bool)
    (others : (high low : ℕ) → Machine → Result Ended) (classes : ℕ) where
  unfoldable pub do_special : ℕ → Machine → Result Outcome
  do_special low m =
      if low == 1
      then self_return k m
      else if low == 2
      then stack_return k m
      else if low == 3
      then block_return k m
      else if low == 4
      then go_on (duplicate m)
      else if low == 5
      then go_on (pop_top m)
      else if low == 6
      then go_on (branch m)
      else if low == 7
      then go_on (branch_if (ref k.true_object) m)
      else if low == 8
      then go_on (branch_if (ref k.false_object) m)
      else if low == 11
      then go_on (send_to_super k gcollect classes m)
      else if low == 12
      then breakpoint k m
      else error

  unfoldable pub dispatch : (high low : ℕ) → Machine → Result Outcome
  dispatch high low m =
      if high == 1
      then go_on (with_receiver m >>= λ m'. push_field m'.instance_variables low m')
      else if high == 2
      then go_on (with_arguments m >>= λ m'. push_field m'.arguments low m')
      else if high == 3
      then go_on (with_temporaries m >>= λ m'. push_field m'.temporaries low m')
      else if high == 4
      then go_on (with_literals m >>= λ m'. push_field m'.literals low m')
      else if high == 5
      then go_on (push_constant k low m)
      else if high == 6
      then go_on (assign_instance is_dynamic low m)
      else if high == 7
      then go_on (assign_temporary low m)
      else if high == 8
      then go_on (mark_arguments k gcollect low m)
      else if high == 9
      then go_on (send_message k gcollect classes low m)
      else if high == 10
      then go_on (send_unary k gcollect low m)
      else if high == 11
      then go_on (send_binary k gcollect classes low m)
      else if high == 12
      then go_on (push_block k gcollect low m)
      else if high == 13
      then do_primitive k gcollect is_dynamic others low m
      else if high == 15
      then do_special low m
      else error

  -- One round of the loop behind the test of the ticks.
  unfoldable pub step : Machine → Result Outcome
  step m = decode m >>= λ (high, low, m'). dispatch high low m'

  -- The loop, at most `fuel` rounds; no ticks is no limit.
  unfoldable pub run : (fuel ticks : ℕ) → Machine → Result Outcome
  run zero ticks m = out_of_fuel
  run (suc fuel) ticks m = tick k ticks m >>= λ (left, outcome). elim outcome [
    | finished code v m' ↦ ok (finished code v m')
    | running m' ↦ step m' >>= λ next. elim next [
      | finished code v m'' ↦ ok (finished code v m'')
      | running m'' ↦ run fuel left m''
    ]
  ]

  unfoldable pub execute : (fuel : ℕ) → Oop → (ticks : ℕ) → Memory → Result Outcome
  execute fuel process ticks mem = start k process mem >>= λ m. run fuel ticks m
