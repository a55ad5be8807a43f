-- ===== src/Contexts/Blocks.antt =====
-- Blocks and the primitives that `execute` runs itself (vm/interp.c): PushBlock, and DoPrimitive with
-- the numbers 1, 2, 4, 5, 7 and 8, with the two ways on from a primitive.
pub mod Runs
use littlesmalltalk.Prelude.{
  ℕ, zero, suc, ◌+◌, ◌-◌, ◌*◌, Bool, true, false, ◌&&◌, not, List, [], ◌∷◌, length, Option, none,
  some, ◌==◌, ltb, leb, if◌then◌else◌,
}
use littlesmalltalk.Prelude.Int.{ℤ, pos, negsuc}
use littlesmalltalk.Prelude.Result.{Result, ok, error, fault, ◌>>=◌, access}
use littlesmalltalk.Memory.StaticRoots.{add_static_root}
use littlesmalltalk.Image.Graph.{Oop, null, small, ref, Body, fields, bytes}
use littlesmalltalk.Image.Files.{in_heap, fields_of}
use littlesmalltalk.Contexts.Registers.{note_static}
use littlesmalltalk.Contexts.{
  Memory, Known, Machine, Outcome, running, get, put, fill, set_class, push_root, pop_root, is_same,
  integer_value, natural_value, new_integer, byte_at, val_at, pop, push, new_object, new_filled,
  gcalloc, reload,
}
use littlesmalltalk.Contexts.Sends.{class_of, truth}
use littlesmalltalk.Contexts.Returns.{do_return}

-- What a primitive of `execute` comes to: a value to return with, or a failure after the arguments
-- were popped, or another context to go on in.
pub data Ended : Type 0 where
  value : Oop → Machine → Ended
  failed : Machine → Ended
  entered : Machine → Ended

-- `SIZE(o)` of an object.
unfoldable pub size_of : Memory → Oop → Result ℕ
size_of m null = fault
size_of m (small v) = fault
size_of m (ref a) = access (m.heap a) >>= λ o. elim o.body [
  | fields os ↦ ok (length os)
  | bytes bs ↦ ok (length bs)
]

module _ (k : Known) (gcollect : ℕ → Memory → Result (Oop × Memory)) where
  -- The context in which the method of a block runs.
  unfoldable pub creator_of : Memory → Oop → Result Oop
  creator_of m context = class_of k m context >>= λ c.
      if is_same c (ref k.block_class) then get m context 8 else ok context

  -- PushBlock: `low` is the place of the first argument, VAL the place behind the block.
  unfoldable pub push_block : ℕ → Machine → Result Machine
  push_block low m = val_at m m.byte_pointer >>= λ high. push_root m.context m.memory >>= λ m₁.
      get m₁ m.method 3 >>= natural_value >>= λ x.
      new_filled gcollect x (ref k.array_class) null m₁ >>= λ (op, m₂). push_root op m₂ >>= λ m₃.
      new_object gcollect 10 (ref k.block_class) m₃ >>= λ (block, m₄). put m₄ block 6 null >>= λ m₅.
      put m₅ block 5 null >>= λ m₆. put m₆ block 4 null >>= λ m₇.
      put m₇ block 9 (new_integer (m.byte_pointer + 2)) >>= λ m₈.
      put m₈ block 7 (new_integer low) >>= λ m₉. pop_root m₉ >>= λ (block_stack, m₁₀).
      put m₁₀ block 3 block_stack >>= λ m₁₁. pop_root m₁₁ >>= λ (context, m₁₂).
      creator_of m₁₂ context >>= λ creator. put m₁₂ block 8 creator >>= λ m₁₃.
      get m₁₃ context 0 >>= λ method. put m₁₃ block 0 method >>= λ m₁₄.
      get m₁₄ context 1 >>= λ arguments. put m₁₄ block 1 arguments >>= λ m₁₅.
      get m₁₅ context 2 >>= λ temporaries. put m₁₅ block 2 temporaries >>= λ m₁₆.
      get m₁₆ context 3 >>= λ stack. get m₁₆ method 1 >>= λ bp. push block (record {
        memory = m₁₆;
        context = context;
        method = method;
        arguments = arguments;
        temporaries = temporaries;
        instance_variables = null;
        literals = null;
        stack = stack;
        bp = bp;
        returned_value = block;
        stack_top = m.stack_top;
        byte_pointer = high;
      })

  -- `stackTop -= n`
  unfoldable pub drop_values : ℕ → Machine → Result Machine
  drop_values n m =
      if leb n m.stack_top then ok (record m { stack_top = m.stack_top - n }) else fault

  unfoldable pub identity : Machine → Result Ended
  identity m = pop m >>= λ (a, m₁). pop m₁ >>= λ (b, m₂). ok (value (truth k (is_same a b)) m₂)

  unfoldable pub class_primitive : Machine → Result Ended
  class_primitive m = pop m >>= λ (a, m₁). class_of k m₁.memory a >>= λ c. ok (value c m₁)

  unfoldable pub size_primitive : Machine → Result Ended
  size_primitive m = pop m >>= λ (a, m₁). elim a [
    | null ↦ fault
    | small v ↦ ok (value (new_integer 0) m₁)
    | ref o ↦ size_of m₁.memory (ref o) >>= λ n. ok (value (new_integer n) m₁)
  ]

  -- `Array at put:`; the index counts from 1.
  unfoldable pub array_at_put : (is_dynamic : Oop → Bool) → Machine → Result Ended
  array_at_put is_dynamic m = pop m >>= λ (op, m₁). elim op [
    | null ↦ drop_values 2 m₁ >>= λ m₂. ok (failed m₂)
    | ref a ↦ drop_values 2 m₁ >>= λ m₂. ok (failed m₂)
    | small n ↦ pop m₁ >>= λ (array, m₂). size_of m₂.memory array >>= λ size. elim n [
      | negsuc i ↦ drop_values 1 m₂ >>= λ m₃. ok (failed m₃)
      | pos zero ↦ drop_values 1 m₂ >>= λ m₃. ok (failed m₃)
      | pos (suc i) ↦
          if ltb i size
          then (pop m₂ >>= λ (v, m₃). put m₃.memory array i v >>= λ memory.
              note_static is_dynamic array v i memory >>= λ memory'.
              ok (value array (record m₃ { memory = memory' })))
          else (drop_values 1 m₂ >>= λ m₃. ok (failed m₃))
    ]
  ]

  -- A new object with nil in every field.
  unfoldable pub allocate : Machine → Result Ended
  allocate m = pop m >>= λ (n, m₁). natural_value n >>= λ low. pop m₁ >>= λ (c, m₂).
      push_root c m₂.memory >>= λ memory₁. gcalloc gcollect low memory₁ >>= λ (o, memory₂).
      pop_root memory₂ >>= λ (class_, memory₃). set_class memory₃ o class_ >>= λ memory₄.
      fill memory₄ o (ref k.nil_object) >>= λ memory₅. ok (value o (record m₂ { memory = memory₅ }))

  -- `while (low >= 0) { temporaries->data[high + low] = stack->data[--stackTop]; low--; }` for `count`
  -- values.
  unfoldable pub pop_arguments : Oop → ℕ → ℕ → Machine → Result Machine
  pop_arguments temporaries high zero m = ok m
  pop_arguments temporaries high (suc count) m = pop m >>= λ (v, m₁).
      put m₁.memory temporaries (high + count) v >>= λ memory.
      pop_arguments temporaries high count (record m₁ { memory = memory })

  -- The test of `low` against the number of temporaries from the first argument on.
  unfoldable pub has_room : Memory → Oop → (high count : ℕ) → Result Bool
  has_room m null high count = ok (leb count 0)
  has_room m (small v) high count = fault
  has_room m (ref a) high count = size_of m (ref a) >>= λ size. ok (leb (high + count) size)

  -- The context of a block that has got its arguments.
  unfoldable pub enter_block : Oop → Machine → Result Ended
  enter_block block m = get m.memory m.context 6 >>= λ previous.
      put m.memory block 6 previous >>= λ memory. get memory block 3 >>= λ stack.
      get memory block 0 >>= λ method. get memory method 1 >>= λ bp.
      get memory block 9 >>= natural_value >>= λ byte_pointer.
      pop_root memory >>= λ (saved, memory'). get memory' block 2 >>= λ temporaries. ok (
        entered (record {
          memory = memory';
          context = block;
          method = method;
          arguments = null;
          temporaries = temporaries;
          instance_variables = null;
          literals = null;
          stack = stack;
          bp = bp;
          returned_value = block;
          stack_top = 0;
          byte_pointer = byte_pointer;
        }))

  -- Block invocation with `low` arguments, the block itself among them.
  unfoldable pub invoke_block : ℕ → Machine → Result Ended
  invoke_block zero m = fault
  invoke_block (suc count) m = pop m >>= λ (block, m₁).
      get m₁.memory block 7 >>= natural_value >>= λ high. get m₁.memory block 2 >>= λ temporaries.
      has_room m₁.memory temporaries high count >>= λ enough.
      if enough
      then (pop_arguments temporaries high count m₁ >>= enter_block block)
      else (drop_values count m₁ >>= λ m₂. ok (failed m₂))

  -- The primitives that `execute` runs without input, output or arithmetic; `none` is another number.
  unfoldable pub primitive :
      (is_dynamic : Oop → Bool) → (high low : ℕ) → Machine → Option (Result Ended)
  primitive is_dynamic high low m =
      if high == 1
      then some (identity m)
      else if high == 2
      then some (class_primitive m)
      else if high == 4
      then some (size_primitive m)
      else if high == 5
      then some (array_at_put is_dynamic m)
      else if high == 7
      then some (allocate m)
      else if high == 8
      then some (invoke_block low m)
      else none

  -- `failPrimitive:`
  unfoldable pub fail_primitive : Machine → Result Machine
  fail_primitive m =
      reload gcollect (record m { returned_value = ref k.nil_object }) >>= push (ref k.nil_object)

  -- What follows the `switch` of DoPrimitive.
  unfoldable pub end_primitive : Ended → Result Outcome
  end_primitive (value v m) = pop_root m.memory >>= λ (context, memory).
      do_return k v (record m { memory = memory; context = context })
  end_primitive (failed m) = fail_primitive m >>= λ m'. ok (running m')
  end_primitive (entered m) = ok (running m)

  -- DoPrimitive: `low` is the number of arguments, the next byte the number of the primitive. `others`
  -- runs the numbers that are not here.
  unfoldable pub do_primitive :
      (is_dynamic : Oop → Bool) (others : (high low : ℕ) → Machine → Result Ended)
      → ℕ
      → Machine
      → Result Outcome
  do_primitive is_dynamic others low m = byte_at m m.byte_pointer >>= λ high.
      push_root m.context m.memory >>= λ memory.
      let m' : Machine = record m { memory = memory; byte_pointer = m.byte_pointer + 1 } in
      elim (primitive is_dynamic high low m') [
        | none ↦ others high low m' >>= end_primitive
        | some run ↦ run >>= end_primitive
      ]
