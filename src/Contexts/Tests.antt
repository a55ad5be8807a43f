-- ===== src/Contexts/Tests.antt =====
-- A context that has just found a method with one temporary and a stack of two, and an array to put to.
use littlesmalltalk.Prelude.{
  ℕ, suc, ◌<◌, ◌≡◌, ◌⊎◌, inr, refl, List, [], ◌∷◌, true, false, none, some, ◌==◌, if◌then◌else◌,
  set, arith,
}
use littlesmalltalk.Prelude.Int.{pos}
use littlesmalltalk.Prelude.Result.{Result, ok, error}
use littlesmalltalk.Methods.{MethodCache}
use littlesmalltalk.Image.Graph.{Oop, null, small, ref, bytes, Heap}
use littlesmalltalk.Image.Files.{bytes_of}
use littlesmalltalk.Contexts.{Memory, Known, Machine, running, byte_at}
use littlesmalltalk.Contexts.Yields.{Yields, object, Only, SameBounds}
use littlesmalltalk.Contexts.Sends.{enter_method}
use littlesmalltalk.Contexts.Sends.Ready.{Ready, Called}
use littlesmalltalk.Contexts.Returns.{do_return, do_return_2}
use littlesmalltalk.Contexts.Returns.Sent.{
  enter_method-do_return, Sender, Resumed, enter_method-Resumed,
}
use littlesmalltalk.Contexts.Blocks.{value, failed, array_at_put}
use littlesmalltalk.Contexts.Blocks.Runs.{Outside, array_at_put-bounds}

abbrev pub known : Known
known = record {
  nil_object = 1;
  true_object = 2;
  false_object = 3;
  array_class = 4;
  context_class = 5;
  block_class = 6;
  small_int_class = 7;
  bad_method_sym = 8;
  binary_messages = [];
}

-- 1000 is the context, 1100 its stack, 1200 its method with the code 1300, 1400 the method found.
abbrev pub some_heap : Heap
some_heap a =
    if a == 1000
    then some (object (ref 5) (ref 1200 ∷ null ∷ null ∷ ref 1100 ∷ null ∷ null ∷ ref 1 ∷ []))
    else if a == 1100
    then some (object (ref 4) (ref 1100 ∷ ref 1000 ∷ small (pos 1) ∷ []))
    else if a == 1200
    then some (object (ref 9) (null ∷ ref 1300 ∷ []))
    else if a == 1300
    then some (record { class_ = ref 9; body = bytes (145 ∷ 245 ∷ []) })
    else if a == 1400
    then some (object (ref 9) (null ∷ ref 1300 ∷ null ∷ small (pos 2) ∷ small (pos 1) ∷ []))
    else none

abbrev no_cache : MethodCache
no_cache = record {
  entries = λ i. record { name = 0; class_ = 0; method = 0 };
  cache_hit = 0;
  cache_miss = 0;
}

abbrev pub some_machine : Machine
some_machine = record {
  memory = record {
    heap = some_heap;
    memory_pointer = 900;
    memory_base = 100;
    stale = λ a. null;
    root_stack = [];
    static_roots = [];
    cache = no_cache;
  };
  context = ref 1000;
  method = ref 1400;
  arguments = ref 1100;
  temporaries = null;
  instance_variables = null;
  literals = null;
  stack = ref 1100;
  bp = ref 1300;
  returned_value = null;
  stack_top = 1;
  byte_pointer = 1;
}

abbrev pub no_collector : ℕ → Memory → Result (Oop × Memory)
no_collector sz m = error

some_heap-IsFree : (a : ℕ) → a < 900 → some_heap a ≡ none
some_heap-IsFree a h =
    let e₀ : (a == 1000) ≡ false = ground arith in
    let e₁ : (a == 1100) ≡ false = ground arith in
    let e₂ : (a == 1200) ≡ false = ground arith in
    let e₃ : (a == 1300) ≡ false = ground arith in
    let e₄ : (a == 1400) ≡ false = ground arith in rw (e₀, e₁, e₂, e₃, e₄) refl

some_machine-Ready : Ready some_machine
unfolding byte_at bytes_of
some_machine-Ready = record {
  b = 245;
  c = 1000;
  cc = ref 5;
  cs = ref 1200 ∷ null ∷ null ∷ ref 1100 ∷ null ∷ null ∷ ref 1 ∷ [];
  mth = 1400;
  mc = ref 9;
  ms = null ∷ ref 1300 ∷ null ∷ small (pos 2) ∷ small (pos 1) ∷ [];
  low = pos 1;
  x = 2;
  bp = ref 1300;
  next_byte = refl;
  context = refl;
  context_there = refl;
  context_size = omega arith;
  method = refl;
  method_there = refl;
  apart = λ e. omega arith;
  byte_codes = refl;
  stack_size = refl;
  temporary_size = refl;
  free = λ a low high. some_heap-IsFree a high;
  room = omega arith;
  roots = omega arith;
}

-- The context belongs to a block that the context 1500 created, and a BlockReturn follows the send.
abbrev block_context : List Oop
block_context = ref 1200 ∷ null ∷ null ∷ ref 1100 ∷ null ∷ null ∷ ref 1 ∷ null ∷ ref 1500 ∷ []

abbrev block_heap : Heap
block_heap a =
    if a == 1000
    then some (object (ref 5) block_context)
    else if a == 1300
    then some (record { class_ = ref 9; body = bytes (145 ∷ 243 ∷ []) })
    else if a == 1500
    then some (object (ref 5) (null ∷ null ∷ null ∷ null ∷ null ∷ null ∷ ref 1600 ∷ []))
    else some_heap a

abbrev block_machine : Machine
block_machine = record some_machine { memory = record some_machine.memory { heap = block_heap } }

block_heap-IsFree : (a : ℕ) → a < 900 → block_heap a ≡ none
block_heap-IsFree a h =
    let e₀ : (a == 1000) ≡ false = ground arith in
    let e₁ : (a == 1300) ≡ false = ground arith in
    let e₂ : (a == 1500) ≡ false = ground arith in
    let e₃ : (a == 1100) ≡ false = ground arith in
    let e₄ : (a == 1200) ≡ false = ground arith in
    let e₅ : (a == 1400) ≡ false = ground arith in rw (e₀, e₁, e₂, e₃, e₄, e₅) refl

block_machine-Ready : Ready block_machine
unfolding byte_at bytes_of
block_machine-Ready = record {
  b = 243;
  c = 1000;
  cc = ref 5;
  cs = block_context;
  mth = 1400;
  mc = ref 9;
  ms = null ∷ ref 1300 ∷ null ∷ small (pos 2) ∷ small (pos 1) ∷ [];
  low = pos 1;
  x = 2;
  bp = ref 1300;
  next_byte = refl;
  context = refl;
  context_there = refl;
  context_size = omega arith;
  method = refl;
  method_there = refl;
  apart = λ e. omega arith;
  byte_codes = refl;
  stack_size = refl;
  temporary_size = refl;
  free = λ a low high. block_heap-IsFree a high;
  room = omega arith;
  roots = omega arith;
}

enter_method-do_return_example :
    Yields
      (λ m'.
        Called known block_machine block_machine-Ready (ref 1600) m'
        × ((v : Oop) → do_return known v m' ≡ do_return_2 known (ref 1600) v m'))
      (enter_method known no_collector block_machine)
unfolding block_machine-Ready
enter_method-do_return_example =
    enter_method-do_return known no_collector block_machine block_machine-Ready (ref 1600)
      (inr (inr (refl, 1500, ref 5, _, refl, refl, refl)))

some_sender : Sender known some_machine some_machine-Ready
unfolding some_machine-Ready
some_sender = record {
  st = 1100;
  st_class = ref 4;
  values = ref 1100 ∷ ref 1000 ∷ small (pos 1) ∷ [];
  mine = 1200;
  mine_class = ref 9;
  parts = null ∷ ref 1300 ∷ [];
  code = ref 1300;
  not_nil = λ e. omega arith;
  stack = refl;
  stack_there = refl;
  stack_apart = λ e. omega arith;
  stack_room = omega arith;
  method = refl;
  method_there = refl;
  method_apart = (λ e. omega arith, λ e. omega arith);
  byte_codes = refl;
}

enter_method-Resumed_example :
    Yields
      (λ m'.
        Yields
          (λ out.
            (m'' : Machine) × (out ≡ running m'')
            × Resumed known some_machine some_machine-Ready some_sender (small (pos 5)) m'')
          (do_return known (small (pos 5)) m'))
      (enter_method known no_collector some_machine)
unfolding some_machine-Ready
enter_method-Resumed_example =
    enter_method-Resumed known some_machine some_machine-Ready some_sender no_collector
      (small (pos 5)) refl

abbrev three_values : Machine
three_values = record some_machine { stack_top = 3 }

array_at_put-bounds_example :
    ((j : ℕ) × (pos 1 ≡ pos (suc j))
      × (j < 7)
      × Yields
          (λ e.
            (m' : Machine) × (e ≡ value (ref 1000) m')
            × (m'.stack_top ≡ 0)
            × Only some_heap m'.memory 1000 (
                object
                  (ref 5)
                  (set (ref 1200 ∷ null ∷ null ∷ ref 1100 ∷ null ∷ null ∷ ref 1 ∷ []) j (ref 1100)))
            × SameBounds some_machine.memory m'.memory)
          (array_at_put known no_collector (λ o. true) three_values))
    ⊎ (Outside (pos 1) 7
        × (array_at_put known no_collector (λ o. true) three_values
            ≡ ok (failed (record three_values { stack_top = 0 }))))
array_at_put-bounds_example =
    array_at_put-bounds known no_collector (λ o. true) three_values 0 1100 1000 (pos 1) (ref 1100)
      (ref 4) (ref 5) (ref 1100 ∷ ref 1000 ∷ small (pos 1) ∷ [])
      (ref 1200 ∷ null ∷ null ∷ ref 1100 ∷ null ∷ null ∷ ref 1 ∷ []) refl refl refl refl refl refl
      refl refl
