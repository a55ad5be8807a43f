-- ===== src/Contexts/Execute/Tests.antt =====
-- A round of the loop that pops a value, and a process that is put off and goes on.
use littlesmalltalk.Prelude.{ℕ, ◌≡◌, refl, [], ◌∷◌, Bool, true, some, ◌==◌, if◌then◌else◌, arith}
use littlesmalltalk.Prelude.Result.{Result, ok, error}
use littlesmalltalk.Image.Graph.{Oop, null, ref, Heap}
use littlesmalltalk.Image.Files.{bytes_of}
use littlesmalltalk.Contexts.{Machine, running, finished, byte_at}
use littlesmalltalk.Contexts.Yields.{Yields, object}
use littlesmalltalk.Contexts.Registers.{pop_top}
use littlesmalltalk.Contexts.Returns.{suspend}
use littlesmalltalk.Contexts.Blocks.{Ended}
use littlesmalltalk.Contexts.Execute.{decode, start, do_special, dispatch, step, run}
use littlesmalltalk.Contexts.Execute.Slices.{Steps, stop, and_then, run-suspended}
use littlesmalltalk.Contexts.Execute.Again.{Runs, Off, GoesOn, start-suspend}
use littlesmalltalk.Contexts.Tests.{known, some_heap, some_machine, no_collector}

abbrev no_others : (high low : ℕ) → Machine → Result Ended
no_others high low m = error

abbrev dynamic : Oop → Bool
dynamic o = true

abbrev popped_machine : Machine
popped_machine = record some_machine { stack_top = 0; byte_pointer = 2 }

pops : step known no_collector dynamic no_others 10 some_machine ≡ ok (running popped_machine)
unfolding step decode byte_at bytes_of dispatch do_special pop_top
pops = refl

one_round : Steps (step known no_collector dynamic no_others 10) 1 some_machine popped_machine
one_round = and_then pops stop

run-suspended_example :
    run known no_collector dynamic no_others 10 5 2 some_machine ≡ suspend known 5 popped_machine
run-suspended_example =
    run-suspended known no_collector dynamic no_others 10 1 some_machine popped_machine 5 one_round
      (omega arith)

-- The same with the process 1500, in the method of the context.
abbrev process_heap : Heap
process_heap a = if a == 1500 then some (object (ref 9) (null ∷ null ∷ null ∷ [])) else some_heap a

abbrev process_machine : Machine
process_machine = record some_machine {
  memory = record some_machine.memory { heap = process_heap; root_stack = ref 1500 ∷ [] };
  method = ref 1200;
}

process_machine-Runs : Runs process_machine 1500
process_machine-Runs = record {
  pc = ref 9;
  ps = null ∷ null ∷ null ∷ [];
  c = 1000;
  cc = ref 5;
  cs = ref 1200 ∷ null ∷ null ∷ ref 1100 ∷ null ∷ null ∷ ref 1 ∷ [];
  mth = 1200;
  mc = ref 9;
  ms = null ∷ ref 1300 ∷ [];
  rest = [];
  roots = refl;
  rest_room = omega arith;
  process = refl;
  process_size = omega arith;
  is_context = refl;
  context = refl;
  context_size = omega arith;
  context_apart = λ e. omega arith;
  is_method = refl;
  method = refl;
  method_apart = (λ e. omega arith, λ e. omega arith);
  method_field = refl;
  stack_field = refl;
  code_field = refl;
}

start-suspend_example :
    Yields
      (λ out.
        (m₁ : Machine) × (out ≡ finished 5 null m₁)
        × Off process_machine 1500 process_machine-Runs m₁.memory
        × Yields (GoesOn process_machine 1500 m₁.memory) (start known (ref 1500) m₁.memory))
      (suspend known 5 process_machine)
start-suspend_example = start-suspend known 5 process_machine 1500 process_machine-Runs
