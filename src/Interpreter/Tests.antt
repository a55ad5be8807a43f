-- ===== src/Interpreter/Tests.antt =====
-- A context with a stack of four places, one temporary, and two values on the stack.
use littlesmalltalk.Prelude.{◌≡◌, refl, true, [], ◌∷◌, ◌++◌, none, some, ◌==◌, if◌then◌else◌, arith}
use littlesmalltalk.Prelude.Result.{ok}
use littlesmalltalk.Interpreter.{Store, Frame, Machine}
use littlesmalltalk.Interpreter.Stack.{Holds}
use littlesmalltalk.Interpreter.Temporaries.{
  run_all, store_and_fetch, with_top, store_and_fetch-Holds,
}

abbrev context : Frame
context = record {
  stack = 8;
  instance_variables = 16;
  arguments = 24;
  temporaries = 32;
  literals = 40;
  bp = [];
  nil_object = 48;
  true_object = 56;
  false_object = 64;
  is_dynamic = λ a. true;
}

abbrev objects : Store
objects a = if a == 8 then some (3 ∷ 5 ∷ 0 ∷ 0 ∷ []) else if a == 32 then some (7 ∷ []) else none

abbrev two_values : Machine
two_values = with_top objects 1 0 []

two_values-Holds : Holds context two_values (3 ∷ 5 ∷ [])
two_values-Holds = record {
  fields = 3 ∷ 5 ∷ 0 ∷ 0 ∷ [];
  there = refl;
  size = omega arith;
  values = refl;
}

store_and_fetch-Holds_example :
    (m' : Machine) × (run_all context (store_and_fetch 0) two_values ≡ ok m')
    × Holds context m' ((3 ∷ []) ++ 5 ∷ [])
    × (m'.store 32 ≡ some (5 ∷ []))
store_and_fetch-Holds_example =
    store_and_fetch-Holds context objects 1 0 [] 0 5 (3 ∷ []) (7 ∷ []) two_values-Holds refl refl
      (omega arith) (λ e. omega arith)
