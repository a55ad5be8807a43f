-- ===== src/Contexts/Sends.antt =====
-- Sends (vm/interp.c): MarkArguments, SendMessage and SendToSuper up to the new context, SendUnary, and
-- SendBinary. The fuel of the method lookup counts classes; `find_method` has at most two rounds.
pub mod Framed
pub mod Entered
pub mod Ready
pub mod Called
use littlesmalltalk.Prelude.{
  ℕ, zero, suc, ◌+◌, ◌*◌, Bool, true, false, ◌&&◌, not, List, [], ◌∷◌, Option, none, some, ◌==◌,
  if◌then◌else◌, get_elem?,
}
use littlesmalltalk.Prelude.Int.{ℤ, pos, negsuc, ltb_ℤ, ◌+ℤ◌}
use littlesmalltalk.Prelude.Result.{Result, ok, error, fault, out_of_fuel, ◌>>=◌, access}
use littlesmalltalk.Symbols.{Bytes}
use littlesmalltalk.Methods.{Class, View, MethodCache, check_cache}
use littlesmalltalk.Primitives.Arithmetic.{wrap}
use littlesmalltalk.Image.Graph.{Oop, null, small, ref, natural}
use littlesmalltalk.Image.Files.{in_heap, fields_of, bytes_of}
use littlesmalltalk.Contexts.Registers.{with_literals}
use littlesmalltalk.Contexts.{
  Memory, Known, Machine, get, put, set_class, push_root, pop_root, is_same, integer_value,
  natural_value, new_integer, byte_at, pop, push, pop_into, new_object, new_filled, reload,
}

-- An address; NULL is 0.
abbrev pub address_of : Oop → Result ℕ
address_of null = ok 0
address_of (small v) = fault
address_of (ref a) = ok a

abbrev pub addresses_of : List Oop → Result (List ℕ)
addresses_of [] = ok []
addresses_of (o ∷ os) = address_of o >>= λ a. addresses_of os >>= λ as_. ok (a ∷ as_)

-- The method dictionary of a class in the memory.
unfoldable pub class_in : Memory → ℕ → Result Class
class_in m a = get m (ref a) 1 >>= λ parent. address_of parent >>= λ p. get m (ref a) 2 >>= λ dict.
    get m dict 0 >>= λ keys. fields_of (in_heap m.heap) keys >>= λ ks. addresses_of ks >>= λ ks'.
    get m dict 1 >>= λ vals. fields_of (in_heap m.heap) vals >>= λ vs.
    addresses_of vs >>= λ vs'. ok (record { parent = p; method_keys = ks'; method_vals = vs' })

-- What the method lookup sees of the memory.
abbrev pub view_of : Known → Memory → View
view_of k m = record {
  bytes_of = λ a. elim (bytes_of (in_heap m.heap) (ref a)) [
    | ok bs ↦ bs
    | error ↦ []
    | fault ↦ []
    | out_of_fuel ↦ []
  ];
  class_at =
      λ a. elim (class_in m a) [ ok c ↦ some c | error ↦ none | fault ↦ none | out_of_fuel ↦ none ];
  nil_object = k.nil_object;
}

-- `CLASS(o)`
unfoldable pub class_of : Known → Memory → Oop → Result Oop
class_of k m null = fault
class_of k m (small v) = ok (ref k.small_int_class)
class_of k m (ref a) = access (m.heap a) >>= λ o. ok o.class_

-- The values of two SmallInts.
abbrev pub ints_of : Oop → Oop → Option (ℤ × ℤ)
ints_of (small i) (small j) = some (i, j)
ints_of left right = none

-- 1 in front of a StackReturn, 2 in front of a BlockReturn.
abbrev pub tail_kind : ℕ → ℕ
tail_kind b = if b == 15 * 16 + 2 then 1 else if b == 15 * 16 + 3 then 2 else 0

-- `where does this context return to?`, for a send from the context `c`.
unfoldable pub return_to : Memory → ℕ → Oop → Result Oop
return_to m high c =
    if high == 1
    then get m c 6
    else if high == 2
    then (get m c 8 >>= λ creator. get m creator 6)
    else ok c

-- `save where we are`
unfoldable pub save_place : Machine → Memory → Result Memory
save_place m mem = access (get_elem? mem.root_stack 2) >>= λ context.
    put mem context 5 (new_integer m.stack_top) >>= λ mem'.
    put mem' context 4 (new_integer m.byte_pointer)

-- The temporaries and the stack of the new context `c`, from `rootStack`.
unfoldable pub take_frame : Known → Oop → Memory → Result (Oop × Oop × Memory)
take_frame k c m₁ = pop_root m₁ >>= λ (temporaries, m₂). put m₂ c 2 temporaries >>= λ m₃.
    pop_root m₃ >>= λ (stack, m₄). put m₄ c 3 stack >>= λ m₅.
    set_class m₅ stack (ref k.array_class) >>= λ m₆.
    put m₆ c 5 (new_integer 0) >>= λ m₇. ok (temporaries, stack, m₇)

-- Where it returns to, its method and its arguments.
unfoldable pub link_context : ℕ → Oop → Memory → Result (Oop × Oop × Memory)
link_context high c m₇ = pop_root m₇ >>= λ (previous, m₈). put m₈ c 6 previous >>= λ m₉.
    return_to m₉ high previous >>= λ back. put m₉ c 6 back >>= λ m₁₀.
    pop_root m₁₀ >>= λ (method, m₁₁). put m₁₁ c 0 method >>= λ m₁₂.
    pop_root m₁₂ >>= λ (arguments, m₁₃). put m₁₃ c 1 arguments >>= λ m₁₄.
    put m₁₄ c 4 (new_integer 0) >>= λ m₁₅. ok (method, arguments, m₁₅)

module _ (k : Known) where
  unfoldable pub truth : Bool → Oop
  truth true = ref k.true_object
  truth false = ref k.false_object

  -- `<`, `<=` and `+` on SmallInts; any other operator leaves `returnedValue` as it was.
  unfoldable pub binary_value : ℕ → (returned : Oop) → ℤ → ℤ → Oop
  binary_value low returned i j =
      if low == 0
      then truth (ltb_ℤ i j)
      else if low == 1
      then truth (not (ltb_ℤ j i))
      else if low == 2
      then small (wrap (i +ℤ j))
      else returned

module _ (k : Known) (gcollect : ℕ → Memory → Result (Oop × Memory)) where
  unfoldable pub mark_arguments : ℕ → Machine → Result Machine
  mark_arguments low m = push_root m.context m.memory >>= λ memory.
      new_object gcollect low (ref k.array_class) memory >>= λ (arguments, memory').
      reload gcollect (record m { memory = memory' }) >>= λ m'.
      pop_into arguments low m' >>= λ m''. push arguments (record m'' { arguments = null })

  -- The arguments for `doesNotUnderstand:`, and the class of the receiver.
  unfoldable pub not_understood : ℕ → Machine → Result (ℕ × Machine)
  not_understood selector m = new_object gcollect 2 (ref k.array_class) m.memory >>= λ (op, m₁).
      get m₁ m.arguments 0 >>= λ receiver. put m₁ op 0 receiver >>= λ m₂.
      put m₂ op 1 (ref selector) >>= λ m₃. class_of k m₃ receiver >>= λ c.
      address_of c >>= λ class_. ok (class_, record m { memory = m₃; arguments = op })

  -- From `checkCache:` to the method found.
  unfoldable pub find_method : (fuel rounds selector class_ : ℕ) → Machine → Result Machine
  find_method fuel zero selector class_ m = out_of_fuel
  find_method fuel (suc rounds) selector class_ m =
      check_cache (view_of k m.memory) fuel m.memory.cache selector class_ >>= λ (found, cache).
      let m' : Machine = record m { memory = record m.memory { cache = cache } } in
      elim found [
        | some method ↦ ok (record m' { method = ref method })
        | none ↦
            let again =
              (not_understood selector m' >>= λ (receiver_class, m'').
              find_method fuel rounds k.bad_method_sym receiver_class m'') in
            if selector == k.bad_method_sym then error else again
      ]

  -- `temporaries` with nil in every place, or NULL for none.
  unfoldable pub new_temporaries : ℤ → Memory → Result (Oop × Memory)
  new_temporaries (pos (suc n)) m =
      new_filled gcollect (suc n) (ref k.array_class) (ref k.nil_object) m
  new_temporaries (pos zero) m = ok (null, m)
  new_temporaries (negsuc n) m = ok (null, m)

  -- The stack and the temporaries of the new context, on `rootStack` above the three that were saved.
  unfoldable pub new_frame : Machine → Result Memory
  new_frame m = push_root m.arguments m.memory >>= λ m₁. push_root m.method m₁ >>= λ m₂.
      push_root m.context m₂ >>= λ m₃. get m₃ m.method 4 >>= λ t. integer_value t >>= λ low.
      get m₃ m.method 3 >>= λ s. natural_value s >>= λ x.
      new_filled gcollect x (ref k.array_class) null m₃ >>= λ (op, m₄). push_root op m₄ >>= λ m₅.
      new_temporaries low m₅ >>= λ (temporaries, m₆). push_root temporaries m₆

  -- The new context, and the local variables for it.
  unfoldable pub new_context : ℕ → Machine → Memory → Result Machine
  new_context high m mem = new_object gcollect 7 (ref k.context_class) mem >>= λ (c, m₁).
      take_frame k c m₁ >>= λ (temporaries, stack, m₂).
      link_context high c m₂ >>= λ (method, arguments, m₃). get m₃ method 1 >>= λ bp. ok (record {
        memory = m₃;
        context = c;
        method = method;
        arguments = arguments;
        temporaries = temporaries;
        instance_variables = null;
        literals = null;
        stack = stack;
        bp = bp;
        returned_value = m.returned_value;
        stack_top = 0;
        byte_pointer = 0;
      })

  -- From the method found to its first instruction.
  unfoldable pub enter_method : Machine → Result Machine
  enter_method m = byte_at m m.byte_pointer >>= λ b.
      new_frame m >>= λ mem. save_place m mem >>= λ mem'. new_context (tail_kind b) m mem'

  -- `findMethodFromSymbol:`
  unfoldable pub send : (fuel selector : ℕ) → Machine → Result Machine
  send fuel selector m = get m.memory m.arguments 0 >>= λ receiver.
      class_of k m.memory receiver >>= λ c.
      address_of c >>= λ class_. find_method fuel 2 selector class_ m >>= enter_method

  unfoldable pub send_message : (fuel low : ℕ) → Machine → Result Machine
  send_message fuel low m = with_literals m >>= λ m₁. get m₁.memory m₁.literals low >>= λ s.
      address_of s >>= λ selector.
      pop m₁ >>= λ (arguments, m₂). send fuel selector (record m₂ { arguments = arguments })

  unfoldable pub send_to_super : (fuel : ℕ) → Machine → Result Machine
  send_to_super fuel m = byte_at m m.byte_pointer >>= λ low.
      with_literals (record m { byte_pointer = m.byte_pointer + 1 }) >>= λ m₁.
      get m₁.memory m₁.literals low >>= λ s. address_of s >>= λ selector.
      get m₁.memory m₁.method 5 >>= λ owner. get m₁.memory owner 1 >>= λ parent.
      address_of parent >>= λ class_. pop m₁ >>= λ (arguments, m₂).
      find_method fuel 2 selector class_ (record m₂ { arguments = arguments }) >>= enter_method

  -- `returnedValue = v; stack->data[stackTop++] = returnedValue;`
  abbrev pub answer : Oop → Machine → Result Machine
  answer v m = push v (record m { returned_value = v })

  unfoldable pub send_unary : ℕ → Machine → Result Machine
  send_unary low m = pop m >>= λ (v, m').
      if low == 0
      then answer (truth k (is_same v (ref k.nil_object))) m'
      else if low == 1
      then answer (truth k (not (is_same v (ref k.nil_object)))) m'
      else error

  -- The message for operands that are not both SmallInts.
  unfoldable pub send_binary_message : (fuel low : ℕ) → Machine → Result Machine
  send_binary_message fuel low m = push_root m.context m.memory >>= λ memory.
      new_object gcollect 2 (ref k.array_class) memory >>= λ (arguments, memory').
      reload gcollect (record m { memory = memory' }) >>= λ m'. pop_into arguments 2 m' >>= λ m''.
      access (get_elem? k.binary_messages low) >>= λ selector.
      send fuel selector (record m'' { arguments = arguments })

  unfoldable pub send_binary : (fuel low : ℕ) → Machine → Result Machine
  send_binary fuel low m = pop m >>= λ (right, m'). pop m' >>= λ (left, m'').
      elim (ints_of left right) [
        | some (i, j) ↦ answer (binary_value k low m.returned_value i j) m''
        | none ↦ send_binary_message fuel low m
      ]
