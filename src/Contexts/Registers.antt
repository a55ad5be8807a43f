-- ===== src/Contexts/Registers.antt =====
-- The local variables of `execute` (vm/interp.c) that are loaded at their first use, and the instructions
-- that push and assign through them.
use littlesmalltalk.Prelude.{ℕ, zero, suc, ◌+◌, ◌*◌, Bool, not, ◌&&◌, ◌==◌, ltb, if◌then◌else◌}
use littlesmalltalk.Prelude.Result.{Result, ok, error, fault, ◌>>=◌}
use littlesmalltalk.Memory.StaticRoots.{add_static_root}
use littlesmalltalk.Image.Graph.{Oop, null, small, ref}
use littlesmalltalk.Contexts.{
  Memory, Known, Machine, get, put, is_same, new_integer, val_at, pop, push,
}

-- `if (!arguments) arguments = context->data[argumentsInContext];`
unfoldable pub with_arguments : Machine → Result Machine
with_arguments m =
    if is_same m.arguments null
    then (get m.memory m.context 1 >>= λ a. ok (record m { arguments = a }))
    else ok m

unfoldable pub with_temporaries : Machine → Result Machine
with_temporaries m =
    if is_same m.temporaries null
    then (get m.memory m.context 2 >>= λ t. ok (record m { temporaries = t }))
    else ok m

unfoldable pub with_literals : Machine → Result Machine
with_literals m =
    if is_same m.literals null
    then (get m.memory m.method 2 >>= λ l. ok (record m { literals = l }))
    else ok m

-- The receiver is the first argument.
unfoldable pub with_receiver : Machine → Result Machine
with_receiver m = with_arguments m >>= λ m'.
    if is_same m'.instance_variables null
    then (get m'.memory m'.arguments 0 >>= λ r. ok (record m' { instance_variables = r }))
    else ok m'

-- `stack->data[stackTop++] = o->data[low]`
unfoldable pub push_field : Oop → ℕ → Machine → Result Machine
push_field o low m = get m.memory o low >>= λ v. push v m

-- `stack->data[stackTop-1]`
unfoldable pub top_of : Machine → Result Oop
top_of m = pop m >>= λ (v, m'). ok v

unfoldable pub push_constant : Known → ℕ → Machine → Result Machine
push_constant k low m =
    if ltb low 10
    then push (new_integer low) m
    else if low == 10
    then push (ref k.nil_object) m
    else if low == 11
    then push (ref k.true_object) m
    else if low == 12
    then push (ref k.false_object) m
    else error

-- `addStaticRoot(&o->data[i])` where a static object has got a dynamic one.
unfoldable pub note_static : (is_dynamic : Oop → Bool) → Oop → Oop → ℕ → Memory → Result Memory
note_static is_dynamic null v i m = fault
note_static is_dynamic (small n) v i m = fault
note_static is_dynamic (ref a) v i m =
    if not (is_dynamic (ref a)) && is_dynamic v
    then (add_static_root (a + 8 * (i + 2)) m.static_roots >>= λ roots.
        ok (record m { static_roots = roots }))
    else ok m

unfoldable pub assign_instance : (is_dynamic : Oop → Bool) → ℕ → Machine → Result Machine
assign_instance is_dynamic low m = with_receiver m >>= λ m'. top_of m' >>= λ v.
    put m'.memory m'.instance_variables low v >>= λ memory.
    note_static is_dynamic m'.instance_variables v low memory >>= λ memory'.
    ok (record m' { memory = memory' })

unfoldable pub assign_temporary : ℕ → Machine → Result Machine
assign_temporary low m = with_temporaries m >>= λ m'. top_of m' >>= λ v.
    put m'.memory m'.temporaries low v >>= λ memory. ok (record m' { memory = memory })

unfoldable pub duplicate : Machine → Result Machine
duplicate m = top_of m >>= λ v. push v (record m { returned_value = v })

unfoldable pub pop_top : Machine → Result Machine
pop_top m = elim m.stack_top [ zero ↦ fault | suc n ↦ ok (record m { stack_top = n }) ]

-- `if (returnedValue == wanted) bytePointer = low; else bytePointer += VALSIZE;`
unfoldable pub branch_if : Oop → Machine → Result Machine
branch_if wanted m = val_at m m.byte_pointer >>= λ low. pop m >>= λ (v, m'). ok (record m' {
  returned_value = v;
  byte_pointer = if is_same v wanted then low else m.byte_pointer + 2;
})

unfoldable pub branch : Machine → Result Machine
branch m = val_at m m.byte_pointer >>= λ low. ok (record m { byte_pointer = low })
