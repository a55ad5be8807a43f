-- ===== src/Interpreter.antt =====
-- Instructions of `execute` (vm/interp.c) that stay in one context: the pushes, the assignments, and the
-- stack operations and branches of DoSpecial. Objects are addresses of field lists in a store; the
-- registers that `execute` loads on first use are fields of the frame. The stack is such an object too.
pub mod Stack
pub mod Temporaries
pub mod Tests
use littlesmalltalk.Prelude.{
  ℕ, zero, suc, ◌+◌, ◌*◌, Bool, true, false, ◌&&◌, not, List, Option, none, some, ◌==◌, ltb,
  if◌then◌else◌, length, get_elem?, set,
}
use littlesmalltalk.Prelude.Result.{Result, ok, error, fault, ◌>>=◌, access}
use littlesmalltalk.CodeGen.{fetch_val}
use littlesmalltalk.Memory.StaticRoots.{add_static_root}

abbrev pub Store : Type 0
Store = ℕ → Option (List ℕ)

-- What the instructions of a context read: the registers, the code, the well-known objects, and the
-- bounds of dynamic memory.
pub record Frame : Type 0 where
  pub stack : ℕ
  pub instance_variables : ℕ
  pub arguments : ℕ
  pub temporaries : ℕ
  pub literals : ℕ
  pub bp : List ℕ
  pub nil_object : ℕ
  pub true_object : ℕ
  pub false_object : ℕ
  pub is_dynamic : ℕ → Bool

pub record Machine : Type 0 where
  pub store : Store
  pub stack_top : ℕ
  pub byte_pointer : ℕ
  pub static_roots : List ℕ

-- `object->data[i]`
unfoldable pub load : Store → ℕ → ℕ → Result ℕ
load store object i = access (store object) >>= λ fields. access (get_elem? fields i)

abbrev pub update : Store → ℕ → List ℕ → Store
update store object fields a = if a == object then some fields else store a

-- `object->data[i] = v`
unfoldable pub assign : Store → ℕ → ℕ → ℕ → Result Store
assign store object i v = access (store object) >>= λ fields.
    if ltb i (length fields) then ok (update store object (set fields i v)) else fault

-- `stack->data[stackTop++] = v`
unfoldable pub push : Frame → ℕ → Machine → Result Machine
push f v m = assign m.store f.stack m.stack_top v >>= λ store.
    ok (record m { store = store; stack_top = suc m.stack_top })

-- The number of the top element; there is none on an empty stack.
abbrev pub below : ℕ → Result ℕ
below zero = fault
below (suc n) = ok n

-- `stack->data[stackTop-1]`
unfoldable pub top_of : Frame → Machine → Result ℕ
top_of f m = below m.stack_top >>= λ i. load m.store f.stack i

-- `newInteger`
abbrev pub new_integer : ℕ → ℕ
new_integer n = 2 * n + 1

unfoldable pub push_constant : Frame → ℕ → Machine → Result Machine
push_constant f low m =
    if ltb low 10
    then push f (new_integer low) m
    else if low == 10
    then push f f.nil_object m
    else if low == 11
    then push f f.true_object m
    else if low == 12
    then push f f.false_object m
    else error

-- The address of a field, behind the header and the class.
abbrev pub field_address : ℕ → ℕ → ℕ
field_address object i = object + 8 * (i + 2)

unfoldable pub assign_instance : Frame → ℕ → Machine → Result Machine
assign_instance f low m = top_of f m >>= λ v. assign m.store f.instance_variables low v >>= λ store.
    if not (f.is_dynamic f.instance_variables) && f.is_dynamic v
    then (add_static_root (field_address f.instance_variables low) m.static_roots >>= λ roots.
        ok (record m { store = store; static_roots = roots }))
    else ok (record m { store = store })

unfoldable pub assign_temporary : Frame → ℕ → Machine → Result Machine
assign_temporary f low m = top_of f m >>= λ v.
    assign m.store f.temporaries low v >>= λ store. ok (record m { store = store })

unfoldable pub pop_top : Machine → Result Machine
pop_top m = below m.stack_top >>= λ n. ok (record m { stack_top = n })

-- `if (returnedValue == wanted) bytePointer = low; else bytePointer += VALSIZE;`
unfoldable pub branch_if : Frame → ℕ → Machine → Result Machine
branch_if f wanted m = fetch_val f.bp m.byte_pointer >>= λ target. top_of f m >>= λ v.
    pop_top m >>= λ m'.
    ok (record m' { byte_pointer = if v == wanted then target else m.byte_pointer + 2 })

-- Duplicate, PopTop, Branch, BranchIfTrue and BranchIfFalse; `none` is another case.
unfoldable pub do_special : Frame → ℕ → Machine → Option (Result Machine)
do_special f low m =
    if low == 4
    then some (top_of f m >>= λ v. push f v m)
    else if low == 5
    then some (pop_top m)
    else if low == 6
    then some (fetch_val f.bp m.byte_pointer >>= λ target. ok (record m { byte_pointer = target }))
    else if low == 7
    then some (branch_if f f.true_object m)
    else if low == 8
    then some (branch_if f f.false_object m)
    else none

-- The instruction `high` with the operand `low`; `none` where it leaves the context.
unfoldable pub dispatch : Frame → (high low : ℕ) → Machine → Option (Result Machine)
dispatch f high low m =
    if high == 1
    then some (load m.store f.instance_variables low >>= λ v. push f v m)
    else if high == 2
    then some (load m.store f.arguments low >>= λ v. push f v m)
    else if high == 3
    then some (load m.store f.temporaries low >>= λ v. push f v m)
    else if high == 4
    then some (load m.store f.literals low >>= λ v. push f v m)
    else if high == 5
    then some (push_constant f low m)
    else if high == 6
    then some (assign_instance f low m)
    else if high == 7
    then some (assign_temporary f low m)
    else if high == 15
    then do_special f low m
    else none
