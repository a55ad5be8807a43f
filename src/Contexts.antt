-- ===== src/Contexts.antt =====
-- Contexts and blocks: the instructions of `execute` (vm/interp.c) that allocate or change the context,
-- and the bump allocation `gcalloc` (vm/memory.c) under them. `gcollect` is a parameter of what
-- allocates: it gets the size and the memory and may move objects, which the code finds again through
-- `rootStack`. Object pointers are those of Image.Graph; a field outside an object, or of a binary object,
-- is a fault.
pub mod Registers
pub mod Yields
pub mod Fresh
pub mod Sends
pub mod Returns
pub mod Blocks
pub mod Execute
pub mod Tests
use littlesmalltalk.Prelude.{
  ℕ, zero, suc, ◌+◌, ◌-◌, ◌*◌, Bool, true, false, ◌&&◌, List, [], ◌∷◌, map, Option, none, some,
  ◌==◌, ltb, leb, if◌then◌else◌, length, get_elem?, set,
}
use littlesmalltalk.Prelude.Int.{ℤ, pos, negsuc, pos_part, neg_part}
use littlesmalltalk.Prelude.Result.{Result, ok, error, fault, ◌>>=◌, access}
use littlesmalltalk.Methods.{MethodCache}
use littlesmalltalk.Image.Graph.{Oop, null, small, ref, fields, bytes, Object, Heap, natural}
use littlesmalltalk.Image.Files.{in_heap, field_of, bytes_of}

-- The object memory: addresses count bytes, `stale` is what stands in memory that is not used yet, and
-- the top of `rootStack` comes first.
pub record Memory : Type 0 where
  pub heap : Heap
  pub memory_pointer : ℕ
  pub memory_base : ℕ
  pub stale : ℕ → Oop
  pub root_stack : List Oop
  pub static_roots : List ℕ
  pub cache : MethodCache

-- `o->data[i]`
abbrev pub get : Memory → Oop → ℕ → Result Oop
get m o i = field_of (in_heap m.heap) o i

abbrev pub put_object : Memory → ℕ → Object → Memory
put_object m a o = record m { heap = λ b. if b == a then some o else m.heap b }

-- A change of the fields of an object.
unfoldable pub change : Memory → Oop → (List Oop → Result (List Oop)) → Result Memory
change m null f = fault
change m (small v) f = fault
change m (ref a) f = access (m.heap a) >>= λ o. elim o.body [
  | bytes bs ↦ fault
  | fields os ↦ f os >>= λ os'. ok (put_object m a (record o { body = fields os' }))
]

abbrev pub set_field : ℕ → Oop → List Oop → Result (List Oop)
set_field i v os = if ltb i (length os) then ok (set os i v) else fault

-- `o->data[i] = v`
abbrev pub put : Memory → Oop → ℕ → Oop → Result Memory
put m o i v = change m o (set_field i v)

-- `for (i = 0; i < size; i++) o->data[i] = v`, and `bzero` with NULL for `v`.
abbrev pub fill : Memory → Oop → Oop → Result Memory
fill m o v = change m o (λ os. ok (map (λ old. v) os))

-- `o->class = c`
unfoldable pub set_class : Memory → Oop → Oop → Result Memory
set_class m null c = fault
set_class m (small v) c = fault
set_class m (ref a) c = access (m.heap a) >>= λ o. ok (put_object m a (record o { class_ = c }))

abbrev root_stack_limit : ℕ
root_stack_limit = 2000

-- `rootStack[rootTop++] = o` and `rootStack[--rootTop]`
unfoldable pub push_root : Oop → Memory → Result Memory
push_root o m =
    if ltb (length m.root_stack) root_stack_limit
    then ok (record m { root_stack = o ∷ m.root_stack })
    else fault

unfoldable pub pop_root : Memory → Result (Oop × Memory)
pop_root m = elim m.root_stack [ [] ↦ fault | o ∷ os ↦ ok (o, record m { root_stack = os }) ]

-- The words from `a` on.
abbrev pub stale_fields : (ℕ → Oop) → ℕ → ℕ → List Oop
stale_fields stale a zero = []
stale_fields stale a (suc n) = stale a ∷ stale_fields stale (a + 8) n

-- An int that `newInteger` has made.
abbrev pub integer_value : Oop → Result ℤ
integer_value null = fault
integer_value (small v) = ok v
integer_value (ref a) = fault

abbrev pub natural_value : Oop → Result ℕ
natural_value o = integer_value o >>= natural

abbrev pub new_integer : ℕ → Oop
new_integer n = small (pos n)

-- The addresses of the objects and classes that the instructions know.
pub record Known : Type 0 where
  pub nil_object : ℕ
  pub true_object : ℕ
  pub false_object : ℕ
  pub array_class : ℕ
  pub context_class : ℕ
  pub block_class : ℕ
  pub small_int_class : ℕ
  pub bad_method_sym : ℕ
  pub binary_messages : List ℕ

-- `==` on pointers.
unfoldable pub is_same : Oop → Oop → Bool
is_same null null = true
is_same (small v) (small w) = pos_part v == pos_part w && neg_part v == neg_part w
is_same (ref a) (ref b) = a == b
is_same o p = false

-- The local variables of `execute`, and the memory.
pub record Machine : Type 0 where
  pub memory : Memory
  pub context : Oop
  pub method : Oop
  pub arguments : Oop
  pub temporaries : Oop
  pub instance_variables : Oop
  pub literals : Oop
  pub stack : Oop
  pub bp : Oop
  pub returned_value : Oop
  pub stack_top : ℕ
  pub byte_pointer : ℕ

-- Going on, or the end of `execute` with its result and `resultInProcess`, the context saved.
pub data Outcome : Type 0 where
  running : Machine → Outcome
  finished : ℕ → Oop → Machine → Outcome

-- `bp[i]`
unfoldable pub byte_at : Machine → ℕ → Result ℕ
byte_at m i = bytes_of (in_heap m.memory.heap) m.bp >>= λ bs. access (get_elem? bs i)

-- `VAL`
unfoldable pub val_at : Machine → ℕ → Result ℕ
val_at m i = byte_at m i >>= λ low. byte_at m (i + 1) >>= λ high. ok (low + 256 * high)

-- `stack->data[--stackTop]`
unfoldable pub pop : Machine → Result (Oop × Machine)
pop m = elim m.stack_top [
  | zero ↦ fault
  | suc n ↦ get m.memory m.stack n >>= λ v. ok (v, record m { stack_top = n })
]

-- `stack->data[stackTop++] = v`
unfoldable pub push : Oop → Machine → Result Machine
push v m = put m.memory m.stack m.stack_top v >>= λ memory.
    ok (record m { memory = memory; stack_top = suc m.stack_top })

-- `while (low > 0) a->data[--low] = stack->data[--stackTop];`
unfoldable pub pop_into : Oop → ℕ → Machine → Result Machine
pop_into a zero m = ok m
pop_into a (suc low) m = pop m >>= λ (v, m').
    put m'.memory a low v >>= λ memory. pop_into a low (record m' { memory = memory })

module _ (gcollect : ℕ → Memory → Result (Oop × Memory)) where
  unfoldable pub gcalloc : ℕ → Memory → Result (Oop × Memory)
  gcalloc sz m =
      let size = 8 * (sz + 2) in
      let a = m.memory_pointer - size in
      let made : Memory = record m { memory_pointer = a } in
      if leb (m.memory_base + size) m.memory_pointer
      then ok (
        ref a,
        put_object made a
            (record { class_ = m.stale (a + 8); body = fields (stale_fields m.stale (a + 16) sz) }),
      )
      else gcollect sz made

  -- `gcalloc`, and the class of the new object.
  unfoldable pub new_object : ℕ → Oop → Memory → Result (Oop × Memory)
  new_object sz class_ m = gcalloc sz m >>= λ (o, m'). set_class m' o class_ >>= λ m''. ok (o, m'')

  -- The same with all fields set to `v`.
  unfoldable pub new_filled : ℕ → Oop → Oop → Memory → Result (Oop × Memory)
  new_filled sz class_ v m =
      new_object sz class_ m >>= λ (o, m'). fill m' o v >>= λ m''. ok (o, m'')

  -- Where the context that comes back from `rootStack` is another one, what depends on it is loaded again.
  -- `arguments` is set anew by every code that follows.
  unfoldable pub reload : Machine → Result Machine
  reload m = pop_root m.memory >>= λ (context, memory).
      let same = record m { memory = memory } in
      let again =
        (get memory context 0 >>= λ method. get memory method 1 >>= λ bp.
        get memory context 3 >>= λ stack. ok (record m {
          memory = memory;
          context = context;
          method = method;
          bp = bp;
          stack = stack;
          arguments = null;
          instance_variables = null;
          temporaries = null;
          literals = null;
        })) in
      if is_same context m.context then ok same else again
