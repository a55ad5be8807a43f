-- ===== src/Contexts/Execute/Again.antt =====
-- A process whose time slice has ended goes on where it stopped (`execute`, vm/interp.c).
use littlesmalltalk.Prelude.{
  ℕ, ◌<◌, ◌≤◌, ◌≡◌, ◌≢◌, refl, sym, ◌∙◌, List, ◌∷◌, some, length, length-set, get_elem?,
  get_elem?-set_self, get_elem?-set_ne, set, arith,
}
use littlesmalltalk.Image.Graph.{Oop, ref}
use littlesmalltalk.Contexts.{Memory, Known, Machine, finished, new_integer}
use littlesmalltalk.Contexts.Yields.{
  Yields, Yields-ok, Yields->>=, Yields-map, object, Only, get-at, put-Only, pop_root-ok,
  push_root-ok,
}
use littlesmalltalk.Contexts.Returns.{leave, suspend}
use littlesmalltalk.Contexts.Execute.{start}

-- The process `p` runs the context `c`, whose method, code and stack are those of the local variables.
pub record Runs (m : Machine) (p : ℕ) : Type 0 where
  pub pc : Oop
  pub ps : List Oop
  pub c : ℕ
  pub cc : Oop
  pub cs : List Oop
  pub mth : ℕ
  pub mc : Oop
  pub ms : List Oop
  pub rest : List Oop
  pub roots : m.memory.root_stack ≡ ref p ∷ rest
  pub rest_room : length rest < 2000
  pub process : m.memory.heap p ≡ some (object pc ps)
  pub process_size : 3 ≤ length ps
  pub is_context : m.context ≡ ref c
  pub context : m.memory.heap c ≡ some (object cc cs)
  pub context_size : 7 ≤ length cs
  pub context_apart : c ≢ p
  pub is_method : m.method ≡ ref mth
  pub method : m.memory.heap mth ≡ some (object mc ms)
  pub method_apart : (mth ≢ p) × (mth ≢ c)
  pub method_field : get_elem? cs 0 ≡ some m.method
  pub stack_field : get_elem? cs 3 ≡ some m.stack
  pub code_field : get_elem? ms 1 ≡ some m.bp

-- The place in a context.
abbrev placed : Machine → List Oop → List Oop
placed m cs = set (set cs 4 (new_integer m.byte_pointer)) 5 (new_integer m.stack_top)

-- The memory when the process is off: its context is noted in it, and the place in the context.
pub record Off (m : Machine) (p : ℕ) (r : Runs m p) (mem : Memory) : Type 0 where
  pub roots : mem.root_stack ≡ r.rest
  pub process : mem.heap p ≡ some (object r.pc (set (set r.ps 0 m.context) 2 m.returned_value))
  pub context : mem.heap r.c ≡ some (object r.cc (placed m r.cs))
  pub others : (b : ℕ) → b ≢ p → b ≢ r.c → mem.heap b ≡ m.memory.heap b

-- The local variables say the same, and the process is on `rootStack`.
pub record GoesOn (m : Machine) (p : ℕ) (mem : Memory) (m' : Machine) : Type 0 where
  pub context : m'.context ≡ m.context
  pub method : m'.method ≡ m.method
  pub stack : m'.stack ≡ m.stack
  pub bp : m'.bp ≡ m.bp
  pub stack_top : m'.stack_top ≡ m.stack_top
  pub byte_pointer : m'.byte_pointer ≡ m.byte_pointer
  pub roots : m'.memory.root_stack ≡ ref p ∷ mem.root_stack
  pub heap : m'.memory.heap ≡ mem.heap

suspend-Off :
    (k : Known) (code : ℕ) (m : Machine) (p : ℕ) (r : Runs m p)
    → Yields
        (λ out. (m₁ : Machine) × (out ≡ finished code m.returned_value m₁) × Off m p r m₁.memory)
        (suspend k code m)
unfolding suspend leave
suspend-Off k code m p r =
    let popped : Memory = record m.memory { root_stack = r.rest } in
    rw (pop_root-ok m.memory (ref p) r.rest r.roots) (
      Yields->>= _
        (Yields->>= _
          (put-Only m.memory.heap popped p 0 r.pc m.context r.ps (r.process, λ b ne. refl)
            (omega (arith, r.process_size)))
          (λ m₂ (only₂, (r₂, p₂, b₂)).
            Yields->>= _
              (put-Only m.memory.heap m₂ p 2 r.pc m.returned_value (set r.ps 0 m.context) only₂
                (omega (arith, r.process_size, length-set r.ps 0 m.context)))
              (λ m₃ (only₃, (r₃, p₃, b₃)).
                Yields-ok
                  {P = λ m'.
                    Only m.memory.heap m'.memory p
                      (object r.pc (set (set r.ps 0 m.context) 2 m.returned_value))
                    × (m'.memory.root_stack ≡ r.rest)}
                  (record m { memory = m₃ }) (only₃, r₃ ∙ r₂))))
        (λ m' (only, roots).
          let c_there : m'.memory.heap r.c ≡ some (object r.cc r.cs) =
            only.1 r.c r.context_apart ∙ r.context in
          rw (r.is_context) (
            Yields->>= _
              (put-Only m'.memory.heap m'.memory r.c 4 r.cc (new_integer m.byte_pointer) r.cs
                (c_there, λ b ne. refl) (omega (arith, r.context_size)))
              (λ m₄ (only₄, (r₄, p₄, b₄)).
                Yields->>= _
                  (put-Only m'.memory.heap m₄ r.c 5 r.cc (new_integer m.stack_top)
                    (set r.cs 4 (new_integer m.byte_pointer)) only₄
                    (omega (arith, r.context_size, length-set r.cs 4 (new_integer m.byte_pointer))))
                  (λ m₅ (only₅, (r₅, p₅, b₅)). Yields-ok _ (
                    record m { memory = m₅; context = ref r.c },
                    refl,
                    record {
                      roots = r₅ ∙ r₄ ∙ roots;
                      process = only₅.1 p (λ e. r.context_apart (sym e)) ∙ only.0;
                      context = only₅.0;
                      others = λ b not_p not_c. only₅.1 b not_c ∙ only.1 b not_p;
                    },
                  ))))))

start-GoesOn :
    (k : Known) (m : Machine) (p : ℕ) (r : Runs m p) (mem : Memory)
    → Off m p r mem
    → Yields (GoesOn m p mem) (start k (ref p) mem)
unfolding start
start-GoesOn k m p r mem off =
    let pushed : Memory = record mem { root_stack = ref p ∷ mem.root_stack } in
    let context_field : get_elem? (set (set r.ps 0 m.context) 2 m.returned_value) 0
        ≡ some (ref r.c) =
      get_elem?-set_ne (set r.ps 0 m.context) m.returned_value (λ e. omega arith)
      ∙ get_elem?-set_self r.ps 0 m.context (omega (arith, r.process_size))
      ∙ rw (r.is_context) refl in
    let byte_code : List Oop = set r.cs 4 (new_integer m.byte_pointer) in
    let same : (i : ℕ) → i ≢ 5 → i ≢ 4 → get_elem? (placed m r.cs) i ≡ get_elem? r.cs i =
      λ i not_5 not_4.
        get_elem?-set_ne byte_code (new_integer m.stack_top) (λ e. not_5 (sym e))
        ∙ get_elem?-set_ne r.cs (new_integer m.byte_pointer) (λ e. not_4 (sym e)) in
    let at_4 : get_elem? (placed m r.cs) 4 ≡ some (new_integer m.byte_pointer) =
      get_elem?-set_ne byte_code (new_integer m.stack_top) (λ e. omega arith)
      ∙ get_elem?-set_self r.cs 4 (new_integer m.byte_pointer) (omega (arith, r.context_size)) in
    let at_5 : get_elem? (placed m r.cs) 5 ≡ some (new_integer m.stack_top) =
      get_elem?-set_self byte_code 5 (new_integer m.stack_top)
        (omega (arith, r.context_size, length-set r.cs 4 (new_integer m.byte_pointer))) in
    let (not_p, not_c) = r.method_apart in
    rw
      (
        push_root-ok mem (ref p) (rw (off.roots) (r.rest_room)),
        get-at pushed p 0 r.pc (ref r.c) _ off.process context_field,
        get-at pushed r.c 0 r.cc (ref r.mth) _ off.context
            (same 0 (λ e. omega arith) (λ e. omega arith) ∙ r.method_field ∙ rw (r.is_method) refl),
        get-at pushed r.mth 1 r.mc m.bp r.ms (off.others r.mth not_p not_c ∙ r.method) r.code_field,
        get-at pushed r.c 4 r.cc _ _ off.context at_4,
        get-at pushed r.c 3 r.cc m.stack _ off.context
            (same 3 (λ e. omega arith) (λ e. omega arith) ∙ r.stack_field),
        get-at pushed r.c 5 r.cc _ _ off.context at_5,
      )
      (Yields-ok _ (record {
        context = sym r.is_context;
        method = sym r.is_method;
        stack = refl;
        bp = refl;
        stack_top = refl;
        byte_pointer = refl;
        roots = refl;
        heap = refl;
      }))

-- Where a process runs, the end of its time slice or a breakpoint returns, and `execute` of the process
-- on the memory it leaves starts with the local variables as they were: the context, the method, its code
-- and stack, the top of the stack and the byte pointer.
pub start-suspend :
    (k : Known) (code : ℕ) (m : Machine) (p : ℕ) (r : Runs m p)
    → Yields
        (λ out.
          (m₁ : Machine) × (out ≡ finished code m.returned_value m₁)
          × Off m p r m₁.memory
          × Yields (GoesOn m p m₁.memory) (start k (ref p) m₁.memory))
        (suspend k code m)
start-suspend k code m p r =
    Yields-map (suspend-Off k code m p r)
      (λ out (m₁, ends, off). (m₁, ends, off, start-GoesOn k m p r m₁.memory off))
