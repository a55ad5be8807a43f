-- ===== src/Contexts/Sends/Entered.antt =====
-- What a send leaves (vm/interp.c) where there is room for the new objects: the new context with its
-- stack and temporaries, the place saved in the context of the sender, and every other object as it was.
use littlesmalltalk.Prelude.{
  ℕ, ◌+◌, ◌<◌, ◌≤◌, ◌≡◌, ◌≢◌, refl, ◌∙◌, List, [], ◌∷◌, none, some, length, length-set, get_elem?,
  set, arith,
}
use littlesmalltalk.Prelude.Result.{Result, ok, ◌>>=◌}
use littlesmalltalk.Image.Graph.{Oop, ref, Object, Heap}
use littlesmalltalk.Contexts.{Memory, Known, Machine, new_integer, pop_root, put}
use littlesmalltalk.Contexts.Yields.{
  Yields, Yields-ok, Yields->>=, object, Only, SameBounds, get-at, put-Only, set_class-Only,
  pop_root-ok,
}
use littlesmalltalk.Contexts.Fresh.{IsFree, new_object-Fresh}
use littlesmalltalk.Contexts.Sends.{return_to, save_place, take_frame, link_context, new_context}

-- Every object of the one memory is in the other.
abbrev pub Keeps : Memory → Memory → Type 0
Keeps m m' = (b : ℕ) (o : Object) → m.heap b ≡ some o → m'.heap b ≡ some o

pub save_place-Only :
    (m : Machine) (mem : Memory) (c : ℕ) (cc : Oop) (cs : List Oop)
    → get_elem? mem.root_stack 2 ≡ some (ref c)
    → mem.heap c ≡ some (object cc cs)
    → 7 ≤ length cs
    → Yields
        (λ mem'.
          Only mem.heap mem' c
            (object cc (set (set cs 5 (new_integer m.stack_top)) 4 (new_integer m.byte_pointer)))
          × SameBounds mem mem')
        (save_place m mem)
unfolding save_place
save_place-Only m mem c cc cs third there size = rw third (
    Yields->>= _ (put-Only mem.heap mem c 5 cc _ cs (there, λ b ne. refl) (omega arith))
      (λ m₁ (only, (r, p, b)).
        let again =
          put-Only mem.heap m₁ c 4 cc (new_integer m.byte_pointer)
            (set cs 5 (new_integer m.stack_top)) only
            (omega (arith, length-set cs 5 (new_integer m.stack_top))) in
        record {
          result = again.result;
          returns = again.returns;
          holds = (again.holds.0, (again.holds.1.0 ∙ r, again.holds.1.1 ∙ p, again.holds.1.2 ∙ b));
        }))

-- A pointer from `rootStack` into a field of the object at `n`.
pop_put-Only :
    {A : Type 0} {Q : A → Type 0} {h : Heap} {n : ℕ} {c : Oop} {os : List Oop} (m : Memory) (i : ℕ)
    (o : Oop) (rest : List Oop) (next : Oop → Memory → Result A)
    → Only h m n (object c os)
    → m.root_stack ≡ o ∷ rest
    → i < length os
    → ((m' : Memory)
        → Only h m' n (object c (set os i o))
        → m'.root_stack ≡ rest
        → Yields Q (next o m'))
    → Yields Q (pop_root m >>= λ (x, m₁). put m₁ (ref n) i x >>= λ m₂. next x m₂)
pop_put-Only {h = h} {n = n} {c = c} {os = os} m i o rest next only roots inside go_on =
    rw (pop_root-ok m o rest roots) (
      Yields->>= _ (put-Only h _ n i c o os only inside)
        (λ m' (only', (r, p, b)). go_on m' only' r))

-- A value into a field of it.
put_on-Only :
    {A : Type 0} {Q : A → Type 0} {h : Heap} {n : ℕ} {c : Oop} {os : List Oop} (m : Memory) (i : ℕ)
    (o : Oop) (rest : List Oop) (next : Memory → Result A)
    → Only h m n (object c os)
    → m.root_stack ≡ rest
    → i < length os
    → ((m' : Memory)
        → Only h m' n (object c (set os i o))
        → m'.root_stack ≡ rest
        → Yields Q (next m'))
    → Yields Q (put m (ref n) i o >>= next)
put_on-Only {h = h} {n = n} {c = c} {os = os} m i o rest next only roots inside go_on =
    Yields->>= _ (put-Only h m n i c o os only inside)
      (λ m' (only', (r, p, b)). go_on m' only' (r ∙ roots))

-- The fields of a context that is being built.
abbrev seven : Oop → Oop → Oop → Oop → Oop → Oop → Oop → List Oop
seven a b c d e f g = a ∷ b ∷ c ∷ d ∷ e ∷ f ∷ g ∷ []

take_frame-Only :
    (k : Known) (h : Heap) (m : Memory) (n s : ℕ) (cl o₀ o₁ o₂ o₃ o₄ o₅ o₆ t : Oop)
    (ss rest : List Oop)
    → Only h m n (object cl (seven o₀ o₁ o₂ o₃ o₄ o₅ o₆))
    → m.root_stack ≡ t ∷ ref s ∷ rest
    → s ≢ n
    → h s ≡ some (object (ref k.array_class) ss)
    → Yields
        (λ (t', s', m').
          (t' ≡ t)
          × (s' ≡ ref s)
          × Only h m' n (object cl (seven o₀ o₁ t (ref s) o₄ (new_integer 0) o₆))
          × (m'.root_stack ≡ rest))
        (take_frame k (ref n) m)
unfolding take_frame
take_frame-Only k h m n s cl o₀ o₁ o₂ o₃ o₄ o₅ o₆ t ss rest only roots other stack =
    pop_put-Only _ 2 t (ref s ∷ rest) _ only roots (omega arith) (λ m₃ only₃ r₃.
      pop_put-Only _ 3 (ref s) rest _ only₃ r₃ (omega arith) (λ m₅ only₅ r₅.
        Yields->>= _ (set_class-Only h m₅ n s _ (ref k.array_class) ss only₅ other stack)
          (λ m₆ (only₆, (r₆, p₆, b₆)).
            put_on-Only _ 5 (new_integer 0) rest _ only₆ (r₆ ∙ r₅) (omega arith)
              (λ m₇ only₇ r₇. Yields-ok _ (refl, refl, only₇, r₇)))))

link_context-Only :
    (high : ℕ) (h : Heap) (m : Memory) (n : ℕ) (cl o₀ o₁ o₂ o₃ o₄ o₅ o₆ c back mth arguments : Oop)
    (rest : List Oop)
    → Only h m n (object cl (seven o₀ o₁ o₂ o₃ o₄ o₅ o₆))
    → m.root_stack ≡ c ∷ mth ∷ arguments ∷ rest
    → ((m₉ : Memory) (o : Object) → Only h m₉ n o → return_to m₉ high c ≡ ok back)
    → Yields
        (λ (mth', a', m').
          (mth' ≡ mth)
          × (a' ≡ arguments)
          × Only h m' n (object cl (seven mth arguments o₂ o₃ (new_integer 0) o₅ back))
          × (m'.root_stack ≡ rest))
        (link_context high (ref n) m)
unfolding link_context
link_context-Only high h m n cl o₀ o₁ o₂ o₃ o₄ o₅ o₆ c back mth arguments rest only roots returns =
    pop_put-Only _ 6 c (mth ∷ arguments ∷ rest) _ only roots (omega arith) (λ m₉ only₉ r₉.
      rw (returns m₉ _ only₉) (
        put_on-Only _ 6 back (mth ∷ arguments ∷ rest) _ only₉ r₉ (omega arith) (λ m₁₀ only₁₀ r₁₀.
          pop_put-Only _ 0 mth (arguments ∷ rest) _ only₁₀ r₁₀ (omega arith) (λ m₁₂ only₁₂ r₁₂.
            pop_put-Only _ 1 arguments rest _ only₁₂ r₁₂ (omega arith) (λ m₁₄ only₁₄ r₁₄.
              put_on-Only _ 4 (new_integer 0) rest _ only₁₄ r₁₄ (omega arith)
                (λ m₁₅ only₁₅ r₁₅. Yields-ok _ (refl, refl, only₁₅, r₁₅)))))))

module _ (k : Known) where
  -- The local variables for the new context, which is at `n` and returns to `back`.
  pub record Entered (s mth : ℕ) (temporaries arguments bp back : Oop) (rest : List Oop)
      (mem : Memory) (m' : Machine) : Type 0 where
    pub n : ℕ
    pub context : m'.context ≡ ref n
    pub new : mem.heap n ≡ none
    pub there :
        m'.memory.heap n
        ≡ some (
            object (ref k.context_class) (
              ref mth
              ∷ arguments
              ∷ temporaries
              ∷ ref s
              ∷ new_integer 0
              ∷ new_integer 0
              ∷ back
              ∷ []))
    pub keeps : Keeps mem m'.memory
    pub roots : m'.memory.root_stack ≡ rest
    pub registers :
        (m'.method ≡ ref mth)
        × (m'.arguments ≡ arguments)
        × (m'.temporaries ≡ temporaries)
        × (m'.stack ≡ ref s)
        × (m'.bp ≡ bp)
        × (m'.stack_top ≡ 0)
        × (m'.byte_pointer ≡ 0)

module _ (k : Known) (gcollect : ℕ → Memory → Result (Oop × Memory)) where
  pub new_context-Entered :
      (high : ℕ) (m : Machine) (mem : Memory) (s c mth : ℕ) (temporaries arguments bp back mc : Oop)
      (rest ss ms : List Oop)
      → mem.root_stack ≡ temporaries ∷ ref s ∷ ref c ∷ ref mth ∷ arguments ∷ rest
      → mem.heap s ≡ some (object (ref k.array_class) ss)
      → mem.heap mth ≡ some (object mc ms)
      → get_elem? ms 1 ≡ some bp
      → IsFree mem
      → mem.memory_base + 72 ≤ mem.memory_pointer
      → ((m₉ : Memory) → Keeps mem m₉ → return_to m₉ high (ref c) ≡ ok back)
      → Yields
          (Entered k s mth temporaries arguments bp back rest mem)
          (new_context k gcollect high m mem)
  unfolding new_context
  new_context-Entered high m mem s c mth temporaries arguments bp back mc rest ss ms roots stack
        code at_1 free room returns =
      Yields->>= _ (new_object-Fresh gcollect 7 (ref k.context_class) mem free room)
        (λ (o, m₁) (a, f).
          let n : ℕ = f.address in
          let keeps : (m₂ : Memory) (x : Object) → Only mem.heap m₂ n x → Keeps mem m₂ =
            λ m₂ x only b y e.
              (let apart : b ≢ n = λ same. cc (rw same at e, f.was_free) in only.1 b apart ∙ e) in
          let other : s ≢ n = λ same. cc (rw same at stack, f.was_free) in
          rw (f.is_ref) (
            Yields->>= _
              (take_frame-Only k mem.heap m₁ n s _ _ _ _ _ _ _ _ temporaries ss _ f.only
                (f.roots ∙ roots) other stack)
              (λ (t', s', m₂) (same_t, same_s, only₂, r₂).
                Yields->>= _
                  (link_context-Only high mem.heap m₂ n _ _ _ _ _ _ _ _ (ref c) back (ref mth)
                    arguments rest only₂ r₂ (λ m₉ x only. returns m₉ (keeps m₉ x only)))
                  (λ (mth', a', m₃) (same_mth, same_a, only₃, r₃).
                    rw (same_mth, get-at m₃ mth 1 mc bp ms (keeps m₃ _ only₃ mth _ code) at_1)
                      (Yields-ok _ (record {
                        n = n;
                        context = refl;
                        new = f.was_free;
                        there = only₃.0;
                        keeps = keeps m₃ _ only₃;
                        roots = r₃;
                        registers = (refl, same_a, same_t, same_s, refl, refl, refl);
                      }))))))
