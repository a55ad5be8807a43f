-- ===== src/Contexts/Sends/Called.antt =====
-- A send (vm/interp.c) from the method found to its first instruction, where there is room for the new
-- objects: what it leaves of the memory.
use littlesmalltalk.Prelude.{
  ℕ, zero, suc, ◌≡◌, ◌≢◌, refl, sym, ap, ◌∙◌, [], ◌∷◌, replicate, none, some, get_elem?, arith,
  Option-cases, inl, inr,
}
use littlesmalltalk.Prelude.Int.{ℤ, pos, negsuc}
use littlesmalltalk.Prelude.Result.{Result, ok}
use littlesmalltalk.Image.Graph.{Oop, null, ref, Object, Heap}
use littlesmalltalk.Contexts.{Memory, Known, Machine, new_integer}
use littlesmalltalk.Contexts.Yields.{Only, Yields, Yields->>=, Yields-map, object}
use littlesmalltalk.Contexts.Fresh.{IsFree}
use littlesmalltalk.Contexts.Sends.{tail_kind, return_to, enter_method}
use littlesmalltalk.Contexts.Sends.Framed.{AreTemporaries, Framed, new_frame-Framed}
use littlesmalltalk.Contexts.Sends.Entered.{Entered, save_place-Only, new_context-Entered}
use littlesmalltalk.Contexts.Sends.Ready.{Ready, Called, saved, return_to-saved}

-- What is not in the later memory was not in the earlier one.
was_free :
    (m : Machine) (mem' : Memory) (n c : ℕ) (o o' : Object)
    → m.memory.heap c ≡ some o
    → mem'.heap c ≡ some o'
    → ((b : ℕ) (x : Object) → b ≢ c → m.memory.heap b ≡ some x → mem'.heap b ≡ some x)
    → mem'.heap n ≡ none
    → m.memory.heap n ≡ none
was_free m mem' n c o o' there there' keeps free = elim (Option-cases (m.memory.heap n)) [
  | inl nothing ↦ nothing
  | inr (x, found) ↦
      let ne : n ≢ c = λ e. cc (rw e at free, there') in cc (free, keeps n x ne found)
]

AreTemporaries-kept :
    (k : Known) (low : ℤ) (h h' : Heap) (t : Oop)
    → AreTemporaries k low h t
    → ((a : ℕ) (o : Object) → t ≡ ref a → h a ≡ some o → h' a ≡ some o)
    → AreTemporaries k low h' t
AreTemporaries-kept k (pos zero) h h' t e kept = e
AreTemporaries-kept k (negsuc n) h h' t e kept = e
AreTemporaries-kept k (pos (suc n)) h h' t (a, is_ref, there) kept =
    (a, is_ref, kept a _ is_ref there)

-- The frame, the saved place and the new context together.
Entered-Called :
    (k : Known) (m : Machine) (r : Ready m) (back : Oop) (mem mem' : Memory) (m' : Machine)
    (f : Framed k m r.x r.low mem)
    (e : Entered k f.s r.mth f.temporaries m.arguments r.bp back m.memory.root_stack mem' m')
    → mem.heap r.c ≡ some (object r.cc r.cs)
    → Only mem.heap mem' r.c (object r.cc (saved m r.cs))
    → ((b : ℕ) (o : Object) → b ≢ r.c → m.memory.heap b ≡ some o → mem'.heap b ≡ some o)
    → Called k m r back m'
Entered-Called k m r back mem mem' m' f e at_c only keeps =
    let s_other : f.s ≢ r.c = λ h. cc (rw h at (f.s_new), r.context_there) in
    record {
      n = e.n;
      s = f.s;
      temporaries = f.temporaries;
      context = e.context;
      new = was_free m mem' e.n r.c (object r.cc r.cs) _ r.context_there only.0 keeps e.new;
      there =
          e.there
          ∙ ap
              (λ t. some (
                object (ref k.context_class) (
                  t
                  ∷ m.arguments
                  ∷ f.temporaries
                  ∷ ref f.s
                  ∷ new_integer 0
                  ∷ new_integer 0
                  ∷ back
                  ∷ [])))
              (sym r.method);
      stack_new = f.s_new;
      stack = e.keeps f.s _ (only.1 f.s s_other ∙ f.stack);
      are_temporaries =
          AreTemporaries-kept k r.low mem.heap m'.memory.heap f.temporaries f.are_temporaries
            (λ a o is_ref h.
              (let t_free = f.temporaries_new a is_ref in
                e.keeps a o (only.1 a (λ same. cc (rw same at t_free, r.context_there)) ∙ h)));
      place = e.keeps r.c _ only.0;
      keeps = λ b o ne h. e.keeps b o (keeps b o ne h);
      roots = e.roots;
      registers =
          (let (r₀, r₁, r₂, r₃, r₄, r₅, r₆) = e.registers in
            (r₀ ∙ sym r.method, r₁, r₂, r₃, r₄, r₅, r₆));
    }

-- Where there is room, a send returns, and leaves a new context that returns to the sender, or to where
-- the return behind it would go, if a StackReturn or a BlockReturn follows the send.
pub enter_method-Called :
    (k : Known) (gcollect : ℕ → Memory → Result (Oop × Memory)) (m : Machine) (r : Ready m)
    (back : Oop)
    → return_to m.memory (tail_kind r.b) m.context ≡ ok back
    → Yields (Called k m r back) (enter_method k gcollect m)
unfolding enter_method
enter_method-Called k gcollect m r back returns = rw (r.next_byte) (
    Yields->>= _
      (new_frame-Framed k gcollect m r.mth r.x r.low r.mc r.ms r.method r.method_there
        r.temporary_size r.stack_size r.free r.room r.roots)
      (λ mem f.
        let third : get_elem? mem.root_stack 2 ≡ some (ref r.c) = rw (f.roots, r.context) refl in
        let at_c : mem.heap r.c ≡ some (object r.cc r.cs) = f.keeps r.c _ r.context_there in
        let s_other : f.s ≢ r.c = λ e. cc (rw e at (f.s_new), r.context_there) in
        Yields->>= _ (save_place-Only m mem r.c r.cc r.cs third at_c r.context_size)
          (λ mem' (only, (roots, pointer, base)).
            let keeps : (b : ℕ) (o : Object)
                → b ≢ r.c
                → m.memory.heap b ≡ some o
                → mem'.heap b ≡ some o =
              λ b o ne e. only.1 b ne ∙ f.keeps b o e in
            let free : IsFree mem' = λ b low high.
              (let empty : mem.heap b ≡ none = f.free b (rw base at low) (rw pointer at high) in
                only.1 b (λ e. cc (rw e at empty, at_c)) ∙ empty) in
            Yields-map
              (new_context-Entered k gcollect (tail_kind r.b) m mem' f.s r.c r.mth f.temporaries
                m.arguments r.bp back r.mc m.memory.root_stack (replicate r.x null) r.ms
                (roots
                  ∙ f.roots
                  ∙ ap (λ t. f.temporaries ∷ ref f.s ∷ t) (rw (r.context, r.method) refl))
                (only.1 f.s s_other ∙ f.stack) (keeps r.mth _ r.apart r.method_there) r.byte_codes
                free (omega (arith, pointer, base, f.room))
                (λ m₉ kept.
                  return_to-saved m r m₉ (kept r.c _ only.0) (λ b o ne e. kept b o (keeps b o ne e))
                    (tail_kind r.b) (ref r.c) back (rw (r.context) at returns)))
              (λ m' e. Entered-Called k m r back mem mem' m' f e at_c only keeps))))
