-- ===== src/Contexts/Sends/Framed.antt =====
-- The stack and the temporaries that a send makes (vm/interp.c) where there is room for them.
use littlesmalltalk.Prelude.{
  ℕ, zero, suc, ◌+◌, ◌*◌, ◌<◌, ◌≤◌, ◌≡◌, ◌≢◌, refl, sym, ap, ◌∙◌, List, ◌∷◌, replicate, none, some,
  length, get_elem?, arith,
}
use littlesmalltalk.Prelude.Int.{ℤ, pos, negsuc, pos_part}
use littlesmalltalk.Prelude.Result.{Result, ok}
use littlesmalltalk.Image.Graph.{Oop, null, small, ref, Object, Heap}
use littlesmalltalk.Contexts.{Memory, Known, Machine, get}
use littlesmalltalk.Contexts.Yields.{Yields, Yields-ok, Yields->>=, object, get-at, push_root-ok}
use littlesmalltalk.Contexts.Fresh.{IsFree, Fresh, new_filled-Fresh}
use littlesmalltalk.Contexts.Sends.{new_temporaries, new_frame}

-- New objects came, at most `n` bytes, and every object there was is as it was.
pub record Grown (m m' : Memory) (n : ℕ) : Type 0 where
  pub keeps : (b : ℕ) (o : Object) → m.heap b ≡ some o → m'.heap b ≡ some o
  pub free : IsFree m'
  pub roots : m'.root_stack ≡ m.root_stack
  pub base : m'.memory_base ≡ m.memory_base
  pub pointer : m.memory_pointer ≤ m'.memory_pointer + n

pub Fresh-keeps :
    {m m' : Memory} {sz : ℕ} {c o : Oop} {os : List Oop}
    → Fresh m sz c os o m'
    → (b : ℕ) (x : Object) → m.heap b ≡ some x
    → m'.heap b ≡ some x
Fresh-keeps f b x e =
    (let apart : b ≢ f.address = λ same. cc (rw same at e, f.was_free) in f.only.1 b apart ∙ e)

Fresh-Grown :
    {m m' : Memory} {sz : ℕ} {c o : Oop} {os : List Oop}
    → Fresh m sz c os o m'
    → Grown m m' (8 * (sz + 2))
Fresh-Grown f = record {
  keeps = Fresh-keeps f;
  free = f.free;
  roots = f.roots;
  base = f.base;
  pointer = omega (arith, f.pointer);
}

-- The temporaries are so many nils, or NULL.
abbrev pub AreTemporaries : Known → ℤ → Heap → Oop → Type 0
AreTemporaries k (pos zero) h o = o ≡ null
AreTemporaries k (negsuc n) h o = o ≡ null
AreTemporaries k (pos (suc n)) h o =
    (a : ℕ) × (o ≡ ref a)
    × (h a ≡ some (object (ref k.array_class) (replicate (suc n) (ref k.nil_object))))

module _ (k : Known) where
  -- The stack `s` and the temporaries on `rootStack`.
  pub record Framed (m : Machine) (x : ℕ) (low : ℤ) (mem : Memory) : Type 0 where
    pub s : ℕ
    pub temporaries : Oop
    pub s_new : m.memory.heap s ≡ none
    pub stack : mem.heap s ≡ some (object (ref k.array_class) (replicate x null))
    pub are_temporaries : AreTemporaries k low mem.heap temporaries
    pub temporaries_new : (a : ℕ) → temporaries ≡ ref a → m.memory.heap a ≡ none
    pub keeps : (b : ℕ) (o : Object) → m.memory.heap b ≡ some o → mem.heap b ≡ some o
    pub free : IsFree mem
    pub room : mem.memory_base + 72 ≤ mem.memory_pointer
    pub roots :
        mem.root_stack
        ≡ temporaries ∷ ref s ∷ m.context ∷ m.method ∷ m.arguments ∷ m.memory.root_stack

module _ (k : Known) (gcollect : ℕ → Memory → Result (Oop × Memory)) where
  new_temporaries-Yields :
      (low : ℤ) (m : Memory)
      → IsFree m
      → m.memory_base + 8 * (pos_part low + 2) ≤ m.memory_pointer
      → Yields
          (λ (o, m').
            AreTemporaries k low m'.heap o
            × ((a : ℕ) → o ≡ ref a → m.heap a ≡ none)
            × Grown m m' (8 * (pos_part low + 2)))
          (new_temporaries k gcollect low m)
  unfolding new_temporaries
  new_temporaries-Yields (pos zero) m free room =
      Yields-ok (null, m)
        (
          refl,
          (λ a e. cc),
          record {
            keeps = λ b o e. e;
            free = free;
            roots = refl;
            base = refl;
            pointer = omega arith;
          },
        )
  new_temporaries-Yields (negsuc n) m free room =
      Yields-ok (null, m)
        (
          refl,
          (λ a e. cc),
          record {
            keeps = λ b o e. e;
            free = free;
            roots = refl;
            base = refl;
            pointer = omega arith;
          },
        )
  new_temporaries-Yields (pos (suc n)) m free room =
      let y =
        new_filled-Fresh gcollect (suc n) (ref k.array_class) (ref k.nil_object) m free room in
      record {
        result = y.result;
        returns = y.returns;
        holds = (
          (y.holds.address, y.holds.is_ref, y.holds.only.0),
          (λ a e.
              (let same : y.holds.address ≡ a = cc (y.holds.is_ref, e) in
                rw (← same) y.holds.was_free)),
          Fresh-Grown y.holds,
        );
      }

  pub new_frame-Framed :
      (m : Machine) (mth x : ℕ) (low : ℤ) (mc : Oop) (ms : List Oop)
      → m.method ≡ ref mth
      → m.memory.heap mth ≡ some (object mc ms)
      → get_elem? ms 4 ≡ some (small low)
      → get_elem? ms 3 ≡ some (small (pos x))
      → IsFree m.memory
      → m.memory.memory_base + (8 * (x + 2) + 8 * (pos_part low + 2) + 72) ≤ m.memory.memory_pointer
      → length m.memory.root_stack + 5 ≤ 2000
      → Yields (Framed k m x low) (new_frame k gcollect m)
  unfolding new_frame
  new_frame-Framed m mth x low mc ms is_mth there at_4 at_3 free room roots =
      let saved : Memory = record m.memory {
        root_stack = m.context ∷ m.method ∷ m.arguments ∷ m.memory.root_stack;
      } in
      let read_4 : get saved m.method 4 ≡ ok (small low) =
        rw is_mth (get-at saved mth 4 mc _ ms there at_4) in
      let read_3 : get saved m.method 3 ≡ ok (small (pos x)) =
        rw is_mth (get-at saved mth 3 mc _ ms there at_3) in
      rw
        (
          push_root-ok m.memory m.arguments (omega arith),
          push_root-ok (record m.memory { root_stack = m.arguments ∷ m.memory.root_stack }) m.method
              (omega arith),
          push_root-ok
              (record m.memory { root_stack = m.method ∷ m.arguments ∷ m.memory.root_stack })
              m.context (omega arith),
          read_4,
          read_3,
        )
        (Yields->>= _
          (new_filled-Fresh gcollect x (ref k.array_class) null saved free (omega arith))
          (λ (op, m₄) f.
            let h₁ : length m₄.root_stack < 2000 = rw f.roots (omega arith) in
            rw (push_root-ok m₄ op h₁) (
              Yields->>= _
                (new_temporaries-Yields low (record m₄ { root_stack = op ∷ m₄.root_stack }) f.free
                  (omega (arith, f.pointer, f.base)))
                (λ (t, m₆) (are, fresh_t, g).
                  let h₂ : length m₆.root_stack < 2000 = rw (g.roots, f.roots) (omega arith) in
                  rw (push_root-ok m₆ t h₂) (
                    Yields-ok _ (record {
                      s = f.address;
                      temporaries = t;
                      s_new = f.was_free;
                      stack = g.keeps f.address _ f.only.0;
                      are_temporaries = are;
                      temporaries_new = λ a e.
                          (let empty = fresh_t a e in
                            sym (f.only.1 a (λ same. cc (rw same at empty, f.only.0))) ∙ empty);
                      keeps = λ b o e. g.keeps b o (Fresh-keeps f b o e);
                      free = g.free;
                      room = omega (arith, f.pointer, f.base, g.pointer, g.base);
                      roots = ap (λ r. t ∷ r) (g.roots ∙ rw (f.roots, f.is_ref) refl);
                    }))))))
