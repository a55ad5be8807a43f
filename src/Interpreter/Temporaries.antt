-- ===== src/Interpreter/Temporaries.antt =====
-- A value that is assigned to a temporary is read back.
use littlesmalltalk.Prelude.{
  ℕ, suc, ◌<◌, ◌≡◌, ◌≢◌, sym, ap, ◌∙◌, List, [], ◌∷◌, ◌++◌, none, some, length, length-set,
  get_elem?, get_elem?-set_self, get_elem?-take, set, arith,
}
use littlesmalltalk.Prelude.Result.{Result, ok, error, ◌>>=◌}
use littlesmalltalk.Interpreter.{
  Store, Frame, Machine, load, update, push, top_of, pop_top, assign_temporary, do_special,
  dispatch,
}
use littlesmalltalk.Interpreter.Stack.{Holds, set-same, assign-ok, update-same, update-other}
use littlesmalltalk.CodeGen.Decoding.{at_end}

-- Instructions one after the other.
unfoldable pub run_all : Frame → List (ℕ × ℕ) → Machine → Result Machine
run_all f [] m = ok m
run_all f ((high, low) ∷ code) m = elim (dispatch f high low m) [
  | none ↦ error
  | some r ↦ r >>= run_all f code
]

-- AssignTemporary, PopTop, PushTemporary.
abbrev pub store_and_fetch : ℕ → List (ℕ × ℕ)
store_and_fetch i = (7, i) ∷ (15, 5) ∷ (3, i) ∷ []

-- A machine whose stack has one element more than `n`.
abbrev pub with_top : Store → ℕ → ℕ → List ℕ → Machine
with_top store n byte_pointer roots = record {
  store = store;
  stack_top = suc n;
  byte_pointer = byte_pointer;
  static_roots = roots;
}

module _ (f : Frame) (store : Store) (n byte_pointer : ℕ) (roots : List ℕ) where
  abbrev m : Machine
  m = with_top store n byte_pointer roots

  load-ok :
      (s : Store) (object i v : ℕ) (xs : List ℕ)
      → s object ≡ some xs
      → get_elem? xs i ≡ some v
      → load s object i ≡ ok v
  unfolding load
  load-ok s object i v xs e g = rw (e, g)

  assigned :
      (i v : ℕ) (fields ts : List ℕ)
      → store f.stack ≡ some fields
      → get_elem? fields n ≡ some v
      → store f.temporaries ≡ some ts
      → i < length ts
      → assign_temporary f i m
        ≡ ok (with_top (update store f.temporaries (set ts i v)) n byte_pointer roots)
  unfolding assign_temporary top_of
  assigned i v fields ts there top temps h =
      rw (load-ok store f.stack n v fields there top, assign-ok store f.temporaries i v ts temps h)

  pushed :
      (s : Store) (v : ℕ) (fields : List ℕ)
      → s f.stack ≡ some fields
      → n < length fields
      → push f v
          (record { store = s; stack_top = n; byte_pointer = byte_pointer; static_roots = roots })
        ≡ ok (with_top (update s f.stack (set fields n v)) n byte_pointer roots)
  unfolding push
  pushed s v fields there h = rw (assign-ok s f.stack n v fields there h)

  -- After AssignTemporary, PopTop and PushTemporary of one temporary, the stack is as before, and the
  -- temporary has the value that was on top. The temporaries are not the stack itself.
  pub store_and_fetch-Holds :
      (i v : ℕ) (vs ts : List ℕ)
      → Holds f m (vs ++ v ∷ [])
      → length vs ≡ n
      → store f.temporaries ≡ some ts
      → i < length ts
      → f.temporaries ≢ f.stack
      → (m' : Machine) × (run_all f (store_and_fetch i) m ≡ ok m')
        × Holds f m' (vs ++ v ∷ [])
        × (m'.store f.temporaries ≡ some (set ts i v))
  unfolding run_all dispatch do_special pop_top
  store_and_fetch-Holds i v vs ts h len temps small apart =
      let top =
        sym (get_elem?-take (suc n) h.fields n (omega arith))
        ∙ ap (λ xs. get_elem? xs n) h.values
        ∙ rw len at (at_end vs [] v) in
      let unchanged = set-same h.fields n v top in
      let s₁ : Store = update store f.temporaries (set ts i v) in
      let stack₁ : s₁ f.stack ≡ some h.fields =
        update-other store f.temporaries f.stack (set ts i v) (λ e. apart (sym e)) ∙ h.there in
      let temps₁ : s₁ f.temporaries ≡ some (set ts i v) =
        update-same store f.temporaries (set ts i v) in
      let fetched =
        load-ok s₁ f.temporaries i v (set ts i v) temps₁ (get_elem?-set_self ts i v small) in
      (
        with_top (update s₁ f.stack (set h.fields n v)) n byte_pointer roots,
        rw (
          assigned i v h.fields ts h.there top temps small,
          fetched,
          pushed s₁ v h.fields stack₁ (omega (arith, h.size)),
        ),
        record {
          fields = set h.fields n v;
          there = update-same s₁ f.stack (set h.fields n v);
          size = omega (arith, h.size, length-set h.fields n v);
          values = rw unchanged h.values;
        },
        update-other s₁ f.stack f.temporaries (set h.fields n v) apart ∙ temps₁,
      )
