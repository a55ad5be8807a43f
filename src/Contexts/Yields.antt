-- ===== src/Contexts/Yields.antt =====
-- Steps of the interpreter that return, and what they leave of the object memory (vm/interp.c).
use littlesmalltalk.Prelude.{
  ℕ, ◌<◌, ◌≡◌, ◌≢◌, refl, sym, ◌∙◌, inl, inr, List, ◌∷◌, map, some, ◌==◌, ==_iff, lt→ltb, false,
  Bool-cases, length, get_elem?, set, arith,
}
use littlesmalltalk.Prelude.Result.{Result, ok, ◌>>=◌}
use littlesmalltalk.Image.Graph.{Oop, ref, fields, Object, Heap}
use littlesmalltalk.Image.Files.{field_of, fields_of}
use littlesmalltalk.Contexts.{
  Memory, get, put, put_object, change, fill, set_class, push_root, pop_root,
}

-- A run that returns a value with the property.
pub record Yields {A : Type 0} (P : A → Type 0) (r : Result A) : Type 0 where
  pub result : A
  pub returns : r ≡ ok result
  pub holds : P result

pub Yields-ok : {A : Type 0} {P : A → Type 0} (a : A) → P a → Yields P (ok a)
Yields-ok a p = record { result = a; returns = refl; holds = p }

pub Yields->>= :
    {A B : Type 0} {P : A → Type 0} {Q : B → Type 0} {r : Result A} (f : A → Result B)
    → Yields P r
    → ((a : A) → P a → Yields Q (f a))
    → Yields Q (r >>= f)
Yields->>= f first next =
    let then_ = next first.result first.holds in
    record { result = then_.result; returns = rw first.returns then_.returns; holds = then_.holds }

abbrev pub object : Oop → List Oop → Object
object c os = record { class_ = c; body = fields os }

-- The heap is `h` but for the object at `n`.
abbrev pub Only : Heap → Memory → ℕ → Object → Type 0
Only h m n o = (m.heap n ≡ some o) × ((b : ℕ) → b ≢ n → m.heap b ≡ h b)

-- What no access to an object changes.
abbrev pub SameBounds : Memory → Memory → Type 0
SameBounds m m' =
    (m'.root_stack ≡ m.root_stack)
    × (m'.memory_pointer ≡ m.memory_pointer)
    × (m'.memory_base ≡ m.memory_base)

pub put_object-at : (m : Memory) (a : ℕ) (o : Object) → (put_object m a o).heap a ≡ some o
put_object-at m a o = rw ((==_iff a a).1 refl) refl

pub put_object-other :
    (m : Memory) (a b : ℕ) (o : Object) → b ≢ a → (put_object m a o).heap b ≡ m.heap b
put_object-other m a b o ne = (let no_match : (b == a) ≡ false = ground arith in rw no_match refl)

pub get-at :
    (m : Memory) (a i : ℕ) (c v : Oop) (os : List Oop)
    → m.heap a ≡ some (object c os)
    → get_elem? os i ≡ some v
    → get m (ref a) i ≡ ok v
unfolding field_of fields_of
get-at m a i c v os there at = rw (there, at) refl

pub put-Only :
    (h : Heap) (m : Memory) (n i : ℕ) (c v : Oop) (os : List Oop)
    → Only h m n (object c os)
    → i < length os
    → Yields (λ m'. Only h m' n (object c (set os i v)) × SameBounds m m') (put m (ref n) i v)
unfolding change
put-Only h m n i c v os (there, same) inside = record {
  result = put_object m n (object c (set os i v));
  returns = rw (there, lt→ltb i (length os) inside) refl;
  holds = (
    (
      put_object-at m n (object c (set os i v)),
      λ b ne. put_object-other m n b (object c (set os i v)) ne ∙ same b ne,
    ),
    (refl, refl, refl),
  );
}

pub fill-Only :
    (h : Heap) (m : Memory) (n : ℕ) (c v : Oop) (os : List Oop)
    → Only h m n (object c os)
    → Yields (λ m'. Only h m' n (object c (map (λ old. v) os)) × SameBounds m m') (fill m (ref n) v)
unfolding change
fill-Only h m n c v os (there, same) = record {
  result = put_object m n (object c (map (λ old. v) os));
  returns = rw there refl;
  holds = (
    (
      put_object-at m n (object c (map (λ old. v) os)),
      λ b ne. put_object-other m n b (object c (map (λ old. v) os)) ne ∙ same b ne,
    ),
    (refl, refl, refl),
  );
}

-- The class that the object has already.
pub set_class-Only :
    (h : Heap) (m : Memory) (n s : ℕ) (o : Object) (c : Oop) (os : List Oop)
    → Only h m n o
    → s ≢ n
    → h s ≡ some (object c os)
    → Yields (λ m'. Only h m' n o × SameBounds m m') (set_class m (ref s) c)
unfolding set_class
set_class-Only h m n s o c os (there, same) ne at = record {
  result = put_object m s (object c os);
  returns = rw (same s ne, at) refl;
  holds = (
    (
      put_object-other m s n (object c os) (λ e. ne (sym e)) ∙ there,
      λ b other. elim (Bool-cases (b == s)) [
        | inl hit ↦
            let e : b ≡ s = (==_iff b s).0 hit in rw e (put_object-at m s (object c os) ∙ sym at)
        | inr miss ↦
            put_object-other m s b (object c os) (λ e. cc (miss, (==_iff b s).1 e)) ∙ same b other
      ],
    ),
    (refl, refl, refl),
  );
}

pub pop_root-ok :
    (m : Memory) (o : Oop) (os : List Oop)
    → m.root_stack ≡ o ∷ os
    → pop_root m ≡ ok (o, record m { root_stack = os })
unfolding pop_root
pop_root-ok m o os e = rw e refl

pub push_root-ok :
    (m : Memory) (o : Oop)
    → length m.root_stack < 2000
    → push_root o m ≡ ok (record m { root_stack = o ∷ m.root_stack })
unfolding push_root
push_root-ok m o h = rw (lt→ltb (length m.root_stack) 2000 h) refl

pub Yields-map :
    {A : Type 0} {P Q : A → Type 0} {r : Result A} → Yields P r → ((a : A) → P a → Q a) → Yields Q r
Yields-map y f = record { result = y.result; returns = y.returns; holds = f y.result y.holds }
