-- ===== src/Contexts/Sends/Ready.antt =====
-- What a send (vm/interp.c) needs of the machine and what it leaves, and reads past the saved place.
use littlesmalltalk.Prelude.{
  ℕ, ◌+◌, ◌*◌, ◌≤◌, ◌≡◌, ◌≢◌, refl, sym, ap, ◌∙◌, List, [], ◌∷◌, replicate, none, some, length,
  get_elem?, set, arith, Bool-cases, ◌==◌, ==_iff, inl, inr, get_elem?-set_ne, get_elem?-set_self,
  length-set,
}
use littlesmalltalk.Prelude.Int.{ℤ, pos, pos_part}
use littlesmalltalk.Prelude.Result.{Result, ok, >>=-eq-ok, access, access-ok, fault}
use littlesmalltalk.Image.Graph.{Oop, null, small, ref, Body, fields, bytes, Object}
use littlesmalltalk.Image.Files.{in_heap, field_of, fields_of}
use littlesmalltalk.Contexts.{Memory, Known, Machine, get, new_integer, byte_at}
use littlesmalltalk.Contexts.Yields.{object, get-at}
use littlesmalltalk.Contexts.Fresh.{IsFree}
use littlesmalltalk.Contexts.Sends.{return_to}
use littlesmalltalk.Contexts.Sends.Framed.{AreTemporaries}

-- What a send needs to know of the machine: the byte `b` behind the instruction, the context at `c` with
-- its fields, and the method found with its sizes.
pub record Ready (m : Machine) : Type 0 where
  pub b : ℕ
  pub c : ℕ
  pub cc : Oop
  pub cs : List Oop
  pub mth : ℕ
  pub mc : Oop
  pub ms : List Oop
  pub low : ℤ
  pub x : ℕ
  pub bp : Oop
  pub next_byte : byte_at m m.byte_pointer ≡ ok b
  pub context : m.context ≡ ref c
  pub context_there : m.memory.heap c ≡ some (object cc cs)
  pub context_size : 7 ≤ length cs
  pub method : m.method ≡ ref mth
  pub method_there : m.memory.heap mth ≡ some (object mc ms)
  pub apart : mth ≢ c
  pub byte_codes : get_elem? ms 1 ≡ some bp
  pub stack_size : get_elem? ms 3 ≡ some (small (pos x))
  pub temporary_size : get_elem? ms 4 ≡ some (small low)
  pub free : IsFree m.memory
  pub room :
      m.memory.memory_base + (8 * (x + 2) + 8 * (pos_part low + 2) + 72) ≤ m.memory.memory_pointer
  pub roots : length m.memory.root_stack + 5 ≤ 2000

-- The context of the sender with the place saved in it.
abbrev pub saved : Machine → List Oop → List Oop
saved m cs = set (set cs 5 (new_integer m.stack_top)) 4 (new_integer m.byte_pointer)

module _ (m : Machine) (cs : List Oop) where
  pub saved-other :
      (i : ℕ) (v : Oop)
      → i ≢ 4
      → i ≢ 5
      → get_elem? cs i ≡ some v
      → get_elem? (saved m cs) i ≡ some v
  saved-other i v not_4 not_5 at =
      get_elem?-set_ne (set cs 5 (new_integer m.stack_top)) (new_integer m.byte_pointer)
        (λ e. not_4 (sym e))
      ∙ get_elem?-set_ne cs (new_integer m.stack_top) (λ e. not_5 (sym e))
      ∙ at

  pub saved_place :
      7 ≤ length cs
      → (get_elem? (saved m cs) 5 ≡ some (new_integer m.stack_top))
        × (get_elem? (saved m cs) 4 ≡ some (new_integer m.byte_pointer))
  saved_place size = (
    get_elem?-set_ne (set cs 5 (new_integer m.stack_top)) (new_integer m.byte_pointer)
          (λ e. omega arith)
        ∙ get_elem?-set_self cs 5 (new_integer m.stack_top) (omega arith),
    get_elem?-set_self (set cs 5 (new_integer m.stack_top)) 4 (new_integer m.byte_pointer)
        (omega (arith, length-set cs 5 (new_integer m.stack_top))),
  )

-- What the send has made of the machine: a new context that returns to `back`, with a stack of NULLs
-- and its temporaries, at their first instruction; the sender's place is saved, and all other objects are
-- as they were.
pub record Called (k : Known) (m : Machine) (r : Ready m) (back : Oop) (m' : Machine) : Type 0 where
  pub n : ℕ
  pub s : ℕ
  pub temporaries : Oop
  pub context : m'.context ≡ ref n
  pub new : m.memory.heap n ≡ none
  pub there :
      m'.memory.heap n
      ≡ some (
          object (ref k.context_class) (
            m.method
            ∷ m.arguments
            ∷ temporaries
            ∷ ref s
            ∷ new_integer 0
            ∷ new_integer 0
            ∷ back
            ∷ []))
  pub stack_new : m.memory.heap s ≡ none
  pub stack : m'.memory.heap s ≡ some (object (ref k.array_class) (replicate r.x null))
  pub are_temporaries : AreTemporaries k r.low m'.memory.heap temporaries
  pub place : m'.memory.heap r.c ≡ some (object r.cc (saved m r.cs))
  pub keeps : (b : ℕ) (o : Object) → b ≢ r.c → m.memory.heap b ≡ some o → m'.memory.heap b ≡ some o
  pub roots : m'.memory.root_stack ≡ m.memory.root_stack
  pub registers :
      (m'.method ≡ m.method)
      × (m'.arguments ≡ m.arguments)
      × (m'.temporaries ≡ temporaries)
      × (m'.stack ≡ ref s)
      × (m'.bp ≡ r.bp)
      × (m'.stack_top ≡ 0)
      × (m'.byte_pointer ≡ 0)

-- A read that returns has an object with the field.
record Reads (m : Memory) (o : Oop) (i : ℕ) (v : Oop) : Type 0 where
  a : ℕ
  c : Oop
  os : List Oop
  is_ref : o ≡ ref a
  there : m.heap a ≡ some (object c os)
  at : get_elem? os i ≡ some v

of_fields :
    (c : Oop) (b : Body) (os : List Oop)
    → (elim b as (λ x. Result (List Oop)) [ fields os' ↦ ok os' | bytes bs ↦ fault ]) ≡ ok os
    → record { class_ = c; body = b } ≡ object c os
of_fields c (fields os') os h = (let same : os' ≡ os = ground arith in rw same refl)
of_fields c (bytes bs) os h = cc

get-inv : (m : Memory) (o : Oop) (i : ℕ) (v : Oop) → get m o i ≡ ok v → Reads m o i v
unfolding field_of fields_of
get-inv m null i v h = cc
get-inv m (small n) i v h = cc
get-inv m (ref a) i v h =
    let (os, first, at) = >>=-eq-ok (fields_of (in_heap m.heap) (ref a)) _ h in
    let (x, there, body) = >>=-eq-ok (access (m.heap a)) _ first in
    record {
      a = a;
      c = x.class_;
      os = os;
      is_ref = refl;
      there = access-ok (m.heap a) there ∙ ap some (of_fields x.class_ x.body os body);
      at = access-ok (get_elem? os i) at;
    }

module _ (m : Machine) (r : Ready m) (m₉ : Memory)
    (place : m₉.heap r.c ≡ some (object r.cc (saved m r.cs)))
    (keeps : (b : ℕ) (o : Object) → b ≢ r.c → m.memory.heap b ≡ some o → m₉.heap b ≡ some o) where
  -- The fields other than those of the place are read as before.
  get-saved :
      (o : Oop) (i : ℕ) (v : Oop) → i ≢ 4 → i ≢ 5 → get m.memory o i ≡ ok v → get m₉ o i ≡ ok v
  get-saved o i v not_4 not_5 h =
      let q = get-inv m.memory o i v h in
      rw q.is_ref (elim (Bool-cases (q.a == r.c)) [
        | inr other ↦
            get-at m₉ q.a i q.c v q.os (keeps q.a _ (λ e. cc (other, (==_iff q.a r.c).1 e)) q.there)
              q.at
        | inl hit ↦
            let e : q.a ≡ r.c = (==_iff q.a r.c).0 hit in
            let same : some (object q.c q.os) ≡ some (object r.cc r.cs) =
              sym q.there ∙ ap m.memory.heap e ∙ r.context_there in
            let fields_same : q.os ≡ r.cs = ground arith in
            rw e (
              get-at m₉ r.c i r.cc v (saved m r.cs) place
                (saved-other m r.cs i v not_4 not_5 (rw (← fields_same) q.at)))
      ])

  pub return_to-saved :
      (high : ℕ) (o back : Oop)
      → return_to m.memory high o ≡ ok back
      → return_to m₉ high o ≡ ok back
  unfolding return_to
  return_to-saved high o back h = elim (Bool-cases (high == 1)) [
    | inl one ↦ rw one (get-saved o 6 back (λ e. omega arith) (λ e. omega arith) (rw one at h))
    | inr not_one ↦ elim (Bool-cases (high == 2)) [
      | inl two ↦
          let (creator, first, second) = >>=-eq-ok (get m.memory o 8) _ (rw (not_one, two) at h) in
          rw (not_one, two, get-saved o 8 creator (λ e. omega arith) (λ e. omega arith) first)
            (get-saved creator 6 back (λ e. omega arith) (λ e. omega arith) second)
      | inr not_two ↦ rw (not_one, not_two) (rw (not_one, not_two) at h)
    ]
  ]
