-- ===== src/Bootstrap/Names/Meaning.antt =====
-- What a name in a method stands for, as bootstrap/bootstrap.c has it in `nameTerm`: the local names hide
-- the reserved ones, these the variables of an object, and these the globals.
use littlesmalltalk.Prelude.{
  ℕ, zero, suc, ◌+◌, ◌≡◌, ◌≢◌, ◌⊎◌, refl, sym, ap, List, [], ◌∷◌, ◌++◌, Option, none, some, true,
  false, length, Bool-cases, inl, inr, arith,
}
use littlesmalltalk.Prelude.Result.{ok}
use littlesmalltalk.Symbols.{Bytes}
use littlesmalltalk.Dictionary.Entries.{bytes_eq, bytes_eq_sound, bytes_eq_refl}
use littlesmalltalk.Bootstrap.Globals.{Globals, find_global, lookup_global_name}
use littlesmalltalk.Bootstrap.Names.{
  place_of_name, lookup_instance, super_name, low_constants, Scope, Term, temporary, argument,
  constant, instance_variable, super, global, class_term, global_term, term_of,
}
use littlesmalltalk.Bootstrap.Names.Layout.{layout, length-layout, NotIn, FirstAt, Nearest}

-- The name is no temporary and no argument.
abbrev pub NotLocal : Scope → Bytes → Type 0
NotLocal scope name = NotIn name scope.temporaries × NotIn name scope.arguments

abbrev pub IsSuper : Bytes → Type 0
IsSuper name = name ≡ b's' ∷ b'u' ∷ b'p' ∷ b'e' ∷ b'r' ∷ []

-- The constants 0, 1 and 2.
abbrev pub IsConstant : Bytes → ℕ → Type 0
IsConstant name zero = name ≡ b'n' ∷ b'i' ∷ b'l' ∷ []
IsConstant name (suc zero) = name ≡ b't' ∷ b'r' ∷ b'u' ∷ b'e' ∷ []
IsConstant name (suc (suc zero)) = name ≡ b'f' ∷ b'a' ∷ b'l' ∷ b's' ∷ b'e' ∷ []
IsConstant name (suc (suc (suc i))) = ⊥

abbrev pub NotReserved : Bytes → Type 0
NotReserved name = ¬ IsSuper name × ¬ IsConstant name 0 × ¬ IsConstant name 1 × ¬ IsConstant name 2

-- There is no class, or an object of it has no variable of that name.
abbrev pub NoVariable : Option (List (List Bytes)) → Bytes → Type 0
NoVariable none name = Unit
NoVariable (some chain) name = NotIn name (layout chain)

abbrev pub HasVariable : Option (List (List Bytes)) → Bytes → ℕ → Type 0
HasVariable none name i = ⊥
HasVariable (some chain) name i = Nearest name chain i

-- The first global of the name is the object.
abbrev pub FirstNamed : Bytes → Globals → ℕ → Type 0
FirstNamed name [] g = ⊥
FirstNamed name ((n, v) ∷ globals) g =
    ((name ≡ n) × (v ≡ g)) ⊎ ((name ≢ n) × FirstNamed name globals g)

-- The name stands for the term.
abbrev pub StandsFor : Scope → Bytes → Term → Type 0
StandsFor scope name (temporary i) = FirstAt name scope.temporaries i
StandsFor scope name (argument i) = NotIn name scope.temporaries × FirstAt name scope.arguments i
StandsFor scope name super = NotLocal scope name × IsSuper name
StandsFor scope name (constant i) = NotLocal scope name × IsConstant name i
StandsFor scope name (instance_variable i) =
    NotLocal scope name × NotReserved name × HasVariable scope.current_class name i
StandsFor scope name (global g) =
    NotLocal scope name
    × NotReserved name
    × NoVariable scope.current_class name
    × FirstNamed name scope.globals g
    × (g ≢ 0)

bytes_eq-ne : (a b : Bytes) → a ≢ b → bytes_eq a b ≡ false
bytes_eq-ne a b ne = elim (Bool-cases (bytes_eq a b)) [
  | inl e ↦ absurd (ne (bytes_eq_sound a b e))
  | inr e ↦ e
]

bytes_eq-same : (a b : Bytes) → a ≡ b → bytes_eq a b ≡ true
bytes_eq-same a b e = rw e (bytes_eq_refl b)

place_of_name-none :
    (name : Bytes) (names : List Bytes) → NotIn name names → place_of_name name names ≡ none
unfolding place_of_name
place_of_name-none name [] h = refl
place_of_name-none name (n ∷ names) (ne, h) =
    rw (bytes_eq-ne name n ne, place_of_name-none name names h) refl

place_of_name-some :
    (name : Bytes) (names : List Bytes) (i : ℕ)
    → FirstAt name names i
    → place_of_name name names ≡ some i
unfolding place_of_name
place_of_name-some name [] i h = absurd h
place_of_name-some name (n ∷ names) zero h = rw (bytes_eq-same name n h) refl
place_of_name-some name (n ∷ names) (suc i) (ne, h) =
    rw (bytes_eq-ne name n ne, place_of_name-some name names i h) (ap some (omega arith))

NotIn-split :
    (name : Bytes) (xs ys : List Bytes) → NotIn name (xs ++ ys) → NotIn name xs × NotIn name ys
NotIn-split name [] ys h = (tt, h)
NotIn-split name (x ∷ xs) ys (ne, h) = (let (p, q) = NotIn-split name xs ys h in ((ne, p), q))

lookup_instance-none :
    (name : Bytes) (chain : List (List Bytes))
    → NotIn name (layout chain)
    → lookup_instance chain name ≡ none
unfolding lookup_instance
lookup_instance-none name [] h = refl
lookup_instance-none name (vars ∷ parents) h =
    let (p, q) = NotIn-split name (layout parents) vars h in
    rw (lookup_instance, place_of_name-none name vars q) (lookup_instance-none name parents p)

lookup_instance-some :
    (name : Bytes) (near : List (List Bytes)) (vars : List Bytes) (parents : List (List Bytes))
    (k : ℕ)
    → NotIn name (layout near)
    → FirstAt name vars k
    → lookup_instance (near ++ vars ∷ parents) name ≡ some (length (layout parents) + k)
unfolding lookup_instance
lookup_instance-some name [] vars parents k h first =
    rw (lookup_instance, place_of_name-some name vars k first)
      (ap (λ t. some (t + k)) (sym (length-layout parents)))
lookup_instance-some name (own ∷ near) vars parents k h first =
    let (p, q) = NotIn-split name (layout near) own h in
    rw (lookup_instance, place_of_name-none name own q)
      (lookup_instance-some name near vars parents k p first)

find_global-first :
    (name : Bytes) (globals : Globals) (g : ℕ)
    → FirstNamed name globals g
    → find_global name globals ≡ some g
unfolding find_global
find_global-first name [] g h = absurd h
find_global-first name ((n, v) ∷ globals) g (inl (e, same)) =
    rw (bytes_eq-same name n e) (ap some same)
find_global-first name ((n, v) ∷ globals) g (inr (ne, h)) =
    rw (bytes_eq-ne name n ne) (find_global-first name globals g h)

global_term-first :
    (scope : Scope) (name : Bytes) (g : ℕ)
    → FirstNamed name scope.globals g
    → g ≢ 0
    → global_term scope name ≡ ok (global g)
unfolding global_term lookup_global_name
global_term-first scope name zero h ne = absurd (ne refl)
global_term-first scope name (suc g) h ne =
    rw (global_term, lookup_global_name, find_global-first name scope.globals (suc g) h) refl

class_term-none :
    (scope : Scope) (name : Bytes)
    → NoVariable scope.current_class name
    → class_term scope name ≡ none
unfolding class_term
class_term-none scope name h = go scope.current_class h
  where
    go :
        (class_ : Option (List (List Bytes)))
        → NoVariable class_ name
        → class_term (record scope { current_class = class_ }) name ≡ none
    go none h = refl
    go (some chain) h = rw (class_term, lookup_instance-none name chain h) refl

class_term-some :
    (scope : Scope) (name : Bytes) (i : ℕ)
    → HasVariable scope.current_class name i
    → class_term scope name ≡ some (instance_variable i)
unfolding class_term
class_term-some scope name i h = go scope.current_class h
  where
    go :
        (class_ : Option (List (List Bytes)))
        → HasVariable class_ name i
        → class_term (record scope { current_class = class_ }) name ≡ some (instance_variable i)
    go none h = absurd h
    go (some chain) h =
        rw
          (
            class_term,
            h.split,
            lookup_instance-some name h.near h.vars h.parents h.k h.not_near h.first,
            h.place,
          )
          refl

-- The order in which `nameTerm` looks finds what the name stands for.
pub term_of-StandsFor :
    (scope : Scope) (name : Bytes) (t : Term) → StandsFor scope name t → term_of scope name ≡ ok t
unfolding term_of place_of_name bytes_eq
term_of-StandsFor scope name (temporary i) h =
    rw (term_of, place_of_name-some name scope.temporaries i h) refl
term_of-StandsFor scope name (argument i) (no_t, h) =
    rw
      (
        term_of,
        place_of_name-none name scope.temporaries no_t,
        place_of_name-some name scope.arguments i h,
      )
      refl
term_of-StandsFor scope name super ((no_t, no_a), h) =
    rw
      (
        term_of,
        place_of_name-none name scope.temporaries no_t,
        place_of_name-none name scope.arguments no_a,
        bytes_eq-same name super_name h,
      )
      refl
term_of-StandsFor scope name (constant zero) ((no_t, no_a), h) =
    rw
      (
        term_of,
        place_of_name-none name scope.temporaries no_t,
        place_of_name-none name scope.arguments no_a,
        h,
      )
      refl
term_of-StandsFor scope name (constant (suc zero)) ((no_t, no_a), h) =
    rw
      (
        term_of,
        place_of_name-none name scope.temporaries no_t,
        place_of_name-none name scope.arguments no_a,
        h,
      )
      refl
term_of-StandsFor scope name (constant (suc (suc zero))) ((no_t, no_a), h) =
    rw
      (
        term_of,
        place_of_name-none name scope.temporaries no_t,
        place_of_name-none name scope.arguments no_a,
        h,
      )
      refl
term_of-StandsFor scope name (constant (suc (suc (suc i)))) (local, h) = absurd h
term_of-StandsFor scope name (instance_variable i) ((no_t, no_a), (no_s, no_0, no_1, no_2), h) =
    rw
      (
        term_of,
        place_of_name-none name scope.temporaries no_t,
        place_of_name-none name scope.arguments no_a,
        bytes_eq-ne name super_name no_s,
        place_of_name-none name low_constants (no_0, (no_1, (no_2, tt))),
        class_term-some scope name i h,
      )
      refl
term_of-StandsFor scope name (global g) ((no_t, no_a), (no_s, no_0, no_1, no_2), no_v, h, ne) =
    rw
      (
        term_of,
        place_of_name-none name scope.temporaries no_t,
        place_of_name-none name scope.arguments no_a,
        bytes_eq-ne name super_name no_s,
        place_of_name-none name low_constants (no_0, (no_1, (no_2, tt))),
        class_term-none scope name no_v,
        global_term-first scope name g h ne,
      )
      refl
