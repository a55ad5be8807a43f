-- ===== src/Bootstrap/Names/Layout.antt =====
-- `lookupInstance` of bootstrap/bootstrap.c finds the place of a variable in an object of the class.
use littlesmalltalk.Prelude.{
  ℕ, zero, suc, ◌+◌, ◌≡◌, ◌≢◌, ◌⊎◌, refl, sym, ap, ◌∙◌, List, [], ◌∷◌, ◌++◌, none, some, length,
  length-append, get_elem?, get_elem?-append_left, get_elem?-append_right, Bool-cases, inl, inr,
  arith,
}
use littlesmalltalk.Symbols.{Bytes}
use littlesmalltalk.Dictionary.Entries.{bytes_eq, bytes_eq_sound, bytes_eq_refl}
use littlesmalltalk.Dictionary.Search.{lt-length}
use littlesmalltalk.Bootstrap.Names.{place_of_name, inherited_size, lookup_instance}

-- The variables of an object of the class in their order: those of the parents come first.
abbrev pub layout : List (List Bytes) → List Bytes
layout [] = []
layout (vars ∷ parents) = layout parents ++ vars

-- The name is at no place.
abbrev pub NotIn : Bytes → List Bytes → Type 0
NotIn name [] = Unit
NotIn name (n ∷ names) = (name ≢ n) × NotIn name names

-- The name is at the place, and at none before it.
abbrev pub FirstAt : Bytes → List Bytes → ℕ → Type 0
FirstAt name [] i = ⊥
FirstAt name (n ∷ names) zero = name ≡ n
FirstAt name (n ∷ names) (suc i) = (name ≢ n) × FirstAt name names i

pub place_of_name-cases :
    (name : Bytes) (names : List Bytes)
    → ((place_of_name name names ≡ none) × NotIn name names)
      ⊎ ((i : ℕ) × (place_of_name name names ≡ some i) × FirstAt name names i)
unfolding place_of_name
place_of_name-cases name [] = inl (refl, tt)
place_of_name-cases name (n ∷ names) = elim (Bool-cases (bytes_eq name n)) [
  | inl hit ↦ inr (0, rw hit refl, bytes_eq_sound name n hit)
  | inr miss ↦
      let other : name ≢ n = λ e. cc (rw e at miss, bytes_eq_refl n) in
      elim (place_of_name-cases name names) [
        | inl (missing, absent) ↦ inl (rw (miss, missing) refl, (other, absent))
        | inr (i, found, first) ↦
            inr (suc i, rw (miss, found) (ap some (omega arith)), (other, first))
      ]
]

FirstAt-at :
    (name : Bytes) (names : List Bytes) (i : ℕ)
    → FirstAt name names i
    → get_elem? names i ≡ some name
FirstAt-at name [] i h = absurd h
FirstAt-at name (n ∷ names) zero h = ap some (sym h)
FirstAt-at name (n ∷ names) (suc i) (other, h) = FirstAt-at name names i h

pub length-layout : (chain : List (List Bytes)) → length (layout chain) ≡ inherited_size chain
unfolding inherited_size
length-layout [] = refl
length-layout (vars ∷ parents) =
    omega (arith, length-append (layout parents) vars, length-layout parents)

NotIn-append :
    (name : Bytes) (xs ys : List Bytes) → NotIn name xs → NotIn name ys → NotIn name (xs ++ ys)
NotIn-append name [] ys p q = q
NotIn-append name (x ∷ xs) ys (p, ps) q = (p, NotIn-append name xs ys ps q)

-- The class is the nearest one that has the name among its own variables, at place `k` first, and `i` is
-- the place in the layout.
pub record Nearest (name : Bytes) (chain : List (List Bytes)) (i : ℕ) : Type 0 where
  pub near : List (List Bytes)
  pub vars : List Bytes
  pub parents : List (List Bytes)
  pub k : ℕ
  pub split : chain ≡ near ++ vars ∷ parents
  pub not_near : NotIn name (layout near)
  pub first : FirstAt name vars k
  pub place : i ≡ length (layout parents) + k

-- Either the name is no variable of an object of the class, and `lookupInstance` returns -1, or it returns
-- the place of the name in the object: in the variables of the nearest class on the chain that has it,
-- behind those of the parents of that class.
pub lookup_instance-layout :
    (chain : List (List Bytes)) (name : Bytes)
    → ((lookup_instance chain name ≡ none) × NotIn name (layout chain))
      ⊎ ((i : ℕ) × (lookup_instance chain name ≡ some i)
          × Nearest name chain i
          × (get_elem? (layout chain) i ≡ some name))
unfolding lookup_instance
lookup_instance-layout [] name = inl (refl, tt)
lookup_instance-layout (vars ∷ parents) name = elim (place_of_name-cases name vars) [
  | inr (k, found, first) ↦ inr (
    inherited_size parents + k,
    rw (lookup_instance, found) refl,
    record {
      near = [];
      vars = vars;
      parents = parents;
      k = k;
      split = refl;
      not_near = tt;
      first = first;
      place = ap (λ t. t + k) (sym (length-layout parents));
    },
    rw (← length-layout parents)
        (get_elem?-append_right (layout parents) vars k ∙ FirstAt-at name vars k first),
  )
  | inl (missing, absent) ↦ elim (lookup_instance-layout parents name) [
    | inl (nowhere, not_there) ↦ inl (
      rw (lookup_instance, missing, nowhere) refl,
      NotIn-append name (layout parents) vars not_there absent,
    )
    | inr (i, found, nearest, at) ↦ inr (
      i,
      rw (lookup_instance, missing, found) refl,
      record {
        near = vars ∷ nearest.near;
        vars = nearest.vars;
        parents = nearest.parents;
        k = nearest.k;
        split = ap (λ t. vars ∷ t) nearest.split;
        not_near = NotIn-append name (layout nearest.near) vars nearest.not_near absent;
        first = nearest.first;
        place = nearest.place;
      },
      get_elem?-append_left (layout parents) vars i (lt-length (layout parents) i at) ∙ at,
    )
  ]
]
