-- ===== src/Bootstrap/Names/Tests.antt =====
-- A class with a variable of its own and one that it inherits.
use littlesmalltalk.Prelude.{
  ℕ, ◌≡◌, ◌≢◌, ◌⊎◌, refl, List, [], ◌∷◌, none, some, false, get_elem?, length-replicate, replicate,
  arith,
}
use littlesmalltalk.Prelude.Result.{ok}
use littlesmalltalk.Symbols.{Bytes}
use littlesmalltalk.Dictionary.Entries.{bytes_eq, bytes_eq_refl}
use littlesmalltalk.Bootstrap.Names.{lookup_instance, instance_variable, Scope, Compiled, name_term}
use littlesmalltalk.Bootstrap.Names.Meaning.{StandsFor}
use littlesmalltalk.Bootstrap.Names.Layout.{layout, NotIn, Nearest, lookup_instance-layout}
use littlesmalltalk.Bootstrap.Names.Terms.{Generated, name_term-Generated}

abbrev some_chain : List (List Bytes)
some_chain = ((b'x' ∷ []) ∷ []) ∷ ((b'y' ∷ []) ∷ (b'z' ∷ []) ∷ []) ∷ []

lookup_instance-layout_example :
    ((lookup_instance some_chain (b'z' ∷ []) ≡ none) × NotIn (b'z' ∷ []) (layout some_chain))
    ⊎ ((i : ℕ) × (lookup_instance some_chain (b'z' ∷ []) ≡ some i)
        × Nearest (b'z' ∷ []) some_chain i
        × (get_elem? (layout some_chain) i ≡ some (b'z' ∷ [])))
lookup_instance-layout_example = lookup_instance-layout some_chain (b'z' ∷ [])

abbrev some_scope : Scope
some_scope = record {
  temporaries = (b't' ∷ []) ∷ [];
  arguments = (b'a' ∷ []) ∷ [];
  current_class = some some_chain;
  globals = [];
}

abbrev nothing_yet : Compiled
nothing_yet = record {
  code = record { places = replicate 2048 0; top = 0 };
  literals = record { places = replicate 1000 0; top = 0 };
  super_message = false;
}

differ : (a b : Bytes) → bytes_eq a b ≡ false → a ≢ b
differ a b miss e = cc (rw e at miss, bytes_eq_refl b)

-- Behind the two variables of the parent.
stands_for : StandsFor some_scope (b'x' ∷ []) (instance_variable 2)
unfolding bytes_eq
stands_for = (
  ((differ _ _ refl, tt), (differ _ _ refl, tt)),
  (differ _ _ refl, differ _ _ refl, differ _ _ refl, differ _ _ refl),
  record {
    near = [];
    vars = (b'x' ∷ []) ∷ [];
    parents = ((b'y' ∷ []) ∷ (b'z' ∷ []) ∷ []) ∷ [];
    k = 0;
    split = refl;
    not_near = tt;
    first = refl;
    place = refl;
  },
)

name_term-Generated_example :
    (c' : Compiled) × (name_term some_scope (b'x' ∷ []) nothing_yet ≡ ok c')
    × Generated (instance_variable 2) nothing_yet c' (7 ∷ [])
name_term-Generated_example =
    name_term-Generated nothing_yet (7 ∷ [])
      (record { size = length-replicate {A = ℕ} 2048 0; room = omega arith }) (omega arith)
      (record { size = length-replicate {A = ℕ} 1000 0; room = omega arith }) (omega arith)
      some_scope (b'x' ∷ []) (instance_variable 2) stands_for
