-- ===== src/Bootstrap/Globals.antt =====
-- `addGlobalName` and `lookupGlobalName` of bootstrap/bootstrap.c: the names with their objects, in the
-- order of `globalNames`. A name that is added again is only reported.
use littlesmalltalk.Prelude.{
  ℕ, ◌+◌, ◌<◌, ◌≡◌, refl, ap, ◌∙◌, Bool, true, false, List, [], ◌∷◌, ◌++◌, Option, none, some, leb,
  if◌then◌else◌, Bool-cases, inl, inr, length, length-append, arith,
}
use littlesmalltalk.Prelude.Result.{Result, ok, error}
use littlesmalltalk.Symbols.{Bytes}
use littlesmalltalk.Dictionary.Entries.{bytes_eq}

abbrev pub max_globals : ℕ
max_globals = 500

abbrev pub Globals : Type 0
Globals = List (Bytes × ℕ)

unfoldable pub add_global_name : Bytes → ℕ → Globals → Result Globals
add_global_name name value globals =
    if leb max_globals (length globals + 1) then error else ok (globals ++ (name, value) ∷ [])

-- `strcmp(name, globalNames[i]) == 0`, from the first name on.
unfoldable pub find_global : Bytes → Globals → Option ℕ
find_global name [] = none
find_global name ((n, v) ∷ globals) = if bytes_eq name n then some v else find_global name globals

-- The NULL that a missing name gives is 0.
unfoldable pub lookup_global_name : Bytes → Bool → Globals → Result ℕ
lookup_global_name name ok_missing globals = elim (find_global name globals) [
  | some v ↦ ok v
  | none ↦ if ok_missing then ok 0 else error
]

-- The object of a name after one more was added: the first that was added under it.
abbrev pub first_added : Bytes → ℕ → Bytes → Option ℕ → Option ℕ
first_added name value other (some v) = some v
first_added name value other none = if bytes_eq other name then some value else none

find_global-append :
    (name : Bytes) (value : ℕ) (other : Bytes) (globals : Globals)
    → find_global other (globals ++ (name, value) ∷ [])
      ≡ first_added name value other (find_global other globals)
unfolding find_global
find_global-append name value other [] = refl
find_global-append name value other ((n, v) ∷ globals) = elim (Bool-cases (bytes_eq other n)) [
  | inl e ↦ rw e
  | inr ne ↦ rw ne (find_global-append name value other globals)
]

abbrev pub answer : Bool → Option ℕ → Result ℕ
answer ok_missing (some v) = ok v
answer true none = ok 0
answer false none = error

lookup_answer :
    (name : Bytes) (ok_missing : Bool) (globals : Globals)
    → lookup_global_name name ok_missing globals ≡ answer ok_missing (find_global name globals)
unfolding lookup_global_name
lookup_answer name ok_missing globals = go (find_global name globals) ok_missing
  where
    go :
        (o : Option ℕ) (b : Bool)
        → elim o [ some v ↦ ok v | none ↦ if b then ok 0 else error ] ≡ answer b o
    go (some v) b = refl
    go none true = refl
    go none false = refl

-- `addGlobalName` returns where the table keeps a free place, and `lookupGlobalName` of any name then
-- gives the object it had before if it had one, the new object if it is the new name, and otherwise
-- NULL or `error`.
pub add_global_name-lookup_global_name :
    (name : Bytes) (value : ℕ) (other : Bytes) (ok_missing : Bool) (globals : Globals)
    → length globals + 1 < max_globals
    → (globals' : Globals) × (add_global_name name value globals ≡ ok globals')
      × (length globals' < max_globals)
      × (lookup_global_name other ok_missing globals'
          ≡ answer ok_missing (first_added name value other (find_global other globals)))
unfolding add_global_name
add_global_name-lookup_global_name name value other ok_missing globals room =
    let free : leb max_globals (length globals + 1) ≡ false = ground arith in
    (
      globals ++ (name, value) ∷ [],
      rw free,
      omega (arith, length-append globals ((name, value) ∷ [])),
      lookup_answer other ok_missing (globals ++ (name, value) ∷ [])
          ∙ ap (answer ok_missing) (find_global-append name value other globals),
    )
