-- ===== src/Bootstrap/Names.antt =====
-- What a name means in a method (bootstrap/bootstrap.c): `addArgument`, `addTemporary`, `lookupInstance`,
-- and `nameTerm`, which generates the instruction that pushes it. A name is its bytes; the chain of a
-- class has the names of its own variables first, then those of its parents.
pub mod Layout
pub mod Meaning
pub mod Terms
pub mod Tests
use littlesmalltalk.Prelude.{
  ℕ, zero, suc, ◌+◌, ◌-◌, Bool, true, false, List, [], ◌∷◌, ◌++◌, Option, none, some, leb,
  if◌then◌else◌, length,
}
use littlesmalltalk.Prelude.Result.{Result, ok, error, ◌>>=◌}
use littlesmalltalk.Symbols.{Bytes}
use littlesmalltalk.Dictionary.Entries.{bytes_eq}
use littlesmalltalk.CodeGen.{Buffer, gen_instruction, add_literal}
use littlesmalltalk.Bootstrap.Globals.{Globals, lookup_global_name}

-- `for (i = 0; …; i++) if (strcmp(name, names[i]) == 0)`
unfoldable pub place_of_name : Bytes → List Bytes → Option ℕ
place_of_name name [] = none
place_of_name name (n ∷ names) =
    if bytes_eq name n
    then some 0
    else elim (place_of_name name names) [ none ↦ none | some i ↦ some (i + 1) ]

abbrev argument_buffer_top : ℕ
argument_buffer_top = 64

-- `argumentNames[argumentTop++] = p; if (argumentTop >= ArgumentBufferTop) error(…);`
unfoldable pub add_argument : Bytes → List Bytes → Result (List Bytes)
add_argument name names =
    if leb argument_buffer_top (length names + 1) then error else ok (names ++ name ∷ [])

-- The names of the temporaries, and `maxTemp`.
pub record Temporaries : Type 0 where
  pub names : List Bytes
  pub max_temp : ℕ

abbrev temp_buffer_top : ℕ
temp_buffer_top = 500

unfoldable pub add_temporary : Bytes → Temporaries → Result Temporaries
add_temporary name t =
    let top = length t.names + 1 in
    if leb temp_buffer_top top
    then error
    else ok (record {
      names = t.names ++ name ∷ [];
      max_temp = if leb top t.max_temp then t.max_temp else top;
    })

-- The variables of the parent classes.
unfoldable pub inherited_size : List (List Bytes) → ℕ
inherited_size [] = 0
inherited_size (vars ∷ parents) = length vars + inherited_size parents

-- No place is the source's -1.
unfoldable pub lookup_instance : List (List Bytes) → Bytes → Option ℕ
lookup_instance [] name = none
lookup_instance (vars ∷ parents) name = elim (place_of_name name vars) [
  | some i ↦ some (inherited_size parents + i)
  | none ↦ lookup_instance parents name
]

-- What `nameTerm` reads: `tempBuffer`, `argumentNames`, the class, if there is one, and the globals.
pub record Scope : Type 0 where
  pub temporaries : List Bytes
  pub arguments : List Bytes
  pub current_class : Option (List (List Bytes))
  pub globals : Globals

-- What it changes: the code, the literals and `superMessage`.
pub record Compiled : Type 0 where
  pub code : Buffer ℕ
  pub literals : Buffer ℕ
  pub super_message : Bool

abbrev pub super_name : Bytes
super_name = b's' ∷ b'u' ∷ b'p' ∷ b'e' ∷ b'r' ∷ []

abbrev pub low_constants : List Bytes
low_constants =
    (b'n' ∷ b'i' ∷ b'l' ∷ [])
    ∷ (b't' ∷ b'r' ∷ b'u' ∷ b'e' ∷ [])
    ∷ (b'f' ∷ b'a' ∷ b'l' ∷ b's' ∷ b'e' ∷ [])
    ∷ []

-- What a name stands for.
pub data Term : Type 0 where
  temporary argument constant instance_variable : ℕ → Term
  super : Term
  global : ℕ → Term

-- A variable of the current class, or else a global; NULL is none.
unfoldable pub class_term : Scope → Bytes → Option Term
class_term scope name = elim scope.current_class [
  | some chain ↦ elim (lookup_instance chain name) [
    | some i ↦ some (instance_variable i)
    | none ↦ none
  ]
  | none ↦ none
]

unfoldable pub global_term : Scope → Bytes → Result Term
global_term scope name = lookup_global_name name true scope.globals >>= λ glob. elim glob [
  | zero ↦ error
  | suc g ↦ ok (global (suc g))
]

-- The order in which `nameTerm` looks.
unfoldable pub term_of : Scope → Bytes → Result Term
term_of scope name = elim (place_of_name name scope.temporaries) [
  | some i ↦ ok (temporary i)
  | none ↦ elim (place_of_name name scope.arguments) [
    | some i ↦ ok (argument i)
    | none ↦
        if bytes_eq name super_name then ok super else elim (place_of_name name low_constants) [
          | some i ↦ ok (constant i)
          | none ↦ elim (class_term scope name) [ some t ↦ ok t | none ↦ global_term scope name ]
        ]
  ]
]

-- `genInstruction` of the opcode with the operand; two calls of it are enough.
abbrev gen : ℕ → ℕ → Compiled → Result Compiled
gen a b c = gen_instruction 2 a b c.code >>= λ code. ok (record c { code = code })

unfoldable pub gen_term : Term → Compiled → Result Compiled
gen_term (temporary i) c = gen 3 i c
gen_term (argument i) c = gen 2 i c
gen_term (constant i) c = gen 5 (10 + i) c
gen_term (instance_variable i) c = gen 1 i c
gen_term super c = gen 2 0 c >>= λ c'. ok (record c' { super_message = true })
gen_term (global g) c =
    add_literal g c.literals >>= λ (i, literals). gen 4 i (record c { literals = literals })

unfoldable pub name_term : Scope → Bytes → Compiled → Result Compiled
name_term scope name c = term_of scope name >>= λ t. gen_term t c
