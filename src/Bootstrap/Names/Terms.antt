-- ===== src/Bootstrap/Names/Terms.antt =====
-- `nameTerm` of bootstrap/bootstrap.c generates an instruction that the interpreter decodes as the push of
-- what the name stands for.
use littlesmalltalk.Prelude.{
  ℕ, ◌+◌, ◌<◌, ◌≡◌, refl, List, [], ◌∷◌, ◌++◌, some, true, get_elem?, arith,
}
use littlesmalltalk.Prelude.Result.{ok}
use littlesmalltalk.Symbols.{Bytes}
use littlesmalltalk.CodeGen.{byte_buffer_top, max_literals, build_literal_array}
use littlesmalltalk.CodeGen.Buffers.{IsBuffer, filled}
use littlesmalltalk.CodeGen.Decoding.{Emitted, gen_instruction-decode}
use littlesmalltalk.CodeGen.Literals.{add_literal-build_literal_array}
use littlesmalltalk.Bootstrap.Names.{
  Term, temporary, argument, constant, instance_variable, super, global, Scope, Compiled, gen_term,
  name_term,
}
use littlesmalltalk.Bootstrap.Names.Meaning.{StandsFor, term_of-StandsFor}

-- The opcode of the push.
abbrev pub opcode : Term → ℕ
opcode (temporary i) = 3
opcode (argument i) = 2
opcode (constant i) = 5
opcode (instance_variable i) = 1
opcode super = 2
opcode (global g) = 4

-- Its operand: a global is the next literal.
abbrev pub operand : Term → Compiled → ℕ
operand (temporary i) c = i
operand (argument i) c = i
operand (constant i) c = 10 + i
operand (instance_variable i) c = i
operand super c = 0
operand (global g) c = c.literals.top

-- A global is the next literal, and no other term changes the literals.
abbrev pub LiteralsAfter : Term → Compiled → Compiled → Type 0
LiteralsAfter (global g) c c' =
    IsBuffer max_literals c'.literals
    × (build_literal_array c'.literals ≡ some (filled c.literals ++ g ∷ []))
    × (get_elem? (filled c.literals ++ g ∷ []) c.literals.top ≡ some g)
LiteralsAfter (temporary i) c c' = c'.literals ≡ c.literals
LiteralsAfter (argument i) c c' = c'.literals ≡ c.literals
LiteralsAfter (constant i) c c' = c'.literals ≡ c.literals
LiteralsAfter (instance_variable i) c c' = c'.literals ≡ c.literals
LiteralsAfter super c c' = c'.literals ≡ c.literals

-- `superMessage` is set by `super` and by no other term.
abbrev pub SuperAfter : Term → Compiled → Compiled → Type 0
SuperAfter super c c' = c'.super_message ≡ true
SuperAfter (temporary i) c c' = c'.super_message ≡ c.super_message
SuperAfter (argument i) c c' = c'.super_message ≡ c.super_message
SuperAfter (constant i) c c' = c'.super_message ≡ c.super_message
SuperAfter (instance_variable i) c c' = c'.super_message ≡ c.super_message
SuperAfter (global g) c c' = c'.super_message ≡ c.super_message

-- The push was generated, with the literal that it needs.
abbrev pub Generated : Term → Compiled → Compiled → List ℕ → Type 0
Generated t c c' later =
    Emitted (opcode t) (operand t c) c.code c'.code later × LiteralsAfter t c c' × SuperAfter t c c'

module _ (c : Compiled) (later : List ℕ) (code : IsBuffer byte_buffer_top c.code)
    (room : c.code.top + 2 < byte_buffer_top) (literals : IsBuffer max_literals c.literals)
    (literal_room : c.literals.top + 1 < max_literals) where
  gen_term-Generated :
      (t : Term) → (c' : Compiled) × (gen_term t c ≡ ok c') × Generated t c c' later
  unfolding gen_term
  gen_term-Generated (temporary i) =
      let (s, e, emitted) =
        gen_instruction-decode 0 3 i c.code later code room (omega arith) (omega arith) in
      (record c { code = s }, rw e refl, (emitted, refl, refl))
  gen_term-Generated (argument i) =
      let (s, e, emitted) =
        gen_instruction-decode 0 2 i c.code later code room (omega arith) (omega arith) in
      (record c { code = s }, rw e refl, (emitted, refl, refl))
  gen_term-Generated (constant i) =
      let (s, e, emitted) =
        gen_instruction-decode 0 5 (10 + i) c.code later code room (omega arith) (omega arith) in
      (record c { code = s }, rw e refl, (emitted, refl, refl))
  gen_term-Generated (instance_variable i) =
      let (s, e, emitted) =
        gen_instruction-decode 0 1 i c.code later code room (omega arith) (omega arith) in
      (record c { code = s }, rw e refl, (emitted, refl, refl))
  gen_term-Generated super =
      let (s, e, emitted) =
        gen_instruction-decode 0 2 0 c.code later code room (omega arith) (omega arith) in
      (record c { code = s; super_message = true }, rw e refl, (emitted, refl, refl))
  gen_term-Generated (global g) =
      let (ls, added, buf, array, at) =
        add_literal-build_literal_array g c.literals literals literal_room in
      let (s, e, emitted) =
        gen_instruction-decode 0 4 c.literals.top c.code later code room (omega arith)
          (omega arith) in
      (record c { code = s; literals = ls }, rw (added, e) refl, (emitted, (buf, array, at), refl))

  -- Where the name stands for a term and both buffers have room, `nameTerm` returns, the interpreter
  -- decodes what it generated as the push of that term, its operand modulo 256, whatever code follows, a
  -- global is the next literal and no other term changes the literals, and `super` and no other term sets
  -- `superMessage`. A name stands for the first temporary that has it, else for the first argument, else
  -- for `super` or one of the constants `nil`, `true` and `false`, else for the variable of the nearest
  -- class that has it, at its place in the object, and else for the first global that has it.
  pub name_term-Generated :
      (scope : Scope) (name : Bytes) (t : Term)
      → StandsFor scope name t
      → (c' : Compiled) × (name_term scope name c ≡ ok c') × Generated t c c' later
  unfolding name_term
  name_term-Generated scope name t stands =
      let (c', e, generated) = gen_term-Generated t in
      (c', rw (term_of-StandsFor scope name t stands, e) refl, generated)
