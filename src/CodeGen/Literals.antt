-- ===== src/CodeGen/Literals.antt =====
-- Literals: `addLiteral` returns the index at which the literal array has the literal.
use littlesmalltalk.Prelude.{
  ℕ, ◌+◌, ◌-◌, ◌<◌, ◌≡◌, ap, [], ◌∷◌, ◌++◌, some, false, ◌==◌, length, length-append, get_elem?,
  arith,
}
use littlesmalltalk.Prelude.Result.{ok}
use littlesmalltalk.CodeGen.{Buffer, max_literals, add_literal, build_literal_array}
use littlesmalltalk.CodeGen.Buffers.{IsBuffer, filled, length-filled, push-room}
use littlesmalltalk.CodeGen.Decoding.{at_end}

-- `addLiteral` returns where there is room, it returns the number of the literals before, and
-- `buildLiteralArray` then gives the literals before with the new one at that index.
pub add_literal-build_literal_array :
    (a : ℕ) (s : Buffer ℕ)
    → IsBuffer max_literals s
    → s.top + 1 < max_literals
    → (s' : Buffer ℕ) × (add_literal a s ≡ ok (s.top, s'))
      × IsBuffer max_literals s'
      × (build_literal_array s' ≡ some (filled s ++ a ∷ []))
      × (get_elem? (filled s ++ a ∷ []) s.top ≡ some a)
unfolding add_literal build_literal_array
add_literal-build_literal_array a s buf room =
    let (s', e, buf', f) = push-room max_literals a s buf (omega arith) in
    let before = length-filled max_literals s buf in
    let top : s'.top ≡ s.top + 1 =
      omega (
        arith,
        length-filled max_literals s' buf',
        ap length f,
        length-append (filled s) (a ∷ []),
      ) in
    let index : s'.top - 1 ≡ s.top = omega (arith, top) in
    let some_there : (s'.top == 0) ≡ false = ground (arith, top) in
    (s', rw (e, index), buf', rw (some_there, f), rw before at (at_end (filled s) [] a))
