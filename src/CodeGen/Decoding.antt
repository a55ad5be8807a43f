-- ===== src/CodeGen/Decoding.antt =====
-- What was generated is decoded again.
use mathlib.Core.List.{append_assoc}
use littlesmalltalk.Prelude.{
  ℕ, suc, ◌+◌, ◌*◌, ◌/◌, ◌%◌, ◌^◌, ◌<◌, ◌≡◌, refl, ap, ◌∙◌, List, [], ◌∷◌, ◌++◌, some, false,
  Bool-cases, inl, inr, ◌==◌, ==_iff, ltb, length, get_elem?, get_elem?-append_right, length-append,
  ltb→lt, lt→ltb, arith, bit_and,
}
use littlesmalltalk.Prelude.Int.{ℤ, pos}
use littlesmalltalk.Prelude.Bits.{all_below, all_below_sound}
use littlesmalltalk.Prelude.Result.{ok}
use littlesmalltalk.CodeGen.{
  Buffer, byte_of, byte_buffer_top, gen_byte, gen_instruction, build_byte_array, decode,
}
use littlesmalltalk.CodeGen.Buffers.{IsBuffer, filled, length-filled, push-room}

-- There is room for a byte.
pub gen_byte-room :
    (v : ℤ) (s : Buffer ℕ)
    → IsBuffer byte_buffer_top s
    → s.top + 1 < byte_buffer_top
    → (s' : Buffer ℕ) × (gen_byte v s ≡ ok s')
      × IsBuffer byte_buffer_top s'
      × (filled s' ≡ filled s ++ byte_of v ∷ [])
unfolding gen_byte
gen_byte-room v s b h = push-room byte_buffer_top (byte_of v) s b (omega arith)

-- The length of what is filled is the index of the next byte.
pub top_step :
    (s s' : Buffer ℕ) (xs : List ℕ)
    → IsBuffer byte_buffer_top s
    → IsBuffer byte_buffer_top s'
    → filled s' ≡ filled s ++ xs
    → s'.top ≡ s.top + length xs
top_step s s' xs b b' e = omega (
  arith,
  length-filled byte_buffer_top s b,
  length-filled byte_buffer_top s' b',
  ap length e,
  length-append (filled s) xs,
)

low_bits : (x : ℕ) → x < 256 → bit_and x 0x0f ≡ x % 16
unfolding all_below
low_bits x h =
    (==_iff (bit_and x 0x0f) (x % 16)).0
      (all_below_sound 256 (λ y. bit_and y 0x0f == y % 16) x refl h)

-- The two bytes of a decoded instruction: the short form and the extended one.
short_byte :
    (a b : ℕ) → a < 16 → b < 16 → (bit_and (a * 16 + b) 0x0f ≡ b) × ((a * 16 + b) / 2 ^ 4 ≡ a)
short_byte a b ha hb = (low_bits (a * 16 + b) (omega arith) ∙ omega arith, omega arith)

pub at_end : (xs later : List ℕ) (x : ℕ) → get_elem? (xs ++ x ∷ later) (length xs) ≡ some x
at_end [] later x = refl
at_end (y ∷ ys) later x = at_end ys later x

pub after_end :
    (xs later : List ℕ) (x y : ℕ) → get_elem? (xs ++ x ∷ y ∷ later) (length xs + 1) ≡ some y
after_end xs later x y = get_elem?-append_right xs (x ∷ y ∷ later) 1

decode-short :
    (a b : ℕ) (xs later : List ℕ)
    → 0 < a
    → a < 16
    → b < 16
    → decode (xs ++ (a * 16 + b) ∷ later) (length xs) ≡ ok (a, b, length xs + 1)
unfolding decode
decode-short a b xs later h0 ha hb =
    let (low, high) = short_byte a b ha hb in
    let plain : (a == 0) ≡ false = ground arith in
    rw (at_end xs later (a * 16 + b), high, low, plain)

decode-extended :
    (a b : ℕ) (xs later : List ℕ)
    → a < 16
    → decode (xs ++ (0 * 16 + a) ∷ b ∷ later) (length xs) ≡ ok (a, b, length xs + 2)
unfolding decode
decode-extended a b xs later ha =
    let (low, high) = short_byte 0 a (omega arith) ha in
    rw (at_end xs (b ∷ later) (0 * 16 + a), after_end xs later (0 * 16 + a) b, high, low)

-- The state behind an instruction: still a buffer, and the code from the old end is the instruction.
abbrev pub Emitted : (a b : ℕ) → Buffer ℕ → Buffer ℕ → List ℕ → Type 0
Emitted a b s s' later =
    IsBuffer byte_buffer_top s'
    × (decode (build_byte_array s' ++ later) s.top ≡ ok (a, b % 256, s'.top))

short-Emitted :
    (a b : ℕ) (s s' : Buffer ℕ) (later : List ℕ)
    → 0 < a
    → a < 16
    → b < 16
    → IsBuffer byte_buffer_top s
    → IsBuffer byte_buffer_top s'
    → filled s' ≡ filled s ++ byte_of (pos (a * 16 + b)) ∷ []
    → Emitted a b s s' later
unfolding build_byte_array
short-Emitted a b s s' later h0 ha hb buf buf' e =
    let one : byte_of (pos (a * 16 + b)) ≡ a * 16 + b = omega arith in
    let here = decode-short a b (filled s) later h0 ha hb in
    let top = top_step s s' (byte_of (pos (a * 16 + b)) ∷ []) buf buf' e in
    let len = length-filled byte_buffer_top s buf in
    let whole : b % 256 ≡ b = omega arith in
    (
      buf',
      rw (e, one, append_assoc (filled s) ((a * 16 + b) ∷ []) later, whole, top) (rw len at here),
    )

extended-Emitted :
    (a b : ℕ) (s s' : Buffer ℕ) (later : List ℕ)
    → a < 16
    → IsBuffer byte_buffer_top s
    → IsBuffer byte_buffer_top s'
    → filled s' ≡ filled s ++ byte_of (pos (0 * 16 + a)) ∷ byte_of (pos b) ∷ []
    → Emitted a b s s' later
unfolding build_byte_array
extended-Emitted a b s s' later ha buf buf' e =
    let one : byte_of (pos (0 * 16 + a)) ≡ 0 * 16 + a = omega arith in
    let here = decode-extended a (b % 256) (filled s) later ha in
    let top = top_step s s' (byte_of (pos (0 * 16 + a)) ∷ byte_of (pos b) ∷ []) buf buf' e in
    let len = length-filled byte_buffer_top s buf in
    (
      buf',
      rw (e, one, append_assoc (filled s) ((0 * 16 + a) ∷ b % 256 ∷ []) later, top)
          (rw len at here),
    )

-- `genInstruction` of an opcode from 1 to 15 returns where the buffer has room for two bytes, within
-- two calls of itself, and the interpreter decodes what it wrote as that opcode with the operand
-- modulo 256, its byte pointer then behind it, whatever code follows.
pub gen_instruction-decode :
    (fuel a b : ℕ) (s : Buffer ℕ) (later : List ℕ)
    → IsBuffer byte_buffer_top s
    → s.top + 2 < byte_buffer_top
    → 0 < a
    → a < 16
    → (s' : Buffer ℕ) × (gen_instruction (suc (suc fuel)) a b s ≡ ok s') × Emitted a b s s' later
unfolding gen_instruction
gen_instruction-decode fuel a b s later buf room h0 ha = elim (Bool-cases (ltb b 16)) [
  | inl short ↦
      let (s', e, buf', f) = gen_byte-room (pos (a * 16 + b)) s buf (omega arith) in
      (s', rw (short, e), short-Emitted a b s s' later h0 ha (ltb→lt b 16 short) buf buf' f)
  | inr long ↦
      let (s₁, e₁, buf₁, f₁) = gen_byte-room (pos (0 * 16 + a)) s buf (omega arith) in
      let top₁ = top_step s s₁ (byte_of (pos (0 * 16 + a)) ∷ []) buf buf₁ f₁ in
      let (s₂, e₂, buf₂, f₂) = gen_byte-room (pos b) s₁ buf₁ (omega (arith, top₁)) in
      let both =
        f₂
        ∙ ap (λ t. t ++ byte_of (pos b) ∷ []) f₁
        ∙ append_assoc (filled s) (byte_of (pos (0 * 16 + a)) ∷ []) (byte_of (pos b) ∷ []) in
      (s₂, rw (long, lt→ltb a 16 ha, e₁, e₂), extended-Emitted a b s s₂ later ha buf buf₂ both)
]
