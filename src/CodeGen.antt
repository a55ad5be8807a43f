-- ===== src/CodeGen.antt =====
-- Code generation (bootstrap/bootstrap.c, "Code Generation"): `genByte`, `genVal`, `genValPos` and
-- `genInstruction` fill `byteBuffer`, `addLiteral` fills `litBuffer`, and `buildByteArray` and
-- `buildLiteralArray` take the filled part. `decode` and `fetch_val` are the decoder of `execute` and
-- the macro `VAL` (vm/interp.c), which read what was generated.
pub mod Buffers
pub mod Decoding
pub mod Operands
pub mod Literals
pub mod Tests
use littlesmalltalk.Prelude.{
  ℕ, zero, suc, ◌+◌, ◌-◌, ◌*◌, ◌/◌, ◌%◌, ◌^◌, Bool, true, false, List, [], ◌∷◌, Option, none, some,
  ◌==◌, ltb, leb, if◌then◌else◌, length, get_elem?, set, take, bit_or, bit_and,
}
use littlesmalltalk.Prelude.Int.{ℤ, pos, negsuc}
use littlesmalltalk.Prelude.Result.{Result, ok, error, fault, out_of_fuel, ◌>>=◌, access}

-- A static array with the number of its places that are filled.
pub record Buffer (A : Type 0) : Type 0 where
  pub places : List A
  pub top : ℕ

-- `buffer[top++] = v; if (top >= limit) error(…);`
unfoldable pub push : {A : Type 0} → (limit : ℕ) → A → Buffer A → Result (Buffer A)
push limit v s =
    if ltb s.top (length s.places)
    then if leb limit (suc s.top)
      then error
      else ok (record { places = set s.places s.top v; top = suc s.top })
    else fault

abbrev pub byte_buffer_top : ℕ
byte_buffer_top = 2048

-- `(uint8_t)v`
abbrev pub byte_of : ℤ → ℕ
byte_of (pos n) = n % 256
byte_of (negsuc n) = 255 - n % 256

unfoldable pub gen_byte : ℤ → Buffer ℕ → Result (Buffer ℕ)
gen_byte v s = push byte_buffer_top (byte_of v) s

-- `(v < 0) || (v > 0xFFFF)` ends the process.
abbrev pub checked_val : ℤ → Result ℕ
checked_val (negsuc n) = error
checked_val (pos n) = if ltb 0xffff n then error else ok n

-- `v & 0xFF` and `v >> 8`
unfoldable pub gen_val : ℤ → Buffer ℕ → Result (Buffer ℕ)
gen_val v s =
    checked_val v >>= λ n. gen_byte (pos (n % 256)) s >>= λ s'. gen_byte (pos (n / 256)) s'

-- `byteBuffer[pos] = …; byteBuffer[pos + 1] = …;`
unfoldable pub gen_val_pos : ℕ → ℤ → Buffer ℕ → Result (Buffer ℕ)
gen_val_pos at_ v s = checked_val v >>= λ n.
    if ltb (at_ + 1) (length s.places)
    then ok (record s { places = set (set s.places at_ (n % 256)) (at_ + 1) (n / 256 % 256) })
    else fault

-- The operand is not negative: it counts or indexes something.
unfoldable pub gen_instruction : ℕ → (a b : ℕ) → Buffer ℕ → Result (Buffer ℕ)
gen_instruction zero a b s = out_of_fuel
gen_instruction (suc fuel) a b s =
    let extended = gen_instruction fuel 0 a s in
    if ltb b 16 then gen_byte (pos (a * 16 + b)) s else (extended >>= λ s'. gen_byte (pos b) s')

unfoldable pub build_byte_array : Buffer ℕ → List ℕ
build_byte_array s = take s.top s.places

abbrev pub max_literals : ℕ
max_literals = 1000

-- Literals are object pointers.
unfoldable pub add_literal : ℕ → Buffer ℕ → Result (ℕ × Buffer ℕ)
add_literal a s = push max_literals a s >>= λ s'. ok (s'.top - 1, s')

-- `nilObject` where there are none.
unfoldable pub build_literal_array : Buffer ℕ → Option (List ℕ)
build_literal_array s = if s.top == 0 then none else some (take s.top s.places)

-- `low = (high = bp[bytePointer++]) & 0x0F; high >>= 4; if (high == Extended) …`: the instruction, its
-- operand, and the byte pointer behind them.
unfoldable pub decode : List ℕ → ℕ → Result (ℕ × ℕ × ℕ)
decode bp byte_pointer = access (get_elem? bp byte_pointer) >>= λ byte.
    let low = bit_and byte 0x0f in
    let high = byte / 2 ^ 4 in
    if high == 0
    then (access (get_elem? bp (byte_pointer + 1)) >>= λ next. ok (low, next, byte_pointer + 2))
    else ok (high, low, byte_pointer + 1)

-- `bp[bytePointer] | (bp[bytePointer+1] << 8)`
unfoldable pub fetch_val : List ℕ → ℕ → Result ℕ
fetch_val bp byte_pointer = access (get_elem? bp byte_pointer) >>= λ lo.
    access (get_elem? bp (byte_pointer + 1)) >>= λ hi. ok (bit_or lo (hi * 2 ^ 8))
