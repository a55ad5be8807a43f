-- ===== src/CodeGen/Operands.antt =====
-- Two-byte operands: what `genVal` and `genValPos` write is what the macro `VAL` reads.
use mathlib.Core.List.{append_assoc}
use littlesmalltalk.Prelude.{
  ℕ, ◌+◌, ◌*◌, ◌/◌, ◌%◌, ◌^◌, ◌<◌, ◌≤◌, ◌≡◌, ◌≢◌, refl, sym, ap, ◌∙◌, List, [], ◌∷◌, ◌++◌, some,
  false, ltb, length, get_elem?, get_elem?-take, set, get_elem?-set_self, get_elem?-set_ne,
  length-set, lt→ltb, arith, bit_or,
}
use littlesmalltalk.Prelude.Int.{pos}
use littlesmalltalk.Prelude.Bits.{bit_or_shifted}
use littlesmalltalk.Prelude.Result.{ok}
use littlesmalltalk.CodeGen.{
  Buffer, byte_of, byte_buffer_top, gen_val, gen_val_pos, build_byte_array, fetch_val, checked_val,
}
use littlesmalltalk.CodeGen.Buffers.{IsBuffer, filled, length-filled}
use littlesmalltalk.CodeGen.Decoding.{gen_byte-room, top_step, at_end, after_end}

-- The two bytes of a value, put together again.
halves : (v : ℕ) → v < 65536 → bit_or (v % 256) (v / 256 % 256 * 2 ^ 8) ≡ v
halves v h = bit_or_shifted 8 (v % 256) (v / 256 % 256) (omega arith) ∙ omega arith

checked : (v : ℕ) → v < 65536 → checked_val (pos v) ≡ ok v
checked v h = let small : ltb 0xffff v ≡ false = ground arith in rw small

fetch_val-bytes :
    (bp : List ℕ) (p v : ℕ)
    → v < 65536
    → get_elem? bp p ≡ some (v % 256)
    → get_elem? bp (p + 1) ≡ some (v / 256 % 256)
    → fetch_val bp p ≡ ok v
unfolding fetch_val
fetch_val-bytes bp p v h lo hi = rw (lo, hi) (ap ok (halves v h))

-- `genVal` of a value below 65536 returns where the buffer has room for two bytes, and `VAL` at the old
-- end of the code reads the value back, whatever code follows.
pub gen_val-fetch_val :
    (v : ℕ) (s : Buffer ℕ) (later : List ℕ)
    → IsBuffer byte_buffer_top s
    → s.top + 2 < byte_buffer_top
    → v < 65536
    → (s' : Buffer ℕ) × (gen_val (pos v) s ≡ ok s')
      × IsBuffer byte_buffer_top s'
      × (fetch_val (build_byte_array s' ++ later) s.top ≡ ok v)
unfolding gen_val build_byte_array
gen_val-fetch_val v s later buf room small =
    let (s₁, e₁, buf₁, f₁) = gen_byte-room (pos (v % 256)) s buf (omega arith) in
    let top₁ = top_step s s₁ (byte_of (pos (v % 256)) ∷ []) buf buf₁ f₁ in
    let (s₂, e₂, buf₂, f₂) = gen_byte-room (pos (v / 256)) s₁ buf₁ (omega (arith, top₁)) in
    let low : v % 256 % 256 ≡ v % 256 = omega arith in
    let code : filled s₂ ++ later ≡ filled s ++ v % 256 ∷ v / 256 % 256 ∷ later =
      rw (f₂, f₁, low, append_assoc (filled s), append_assoc (filled s)) refl in
    let len = length-filled byte_buffer_top s buf in
    let lo = rw len at (at_end (filled s) (v / 256 % 256 ∷ later) (v % 256)) in
    let hi = rw len at (after_end (filled s) later (v % 256) (v / 256 % 256)) in
    (s₂, rw (checked v small, e₁, e₂), buf₂, rw code (fetch_val-bytes _ s.top v small lo hi))

-- What `genValPos` leaves in the code at the place `p`.
patched :
    (xs : List ℕ) (p lo hi : ℕ)
    → p + 1 < length xs
    → (get_elem? (set (set xs p lo) (p + 1) hi) p ≡ some lo)
      × (get_elem? (set (set xs p lo) (p + 1) hi) (p + 1) ≡ some hi)
patched xs p lo hi h = (
  get_elem?-set_ne (set xs p lo) hi (λ e. omega arith) ∙ get_elem?-set_self xs p lo (omega arith),
  get_elem?-set_self (set xs p lo) (p + 1) hi (omega (arith, length-set xs p lo)),
)

-- `genValPos` at a place whose two bytes were generated patches exactly these: `VAL` reads the value
-- there, every other byte of the code is as before, and the end of the code stays.
pub gen_val_pos-fetch_val :
    (p v i : ℕ) (s : Buffer ℕ)
    → IsBuffer byte_buffer_top s
    → p + 2 ≤ s.top
    → v < 65536
    → i ≢ p
    → i ≢ p + 1
    → (s' : Buffer ℕ) × (gen_val_pos p (pos v) s ≡ ok s')
      × IsBuffer byte_buffer_top s'
      × (s'.top ≡ s.top)
      × (fetch_val (build_byte_array s') p ≡ ok v)
      × (get_elem? s'.places i ≡ get_elem? s.places i)
unfolding gen_val_pos build_byte_array
gen_val_pos-fetch_val p v i s buf inside small other other' =
    let room : p + 1 < length s.places = omega (arith, buf.size, buf.room) in
    let places = set (set s.places p (v % 256)) (p + 1) (v / 256 % 256) in
    let (lo, hi) = patched s.places p (v % 256) (v / 256 % 256) room in
    (
      record s { places = places },
      rw (checked v small, lt→ltb (p + 1) (length s.places) room),
      record {
        size =
            length-set (set s.places p (v % 256)) (p + 1) (v / 256 % 256)
            ∙ length-set s.places p (v % 256)
            ∙ buf.size;
        room = buf.room;
      },
      refl,
      fetch_val-bytes _ p v small (get_elem?-take s.top places p (omega arith) ∙ lo)
          (get_elem?-take s.top places (p + 1) (omega arith) ∙ hi),
      get_elem?-set_ne (set s.places p (v % 256)) (v / 256 % 256) (λ e. other' (sym e))
          ∙ get_elem?-set_ne s.places (v % 256) (λ e. other (sym e)),
    )
