-- ===== src/Image/Dump.antt =====
-- The reader of version 2 images of vm/image.c, from the three addresses to the relocated objects:
-- `fileIn_version_2` up to `lookupGlobal`, `fix_offset` and `object_fix_up`, on the memory of headers and
-- words that the collector works on.
pub mod Loading
pub mod Objects
pub mod Relocated
pub mod Tests
use littlesmalltalk.Prelude.{
  ℕ, zero, suc, ◌+◌, ◌-◌, ◌*◌, ◌/◌, ◌%◌, ◌^◌, Bool, true, false, ◌&&◌, ◌||◌, List, [], ◌∷◌, ◌==◌,
  ltb, leb, if◌then◌else◌,
}
use littlesmalltalk.Prelude.Int.{ℤ, pos, negsuc, ◌+ℤ◌, ◌-ℤ◌, neg_ℤ, int_of_word}
use littlesmalltalk.Prelude.Result.{Result, ok, error, fault, out_of_fuel, ◌>>=◌}
use littlesmalltalk.Memory.Collector.{
  Mobject, Store, is_small_int, to_words, set_word, set_object, words_down, last,
}

-- A number of bytes in cells, and back; the division of C cuts towards zero.
abbrev pub cells : ℤ → ℤ
cells (pos n) = pos (n / 8)
cells (negsuc n) = neg_ℤ (pos (suc n / 8))

abbrev pub bytes : ℤ → ℤ
bytes (pos n) = pos (8 * n)
bytes (negsuc n) = neg_ℤ (pos (8 * suc n))

unfoldable pub new_offset : (memory_base image_base : ℕ) → ℤ
new_offset memory_base image_base = cells (pos memory_base -ℤ pos image_base)

-- `PTR_BETWEEN`
abbrev pub in_window : (low high : ℕ) → ℤ → Result ℕ
in_window low high (pos p) = if leb low p && ltb p high then ok p else error
in_window low high (negsuc n) = error

unfoldable pub fix_offset : (low high : ℕ) → ℕ → ℤ → Result ℕ
fix_offset low high old offset = in_window low high (pos old +ℤ bytes offset)

-- `nil` is what `nilObject` holds.
module _ (low high nil : ℕ) (offset : ℤ) where
  unfoldable pub fix_field : ℕ → Result ℕ
  fix_field w =
      if w == 0 then ok nil else if is_small_int w then ok w else fix_offset low high w offset

  -- The fields from `i` on; `k` are left.
  unfoldable pub fix_fields : (k i : ℕ) → (ℕ → ℕ) → Result (ℕ → ℕ)
  fix_fields zero i words = ok words
  fix_fields (suc k) i words =
      fix_field (words i) >>= λ v. fix_fields k (suc i) (set_word words i v)

  -- The object, and the place behind it.
  unfoldable pub object_fix_up : ℕ → Store → Result (ℕ × Store)
  object_fix_up obj s =
      let o = s.at obj in
      if obj == 0
      then error
      else (fix_offset low high (o.words 0) offset >>= λ c.
          (if o.binary
            then ok (set_word o.words 0 c)
            else fix_fields o.size 1 (set_word o.words 0 c))
          >>= λ words. ok (obj + 8 * (last o + 2), set_object s obj (record o { words = words })))

  -- `while (fixer < memoryTop)`
  unfoldable pub fix_up_loop : (fuel fixer : ℕ) → Store → Result Store
  fix_up_loop zero fixer s = out_of_fuel
  fix_up_loop (suc fuel) fixer s = elim (ltb fixer high) [
    | true ↦ object_fix_up fixer s >>= λ (next, s'). fix_up_loop fuel next s'
    | false ↦ ok s
  ]

  -- The variables that the file holds.
  unfoldable pub fix_roots : List ℕ → Result (List ℕ)
  fix_roots [] = ok []
  fix_roots (w ∷ ws) = fix_offset low high w offset >>= λ r. fix_roots ws >>= λ rs. ok (r ∷ rs)

-- `WORDSDOWN(memoryTop, totalCells)`
abbrev pub down_from : (memory_top : ℕ) → ℤ → Result ℕ
down_from memory_top (pos n) = words_down n memory_top
down_from memory_top (negsuc n) = ok (memory_top + 8 * suc n)

-- The bytes between two addresses cut to an `int`, in cells.
abbrev pub total_cells : (image_pointer image_top : ℕ) → ℤ
total_cells image_pointer image_top =
    cells (int_of_word ((image_top + 2 ^ 64 - image_pointer) % 2 ^ 32))

-- `raw` is what the bytes of the file are as objects, at the addresses that they are read to. It is a
-- fault to read them to below `memoryBase`, or, for a negative size, to above `memoryTop`.
unfoldable pub load_dump :
    (fuel memory_base memory_top nil image_base image_pointer image_top : ℕ)
    → List ℕ
    → (raw : ℕ → Mobject) → Result (List ℕ × Store)
load_dump fuel memory_base memory_top nil image_base image_pointer image_top roots raw =
    let offset = new_offset memory_base image_base in
    down_from memory_top (total_cells image_pointer image_top) >>= λ pointer.
    fix_roots pointer memory_top nil offset roots >>= λ rs.
    (if ltb pointer memory_base || ltb memory_top pointer then fault else ok rs) >>= λ rs'.
    fix_up_loop pointer memory_top nil offset fuel pointer
      (record { at = raw; memory_pointer = pointer })
    >>= λ s. ok (rs', s)
