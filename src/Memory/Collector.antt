-- ===== src/Memory/Collector.antt =====
-- The copying collector of vm/memory.c: `gc_move`, `do_gc`, `gcollect` and `gcialloc`. Memory is seen as
-- the source sees it there, as `struct mobject`: a header, and words, of which the class is the first. A
-- word is a number: an odd one is a SmallInt, 0 is NULL, any other is an address.
pub mod Fields
pub mod Frame
pub mod Gray
pub mod Grows
pub mod Mark
pub mod Rounds
pub mod Steps
pub mod Visit
pub mod Words
use littlesmalltalk.Prelude.{
  ℕ, zero, suc, ◌+◌, ◌-◌, ◌*◌, ◌/◌, ◌%◌, Bool, true, false, ◌&&◌, ◌||◌, not, List, [], ◌∷◌, ◌==◌,
  ltb, leb, if◌then◌else◌,
}
use littlesmalltalk.Prelude.Result.{Result, ok, error, fault, out_of_fuel, ◌>>=◌}
use littlesmalltalk.Methods.{MethodCache, flush_cache}

-- The header's size and its two flags, and the words behind it.
pub record Mobject : Type 0 where
  pub size : ℕ
  pub binary : Bool
  pub done : Bool
  pub words : ℕ → ℕ

-- What stands at each address, and `memoryPointer`.
pub record Store : Type 0 where
  pub at : ℕ → Mobject
  pub memory_pointer : ℕ

pub record Spaces : Type 0 where
  pub memory_base : ℕ
  pub memory_top : ℕ
  pub old_base : ℕ
  pub old_top : ℕ

abbrev pub is_small_int : ℕ → Bool
is_small_int w = w % 2 == 1

abbrev pub in_newspace : Spaces → ℕ → Bool
in_newspace sp w = leb sp.memory_base w && leb w sp.memory_top

abbrev pub in_oldspace : Spaces → ℕ → Bool
in_oldspace sp w = leb sp.old_base w && leb w sp.old_top

abbrev pub to_words : ℕ → ℕ
to_words isz = (isz + 7) / 8

-- `data[i] = v`
abbrev pub set_word : (ℕ → ℕ) → ℕ → ℕ → ℕ → ℕ
set_word words i v = λ j. if j == i then v else words j

abbrev pub set_object : Store → ℕ → Mobject → Store
set_object s a o = record s { at = λ b. if b == a then o else s.at b }

-- `WORDSDOWN(memoryPointer, amt)`
unfoldable pub words_down : (amt pointer : ℕ) → Result ℕ
words_down amt pointer = if ltb pointer (8 * amt) then fault else ok (pointer - 8 * amt)

-- The words from `sz` down to 1 of a binary object.
unfoldable pub copy_words : ℕ → (old new : ℕ → ℕ) → ℕ → ℕ
copy_words zero old new = new
copy_words (suc n) old new = copy_words n old (set_word new (suc n) (old (suc n)))

-- The two parts of the loop, with `old_address` and the variable that the part starts with.
pub data Place : Type 0 where
  down : (old_address previous_object : ℕ) → Place
  up : (old_address replacement : ℕ) → Place

-- Where a forwarded object has gone.
abbrev pub forward : Mobject → ℕ
forward o = if o.binary then o.words 0 else o.words o.size

-- The number of the last word.
abbrev pub last : Mobject → ℕ
last o = if o.binary then to_words o.size else o.size

-- An object that is not yet forwarded: its place in the new space, and on to its class, if it is binary,
-- or to its last field.
unfoldable pub move : (old_address previous_object : ℕ) → Store → Result (Place × Store)
move a previous s =
    let o = s.at a in
    words_down (last o + 2) s.memory_pointer >>= λ new.
    (let sz : ℕ = if o.binary then 0 else o.size in
      let words : ℕ → ℕ =
        if o.binary
        then copy_words (to_words o.size) o.words (s.at new).words
        else (s.at new).words in
      let copy : Mobject = record {
        size = o.size;
        binary = o.binary;
        done = false;
        words = set_word words sz previous;
      } in
      let s₁ = set_object (record s { memory_pointer = new }) new copy in
      ok (
        down (o.words sz) a,
        set_object s₁ a (record o { done = true; words = set_word o.words sz new }),
      ))

-- Part 1, one round.
unfoldable pub step_down :
    Spaces → (old_address previous_object : ℕ) → Store → Result (Place × Store)
step_down sp a previous s =
    if is_small_int a
    then ok (up previous a, s)
    else if in_newspace sp a
    then error
    else if not (in_oldspace sp a)
    then ok (up previous a, s)
    else if (s.at a).done
    then ok (up previous (forward (s.at a)), s)
    else move a previous s

-- `while (sz && (old_address->data[sz] == 0)) new_address->data[sz--] = 0;`
unfoldable pub skip_zeros : ℕ → (old new : ℕ → ℕ) → ℕ × (ℕ → ℕ)
skip_zeros zero old new = (0, new)
skip_zeros (suc n) old new =
    let rest = skip_zeros n old (set_word new (suc n) 0) in
    if old (suc n) == 0 then rest else (suc n, new)

-- The class of an object, its last word, has been moved.
unfoldable pub class_up : (old_address replacement : ℕ) → Store → Place × Store
class_up a replacement s =
    let o = s.at a in
    let new : ℕ = o.words 0 in
    let copy = s.at new in
    let s₁ = set_object s new (record copy { words = set_word copy.words 0 replacement }) in
    (
      up (copy.words 0) new,
      set_object s₁ a (record (s₁.at a) { words = set_word (s₁.at a).words 0 new }),
    )

-- A field has been moved: on to the next one below it that is not NULL, or to the class.
unfoldable pub field_up : (old_address replacement : ℕ) → Store → Place × Store
field_up a replacement s =
    let o = s.at a in
    let new : ℕ = o.words o.size in
    let copy = s.at new in
    let (sz, words) = skip_zeros (o.size - 1) o.words (set_word copy.words o.size replacement) in
    let s₁ = set_object s new (record copy { words = set_word words sz (copy.words o.size) }) in
    (
      down (o.words sz) a,
      set_object s₁ a
          (record { size = sz; binary = false; done = true; words = set_word o.words sz new }),
    )

-- Part 2, one round.
unfoldable pub step_up : (old_address replacement : ℕ) → Store → Place × Store
step_up a replacement s =
    if (s.at a).binary || (s.at a).size == 0
    then class_up a replacement s
    else field_up a replacement s

unfoldable pub move_loop : ℕ → Spaces → Place → Store → Result (ℕ × Store)
move_loop zero sp p s = out_of_fuel
move_loop (suc fuel) sp (down a previous) s =
    step_down sp a previous s >>= λ (p, s'). move_loop fuel sp p s'
move_loop (suc fuel) sp (up a replacement) s = elim (a == 0) [
  | true ↦ ok (replacement, s)
  | false ↦ move_loop fuel sp (step_up a replacement s).0 (step_up a replacement s).1
]

unfoldable pub gc_move : ℕ → Spaces → ℕ → Store → Result (ℕ × Store)
gc_move fuel sp ptr s = move_loop fuel sp (down ptr 0) s
