-- ===== src/Dictionary.antt =====
-- A Dictionary: an ordered array of keys and an array of the values in the same places. The keys are
-- symbols. `dictLookup` (vm/globals.c) and the inner loop of `lookupMethod` (vm/interp.c) search the
-- keys by halving, `dictionaryInsert` with `insert` (bootstrap/bootstrap.c) fills them. A read outside
-- an array is a fault.
pub mod Search
pub mod Entries
pub mod Lookup
pub mod Insert
pub mod Tests
use littlesmalltalk.Prelude.{
  ℕ, zero, suc, ◌+◌, ◌/◌, List, [], ◌∷◌, Option, none, some, length, get_elem?, ltb, if◌then◌else◌,
}
use littlesmalltalk.Prelude.Int.{ℤ, is_neg, is_zero, is_pos}
use littlesmalltalk.Prelude.Result.{Result, ok, error, fault, out_of_fuel, ◌>>=◌, access}
use littlesmalltalk.Symbols.{Bytes, strsymcomp, symbol_cmp}

-- What one round of a search finds out about the key in the middle.
pub data Probe : Type 0 where
  here before after : Probe

-- `while (low < high) { mid = (low + high) / 2; … }`: return the value at `mid`, or go on below or
-- above it. No result is the source's `NULL`.
module _ {ℓ κ} {K : Type κ} {V : Type ℓ} where
  unfoldable pub search_loop : (K → Probe) → List K → List V → ℕ → ℕ → ℕ → Result (Option V)
  search_loop probe keys vals zero low high = out_of_fuel
  search_loop probe keys vals (suc fuel) low high =
      let mid = (low + high) / 2 in
      let down = search_loop probe keys vals fuel low mid in
      let up = search_loop probe keys vals fuel (mid + 1) high in
      let round =
        (access (get_elem? keys mid) >>= λ key. elim (probe key) [
          | here ↦ access (get_elem? vals mid) >>= λ v. ok (some v)
          | before ↦ down
          | after ↦ up
        ]) in
      if ltb low high then round else ok none

  -- The halved range is below the fuel.
  abbrev pub search : (K → Probe) → List K → List V → Result (Option V)
  search probe keys vals = search_loop probe keys vals (suc (length keys)) 0 (length keys)

-- `if (result == 0) … else if (result < 0) … else …`
abbrev pub probe_of : ℤ → Probe
probe_of result = if is_zero result then here else if is_neg result then before else after

module _ {ℓ} {V : Type ℓ} where
  unfoldable pub dict_lookup : List Bytes → List V → Bytes → Result (Option V)
  dict_lookup keys vals name = search (λ key. probe_of (strsymcomp name key)) keys vals

-- `insert(array, index, val)`: a new array, one longer, with `val` in place `index`.
module _ {ℓ} {A : Type ℓ} where
  unfoldable pub insert : List A → ℕ → A → Result (List A)
  insert xs zero v = ok (v ∷ xs)
  insert [] (suc i) v = fault
  insert (x ∷ xs) (suc i) v = insert xs i v >>= λ rest. ok (x ∷ rest)

-- The scan for the place of a key that is not there yet.
place : Bytes → List Bytes → ℕ → Result ℕ
place index [] i = ok i
place index (key ∷ keys) i =
    let res = symbol_cmp index key in
    let next = place index keys (i + 1) in
    if is_neg res then ok i else if is_pos res then next else error

module _ {ℓ} {V : Type ℓ} where
  unfoldable pub dictionary_insert : List Bytes → List V → Bytes → V → Result (List Bytes × List V)
  unfolding place insert
  dictionary_insert keys vals index value = place index keys 0 >>= λ i.
      insert keys i index >>= λ keys'. insert vals i value >>= λ vals'. ok (keys', vals')
