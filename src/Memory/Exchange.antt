-- ===== src/Memory/Exchange.antt =====
-- `map`, `walk` and `exchangeObjects` of vm/memory.c. An object pointer is a word. The words of the two
-- arrays are read from the memory as it stands at each `map`; both arrays have `size` fields, which the
-- only caller, primitive 35 of vm/interp.c, has checked.
pub mod References
pub mod Walked
pub mod Spaces
use littlesmalltalk.Prelude.{
  ℕ, zero, suc, Bool, ◌||◌, List, [], ◌∷◌, none, some, map, ◌==◌, if◌then◌else◌, length, get_elem?,
  set,
}

-- `map()`, the first index of either array decides.
unfoldable pub map_oop : (a1 a2 : List ℕ) → ℕ → ℕ
map_oop [] a2 oo = oo
map_oop (x ∷ a1) [] oo = oo
map_oop (x ∷ a1) (y ∷ a2) oo = if x == oo then y else if y == oo then x else map_oop a1 a2 oo

-- An object: its class, and fields or bytes.
pub data Contents : Type 0 where
  fields : List ℕ → Contents
  bytes : List ℕ → Contents

pub record Object : Type 0 where
  pub class_ : ℕ
  pub contents : Contents

abbrev pub words_of : Contents → List ℕ
words_of (fields os) = os
words_of (bytes bs) = []

-- What stands at each address.
abbrev pub Heap : Type 0
Heap = ℕ → Object

abbrev pub store : Heap → ℕ → Object → Heap
store h a o = λ b. if b == a then o else h b

module _ (array1 array2 : ℕ) where
  -- `map()` with the words that the arrays have now.
  abbrev pub map_in : Heap → ℕ → ℕ
  map_in h oo = map_oop (words_of ((h array1).contents)) (words_of ((h array2).contents)) oo

  -- The fields from `x` on; `k` are left.
  unfoldable pub map_fields : (k x op : ℕ) → Heap → Heap
  map_fields zero x op h = h
  map_fields (suc k) x op h = elim (get_elem? (words_of ((h op).contents)) x) [
    | some w ↦ map_fields k (suc x) op (
        store h op
          (record (h op) { contents = fields (set (words_of ((h op).contents)) x (map_in h w)) }))
    | none ↦ h
  ]

  abbrev pub map_class : ℕ → Heap → Heap
  map_class op h = store h op (record (h op) { class_ = map_in h ((h op).class_) })

  -- One turn of `walk()`: the class, and the fields of an object that is neither array nor binary.
  unfoldable pub walk_object : ℕ → Heap → Heap
  walk_object op h =
      if op == array1 || op == array2 then map_class op h else elim ((h op).contents) [
        | fields os ↦ map_fields (length os) 0 op (map_class op h)
        | bytes bs ↦ map_class op h
      ]

  -- The objects of a space, one behind the other.
  unfoldable pub walk : List ℕ → Heap → Heap
  walk [] h = h
  walk (op ∷ space) h = walk space (walk_object op h)

-- The objects, the addresses of those of the two spaces, the root stack, and what the static roots
-- point to.
pub record Memory : Type 0 where
  pub heap : Heap
  pub dynamic : List ℕ
  pub static : List ℕ
  pub roots : List ℕ
  pub static_roots : List ℕ

unfoldable pub exchange_objects : (array1 array2 : ℕ) → Memory → Memory
exchange_objects array1 array2 m =
    let h = walk array1 array2 m.static (walk array1 array2 m.dynamic m.heap) in
    record m {
      heap = h;
      roots = map (map_in array1 array2 h) m.roots;
      static_roots = map (map_in array1 array2 h) m.static_roots;
    }
