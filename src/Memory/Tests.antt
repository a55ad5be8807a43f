-- ===== src/Memory/Tests.antt =====
-- An exchange of two objects, and a table with one static root.
use littlesmalltalk.Prelude.{
  ℕ, ◌≤◌, ◌≡◌, refl, true, ◌||◌, ◌==◌, if◌then◌else◌, List, [], ◌∷◌, length, arith,
}
use littlesmalltalk.Prelude.Result.{ok}
use littlesmalltalk.Memory.Exchange.{fields, bytes, Heap, Memory}
use littlesmalltalk.Memory.StaticRoots.{
  is_root, add_static_root, IsUnique, static_root_limit, add_static_root-IsUnique,
}

-- 2 and 4 are the arrays, of 10 and of 20; 10 and 20 refer to each other.
abbrev some_objects : Heap
some_objects a =
    if a == 2
    then record { class_ = 20; contents = fields (10 ∷ []) }
    else if a == 4
    then record { class_ = 30; contents = fields (20 ∷ []) }
    else if a == 10
    then record { class_ = 20; contents = fields (20 ∷ 30 ∷ 10 ∷ []) }
    else record { class_ = 10; contents = bytes (10 ∷ []) }

abbrev small_memory : Memory
small_memory = record {
  heap = some_objects;
  dynamic = 2 ∷ 10 ∷ [];
  static = 4 ∷ 20 ∷ [];
  roots = 10 ∷ [];
  static_roots = 20 ∷ 30 ∷ [];
}

add_static_root-IsUnique_example :
    (roots' : List ℕ) × (add_static_root 7 (5 ∷ []) ≡ ok roots')
    × IsUnique roots'
    × (is_root 7 roots' ≡ true)
    × (is_root 5 roots' ≡ (is_root 5 (5 ∷ []) || 5 == 7))
    × (length roots' ≤ static_root_limit)
unfolding is_root
add_static_root-IsUnique_example = add_static_root-IsUnique 7 5 (5 ∷ []) (refl, tt) (omega arith)
