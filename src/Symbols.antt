-- ===== src/Symbols.antt =====
-- Symbols are byte strings. The same comparison is written four times: `symbolcomp` (vm/interp.c) on
-- two symbols, `symstrcomp` and `strsymcomp` (vm/memory.c) on a symbol and a C string, and
-- `symbolBareCmp` with `symbolCmp` (bootstrap/bootstrap.c). A C string is the list of its bytes before
-- the terminating zero. The loop over the common length runs along both lists at once.
pub mod Order
pub mod Intern
pub mod Tree
pub mod Tests
use littlesmalltalk.Prelude.{ℕ, ◌≡◌, List, [], ◌∷◌, length, ◌==◌, ltb, if◌then◌else◌}
use littlesmalltalk.Prelude.Int.{ℤ, pos, negsuc, sub_ℕ, neg_ℤ}

abbrev pub Bytes : Type 0
Bytes = List ℕ

-- The difference of the first bytes that differ, or else the difference of the sizes.
symbolcomp_loop : Bytes → Bytes → ℤ → ℤ
symbolcomp_loop [] ys sizes = sizes
symbolcomp_loop (x ∷ xs) [] sizes = sizes
symbolcomp_loop (x ∷ xs) (y ∷ ys) sizes = if x == y then symbolcomp_loop xs ys sizes else sub_ℕ x y

unfoldable pub symbolcomp : Bytes → Bytes → ℤ
unfolding symbolcomp_loop
symbolcomp left right = symbolcomp_loop left right (sub_ℕ (length left) (length right))

unfoldable pub symstrcomp : Bytes → Bytes → ℤ
unfolding symbolcomp_loop
symstrcomp left right = symbolcomp_loop left right (sub_ℕ (length left) (length right))

unfoldable pub strsymcomp : Bytes → Bytes → ℤ
unfolding symstrcomp
strsymcomp left right = neg_ℤ (symstrcomp right left)

-- The bootstrap's version returns -1 or 1 where bytes differ.
bare_cmp_loop : Bytes → Bytes → ℤ → ℤ
bare_cmp_loop [] ys sizes = sizes
bare_cmp_loop (x ∷ xs) [] sizes = sizes
bare_cmp_loop (x ∷ xs) (y ∷ ys) sizes =
    if x == y then bare_cmp_loop xs ys sizes else if ltb x y then negsuc 0 else pos 1

unfoldable pub symbol_bare_cmp : Bytes → Bytes → ℤ
unfolding bare_cmp_loop
symbol_bare_cmp left right = bare_cmp_loop left right (sub_ℕ (length left) (length right))

unfoldable pub symbol_cmp : Bytes → Bytes → ℤ
unfolding symbol_bare_cmp
symbol_cmp left right = symbol_bare_cmp left right
