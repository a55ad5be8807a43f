-- ===== src/Primitives/Tests.antt =====
-- Primitives on concrete objects.
use littlesmalltalk.Prelude.{ℕ, ◌+◌, ◌-◌, ◌<◌, ◌≡◌, refl, true, [], ◌∷◌, some, get_elem?, arith}
use littlesmalltalk.Prelude.Int.{pos, ◌+ℤ◌}
use littlesmalltalk.Prelude.Result.{ok, fault}
use littlesmalltalk.Primitives.BulkReplace.{
  Storage, bulk_replace, bulk_replace-copies, bulk_replace-past_end,
}
use littlesmalltalk.Primitives.Arithmetic.{add}
use littlesmalltalk.Primitives.Arithmetic.Exact.{Stands, add-Stands}

abbrev four : Storage
four = record { is_binary = true; is_dynamic = true; data_ = 1 ∷ 2 ∷ 3 ∷ 4 ∷ [] }

abbrev six : Storage
six = record { is_binary = true; is_dynamic = true; data_ = 11 ∷ 12 ∷ 13 ∷ 14 ∷ 15 ∷ 16 ∷ [] }

-- The first and the second byte.
bulk_replace-copies_example :
    (dest' : Storage) × (bulk_replace four (some (pos 1)) (some (pos 2)) six (some (pos 4))
      ≡ ok (0, dest'))
    × ((i : ℕ) → i < 0 → get_elem? dest'.data_ i ≡ get_elem? four.data_ i)
    × ((k : ℕ) → k < 1 + 1 - 0 → get_elem? dest'.data_ (0 + k) ≡ get_elem? six.data_ (3 + k))
    × ((j : ℕ) → 1 < j → get_elem? dest'.data_ j ≡ get_elem? four.data_ j)
bulk_replace-copies_example =
    bulk_replace-copies four 0 1 six 3 (refl, refl) (omega arith, omega arith, omega arith)
      (omega arith)

-- From the second to the fifth byte of four.
bulk_replace-past_end_example :
    bulk_replace four (some (pos 2)) (some (pos 5)) six (some (pos 1)) ≡ fault
bulk_replace-past_end_example =
    bulk_replace-past_end four 1 six 0 (refl, refl) (omega arith, omega arith, omega arith)

add-Stands_example : Stands (add (pos 2147483647) (pos 1)) (pos 2147483647 +ℤ pos 1)
add-Stands_example =
    add-Stands (pos 2147483647) (pos 1) (omega arith, omega arith) (omega arith, omega arith)
