-- ===== src/Image/Dump/Tests.antt =====
-- A version 2 image of one object that points to itself (vm/image.c).
use littlesmalltalk.Prelude.{ℕ, zero, suc, ◌≡◌, refl, inl, inr, List, [], ◌∷◌, false, arith}
use littlesmalltalk.Prelude.Result.{ok}
use littlesmalltalk.Memory.Collector.{Mobject, Store}
use littlesmalltalk.Memory.Collector.Frame.{Among}
use littlesmalltalk.Image.Dump.{load_dump}
use littlesmalltalk.Image.Dump.Relocated.{Lands, IsField}
use littlesmalltalk.Image.Dump.Objects.{IsObject, Relocated}
use littlesmalltalk.Image.Dump.Loading.{AreShifted, IsDump, load_dump-Relocated}

-- The class and the first field are the object; then come NULL and a SmallInt.
abbrev words : ℕ → ℕ
words zero = 1088
words (suc zero) = 1088
words (suc (suc zero)) = 0
words (suc (suc (suc j))) = 7

abbrev object : Mobject
object = record { size = 3; binary = false; done = false; words = words }

lands : Lands 2088 2128 0 2000 1000 refl refl 1088 2088
lands = record { shift = refl; from = omega arith; to = omega arith }

fields : (j : ℕ) → IsField 2088 2128 0 2000 1000 refl refl (words j)
fields zero = inr (inr ((λ e. omega (arith, e)), refl, 2088, lands))
fields (suc zero) = inr (inr ((λ e. omega (arith, e)), refl, 2088, lands))
fields (suc (suc zero)) = inl refl
fields (suc (suc (suc j))) = inr (inl refl)

is_object : IsObject 2088 2128 0 2000 1000 refl refl object
is_object = record { class_ = (2088, lands); fields = λ b j l u. fields j }

roots : (w : ℕ) → Among w (1088 ∷ []) → (v : ℕ) × Lands 2088 2128 0 2000 1000 refl refl w v
roots w (inl e) = (2088, rw e lands)
roots w (inr m) = absurd m

dump : IsDump 2000 2128 0 1000 1088 1128 refl refl (1088 ∷ []) (λ a. object) (2088 ∷ [])
dump = record {
  based = omega arith;
  order = omega arith;
  size = omega arith;
  fits = omega arith;
  laid = (refl, refl);
  objects = λ a m. is_object;
  variables = roots;
}

load_dump-Relocated_example :
    (rs : List ℕ) × (s : Store) × (load_dump 2 2000 2128 0 1000 1088 1128 (1088 ∷ []) (λ a. object)
      ≡ ok (rs, s))
    × AreShifted 2000 1000 (1088 ∷ []) rs
    × ((a : ℕ) → Among a (2088 ∷ []) → Relocated 2088 2128 0 2000 1000 refl refl object (s.at a))
load_dump-Relocated_example =
    load_dump-Relocated 2000 2128 0 1000 1088 1128 refl refl 2 (1088 ∷ []) (λ a. object) (2088 ∷ [])
      dump (omega arith)
