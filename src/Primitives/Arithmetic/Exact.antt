-- ===== src/Primitives/Arithmetic/Exact.antt =====
-- Sums and differences of SmallInts are exact.
use littlesmalltalk.Prelude.{
  ℕ, zero, suc, ◌+◌, ◌-◌, ◌≤◌, ◌<◌, ◌≡◌, refl, inl, inr, Bool, true, false, ◌&&◌, ◌||◌, ltb,
  if◌then◌else◌, Bool-cases, arith,
}
use littlesmalltalk.Prelude.Int.{
  ℤ, pos, negsuc, pos_part, neg_part, ◌+ℤ◌, ◌-ℤ◌, ltb_ℤ, is_neg, is_pos, +ℤ_parts, -ℤ_parts,
}
use littlesmalltalk.Primitives.Arithmetic.{
  wrap, Value, small, large, truth, fitted, fits_smallint, add, subtract,
}

-- A C int, and an int that `newInteger` was given after `FITS_SMALLINT`.
abbrev pub IsInt : ℤ → Type 0
IsInt z = (pos_part z < 2147483648) × (neg_part z ≤ 2147483648)

abbrev pub FitsSmallInt : ℤ → Type 0
FitsSmallInt z = (pos_part z ≤ 1073741823) × (neg_part z ≤ 1073741824)

-- The integer that a result stands for.
abbrev pub Stands : Value → ℤ → Type 0
Stands (small v) z = v ≡ z
Stands (large v) z = v ≡ z
Stands (truth b) z = ⊥

wrap-IsInt : (z : ℤ) → IsInt z → wrap z ≡ z
unfolding wrap
wrap-IsInt (pos n) (h, h') = ground arith
wrap-IsInt (negsuc n) (h, h') = ground arith

fitted-Stands : (x : ℤ) → Stands (fitted x) x
fitted-Stands x = elim (Bool-cases (fits_smallint x)) [ inl e ↦ rw e refl | inr e ↦ rw e refl ]

wrap-over : (n : ℕ) → 2147483648 ≤ n → n < 4294967296 → wrap (pos n) ≡ negsuc (4294967295 - n)
unfolding wrap
wrap-over n h h' = ground arith

wrap-under : (n : ℕ) → 2147483648 ≤ n → n < 4294967296 → wrap (negsuc n) ≡ pos (4294967295 - n)
unfolding wrap
wrap-under n h h' = ground arith

-- A sum of two ints either is an int, or it is one that the test for overflow finds.
abbrev overflows : ℤ → ℤ → Bool
overflows high low =
    let x = wrap (high +ℤ low) in
    (is_pos high && is_pos low && ltb_ℤ x high) || (is_neg high && is_neg low && ltb_ℤ high x)

choose : (b : Bool) (x z : ℤ) → (b ≡ false → x ≡ z) → Stands (if b then large z else fitted x) z
choose true x z h = refl
choose false x z h = rw (h refl) (fitted-Stands z)

add_pos : (n m : ℕ) → pos n +ℤ pos m ≡ pos (n + m)
unfolding ◌+ℤ◌
add_pos n m = ground arith

add_neg : (n m : ℕ) → negsuc n +ℤ negsuc m ≡ negsuc (n + m + 1)
unfolding ◌+ℤ◌
add_neg n m = ground arith

IsInt-from :
    (z : ℤ) (p q : ℕ) → pos_part z + q ≡ neg_part z + p → p < 2147483648 → q ≤ 2147483648 → IsInt z
IsInt-from (pos n) p q e hp hq = (omega arith, omega arith)
IsInt-from (negsuc n) p q e hp hq = (omega arith, omega arith)

add_over :
    (n m : ℕ)
    → n < 2147483648
    → m < 2147483648
    → 2147483648 ≤ n + m
    → overflows (pos n) (pos m) ≡ true
add_over zero m h k over = absurd (omega arith)
add_over (suc n) zero h k over = absurd (omega arith)
add_over (suc n) (suc m) h k over =
    rw (add_pos (suc n) (suc m), wrap-over (suc n + suc m) over (omega arith)) (ground arith)

add_under :
    (n m : ℕ)
    → suc n ≤ 2147483648
    → suc m ≤ 2147483648
    → 2147483648 ≤ n + m + 1
    → overflows (negsuc n) (negsuc m) ≡ true
add_under n m h k under =
    rw (add_neg n m, wrap-under (n + m + 1) under (omega arith)) (ground arith)

add_in_range :
    (high low : ℤ)
    → IsInt high
    → IsInt low
    → overflows high low ≡ false
    → wrap (high +ℤ low) ≡ high +ℤ low
add_in_range (pos n) (pos m) (hi, hi') (lo, lo') f = elim (Bool-cases (ltb (n + m) 2147483648)) [
  | inl fits ↦ rw (add_pos n m) (wrap-IsInt (pos (n + m)) (ground arith, omega arith))
  | inr over ↦ let t = add_over n m hi lo (ground arith) in cc
]
add_in_range (pos n) (negsuc m) (hi, hi') (lo, lo') f =
    wrap-IsInt _ (IsInt-from _ n (suc m) (omega (arith, +ℤ_parts (pos n) (negsuc m))) hi lo')
add_in_range (negsuc n) (pos m) (hi, hi') (lo, lo') f =
    wrap-IsInt _ (IsInt-from _ m (suc n) (omega (arith, +ℤ_parts (negsuc n) (pos m))) lo hi')
add_in_range (negsuc n) (negsuc m) (hi, hi') (lo, lo') f =
    elim (Bool-cases (ltb (n + m + 1) 2147483648)) [
      | inl fits ↦ rw (add_neg n m) (wrap-IsInt (negsuc (n + m + 1)) (omega arith, ground arith))
      | inr under ↦ let t = add_under n m hi' lo' (ground arith) in cc
    ]

-- Primitive 10 gives the exact sum of any two ints.
pub add-Stands : (high low : ℤ) → IsInt high → IsInt low → Stands (add high low) (high +ℤ low)
unfolding add
add-Stands high low hi lo =
    choose (overflows high low) (wrap (high +ℤ low)) (high +ℤ low) (add_in_range high low hi lo)

-- Primitive 16 gives the exact difference of two integers that `FITS_SMALLINT` accepts.
pub subtract-Stands :
    (high low : ℤ) → FitsSmallInt high → FitsSmallInt low → Stands (subtract high low) (high -ℤ low)
unfolding subtract
subtract-Stands high low (h, h') (l, l') =
    let range =
      IsInt-from (high -ℤ low) (pos_part high + neg_part low) (neg_part high + pos_part low)
        (omega (arith, -ℤ_parts high low)) (omega arith) (omega arith) in
    choose (is_pos low && is_neg high && ltb_ℤ high (wrap (high -ℤ low))) (wrap (high -ℤ low))
      (high -ℤ low) (λ _. wrap-IsInt (high -ℤ low) range)
