-- ===== src/Prelude/Bits.antt =====
-- Bitwise operations of C on words, as arithmetic on the native numbers.
use Prim.Native.Nat.{max, digits, bit_or-bitwise}
use mathlib.Core.Path.{ap}
use native.Mathlib.Nat.{pow-suc}
use littlesmalltalk.Prelude.{
  ℕ, zero, suc, ◌+◌, ◌*◌, ◌/◌, ◌%◌, ◌^◌, ◌≤◌, ◌<◌, ◌≡◌, refl, Bool, true, ◌&&◌, arith, bit_or,
}

-- Every value below a numeral is checked by evaluation.
unfoldable pub all_below : (limit : ℕ) → (test : ℕ → Bool) → Bool
all_below zero test = true
all_below (suc k) test = all_below k test && test k

pub all_below_sound :
    (limit : ℕ) (test : ℕ → Bool) (v : ℕ) → all_below limit test ≡ true → v < limit → test v ≡ true
unfolding all_below
all_below_sound (suc k) test v passed lt = ground (arith, all_below_sound k test v)
all_below_sound zero test v passed lt = absurd (omega arith)

-- The definition behind `bit_or`: the digits of both, with one unit of fuel for each.
abbrev joined : (fuel : ℕ) → ℕ → ℕ → ℕ
joined = digits (λ rest. rest) max

-- Fuel that is enough for the left number makes no difference.
joined_more : (x y fuel more : ℕ) → x ≤ fuel → x ≤ more → joined fuel x y ≡ joined more x y
joined_more (suc x) y (suc fuel) (suc more) h k =
    omega (arith, joined_more (suc x / 2) (y / 2) fuel more (omega arith) (omega arith))
joined_more (suc x) y zero more h k = absurd (omega arith)
joined_more (suc x) y (suc fuel) zero h k = absurd (omega arith)
joined_more zero y zero zero h k = refl
joined_more zero y (suc fuel) zero h k = refl
joined_more zero y zero (suc more) h k = refl
joined_more zero y (suc fuel) (suc more) h k = refl

-- No bits on the left.
bit_or_of_zero : (y : ℕ) → bit_or 0 y ≡ y
bit_or_of_zero = bit_or-bitwise 0

lowest_bit : (x y : ℕ) → bit_or x y ≡ max (x % 2) (y % 2) + 2 * bit_or (x / 2) (y / 2)
lowest_bit (suc x) y =
    let halves = joined_more (suc x / 2) (y / 2) x (suc x / 2) (omega arith) (omega arith) in
    omega (arith, halves, bit_or-bitwise (suc x / 2) (y / 2), bit_or-bitwise (suc x) y)
lowest_bit zero y = omega (arith, bit_or_of_zero (y / 2), bit_or_of_zero y)

-- `lo | (hi << k)` is a sum where `lo` has `k` bits.
pub bit_or_shifted : (k lo hi : ℕ) → lo < 2 ^ k → bit_or lo (hi * 2 ^ k) ≡ lo + hi * 2 ^ k
bit_or_shifted zero zero hi h = omega (arith, bit_or_of_zero (hi * 2 ^ 0))
bit_or_shifted zero (suc lo) hi h = absurd (omega arith)
bit_or_shifted (suc k) lo hi h =
    let double : hi * 2 ^ suc k ≡ 2 * (hi * 2 ^ k) =
      omega (arith, ap (λ (t : ℕ). hi * t) (pow-suc 2 k)) in
    ground
      (arith, pow-suc 2 k, double, lowest_bit lo (hi * 2 ^ suc k), bit_or_shifted k (lo / 2) hi)
