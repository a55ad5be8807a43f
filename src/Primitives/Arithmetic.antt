-- ===== src/Primitives/Arithmetic.antt =====
-- The primitives 10 to 16 of `execute` (vm/interp.c) on SmallInts: `high` is the receiver, `low` the
-- argument, each an int. An int operation wraps around where the code goes on to test for that, and a
-- `small` result is what `newInteger` takes, a `large` one what `newLInteger` takes. Both operands are
-- popped on every path.
pub mod Exact
use littlesmalltalk.Prelude.{
  ℕ, zero, suc, ◌+◌, ◌-◌, ◌*◌, ◌/◌, ◌%◌, ◌^◌, ◌≤◌, ◌<◌, Bool, true, false, ◌&&◌, ◌||◌, Option, none,
  some, ◌==◌, ltb, leb, if◌then◌else◌,
}
use littlesmalltalk.Prelude.Int.{
  ℤ, pos, negsuc, pos_part, neg_part, sub_ℕ, ◌+ℤ◌, ◌-ℤ◌, ◌*ℤ◌, ltb_ℤ, is_neg, is_pos, is_zero,
  neg_ℤ, int_of_word,
}

-- The int that a C int operation gives for an exact result.
unfoldable pub wrap : ℤ → ℤ
wrap (pos n) = int_of_word (n % 2 ^ 32)
wrap (negsuc n) = int_of_word (2 ^ 32 - 1 - n % 2 ^ 32)

pub data Value : Type 0 where
  small : ℤ → Value
  large : ℤ → Value
  truth : Bool → Value

-- `FITS_SMALLINT`: from INT_MIN / 2 to INT_MAX / 2.
abbrev pub fits_smallint : ℤ → Bool
fits_smallint x = leb (neg_part x) 1073741824 && leb (pos_part x) 1073741823

abbrev pub fitted : ℤ → Value
fitted x = if fits_smallint x then small x else large x

abbrev pub eqb_ℤ : ℤ → ℤ → Bool
eqb_ℤ a b = pos_part a == pos_part b && neg_part a == neg_part b

-- C division goes towards zero, and the remainder has the sign of the first operand.
abbrev pub div_ℤ : ℤ → ℤ → ℤ
div_ℤ (pos n) (pos m) = pos (n / m)
div_ℤ (pos n) (negsuc m) = neg_ℤ (pos (n / suc m))
div_ℤ (negsuc n) (pos m) = neg_ℤ (pos (suc n / m))
div_ℤ (negsuc n) (negsuc m) = pos (suc n / suc m)

abbrev pub rem_ℤ : ℤ → ℤ → ℤ
rem_ℤ (pos n) m = pos (n % (pos_part m + neg_part m))
rem_ℤ (negsuc n) m = neg_ℤ (pos (suc n % (pos_part m + neg_part m)))

unfoldable pub add : ℤ → ℤ → Value
add high low =
    let x = wrap (high +ℤ low) in
    if (is_pos high && is_pos low && ltb_ℤ x high) || (is_neg high && is_neg low && ltb_ℤ high x)
    then large (high +ℤ low)
    else fitted x

unfoldable pub subtract : ℤ → ℤ → Value
subtract high low =
    let x = wrap (high -ℤ low) in
    if is_pos low && is_neg high && ltb_ℤ high x then large (high -ℤ low) else fitted x

unfoldable pub multiply : ℤ → ℤ → Value
multiply high low =
    let x = wrap (high *ℤ low) in
    if is_zero low || eqb_ℤ (div_ℤ x low) high then fitted x else large (high *ℤ low)

-- The `switch` on the number of the primitive; `none` is `goto failPrimitive`. The quotient wraps
-- around only for INT_MIN / -1.
unfoldable pub arithmetic : ℕ → ℤ → ℤ → Option Value
arithmetic number high low =
    if number == 10
    then some (add high low)
    else if number == 11
    then (if is_zero low then none else some (small (wrap (div_ℤ high low))))
    else if number == 12
    then (if is_zero low then none else some (small (rem_ℤ high low)))
    else if number == 13
    then some (truth (ltb_ℤ high low))
    else if number == 14
    then some (truth (eqb_ℤ high low))
    else if number == 15
    then some (multiply high low)
    else if number == 16
    then some (subtract high low)
    else none

-- `GET_HIGH_LOW()`: an operand that is not a SmallInt fails.
unfoldable pub primitive : ℕ → Option ℤ → Option ℤ → Option Value
primitive number (some high) (some low) = arithmetic number high low
primitive number none low = none
primitive number (some high) none = none
