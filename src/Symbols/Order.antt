-- ===== src/Symbols/Order.antt =====
-- The comparisons of symbols decide one total order, the lexicographic order of byte strings.
use native.Mathlib.Nat.{zero-add}
use littlesmalltalk.Prelude.{
  ℕ, zero, suc, ◌+◌, ◌<◌, ◌≡◌, refl, sym, ap, ◌↔◌, ◌⊎◌, inl, inr, [], ◌∷◌, true, false, arith,
  length, ◌==◌, ltb, Bool-cases, ==_iff, ltb→lt, lt→ltb,
}
use littlesmalltalk.Prelude.Int.{ℤ, pos, negsuc, sub_ℕ, is_neg, is_zero, is_pos, neg_ℤ}
use littlesmalltalk.Symbols.{
  Bytes, symbolcomp_loop, symbolcomp, symstrcomp, strsymcomp, bare_cmp_loop, symbol_cmp,
}

-- `left` stands before `right`: it is a proper prefix, or smaller at the first byte that differs.
abbrev pub Before : Bytes → Bytes → Type 0
Before xs [] = ⊥
Before [] (y ∷ ys) = Unit
Before (x ∷ xs) (y ∷ ys) = (x < y) ⊎ ((x ≡ y) × Before xs ys)

pub Before-irrefl : (xs : Bytes) → ¬ Before xs xs
Before-irrefl [] h = h
Before-irrefl (x ∷ xs) (inl h) = omega arith
Before-irrefl (x ∷ xs) (inr (e, h)) = Before-irrefl xs h

pub Before-trans : (xs ys zs : Bytes) → Before xs ys → Before ys zs → Before xs zs
Before-trans xs [] zs p q = absurd p
Before-trans xs (y ∷ ys) [] p q = q
Before-trans [] (y ∷ ys) (z ∷ zs) p q = tt
Before-trans (x ∷ xs) (y ∷ ys) (z ∷ zs) (inl p) (inl q) = inl (omega arith)
Before-trans (x ∷ xs) (y ∷ ys) (z ∷ zs) (inl p) (inr (e, q)) = inl (omega arith)
Before-trans (x ∷ xs) (y ∷ ys) (z ∷ zs) (inr (e, p)) (inl q) = inl (omega arith)
Before-trans (x ∷ xs) (y ∷ ys) (z ∷ zs) (inr (e, p)) (inr (e', q)) =
    inr (omega arith, Before-trans xs ys zs p q)

-- What an int result says of the order of two symbols.
abbrev pub Decides : ℤ → Bytes → Bytes → Type 0
Decides r xs ys =
    ((is_neg r ≡ true) ↔ Before xs ys)
    × ((is_zero r ≡ true) ↔ (xs ≡ ys))
    × ((is_pos r ≡ true) ↔ Before ys xs)

-- The three cases, each with its sign.
abbrev Trichotomy : ℤ → Bytes → Bytes → Type 0
Trichotomy r xs ys =
    ((is_neg r ≡ true) × Before xs ys)
    ⊎ ((is_zero r ≡ true) × (xs ≡ ys))
    ⊎ ((is_pos r ≡ true) × Before ys xs)

Trichotomy-cons :
    (r : ℤ) (x : ℕ) (xs ys : Bytes) → Trichotomy r xs ys → Trichotomy r (x ∷ xs) (x ∷ ys)
Trichotomy-cons r x xs ys (inl (s, h)) = inl (s, inr (refl, h))
Trichotomy-cons r x xs ys (inr (inl (s, h))) = inr (inl (s, ap (λ l. x ∷ l) h))
Trichotomy-cons r x xs ys (inr (inr (s, h))) = inr (inr (s, inr (refl, h)))

sub_ℕ-neg : (a b : ℕ) → a < b → is_neg (sub_ℕ a b) ≡ true
sub_ℕ-neg a b h = ground arith

sub_ℕ-pos : (a b : ℕ) → b < a → is_pos (sub_ℕ a b) ≡ true
sub_ℕ-pos a b h = ground arith

sub_ℕ-zero : (a b : ℕ) → a ≡ b → is_zero (sub_ℕ a b) ≡ true
sub_ℕ-zero a b h = ground arith

module _ (n : ℕ) where
  -- The sizes decide where one symbol is a prefix of the other.
  sizes_decide-nil : (ys : Bytes) → Trichotomy (sub_ℕ (n + length {A = ℕ} []) (n + length ys)) [] ys
  sizes_decide-nil [] = inr (inl (sub_ℕ-zero (n + 0) (n + 0) refl, refl))
  sizes_decide-nil (y ∷ ys) = inl (sub_ℕ-neg (n + 0) (n + length (y ∷ ys)) (omega arith), tt)

  sizes_decide-cons :
      (x : ℕ) (xs : Bytes) → Trichotomy (sub_ℕ (n + length (x ∷ xs)) (n + 0)) (x ∷ xs) []
  sizes_decide-cons x xs = inr (inr (sub_ℕ-pos (n + length (x ∷ xs)) (n + 0) (omega arith), tt))

add-suc-left : (n m : ℕ) → suc n + m ≡ n + suc m
add-suc-left n m = omega arith

Trichotomy-ne :
    (r : ℤ) (x y : ℕ) (xs ys : Bytes)
    → (x == y) ≡ false
    → (x < y → is_neg r ≡ true)
    → (y < x → is_pos r ≡ true)
    → Trichotomy r (x ∷ xs) (y ∷ ys)
Trichotomy-ne r x y xs ys ne less more = elim (Bool-cases (ltb x y)) [
  | inl lt ↦ inl (less (ltb→lt x y lt), inl (ltb→lt x y lt))
  | inr ge ↦ let gt : y < x = ground arith in inr (inr (more gt, inl gt))
]

symbolcomp_loop-Trichotomy :
    (n : ℕ) (xs ys : Bytes)
    → Trichotomy (symbolcomp_loop xs ys (sub_ℕ (n + length xs) (n + length ys))) xs ys
unfolding symbolcomp_loop
symbolcomp_loop-Trichotomy n [] ys = sizes_decide-nil n ys
symbolcomp_loop-Trichotomy n (x ∷ xs) [] = sizes_decide-cons n x xs
symbolcomp_loop-Trichotomy n (x ∷ xs) (y ∷ ys) = elim (Bool-cases (x == y)) [
  | inl e ↦
      let same : x ≡ y = (==_iff x y).0 e in
      let rest = symbolcomp_loop-Trichotomy (suc n) xs ys in
      rw (e, ← same, ← add-suc-left n (length xs), ← add-suc-left n (length ys))
        (Trichotomy-cons _ x xs ys rest)
  | inr ne ↦ rw ne (Trichotomy-ne _ x y xs ys ne (sub_ℕ-neg x y) (sub_ℕ-pos x y))
]

bare_cmp_loop-Trichotomy :
    (n : ℕ) (xs ys : Bytes)
    → Trichotomy (bare_cmp_loop xs ys (sub_ℕ (n + length xs) (n + length ys))) xs ys
unfolding bare_cmp_loop
bare_cmp_loop-Trichotomy n [] ys = sizes_decide-nil n ys
bare_cmp_loop-Trichotomy n (x ∷ xs) [] = sizes_decide-cons n x xs
bare_cmp_loop-Trichotomy n (x ∷ xs) (y ∷ ys) = elim (Bool-cases (x == y)) [
  | inl e ↦
      let same : x ≡ y = (==_iff x y).0 e in
      let rest = bare_cmp_loop-Trichotomy (suc n) xs ys in
      rw (e, ← same, ← add-suc-left n (length xs), ← add-suc-left n (length ys))
        (Trichotomy-cons _ x xs ys rest)
  | inr ne ↦ rw ne (Trichotomy-ne _ x y xs ys ne (λ h. rw (lt→ltb x y h)) (λ h. ground arith))
]

pub Before-asymm : (xs ys : Bytes) → Before xs ys → ¬ Before ys xs
Before-asymm xs ys p q = Before-irrefl xs (Before-trans xs ys xs p q)

sign_unique : (r : ℤ) → is_neg r ≡ true → ¬ (is_zero r ≡ true)
sign_unique (pos n) h e = cc
sign_unique (negsuc n) h e = cc

neg_not_pos : (r : ℤ) → is_neg r ≡ true → ¬ (is_pos r ≡ true)
neg_not_pos (pos n) h e = cc
neg_not_pos (negsuc n) h e = cc

zero_not_pos : (r : ℤ) → is_zero r ≡ true → ¬ (is_pos r ≡ true)
zero_not_pos (pos zero) h e = cc
zero_not_pos (pos (suc n)) h e = cc
zero_not_pos (negsuc n) h e = cc

Trichotomy-Decides : (r : ℤ) (xs ys : Bytes) → Trichotomy r xs ys → Decides r xs ys
Trichotomy-Decides r xs ys (inl (s, h)) = (
  (λ _. h, λ _. s),
  (λ z. absurd (sign_unique r s z), λ e. absurd (Before-irrefl xs (rw (← e) at h))),
  (λ p. absurd (neg_not_pos r s p), λ b. absurd (Before-asymm xs ys h b)),
)
Trichotomy-Decides r xs ys (inr (inl (s, h))) = (
  (λ z. absurd (sign_unique r z s), λ b. absurd (Before-irrefl ys (rw h at b))),
  (λ _. h, λ _. s),
  (λ p. absurd (zero_not_pos r s p), λ b. absurd (Before-irrefl ys (rw h at b))),
)
Trichotomy-Decides r xs ys (inr (inr (s, h))) = (
  (λ z. absurd (neg_not_pos r z s), λ b. absurd (Before-asymm xs ys b h)),
  (λ z. absurd (zero_not_pos r z s), λ e. absurd (Before-irrefl ys (rw e at h))),
  (λ _. h, λ _. s),
)

-- `symbolcomp` decides the lexicographic order: its result is negative, zero or positive exactly when
-- the left symbol stands before, is, or stands behind the right one.
pub symbolcomp-Decides : (left right : Bytes) → Decides (symbolcomp left right) left right
unfolding symbolcomp
symbolcomp-Decides left right =
    Trichotomy-Decides _ left right (simp zero-add at (symbolcomp_loop-Trichotomy 0 left right))

-- `symbolCmp` decides it too: its result is negative, zero or positive exactly when the left symbol stands
-- before, is, or stands behind the right one.
pub symbol_cmp-Decides : (left right : Bytes) → Decides (symbol_cmp left right) left right
unfolding symbol_cmp
symbol_cmp-Decides left right =
    Trichotomy-Decides _ left right (simp zero-add at (bare_cmp_loop-Trichotomy 0 left right))

-- `symstrcomp` decides it for a symbol and a C string.
pub symstrcomp-Decides : (left right : Bytes) → Decides (symstrcomp left right) left right
unfolding symstrcomp
symstrcomp-Decides left right =
    Trichotomy-Decides _ left right (simp zero-add at (symbolcomp_loop-Trichotomy 0 left right))

Decides-neg_ℤ : (r : ℤ) (xs ys : Bytes) → Decides r ys xs → Decides (neg_ℤ r) xs ys
Decides-neg_ℤ (pos zero) xs ys (lt, eq, gt) =
    ((λ h. gt.0 h, λ h. gt.1 h), (λ h. sym (eq.0 h), λ e. eq.1 (sym e)), (λ h. lt.0 h, λ h. lt.1 h))
Decides-neg_ℤ (pos (suc n)) xs ys (lt, eq, gt) =
    ((λ h. gt.0 h, λ h. gt.1 h), (λ h. sym (eq.0 h), λ e. eq.1 (sym e)), (λ h. lt.0 h, λ h. lt.1 h))
Decides-neg_ℤ (negsuc n) xs ys (lt, eq, gt) =
    ((λ h. gt.0 h, λ h. gt.1 h), (λ h. sym (eq.0 h), λ e. eq.1 (sym e)), (λ h. lt.0 h, λ h. lt.1 h))

-- So does `strsymcomp`: its result is negative, zero or positive exactly when the C string on the left
-- stands before, is, or stands behind the symbol on the right.
pub strsymcomp-Decides : (left right : Bytes) → Decides (strsymcomp left right) left right
unfolding strsymcomp
strsymcomp-Decides left right = Decides-neg_ℤ _ left right (symstrcomp-Decides right left)

-- The three comparisons decide one order: the result for two texts is negative, zero or positive exactly
-- when the left one stands before, is, or stands behind the right one in the lexicographic order.
pub comparisons-Decide :
    (left right : Bytes)
    → Decides (symbolcomp left right) left right
      × Decides (strsymcomp left right) left right
      × Decides (symbol_cmp left right) left right
comparisons-Decide left right =
    (symbolcomp-Decides left right, strsymcomp-Decides left right, symbol_cmp-Decides left right)
