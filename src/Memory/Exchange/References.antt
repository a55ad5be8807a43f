-- ===== src/Memory/Exchange/References.antt =====
-- What `map` of vm/memory.c makes of one word, and of a list of words.

use littlesmalltalk.Prelude.{
  ℕ, zero, suc, ◌≡◌, ◌≢◌, ◌⊎◌, refl, sym, ap, ◌∙◌, inl, inr, List, [], ◌∷◌, some, map, ◌==◌, ==_iff,
  Bool-cases, length, length-map, get_elem?, arith,
}
use littlesmalltalk.Memory.Exchange.{map_oop}

-- The word is at the index of one of the arrays.
abbrev pub At : (d1 d2 : List ℕ) → ℕ → ℕ → Type 0
At d1 d2 i w = (get_elem? d1 i ≡ some w) ⊎ (get_elem? d2 i ≡ some w)

-- No word is at two indices; at one index the arrays may agree.
abbrev pub AreDistinct : (d1 d2 : List ℕ) → Type 0
AreDistinct d1 d2 = (i j w : ℕ) → At d1 d2 i w → At d1 d2 j w → i ≡ j

-- A word of one array becomes the word at its index of the other, and any other word stays.
pub record BecomesWord (d1 d2 : List ℕ) (w w' : ℕ) : Type 0 where
  pub first : (i : ℕ) → get_elem? d1 i ≡ some w → get_elem? d2 i ≡ some w'
  pub second : (i : ℕ) → get_elem? d2 i ≡ some w → get_elem? d1 i ≡ some w'
  pub other : ((i : ℕ) → ¬ At d1 d2 i w) → w' ≡ w

-- Word by word.
pub record BecomeWords (d1 d2 os os' : List ℕ) : Type 0 where
  pub size : length os' ≡ length os
  pub each :
      (j w : ℕ)
      → get_elem? os j ≡ some w
      → (w' : ℕ) × (get_elem? os' j ≡ some w') × BecomesWord d1 d2 w w'

not_nil : (i w : ℕ) → get_elem? {A = ℕ} [] i ≢ some w
not_nil i w e = cc e

head_is : (x w : ℕ) (xs : List ℕ) → get_elem? (x ∷ xs) 0 ≡ some w → x ≡ w
head_is x w xs e = cc e

Distinct-tail : (x y : ℕ) (d1 d2 : List ℕ) → AreDistinct (x ∷ d1) (y ∷ d2) → AreDistinct d1 d2
Distinct-tail x y d1 d2 d i j w p q = (let e = d (suc i) (suc j) w p q in omega arith)

not_again :
    (x y : ℕ) (d1 d2 : List ℕ) (j w : ℕ)
    → AreDistinct (x ∷ d1) (y ∷ d2)
    → At (x ∷ d1) (y ∷ d2) 0 w
    → At d1 d2 j w
    → ⊥
not_again x y d1 d2 j w d here later = (let e = d 0 (suc j) w here later in omega arith)

-- Where no word is at two indices, `map` exchanges the words of the arrays and leaves all others.
pub map_oop-BecomesWord :
    (d1 d2 : List ℕ) (w : ℕ)
    → length d1 ≡ length d2
    → AreDistinct d1 d2
    → BecomesWord d1 d2 w (map_oop d1 d2 w)
unfolding map_oop
map_oop-BecomesWord [] [] w size d = record {
  first = λ i e. absurd (not_nil i w e);
  second = λ i e. absurd (not_nil i w e);
  other = λ _. refl;
}
map_oop-BecomesWord [] (y ∷ d2) w size d = absurd (omega arith)
map_oop-BecomesWord (x ∷ d1) [] w size d = absurd (omega arith)
map_oop-BecomesWord (x ∷ d1) (y ∷ d2) w size d = elim (Bool-cases (x == w)) [
  | inl e ↦
      let same : x ≡ w = (==_iff x w).0 e in
      let here : At (x ∷ d1) (y ∷ d2) 0 w = inl (ap some same) in
      rw e (record { first = first_x here; second = second_x here same; other = other_ here y })
  | inr n ↦ elim (Bool-cases (y == w)) [
    | inl e ↦
        let same : y ≡ w = (==_iff y w).0 e in
        let here : At (x ∷ d1) (y ∷ d2) 0 w = inr (ap some same) in
        let differ : x ≢ w = λ s. ground arith in
        rw (n, e)
          (record { first = first_y here differ; second = second_y here; other = other_ here x })
    | inr n' ↦
        let not_x : x ≢ w = λ s. ground arith in
        let not_y : y ≢ w = λ s. ground arith in
        rw (n, n')
          (further not_x not_y
            (map_oop-BecomesWord d1 d2 w (omega arith) (Distinct-tail x y d1 d2 d)))
  ]
]
  where
    other_ : At (x ∷ d1) (y ∷ d2) 0 w → (w' : ℕ) → ((i : ℕ) → ¬ At (x ∷ d1) (y ∷ d2) i w) → w' ≡ w
    other_ here w' nowhere = absurd (nowhere 0 here)

    first_x :
        At (x ∷ d1) (y ∷ d2) 0 w
        → (i : ℕ) → get_elem? (x ∷ d1) i ≡ some w
        → get_elem? (y ∷ d2) i ≡ some y
    first_x here zero e = refl
    first_x here (suc i) e = absurd (not_again x y d1 d2 i w d here (inl e))

    second_x :
        At (x ∷ d1) (y ∷ d2) 0 w
        → x ≡ w
        → (i : ℕ) → get_elem? (y ∷ d2) i ≡ some w
        → get_elem? (x ∷ d1) i ≡ some y
    second_x here same zero e = ap some (same ∙ sym (head_is y w d2 e))
    second_x here same (suc i) e = absurd (not_again x y d1 d2 i w d here (inr e))

    first_y :
        At (x ∷ d1) (y ∷ d2) 0 w
        → x ≢ w
        → (i : ℕ) → get_elem? (x ∷ d1) i ≡ some w
        → get_elem? (y ∷ d2) i ≡ some x
    first_y here differ zero e = absurd (differ (head_is x w d1 e))
    first_y here differ (suc i) e = absurd (not_again x y d1 d2 i w d here (inl e))

    second_y :
        At (x ∷ d1) (y ∷ d2) 0 w
        → (i : ℕ) → get_elem? (y ∷ d2) i ≡ some w
        → get_elem? (x ∷ d1) i ≡ some x
    second_y here zero e = refl
    second_y here (suc i) e = absurd (not_again x y d1 d2 i w d here (inr e))

    further :
        x ≢ w
        → y ≢ w
        → BecomesWord d1 d2 w (map_oop d1 d2 w)
        → BecomesWord (x ∷ d1) (y ∷ d2) w (map_oop d1 d2 w)
    further not_x not_y b = record {
      first = first_later;
      second = second_later;
      other = λ nowhere. b.other (λ i. nowhere (suc i));
    }
      where
        first_later :
            (i : ℕ) → get_elem? (x ∷ d1) i ≡ some w → get_elem? (y ∷ d2) i ≡ some (map_oop d1 d2 w)
        first_later zero e = absurd (not_x (head_is x w d1 e))
        first_later (suc i) e = b.first i e

        second_later :
            (i : ℕ) → get_elem? (y ∷ d2) i ≡ some w → get_elem? (x ∷ d1) i ≡ some (map_oop d1 d2 w)
        second_later zero e = absurd (not_y (head_is y w d2 e))
        second_later (suc i) e = b.second i e

pub map-BecomeWords :
    (d1 d2 : List ℕ) (f : ℕ → ℕ)
    → ((w : ℕ) → BecomesWord d1 d2 w (f w))
    → (os : List ℕ) → BecomeWords d1 d2 os (map f os)
map-BecomeWords d1 d2 f h os = record { size = length-map os f; each = each os }
  where
    each :
        (os : List ℕ) (j w : ℕ)
        → get_elem? os j ≡ some w
        → (w' : ℕ) × (get_elem? (map f os) j ≡ some w') × BecomesWord d1 d2 w w'
    each [] j w e = absurd (not_nil j w e)
    each (o ∷ os) zero w e = (f w, ap (λ x. some (f x)) (head_is o w os e), h w)
    each (o ∷ os) (suc j) w e = each os j w e
