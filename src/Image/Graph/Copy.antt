-- ===== src/Image/Graph/Copy.antt =====
-- The copy of a graph that reading makes: each address stands at its place in `indirArray`.
use littlesmalltalk.Prelude.{
  ℕ, ◌+◌, ◌<◌, ◌≡◌, refl, ap, List, [], ◌∷◌, ◌++◌, map, Option, none, some, ◌==◌, length, set,
  Bool-cases, Option-cases, inl, inr, arith, ==_iff,
}
use littlesmalltalk.Image.Graph.{
  Oop, null, small, ref, Body, fields, bytes, Object, Heap, index_of, placeholder,
}

-- An object pointer as the reader's: an address becomes its place.
unfoldable pub moved : List ℕ → Oop → Oop
moved indir null = null
moved indir (small v) = small v
moved indir (ref a) = elim (index_of a indir) [ some i ↦ ref i | none ↦ null ]

unfoldable pub moved_body : List ℕ → Body → Body
moved_body indir (fields os) = fields (map (moved indir) os)
moved_body indir (bytes bs) = bytes bs

unfoldable pub moved_object : List ℕ → Option Object → Object
moved_object indir none = placeholder
moved_object indir (some o) = record {
  class_ = moved indir o.class_;
  body = moved_body indir o.body;
}

-- The copies of the objects at these addresses.
abbrev pub copies : Heap → List ℕ → List ℕ → List Object
copies heap indir = map (λ a. moved_object indir (heap a))

pub index_of-append :
    (a : ℕ) (xs ys : List ℕ) (i : ℕ) → index_of a xs ≡ some i → index_of a (xs ++ ys) ≡ some i
unfolding index_of
index_of-append a [] ys i e = cc
index_of-append a (x ∷ xs) ys i e = elim (Bool-cases (x == a)) [
  | inl here ↦ rw here (rw here at e)
  | inr other ↦ elim (Option-cases (index_of a xs)) [
    | inl missing ↦ cc (rw (other, missing) at e)
    | inr (j, found) ↦ rw (other, index_of-append a xs ys j found) (rw (other, found) at e)
  ]
]

-- A new address stands behind all the others.
pub index_of-new :
    (a : ℕ) (xs ys : List ℕ) → index_of a xs ≡ none → index_of a (xs ++ a ∷ ys) ≡ some (length xs)
unfolding index_of
index_of-new a [] ys e = rw ((==_iff a a).1 refl)
index_of-new a (x ∷ xs) ys e = elim (Bool-cases (x == a)) [
  | inl here ↦ cc (rw here at e)
  | inr other ↦ elim (Option-cases (index_of a xs)) [
    | inl missing ↦ rw (other, index_of-new a xs ys missing) (ap some (omega arith))
    | inr (j, found) ↦ cc (rw (other, found) at e)
  ]
]

pub index_of-lt : (a : ℕ) (xs : List ℕ) (i : ℕ) → index_of a xs ≡ some i → i < length xs
unfolding index_of
index_of-lt a [] i e = cc
index_of-lt a (x ∷ xs) i e = elim (Bool-cases (x == a)) [
  | inl here ↦ (let first : 0 ≡ i = ground arith in omega arith)
  | inr other ↦ elim (Option-cases (index_of a xs)) [
    | inl missing ↦ cc (rw (other, missing) at e)
    | inr (j, found) ↦
        let later : j + 1 ≡ i = ground arith in omega (arith, index_of-lt a xs j found)
  ]
]

pub moved-found :
    (indir : List ℕ) (a i : ℕ) → index_of a indir ≡ some i → moved indir (ref a) ≡ ref i
unfolding moved
moved-found indir a i e = rw (e, moved)

pub set-append {ℓ} :
    {A : Type ℓ} (xs ys : List A) (x y : A) → set (xs ++ x ∷ ys) (length xs) y ≡ xs ++ y ∷ ys
set-append [] ys x y = refl
set-append (z ∷ xs) ys x y = rw (set-append xs ys x y)
