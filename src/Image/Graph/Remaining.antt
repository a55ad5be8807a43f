-- ===== src/Image/Graph/Remaining.antt =====
-- The number of objects of a graph that `objectWrite` of vm/image.c has not met yet: the measure on
-- which its recursion ends.
use littlesmalltalk.Prelude.{
  ℕ, suc, ◌<◌, ◌≤◌, ◌≡◌, refl, ap, ◌⊎◌, List, [], ◌∷◌, ◌++◌, Option, none, some, length,
  Option-cases, inl, inr, arith,
}
use littlesmalltalk.Image.Graph.{index_of}
use littlesmalltalk.Image.Graph.Copy.{index_of-append, index_of-new}

abbrev pub Member : ℕ → List ℕ → Type 0
Member a [] = ⊥
Member a (x ∷ xs) = (x ≡ a) ⊎ Member a xs

-- One more where a search found nothing.
abbrev count_missing : Option ℕ → ℕ → ℕ
count_missing none n = suc n
count_missing (some i) n = n

-- The number of addresses of the graph that are not written yet.
unfoldable pub remaining : List ℕ → List ℕ → ℕ
remaining [] indir = 0
remaining (a ∷ graph) indir = count_missing (index_of a indir) (remaining graph indir)

pub remaining-append :
    (graph indir new : List ℕ) → remaining graph (indir ++ new) ≤ remaining graph indir
unfolding remaining
remaining-append [] indir new = omega arith
remaining-append (a ∷ graph) indir new = elim (Option-cases (index_of a indir)) [
  | inr (i, found) ↦
      rw (found, index_of-append a indir new i found) (remaining-append graph indir new)
  | inl missing ↦ elim (Option-cases (index_of a (indir ++ new))) [
    | inr (i, found) ↦ rw (missing, found) (omega (arith, remaining-append graph indir new))
    | inl still ↦ rw (missing, still) (omega (arith, remaining-append graph indir new))
  ]
]

pub remaining-new :
    (graph indir : List ℕ) (a : ℕ)
    → Member a graph
    → index_of a indir ≡ none
    → remaining graph (indir ++ a ∷ []) < remaining graph indir
unfolding remaining
remaining-new [] indir a m fresh = elim m [ ]
remaining-new (x ∷ graph) indir a (inl e) fresh =
    let here = index_of-new a indir [] fresh in
    rw (e, here, fresh) (omega (arith, remaining-append graph indir (a ∷ [])))
remaining-new (x ∷ graph) indir a (inr m) fresh = elim (Option-cases (index_of x indir)) [
  | inr (i, found) ↦
      rw (found, index_of-append x indir (a ∷ []) i found) (remaining-new graph indir a m fresh)
  | inl missing ↦ elim (Option-cases (index_of x (indir ++ a ∷ []))) [
    | inr (i, found) ↦ rw (missing, found) (omega (arith, remaining-new graph indir a m fresh))
    | inl still ↦ rw (missing, still) (omega (arith, remaining-new graph indir a m fresh))
  ]
]

pub remaining-nil : (graph : List ℕ) → remaining graph [] ≡ length graph
unfolding remaining index_of
remaining-nil [] = refl
remaining-nil (a ∷ graph) = ap suc (remaining-nil graph)
