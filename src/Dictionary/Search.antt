-- ===== src/Dictionary/Search.antt =====
-- The halving search ends, reads inside the arrays, and finds the key wherever it is.
use littlesmalltalk.Prelude.{
  ℕ, zero, suc, ◌+◌, ◌-◌, ◌/◌, ◌≤◌, ◌<◌, ◌≡◌, ◌≢◌, refl, List, [], ◌∷◌, none, some, length,
  get_elem?, ltb, Bool-cases, inl, inr, arith, ltb→lt, lt→ltb, ◌⊎◌,
}
use littlesmalltalk.Prelude.Result.{ok}
use littlesmalltalk.Dictionary.{Probe, here, before, after, search_loop, search}

module _ {ℓ} {A : Type ℓ} where
  pub get_elem?-some : (xs : List A) (i : ℕ) → i < length xs → (a : A) × (get_elem? xs i ≡ some a)
  get_elem?-some [] i h = elim h [ ]
  get_elem?-some (x ∷ xs) zero h = (x, refl)
  get_elem?-some (x ∷ xs) (suc i) h = get_elem?-some xs i (omega arith)

  pub lt-length : (xs : List A) (i : ℕ) {a : A} → get_elem? xs i ≡ some a → i < length xs
  lt-length [] i e = cc
  lt-length (x ∷ xs) zero e = omega arith
  lt-length (x ∷ xs) (suc i) e = omega (arith, lt-length xs i e)

-- The probes point towards place `i`.
abbrev pub Locates {κ} : {K : Type κ} → (K → Probe) → List K → ℕ → Type κ
Locates {K} probe keys i =
    (j : ℕ) (key : K)
    → get_elem? keys j ≡ some key
    → ((probe key ≡ here → j ≡ i) × (probe key ≡ before → i < j) × (probe key ≡ after → j < i))

-- No key is the one that is looked for.
abbrev pub Absent {κ} : {K : Type κ} → (K → Probe) → List K → Type κ
Absent {K} probe keys = (j : ℕ) (key : K) → get_elem? keys j ≡ some key → probe key ≢ here

pub Probe-cases : (p : Probe) → (p ≡ here) ⊎ (p ≡ before) ⊎ (p ≡ after)
Probe-cases here = inl refl
Probe-cases before = inr (inl refl)
Probe-cases after = inr (inr refl)

module _ {ℓ κ} {K : Type κ} {V : Type ℓ} (probe : K → Probe) (keys : List K) (vals : List V) where
  search_loop-Locates :
      (i : ℕ) (v : V)
      → Locates probe keys i
      → get_elem? vals i ≡ some v
      → (fuel low high : ℕ) → high - low < fuel
      → low ≤ i
      → i < high
      → high ≤ length keys
      → search_loop probe keys vals fuel low high ≡ ok (some v)
  unfolding search_loop
  search_loop-Locates i v loc found zero low high f l h b = absurd (omega arith)
  search_loop-Locates i v loc found (suc fuel) low high f l h b =
      let mid : ℕ = (low + high) / 2 in
      let (key, at) = get_elem?-some keys mid (omega arith) in
      let (hit, left, right) = loc mid key at in
      elim (Probe-cases (probe key)) [
        | inl e ↦ rw (lt→ltb low high (omega arith), at, e) (rw (hit e, found))
        | inr (inl e) ↦
            rw (lt→ltb low high (omega arith), at, e)
              (search_loop-Locates i v loc found fuel low mid (omega arith) l (left e)
                (omega arith))
        | inr (inr e) ↦
            rw (lt→ltb low high (omega arith), at, e)
              (search_loop-Locates i v loc found fuel (mid + 1) high (omega arith)
                (omega (arith, right e)) h b)
      ]

  search_loop-Absent :
      Absent probe keys
      → (fuel low high : ℕ) → high - low < fuel
      → high ≤ length keys
      → search_loop probe keys vals fuel low high ≡ ok none
  unfolding search_loop
  search_loop-Absent absent zero low high f b = absurd (omega arith)
  search_loop-Absent absent (suc fuel) low high f b = elim (Bool-cases (ltb low high)) [
    | inr done ↦ rw done
    | inl more ↦
        let mid : ℕ = (low + high) / 2 in
        let below : low < high = ltb→lt low high more in
        let (key, at) = get_elem?-some keys mid (omega arith) in
        elim (Probe-cases (probe key)) [
          | inl e ↦ absurd (absent mid key at e)
          | inr (inl e) ↦
              rw (more, at, e) (search_loop-Absent absent fuel low mid (omega arith) (omega arith))
          | inr (inr e) ↦
              rw (more, at, e) (search_loop-Absent absent fuel (mid + 1) high (omega arith) b)
        ]
  ]

  pub search-Locates :
      (i : ℕ) (v : V)
      → Locates probe keys i
      → i < length keys
      → get_elem? vals i ≡ some v
      → search probe keys vals ≡ ok (some v)
  search-Locates i v loc h found =
      search_loop-Locates i v loc found (suc (length keys)) 0 (length keys) (omega arith)
        (omega arith) h (omega arith)

  pub search-Absent : Absent probe keys → search probe keys vals ≡ ok none
  search-Absent absent =
      search_loop-Absent absent (suc (length keys)) 0 (length keys) (omega arith) (omega arith)
