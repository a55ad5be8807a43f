-- ===== src/Dictionary/Entries.antt =====
-- The specification of a dictionary: a list of entries with ascending keys.
use littlesmalltalk.Prelude.{
  ℕ, zero, suc, ◌<◌, ◌≡◌, ◌≢◌, refl, sym, ap, ◌⊎◌, inl, inr, Bool, true, false, ◌&&◌, List, [], ◌∷◌,
  Option, none, some, get_elem?, ◌==◌, Bool-cases, if◌then◌else◌, arith, lt_cases, lt_cases,
}
use littlesmalltalk.Symbols.{Bytes}
use littlesmalltalk.Symbols.Order.{Before, Before-irrefl, Before-asymm}

unfoldable pub bytes_eq : Bytes → Bytes → Bool
bytes_eq [] [] = true
bytes_eq [] (y ∷ ys) = false
bytes_eq (x ∷ xs) [] = false
bytes_eq (x ∷ xs) (y ∷ ys) = x == y && bytes_eq xs ys

pub bytes_eq_sound : (xs ys : Bytes) → bytes_eq xs ys ≡ true → xs ≡ ys
unfolding bytes_eq
bytes_eq_sound [] [] h = refl
bytes_eq_sound [] (y ∷ ys) h = cc
bytes_eq_sound (x ∷ xs) [] h = cc
bytes_eq_sound (x ∷ xs) (y ∷ ys) h = ground (arith, bytes_eq_sound xs ys)

pub bytes_eq_refl : (xs : Bytes) → bytes_eq xs xs ≡ true
unfolding bytes_eq
bytes_eq_refl [] = refl
bytes_eq_refl (x ∷ xs) = ground (arith, bytes_eq_refl xs)

pub ne→bytes_eq : (xs ys : Bytes) → xs ≢ ys → bytes_eq xs ys ≡ false
ne→bytes_eq xs ys h = elim (Bool-cases (bytes_eq xs ys)) [
  | inl e ↦ absurd (h (bytes_eq_sound xs ys e))
  | inr e ↦ e
]

-- The entries of a dictionary whose two arrays are their columns.
abbrev pub Entries {ℓ} : Type ℓ → Type ℓ
Entries V = List (Bytes × V)

module _ {ℓ} {V : Type ℓ} where
  abbrev pub keys_of : Entries V → List Bytes
  keys_of [] = []
  keys_of ((k, v) ∷ es) = k ∷ keys_of es

  abbrev pub vals_of : Entries V → List V
  vals_of [] = []
  vals_of ((k, v) ∷ es) = v ∷ vals_of es

  -- The value of the first entry with the key.
  unfoldable pub entry : Bytes → Entries V → Option V
  entry j [] = none
  entry j ((k, v) ∷ es) = if bytes_eq j k then some v else entry j es

  abbrev pub Below : Bytes → Entries V → Type 0
  Below k [] = Unit
  Below k ((k', v) ∷ es) = Before k k' × Below k es

  abbrev pub Above : Bytes → Entries V → Type 0
  Above k [] = Unit
  Above k ((k', v) ∷ es) = Before k' k × Above k es

  -- The keys ascend, each once.
  abbrev pub IsOrdered : Entries V → Type 0
  IsOrdered [] = Unit
  IsOrdered ((k, v) ∷ es) = Below k es × IsOrdered es

  Below-get :
      (k : Bytes) (es : Entries V) (j : ℕ) (key : Bytes)
      → Below k es
      → get_elem? (keys_of es) j ≡ some key
      → Before k key
  Below-get k [] j key b e = cc
  Below-get k ((k', v) ∷ es) zero key (b, bs) e = (let same : k' ≡ key = cc in rw same at b)
  Below-get k ((k', v) ∷ es) (suc j) key (b, bs) e = Below-get k es j key bs e

  ordered_at :
      (es : Entries V) (i j : ℕ) (a b : Bytes)
      → IsOrdered es
      → get_elem? (keys_of es) i ≡ some a
      → get_elem? (keys_of es) j ≡ some b
      → i < j
      → Before a b
  ordered_at [] i j a b o p q h = cc
  ordered_at ((k, v) ∷ es) i zero a b o p q h = absurd (omega arith)
  ordered_at ((k, v) ∷ es) zero (suc j) a b (l, o) p q h =
      (let same : k ≡ a = cc in rw same at (Below-get k es j b l q))
  ordered_at ((k, v) ∷ es) (suc i) (suc j) a b (l, o) p q h =
      ordered_at es i j a b o p q (omega arith)

  -- Where the entry of a key is, or that there is none.
  abbrev pub EntryAt : Bytes → Entries V → ℕ → V → Type ℓ
  EntryAt name es i v =
      (entry name es ≡ some v)
      × (get_elem? (keys_of es) i ≡ some name)
      × (get_elem? (vals_of es) i ≡ some v)

  abbrev pub EntryAbsent : Bytes → Entries V → Type ℓ
  EntryAbsent name es =
      (entry name es ≡ none)
      × ((j : ℕ) (key : Bytes) → get_elem? (keys_of es) j ≡ some key → name ≢ key)

  EntryAbsent-cons :
      (name k : Bytes) (v : V) (es : Entries V)
      → name ≢ k
      → EntryAbsent name es
      → EntryAbsent name ((k, v) ∷ es)
  unfolding entry
  EntryAbsent-cons name k v es ne (e, h) =
      (rw (ne→bytes_eq name k ne) e, λ j key at. at_cons j key at)
    where
      at_cons : (j : ℕ) (key : Bytes) → get_elem? (k ∷ keys_of es) j ≡ some key → name ≢ key
      at_cons zero key at = λ same. ne (cc)
      at_cons (suc j) key at = h j key at

  pub entry_cases :
      (name : Bytes) (es : Entries V)
      → ((i : ℕ) × (v : V) × EntryAt name es i v) ⊎ EntryAbsent name es
  unfolding entry
  entry_cases name [] = inr (refl, λ j key e. cc)
  entry_cases name ((k, v) ∷ es) = elim (Bool-cases (bytes_eq name k)) [
    | inl e ↦ inl (0, v, (rw e, ap some (sym (bytes_eq_sound name k e)), refl))
    | inr ne ↦ elim (entry_cases name es) [
      | inl (i, w, found) ↦ inl (suc i, w, (rw ne found.0, found.1, found.2))
      | inr absent ↦
          inr (
            EntryAbsent-cons name k v es (λ e. cc (bytes_eq_refl name, ap (bytes_eq name) e))
              absent)
    ]
  ]

  -- Places and keys are in the same order.
  pub place_cases :
      (es : Entries V) (name : Bytes) (i j : ℕ) (key : Bytes)
      → IsOrdered es
      → get_elem? (keys_of es) i ≡ some name
      → get_elem? (keys_of es) j ≡ some key
      → ((i < j) × Before name key) ⊎ ((i ≡ j) × (name ≡ key)) ⊎ ((j < i) × Before key name)
  place_cases es name i j key o p q = elim (lt_cases i j) [
    | inl lt ↦ inl (lt, ordered_at es i j name key o p q lt)
    | inr (inl eq) ↦ inr (inl (eq, cc))
    | inr (inr gt) ↦ inr (inr (gt, ordered_at es j i key name o q p gt))
  ]

  -- The comparisons of a search point to the place of the key.
  pub place_unique :
      (es : Entries V) (name : Bytes) (i j : ℕ) (key : Bytes)
      → IsOrdered es
      → get_elem? (keys_of es) i ≡ some name
      → get_elem? (keys_of es) j ≡ some key
      → ((name ≡ key → j ≡ i) × (Before name key → i < j) × (Before key name → j < i))
  place_unique es name i j key o p q = elim (place_cases es name i j key o p q) [
    | inl (lt, b) ↦ (
      λ e. absurd (Before-irrefl key (rw e at b)),
      λ _. lt,
      λ c. absurd (Before-asymm name key b c),
    )
    | inr (inl (eq, e)) ↦ (
      λ _. sym eq,
      λ b. absurd (Before-irrefl key (rw e at b)),
      λ b. absurd (Before-irrefl key (rw e at b)),
    )
    | inr (inr (gt, b)) ↦ (
      λ e. absurd (Before-irrefl key (rw e at b)),
      λ c. absurd (Before-asymm name key c b),
      λ _. gt,
    )
  ]
