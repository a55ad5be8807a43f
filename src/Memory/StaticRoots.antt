-- ===== src/Memory/StaticRoots.antt =====
-- `addStaticRoot` of vm/memory.c on the addresses in `staticRoots`.
use littlesmalltalk.Prelude.{
  ℕ, ◌<◌, ◌≤◌, ◌≡◌, refl, sym, ◌∙◌, inl, inr, Bool, true, false, ◌||◌, List, [], ◌∷◌, ◌++◌, ◌==◌,
  ==_iff, leb, if◌then◌else◌, Bool-cases, length, length-append, arith,
}
use littlesmalltalk.Prelude.Result.{Result, ok, error}

abbrev pub static_root_limit : ℕ
static_root_limit = 200

unfoldable pub is_root : ℕ → List ℕ → Bool
is_root objp [] = false
is_root objp (r ∷ rs) = objp == r || is_root objp rs

unfoldable pub add_static_root : ℕ → List ℕ → Result (List ℕ)
add_static_root objp roots =
    if is_root objp roots
    then ok roots
    else if leb static_root_limit (length roots)
    then error
    else ok (roots ++ objp ∷ [])

-- No address is in the table twice.
abbrev pub IsUnique : List ℕ → Type 0
IsUnique [] = Unit
IsUnique (r ∷ rs) = (is_root r rs ≡ false) × IsUnique rs

or_false : (a : Bool) → (a || false) ≡ a
or_false true = refl
or_false false = refl

or_assoc : (a b c : Bool) → (a || (b || c)) ≡ ((a || b) || c)
or_assoc true b c = refl
or_assoc false b c = refl

or_true : (a : Bool) → (a || true) ≡ true
or_true true = refl
or_true false = refl

or_none : (a b : Bool) → (a || b) ≡ false → (a ≡ false) × (b ≡ false)
or_none true b h = cc
or_none false b h = (refl, h)

ne_sym : (a b : ℕ) → (a == b) ≡ false → (b == a) ≡ false
ne_sym a b h = ground arith

-- An address that is in the table adds nothing.
known_root :
    (objp other : ℕ) (roots : List ℕ)
    → is_root objp roots ≡ true
    → is_root other roots ≡ (is_root other roots || other == objp)
known_root objp other roots there = elim (Bool-cases (other == objp)) [
  | inl same ↦
      let e : objp ≡ other = sym ((==_iff other objp).0 same) in rw (same, or_true) (rw e at there)
  | inr different ↦ rw (different, or_false)
]

is_root-append : (o : ℕ) (rs : List ℕ) (x : ℕ) → is_root o (rs ++ x ∷ []) ≡ (is_root o rs || o == x)
unfolding is_root
is_root-append o [] x = or_false (o == x)
is_root-append o (r ∷ rs) x = rw (is_root-append o rs x) (or_assoc (o == r) (is_root o rs) (o == x))

IsUnique-append :
    (rs : List ℕ) (x : ℕ) → IsUnique rs → is_root x rs ≡ false → IsUnique (rs ++ x ∷ [])
unfolding is_root
IsUnique-append [] x u h = (refl, tt)
IsUnique-append (r ∷ rs) x (new, u) h =
    let (ne, h') = or_none (x == r) (is_root x rs) h in
    (rw (is_root-append r rs x, new, ne_sym x r ne), IsUnique-append rs x u h')

-- `addStaticRoot` with a table that has room has the address in the table afterwards, keeps every
-- address that was in it, keeps the addresses unique, and does not grow the table beyond its limit.
pub add_static_root-IsUnique :
    (objp other : ℕ) (roots : List ℕ)
    → IsUnique roots
    → length roots < static_root_limit
    → (roots' : List ℕ) × (add_static_root objp roots ≡ ok roots')
      × IsUnique roots'
      × (is_root objp roots' ≡ true)
      × (is_root other roots' ≡ (is_root other roots || other == objp))
      × (length roots' ≤ static_root_limit)
unfolding add_static_root
add_static_root-IsUnique objp other roots u room = elim (Bool-cases (is_root objp roots)) [
  | inl there ↦ (roots, rw there, u, there, known_root objp other roots there, omega arith)
  | inr new ↦
      let below : leb static_root_limit (length roots) ≡ false = ground arith in
      (
        roots ++ objp ∷ [],
        rw (new, below),
        IsUnique-append roots objp u new,
        is_root-append objp roots objp ∙ rw (new, (==_iff objp objp).1 refl),
        is_root-append other roots objp,
        omega (arith, length-append roots (objp ∷ [])),
      )
]
