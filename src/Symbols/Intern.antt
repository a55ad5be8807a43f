-- ===== src/Symbols/Intern.antt =====
-- `newSymbol` of bootstrap/bootstrap.c. A symbol is named by its place in `oldSymbols`, which has 5000
-- places: no two allocations return one address.
use littlesmalltalk.Prelude.{
  ℕ, zero, suc, ◌+◌, ◌<◌, ◌≤◌, ◌≡◌, ◌↔◌, refl, sym, ap, ◌∙◌, inl, inr, true, false, List, [], ◌∷◌,
  ◌++◌, Option, none, some, leb, if◌then◌else◌, Bool-cases, Option-cases, length, length-append,
  get_elem?, get_elem?-append_left, arith,
}
use littlesmalltalk.Prelude.Int.{is_zero}
use littlesmalltalk.Prelude.Result.{Result, ok, fault}
use littlesmalltalk.Symbols.{Bytes, symbol_bare_cmp, symbol_cmp}
use littlesmalltalk.Symbols.Order.{symbol_cmp-Decides}

abbrev pub max_symbols : ℕ
max_symbols = 5000

-- `for (i = 0; i < symbolTop; i++) if (symbolBareCmp(…) == 0) return oldSymbols[i];`
unfoldable pub find_symbol : Bytes → List Bytes → Option ℕ
find_symbol text [] = none
find_symbol text (s ∷ ss) =
    if is_zero (symbol_bare_cmp text s)
    then some 0
    else elim (find_symbol text ss) [ none ↦ none | some i ↦ some (suc i) ]

unfoldable pub new_symbol : Bytes → List Bytes → Result (ℕ × List Bytes)
new_symbol text symbols = elim (find_symbol text symbols) [
  | some i ↦ ok (i, symbols)
  | none ↦
      if leb max_symbols (length symbols) then fault else ok (length symbols, symbols ++ text ∷ [])
]

same_text : (s t : Bytes) → is_zero (symbol_bare_cmp s t) ≡ true → s ≡ t
unfolding symbol_cmp
same_text s t h = (symbol_cmp-Decides s t).1.0 h

found_text :
    (t : Bytes) (ss : List Bytes) (i : ℕ) → find_symbol t ss ≡ some i → get_elem? ss i ≡ some t
unfolding find_symbol
found_text t [] i h = cc
found_text t (s ∷ ss) i h = elim (Bool-cases (is_zero (symbol_bare_cmp t s))) [
  | inl same ↦ let e : 0 ≡ i = ground arith in rw (← e) (ap some (sym (same_text t s same)))
  | inr other ↦ elim (Option-cases (find_symbol t ss)) [
    | inl missing ↦ cc (rw (other, missing) at h)
    | inr (j, there) ↦ let e : suc j ≡ i = ground arith in rw (← e) (found_text t ss j there)
  ]
]

same_test : (t : Bytes) → is_zero (symbol_bare_cmp t t) ≡ true
unfolding symbol_cmp
same_test t = (symbol_cmp-Decides t t).1.1 refl

-- A text that is missing is found behind the others once it is there.
find_symbol-append :
    (t : Bytes) (ss : List Bytes)
    → find_symbol t ss ≡ none
    → find_symbol t (ss ++ t ∷ []) ≡ some (length ss)
unfolding find_symbol
find_symbol-append t [] h = rw (same_test t)
find_symbol-append t (s ∷ ss) h = elim (Bool-cases (is_zero (symbol_bare_cmp t s))) [
  | inl same ↦ cc (rw same at h)
  | inr other ↦ elim (Option-cases (find_symbol t ss)) [
    | inl missing ↦ rw (other, find_symbol-append t ss missing)
    | inr (j, there) ↦ cc (rw (other, there) at h)
  ]
]

get_end : (ss : List Bytes) (t : Bytes) → get_elem? (ss ++ t ∷ []) (length ss) ≡ some t
get_end [] t = refl
get_end (s ∷ ss) t = get_end ss t

-- What an intern leaves: the text stands at the place, a search finds it there, and the symbols of
-- before are where they were.
pub record Interned (t : Bytes) (ss : List Bytes) (i : ℕ) (ss' : List Bytes) : Type 0 where
  pub returns : new_symbol t ss ≡ ok (i, ss')
  pub there : get_elem? ss' i ≡ some t
  pub found : find_symbol t ss' ≡ some i
  pub small : length ss' ≤ length ss + 1
  pub kept : (j : ℕ) → j < length ss → get_elem? ss' j ≡ get_elem? ss j

pub new_symbol-Interned :
    (t : Bytes) (ss : List Bytes)
    → length ss < max_symbols
    → (i : ℕ) × (ss' : List Bytes) × Interned t ss i ss'
unfolding new_symbol
new_symbol-Interned t ss room = elim (Option-cases (find_symbol t ss)) [
  | inr (i, there) ↦ (
    i,
    ss,
    record {
      returns = rw (there, new_symbol);
      there = found_text t ss i there;
      found = there;
      small = omega arith;
      kept = λ j h. refl;
    },
  )
  | inl missing ↦
      let below : leb max_symbols (length ss) ≡ false = ground arith in
      (
        length ss,
        ss ++ t ∷ [],
        record {
          returns = rw (missing, new_symbol, below);
          there = get_end ss t;
          found = find_symbol-append t ss missing;
          small = omega (arith, length-append ss (t ∷ []));
          kept = λ j h. get_elem?-append_left ss (t ∷ []) j h;
        },
      )
]

get-lt {ℓ} : {A : Type ℓ} (xs : List A) (i : ℕ) {x : A} → get_elem? xs i ≡ some x → i < length xs
get-lt [] i h = cc
get-lt (x ∷ xs) zero h = omega arith
get-lt (x ∷ xs) (suc i) h = omega (arith, get-lt xs i h)

some_eq {ℓ} : {A : Type ℓ} {a b : A} → some a ≡ some b → a ≡ b
some_eq e = cc

-- A text that is found is not added.
found-new_symbol :
    (t : Bytes) (ss ss' : List Bytes) (i j : ℕ)
    → find_symbol t ss ≡ some i
    → new_symbol t ss ≡ ok (j, ss')
    → i ≡ j
unfolding new_symbol
found-new_symbol t ss ss' i j f h = let r = rw (f, new_symbol) at h in cc

-- Symbols are interned: with room for two more in the table, `newSymbol` of two texts, one after the
-- other, returns, and it returns one object exactly when the texts are one. Each symbol has its text.
pub new_symbol-same_text :
    (t u : Bytes) (ss : List Bytes)
    → length ss + 1 < max_symbols
    → (i j : ℕ) × (ss' ss'' : List Bytes) × (new_symbol t ss ≡ ok (i, ss'))
      × (new_symbol u ss' ≡ ok (j, ss''))
      × (get_elem? ss'' i ≡ some t)
      × (get_elem? ss'' j ≡ some u)
      × ((i ≡ j) ↔ (t ≡ u))
unfolding new_symbol
new_symbol-same_text t u ss room =
    let (i, ss', first) = new_symbol-Interned t ss (omega arith) in
    let (j, ss'', second) = new_symbol-Interned u ss' (omega (arith, first.small)) in
    let still = second.kept i (get-lt ss' i first.there) ∙ first.there in
    (
      i,
      j,
      ss',
      ss'',
      first.returns,
      second.returns,
      still,
      second.there,
      (
        λ (e : i ≡ j). some_eq (sym still ∙ ap (λ k. get_elem? ss'' k) e ∙ second.there),
        λ (e : t ≡ u).
            found-new_symbol u ss' ss'' i j (sym (ap (λ v. find_symbol v ss') e) ∙ first.found)
              second.returns,
      ),
    )
