-- ===== src/Methods/Inherited.antt =====
-- `lookupMethod` finds the method of the nearest class that has one.
use littlesmalltalk.Prelude.{
  ℕ, zero, suc, ◌<◌, ◌≡◌, ◌≢◌, refl, sym, ap, inl, inr, false, List, [], ◌∷◌, map, Option, none,
  some, length, get_elem?, length-map, Option-cases, ◌==◌, ==_iff, Bool-cases, arith,
}
use littlesmalltalk.Prelude.Int.{is_neg}
use littlesmalltalk.Prelude.Result.{ok}
use littlesmalltalk.Symbols.{Bytes, symbolcomp}
use littlesmalltalk.Symbols.Order.{Before, Before-irrefl, Before-asymm, symbolcomp-Decides}
use littlesmalltalk.Dictionary.{here, before, after, search}
use littlesmalltalk.Dictionary.Search.{Locates, Absent, lt-length, search-Locates, search-Absent}
use littlesmalltalk.Dictionary.Entries.{
  Entries, keys_of, vals_of, entry, IsOrdered, EntryAt, entry_cases, place_cases,
}
use littlesmalltalk.Methods.{Class, View, probe_selector, scan_classes, lookup_method}

-- The method dictionary of `c` holds the entries `es`, and symbols that spell a key are that key.
pub record Holds (w : View) (selector : ℕ) (c : Class) (es : Entries ℕ) : Type 0 where
  pub key_bytes : map w.bytes_of c.method_keys ≡ keys_of es
  pub values : c.method_vals ≡ vals_of es
  pub ordered : IsOrdered es
  pub interned :
      (j key : ℕ)
      → get_elem? c.method_keys j ≡ some key
      → w.bytes_of key ≡ w.bytes_of selector
      → key ≡ selector

get_elem?-map :
    (f : ℕ → Bytes) (xs : List ℕ) (j key : ℕ)
    → get_elem? xs j ≡ some key
    → get_elem? (map f xs) j ≡ some (f key)
get_elem?-map f [] j key e = cc
get_elem?-map f (x ∷ xs) zero key e = (let same : x ≡ key = cc in ap (λ t. some (f t)) same)
get_elem?-map f (x ∷ xs) (suc j) key e = get_elem?-map f xs j key e

module _ (w : View) (selector key : ℕ) where
  not_selector : w.bytes_of selector ≢ w.bytes_of key → (key == selector) ≡ false
  not_selector ne = elim (Bool-cases (key == selector)) [
    | inr n ↦ n
    | inl e ↦ absurd (ne (ap w.bytes_of (sym ((==_iff key selector).0 e))))
  ]

  probe-before :
      Before (w.bytes_of selector) (w.bytes_of key) → probe_selector w selector key ≡ before
  probe-before b = rw (
    not_selector (λ e. Before-irrefl (w.bytes_of key) (rw e at b)),
    (symbolcomp-Decides (w.bytes_of selector) (w.bytes_of key)).0.1 b,
  )

  probe-after :
      Before (w.bytes_of key) (w.bytes_of selector) → probe_selector w selector key ≡ after
  probe-after b =
      let other = not_selector (λ e. Before-irrefl (w.bytes_of key) (rw e at b)) in
      elim (Bool-cases (is_neg (symbolcomp (w.bytes_of selector) (w.bytes_of key)))) [
        | inr n ↦ rw (other, n)
        | inl l ↦ absurd (
            Before-asymm (w.bytes_of key) (w.bytes_of selector) b
              ((symbolcomp-Decides (w.bytes_of selector) (w.bytes_of key)).0.0 l))
      ]

  probe-here : key ≡ selector → probe_selector w selector key ≡ here
  probe-here e = rw ((==_iff key selector).1 e)

module _ (w : View) (selector : ℕ) (c : Class) (es : Entries ℕ) (h : Holds w selector c es) where
  key_at :
      (j key : ℕ)
      → get_elem? c.method_keys j ≡ some key
      → get_elem? (keys_of es) j ≡ some (w.bytes_of key)
  key_at j key e = rw (← h.key_bytes) (get_elem?-map w.bytes_of c.method_keys j key e)

  selector-Locates :
      (i v : ℕ)
      → EntryAt (w.bytes_of selector) es i v
      → Locates (probe_selector w selector) c.method_keys i
  selector-Locates i v (_, at, _) j key q =
      elim (place_cases es (w.bytes_of selector) i j (w.bytes_of key) h.ordered at
        (key_at j key q)) [
          | inl (lt, b) ↦ let e = probe-before w selector key b in (λ p. cc, λ _. lt, λ p. cc)
          | inr (inl (eq, same)) ↦
              let e = probe-here w selector key (h.interned j key q (sym same)) in
              (λ _. sym eq, λ p. cc, λ p. cc)
          | inr (inr (gt, b)) ↦ let e = probe-after w selector key b in (λ p. cc, λ p. cc, λ _. gt)
        ]

  selector-Absent :
      ((j : ℕ) (key : Bytes) → get_elem? (keys_of es) j ≡ some key → w.bytes_of selector ≢ key)
      → Absent (probe_selector w selector) c.method_keys
  selector-Absent absent j key q p =
      let ne : (key == selector) ≡ false =
        not_selector w selector key (absent j (w.bytes_of key) (key_at j key q)) in
      not_here ne p
    where
      not_here : (key == selector) ≡ false → probe_selector w selector key ≢ here
      not_here ne p =
          elim (Bool-cases (is_neg (symbolcomp (w.bytes_of selector) (w.bytes_of key)))) [
            | inl a ↦ cc (rw (ne, a) at p)
            | inr a ↦ cc (rw (ne, a) at p)
          ]

  -- One method dictionary.
  search_methods-entry :
      search (probe_selector w selector) c.method_keys c.method_vals
      ≡ ok (entry (w.bytes_of selector) es)
  search_methods-entry = elim (entry_cases (w.bytes_of selector) es) [
    | inl (i, v, found) ↦ rw (found.0) (
        search-Locates _ c.method_keys c.method_vals i v (selector-Locates i v found)
          (in_range i v found) (rw h.values found.2))
    | inr (missing, absent) ↦
        rw missing (search-Absent _ c.method_keys c.method_vals (selector-Absent absent))
  ]
    where
      in_range : (i v : ℕ) → EntryAt (w.bytes_of selector) es i v → i < length c.method_keys
      in_range i v found = omega (
        arith,
        lt-length (keys_of es) i found.1,
        ap length h.key_bytes,
        length-map c.method_keys w.bytes_of,
      )

-- From `class_` upward stand classes with these method dictionaries, and `nilObject` ends the chain.
pub data Chain (w : View) (selector : ℕ) : ℕ → List (Entries ℕ) → Type 0 where
  top : {class_ : ℕ} → class_ ≡ w.nil_object → Chain w selector class_ []
  up :
      {class_ : ℕ} {c : Class} {es : Entries ℕ} {ess : List (Entries ℕ)}
      → class_ ≢ w.nil_object
      → w.class_at class_ ≡ some c
      → Holds w selector c es
      → Chain w selector c.parent ess
      → Chain w selector class_ (es ∷ ess)

-- The method of the nearest class that has one.
unfoldable pub inherited : Bytes → List (Entries ℕ) → Option ℕ
inherited name [] = none
inherited name (es ∷ ess) = elim (entry name es) [ some m ↦ some m | none ↦ inherited name ess ]

inherited-nil : (name : Bytes) → inherited name [] ≡ none
unfolding inherited
inherited-nil name = refl

inherited-own :
    (name : Bytes) (es : Entries ℕ) (ess : List (Entries ℕ)) (m : ℕ)
    → entry name es ≡ some m
    → inherited name (es ∷ ess) ≡ some m
unfolding inherited
inherited-own name es ess m e = rw (e, inherited)

inherited-up :
    (name : Bytes) (es : Entries ℕ) (ess : List (Entries ℕ))
    → entry name es ≡ none
    → inherited name (es ∷ ess) ≡ inherited name ess
unfolding inherited
inherited-up name es ess e = rw (e, inherited)

scan_classes-inherited :
    (w : View) (selector fuel : ℕ) {class_ : ℕ} {ess : List (Entries ℕ)}
    → Chain w selector class_ ess
    → length ess < fuel
    → scan_classes w fuel selector class_ ≡ ok (inherited (w.bytes_of selector) ess)
unfolding scan_classes
scan_classes-inherited w selector zero chain f = absurd (omega arith)
scan_classes-inherited w selector (suc fuel) (top {class_} e) f =
    rw ((==_iff class_ w.nil_object).1 e) (ap ok (sym (inherited-nil (w.bytes_of selector))))
scan_classes-inherited w selector (suc fuel) (up {class_} {c} {es} {ess} ne at h chain) f =
    let rest = scan_classes-inherited w selector fuel chain (omega arith) in
    let here : (class_ == w.nil_object) ≡ false = ground arith in
    elim (Option-cases (entry (w.bytes_of selector) es)) [
      | inl e ↦
          rw
            (
              inherited-up (w.bytes_of selector) es ess e,
              here,
              at,
              search_methods-entry w selector c es h,
              e,
            )
            rest
      | inr (m, e) ↦ rw (
        inherited-own (w.bytes_of selector) es ess m e,
        here,
        at,
        search_methods-entry w selector c es h,
        e,
      )
    ]

-- `lookupMethod` ends, reads inside the method dictionaries only, and returns the method of the
-- nearest class on the chain whose dictionary has the selector, or NULL if none has it; the fuel
-- needs to be more than the number of classes on the chain.
pub lookup_method-inherited :
    (w : View) (fuel selector : ℕ) {class_ : ℕ} {ess : List (Entries ℕ)}
    → selector ≢ 0
    → selector ≢ w.nil_object
    → class_ ≢ 0
    → Chain w selector class_ ess
    → length ess < fuel
    → lookup_method w fuel selector class_ ≡ ok (inherited (w.bytes_of selector) ess)
unfolding lookup_method
lookup_method-inherited w fuel selector {class_} {ess} a b n chain f =
    let whole = scan_classes-inherited w selector fuel chain f in
    elim (Bool-cases (class_ == w.nil_object)) [
      | inl e ↦ ground (arith, chain_of_nil chain)
      | inr other ↦ ground (arith, whole)
    ]
  where
    chain_of_nil :
        {c : ℕ} {xs : List (Entries ℕ)}
        → Chain w selector c xs
        → c ≡ w.nil_object
        → inherited (w.bytes_of selector) xs ≡ none
    chain_of_nil (top e) h = inherited-nil (w.bytes_of selector)
    chain_of_nil (up ne at h chain) e = absurd (ne e)
