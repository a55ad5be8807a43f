-- ===== src/Dictionary/Insert.antt =====
-- `dictionaryInsert` (bootstrap/bootstrap.c) keeps a dictionary ordered, refuses a key that is there,
-- and changes what a lookup returns at the new key only.
use native.Mathlib.Nat.{zero-add}
use littlesmalltalk.Prelude.{
  ℕ, zero, suc, ◌+◌, ◌≡◌, ◌≢◌, refl, ap, ◌∙◌, inl, inr, Bool, true, false, List, [], ◌∷◌, ◌++◌,
  none, some, length, Bool-cases, if◌then◌else◌, arith,
}
use littlesmalltalk.Prelude.Int.{ℤ, pos, negsuc, is_neg, is_zero, is_pos}
use littlesmalltalk.Prelude.Result.{ok, error}
use littlesmalltalk.Symbols.{Bytes, symbol_cmp}
use littlesmalltalk.Symbols.Order.{Before, Before-irrefl, Before-trans, symbol_cmp-Decides}
use littlesmalltalk.Dictionary.{dict_lookup, insert, place, dictionary_insert}
use littlesmalltalk.Dictionary.Entries.{
  Entries, keys_of, vals_of, entry, Below, Above, IsOrdered, bytes_eq, bytes_eq_refl,
  bytes_eq_sound, ne→bytes_eq,
}
use littlesmalltalk.Dictionary.Lookup.{dict_lookup-entry}

zero_of_signs : (r : ℤ) → is_neg r ≡ false → is_pos r ≡ false → is_zero r ≡ true
zero_of_signs (pos zero) a b = refl
zero_of_signs (pos (suc n)) a b = cc
zero_of_signs (negsuc n) a b = cc

insert-append {ℓ} :
    {A : Type ℓ} (xs ys : List A) (v : A) → insert (xs ++ ys) (length xs) v ≡ ok (xs ++ v ∷ ys)
unfolding insert
insert-append [] ys v = refl
insert-append (x ∷ xs) ys v = rw (insert-append xs ys v)

module _ {ℓ} {V : Type ℓ} where
  keys_of-append : (xs ys : Entries V) → keys_of (xs ++ ys) ≡ keys_of xs ++ keys_of ys
  keys_of-append [] ys = refl
  keys_of-append ((k, v) ∷ xs) ys = rw (keys_of-append xs ys)

  vals_of-append : (xs ys : Entries V) → vals_of (xs ++ ys) ≡ vals_of xs ++ vals_of ys
  vals_of-append [] ys = refl
  vals_of-append ((k, v) ∷ xs) ys = rw (vals_of-append xs ys)

  length-keys_of : (xs : Entries V) → length (keys_of xs) ≡ length xs
  length-keys_of [] = refl
  length-keys_of ((k, v) ∷ xs) = ap suc (length-keys_of xs)

  length-vals_of : (xs : Entries V) → length (vals_of xs) ≡ length xs
  length-vals_of [] = refl
  length-vals_of ((k, v) ∷ xs) = ap suc (length-vals_of xs)

  Below-trans : (j k : Bytes) (es : Entries V) → Before j k → Below k es → Below j es
  Below-trans j k [] h b = tt
  Below-trans j k ((k', v) ∷ es) h (b, bs) = (Before-trans j k k' h b, Below-trans j k es h bs)

  tail_absent :
      (k k' : Bytes) (v : V) (es : Entries V)
      → Before k' k
      → entry k ((k', v) ∷ es) ≡ none
      → entry k es ≡ none
  unfolding entry
  tail_absent k k' v es h absent =
      ground (arith, ne→bytes_eq k k' (λ e. Before-irrefl k' (rw e at h)))

  head_present : (k k' : Bytes) (v : V) (es : Entries V) → k ≡ k' → entry k ((k', v) ∷ es) ≢ none
  unfolding entry
  head_present k k' v es same absent =
      let hit : bytes_eq k k' ≡ true = rw same (bytes_eq_refl k') in cc (rw hit at absent)

  -- Where the scan stops: between the smaller keys and the greater ones.
  record Split (k : Bytes) (es : Entries V) : Type ℓ where
    smaller : Entries V
    greater : Entries V
    whole : es ≡ smaller ++ greater
    stops : (i : ℕ) → place k (keys_of es) i ≡ ok (i + length smaller)
    above : Above k smaller
    below : Below k greater

  divide : (k : Bytes) (es : Entries V) → IsOrdered es → entry k es ≡ none → Split k es
  unfolding place entry
  divide k [] o absent = record {
    smaller = [];
    greater = [];
    whole = refl;
    stops = λ i. ap ok (omega arith);
    above = tt;
    below = tt;
  }
  divide k ((k', v) ∷ es) (l, o) absent = elim (Bool-cases (is_neg (symbol_cmp k k'))) [
    | inl lt ↦
        let h : Before k k' = (symbol_cmp-Decides k k').0.0 lt in
        record {
          smaller = [];
          greater = (k', v) ∷ es;
          whole = refl;
          stops = λ i. rw lt (ap ok (omega arith));
          above = tt;
          below = (h, Below-trans k k' es h l);
        }
    | inr ge ↦ elim (Bool-cases (is_pos (symbol_cmp k k'))) [
      | inl gt ↦
          let h : Before k' k = (symbol_cmp-Decides k k').2.0 gt in
          let rest = divide k es o (tail_absent k k' v es h absent) in
          record {
            smaller = (k', v) ∷ rest.smaller;
            greater = rest.greater;
            whole = ap (λ t. (k', v) ∷ t) rest.whole;
            stops = λ i. rw (ge, gt) (rest.stops (i + 1) ∙ ap ok (omega arith));
            above = (h, rest.above);
            below = rest.below;
          }
      | inr eq ↦
          let same : k ≡ k' =
            (symbol_cmp-Decides k k').1.0 (zero_of_signs (symbol_cmp k k') ge eq) in
          absurd (head_present k k' v es same absent)
    ]
  ]

  IsOrdered-append :
      (xs : Entries V) (k : Bytes) (v : V) (ys : Entries V)
      → IsOrdered (xs ++ ys)
      → Above k xs
      → Below k ys
      → IsOrdered (xs ++ (k, v) ∷ ys)
  IsOrdered-append [] k v ys o a b = (b, o)
  IsOrdered-append ((k', v') ∷ xs) k v ys (l, o) (a, as') b =
      (Below-append k' xs k v ys l a, IsOrdered-append xs k v ys o as' b)
    where
      Below-append :
          (j : Bytes) (xs : Entries V) (k : Bytes) (v : V) (ys : Entries V)
          → Below j (xs ++ ys)
          → Before j k
          → Below j (xs ++ (k, v) ∷ ys)
      Below-append j [] k v ys l h = (h, l)
      Below-append j ((k', v') ∷ xs) k v ys (l, ls) h = (l, Below-append j xs k v ys ls h)

  entry-append :
      (j : Bytes) (xs : Entries V) (k : Bytes) (v : V) (ys : Entries V)
      → Above k xs
      → entry j (xs ++ (k, v) ∷ ys) ≡ (if bytes_eq j k then some v else entry j (xs ++ ys))
  unfolding entry
  entry-append j [] k v ys a = refl
  entry-append j ((k', v') ∷ xs) k v ys (a, as') = elim (Bool-cases (bytes_eq j k')) [
    | inl e ↦
        let other : bytes_eq j k ≡ false =
          ne→bytes_eq j k (λ same.
            let e' : k' ≡ k = cc (bytes_eq_sound j k' e) in Before-irrefl k (rw e' at a)) in
        rw (e, other)
    | inr ne ↦ rw ne (entry-append j xs k v ys as')
  ]

entry-Below {ℓ} : {V : Type ℓ} (k : Bytes) (es : Entries V) → Below k es → entry k es ≡ none
unfolding entry
entry-Below k [] b = refl
entry-Below k ((k', v) ∷ es) (b, bs) =
    rw (ne→bytes_eq k k' (λ e. Before-irrefl k' (rw e at b))) (entry-Below k es bs)

place-duplicate {ℓ} :
    {V : Type ℓ} (k : Bytes) (es : Entries V) (i : ℕ) (w : V)
    → IsOrdered es
    → entry k es ≡ some w
    → place k (keys_of es) i ≡ error
unfolding place entry
place-duplicate k [] i w o there = cc
place-duplicate k ((k', v) ∷ es) i w (l, o) there = elim (Bool-cases (is_neg (symbol_cmp k k'))) [
  | inl lt ↦
      let h : Before k k' = (symbol_cmp-Decides k k').0.0 lt in
      cc (entry-Below k ((k', v) ∷ es) (h, Below-trans k k' es h l))
  | inr ge ↦ elim (Bool-cases (is_pos (symbol_cmp k k'))) [
    | inr eq ↦ rw (ge, eq)
    | inl gt ↦
        let h : Before k' k = (symbol_cmp-Decides k k').2.0 gt in
        let other : bytes_eq k k' ≡ false = ne→bytes_eq k k' (λ e. Before-irrefl k' (rw e at h)) in
        rw (ge, gt) (place-duplicate k es (i + 1) w o (rw other at there))
  ]
]

if-ok {ℓ} : {A : Type ℓ} (b : Bool) (x y : A) → ok (if b then x else y) ≡ (if b then ok x else ok y)
if-ok true x y = refl
if-ok false x y = refl

-- What an insertion does to the answers of `dictLookup`.
module _ {ℓ} {V : Type ℓ} (es : Entries V) (k : Bytes) (v : V) where
  abbrev pub Inserted : Entries V → Type ℓ
  Inserted es' =
      (dictionary_insert (keys_of es) (vals_of es) k v ≡ ok (keys_of es', vals_of es'))
      × IsOrdered es'
      × ((j : Bytes)
          → dict_lookup (keys_of es') (vals_of es') j
            ≡ (if bytes_eq j k then ok (some v) else dict_lookup (keys_of es) (vals_of es) j))

  keys_inserted :
      (xs ys : Entries V)
      → es ≡ xs ++ ys
      → insert (keys_of es) (length xs) k ≡ ok (keys_of (xs ++ (k, v) ∷ ys))
  keys_inserted xs ys whole =
      rw (whole, keys_of-append xs ys, keys_of-append xs ((k, v) ∷ ys), ← length-keys_of xs)
        (insert-append (keys_of xs) (keys_of ys) k)

  vals_inserted :
      (xs ys : Entries V)
      → es ≡ xs ++ ys
      → insert (vals_of es) (length xs) v ≡ ok (vals_of (xs ++ (k, v) ∷ ys))
  vals_inserted xs ys whole =
      rw (whole, vals_of-append xs ys, vals_of-append xs ((k, v) ∷ ys), ← length-vals_of xs)
        (insert-append (vals_of xs) (vals_of ys) v)

  insert_columns :
      (s : Split k es)
      → dictionary_insert (keys_of es) (vals_of es) k v
        ≡ ok (keys_of (s.smaller ++ (k, v) ∷ s.greater), vals_of (s.smaller ++ (k, v) ∷ s.greater))
  unfolding dictionary_insert
  insert_columns s = rw (
    s.stops 0,
    zero-add,
    keys_inserted s.smaller s.greater s.whole,
    vals_inserted s.smaller s.greater s.whole,
  )

  -- Inserting a key that an ordered dictionary does not hold succeeds and keeps it ordered;
  -- afterwards `dictLookup` returns the new value at the new key, and at every other key what it
  -- returned before.
  pub dictionary_insert-dict_lookup :
      IsOrdered es → entry k es ≡ none → (es' : Entries V) × Inserted es'
  dictionary_insert-dict_lookup o absent =
      let s = divide k es o absent in
      let o' = IsOrdered-append s.smaller k v s.greater (rw s.whole at o) s.above s.below in
      (
        s.smaller ++ (k, v) ∷ s.greater,
        (
          insert_columns s,
          o',
          λ j.
              rw (dict_lookup-entry _ j o', dict_lookup-entry es j o)
                (ap ok (entry-append j s.smaller k v s.greater s.above)
                  ∙ rw (← s.whole) (if-ok (bytes_eq j k) (some v) (entry j es))),
        ),
      )

  -- Inserting a key that is there already ends in `error`.
  pub dictionary_insert-duplicate :
      (w : V)
      → IsOrdered es
      → entry k es ≡ some w
      → dictionary_insert (keys_of es) (vals_of es) k v ≡ error
  unfolding dictionary_insert
  dictionary_insert-duplicate w o there = rw (place-duplicate k es 0 w o there)
