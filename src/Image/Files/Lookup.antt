-- ===== src/Image/Files/Lookup.antt =====
-- `lookupGlobal` (vm/globals.c) on the objects of a dictionary is `dictLookup` on its keys and values.
use littlesmalltalk.Prelude.{
  ℕ, zero, suc, ◌+◌, ◌/◌, ◌≡◌, refl, sym, ap, ◌∙◌, List, [], ◌∷◌, Option, none, some, ltb, length,
  get_elem?, Bool-cases, Option-cases, inl, inr,
}
use littlesmalltalk.Prelude.Result.{Result, ok, ◌>>=◌, >>=-assoc, access}
use littlesmalltalk.Symbols.{Bytes, strsymcomp}
use littlesmalltalk.Dictionary.{probe_of, search_loop, dict_lookup}
use littlesmalltalk.Dictionary.Search.{Probe-cases}
use littlesmalltalk.Dictionary.Entries.{Entries, keys_of, vals_of, entry, IsOrdered}
use littlesmalltalk.Dictionary.Lookup.{dict_lookup-entry}
use littlesmalltalk.Image.Graph.{Oop, null, ref}
use littlesmalltalk.Image.Files.{
  View, fields_of, bytes_of, field_of, value_at, lookup_loop, lookup_keys, lookup_global,
}

-- The symbols behind these pointers.
abbrev pub AreSymbols : View → List Oop → List Bytes → Type 0
AreSymbols view [] [] = Unit
AreSymbols view [] (name ∷ names) = ⊥
AreSymbols view (o ∷ os) [] = ⊥
AreSymbols view (o ∷ os) (name ∷ names) = (bytes_of view o ≡ ok name) × AreSymbols view os names

-- The object at `dict` is a dictionary with these entries.
pub record IsDictionary (view : View) (dict : Oop) (es : Entries Oop) : Type 0 where
  pub keys : Oop
  pub vals : Oop
  pub key_oops : List Oop
  pub keys_there : field_of view dict 0 ≡ ok keys
  pub vals_there : field_of view dict 1 ≡ ok vals
  pub keys_array : fields_of view keys ≡ ok key_oops
  pub vals_array : fields_of view vals ≡ ok (vals_of es)
  pub symbols : AreSymbols view key_oops (keys_of es)

-- No entry is NULL.
abbrev pub or_null : Option Oop → Oop
or_null none = null
or_null (some o) = o

AreSymbols-length :
    (view : View) (os : List Oop) (names : List Bytes)
    → AreSymbols view os names
    → length os ≡ length names
AreSymbols-length view [] [] s = refl
AreSymbols-length view [] (name ∷ names) s = absurd s
AreSymbols-length view (o ∷ os) [] s = absurd s
AreSymbols-length view (o ∷ os) (name ∷ names) (e, s) = ap suc (AreSymbols-length view os names s)

-- Reading the symbol at a place.
AreSymbols-at :
    (view : View) (os : List Oop) (names : List Bytes) (i : ℕ)
    → AreSymbols view os names
    → (access (get_elem? os i) >>= λ o. bytes_of view o) ≡ access (get_elem? names i)
AreSymbols-at view [] [] i s = refl
AreSymbols-at view [] (name ∷ names) i s = absurd s
AreSymbols-at view (o ∷ os) [] i s = absurd s
AreSymbols-at view (o ∷ os) (name ∷ names) zero (e, s) = e
AreSymbols-at view (o ∷ os) (name ∷ names) (suc i) (e, s) = AreSymbols-at view os names i s

module _ (view : View) (dict : Oop) (es : Entries Oop) (d : IsDictionary view dict es) where
  value_at-entry : (mid : ℕ) → value_at view dict mid ≡ access (get_elem? (vals_of es) mid)
  unfolding value_at field_of
  value_at-entry mid = rw (d.vals_there, d.vals_array) refl

  -- One round of the search, where what is done with the symbol agrees.
  round-agrees :
      (mid : ℕ) (g : Bytes → Result Oop) (h : Bytes → Result (Option Oop))
      → ((name : Bytes) → g name ≡ (h name >>= λ r. ok (or_null r)))
      → (access (get_elem? d.key_oops mid) >>= λ key. bytes_of view key >>= g)
        ≡ (access (get_elem? (keys_of es) mid) >>= h >>= λ r. ok (or_null r))
  round-agrees mid g h agree =
      sym (>>=-assoc (access (get_elem? d.key_oops mid)) (λ key. bytes_of view key) g)
      ∙ rw (AreSymbols-at view d.key_oops (keys_of es) mid d.symbols)
          (elim (Option-cases (get_elem? (keys_of es) mid)) [
            | inl missing ↦ rw missing refl
            | inr (name, found) ↦ rw found (agree name)
          ])

  lookup_loop-search :
      (name : Bytes) (fuel low high : ℕ)
      → lookup_loop view dict name d.key_oops fuel low high ≡ (
          search_loop
            (λ key. probe_of (strsymcomp name key))
            (keys_of es)
            (vals_of es)
            fuel
            low
            high
          >>= λ r. ok (or_null r))
  unfolding lookup_loop search_loop
  lookup_loop-search name zero low high = refl
  lookup_loop-search name (suc fuel) low high = elim (Bool-cases (ltb low high)) [
    | inr done ↦ rw done refl
    | inl more ↦
        let mid : ℕ = (low + high) / 2 in
        rw more (
          round-agrees mid _ _ (λ key. elim (Probe-cases (probe_of (strsymcomp name key))) [
            | inl e ↦ rw e (
                value_at-entry mid ∙ elim (Option-cases (get_elem? (vals_of es) mid)) [
                  | inl missing ↦ rw missing refl
                  | inr (v, found) ↦ rw found refl
                ])
            | inr (inl e) ↦ rw e (lookup_loop-search name fuel low mid)
            | inr (inr e) ↦ rw e (lookup_loop-search name fuel (mid + 1) high)
          ]))
  ]

  lookup_keys-dict_lookup :
      (name : Bytes)
      → lookup_keys view dict name
        ≡ (dict_lookup (keys_of es) (vals_of es) name >>= λ r. ok (or_null r))
  unfolding lookup_keys dict_lookup
  lookup_keys-dict_lookup name =
      rw (d.keys_there, d.keys_array, AreSymbols-length view d.key_oops (keys_of es) d.symbols)
        (lookup_loop-search name (suc (length (keys_of es))) 0 (length (keys_of es)))

-- On the objects of an ordered dictionary, `lookupGlobal` ends, reads inside the objects, and returns
-- the value that stands beside the name, or NULL if the name is not among the keys.
pub lookup_global-entry :
    (view : View) (globals : ℕ) (es : Entries Oop) (name : Bytes)
    → IsDictionary view (ref globals) es
    → IsOrdered es
    → lookup_global view (ref globals) name ≡ ok (or_null (entry name es))
unfolding lookup_global
lookup_global-entry view globals es name d ordered =
    lookup_keys-dict_lookup view (ref globals) es d name
    ∙ rw (dict_lookup-entry es name ordered) refl
