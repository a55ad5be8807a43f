-- ===== src/Image/Files/Copies.antt =====
-- Looking up globals in the copies that `objectRead` made of a written graph (vm/image.c, vm/globals.c)
-- goes the way it goes in the graph that `objectWrite` wrote.
use littlesmalltalk.Prelude.{
  ℕ, zero, suc, ◌+◌, ◌/◌, ◌≡◌, refl, ap, ◌⊎◌, ◌==◌, ==_iff, Option-cases, List, [], ◌∷◌, map, some,
  ltb, length, length-map, get_elem?, Bool-cases, inl, inr, arith,
}
use littlesmalltalk.Prelude.Result.{Result, ok, error, fault, out_of_fuel, ◌>>=◌, access}
use littlesmalltalk.Symbols.{Bytes, strsymcomp}
use littlesmalltalk.Dictionary.{probe_of}
use littlesmalltalk.Dictionary.Search.{Probe-cases}
use littlesmalltalk.Image.Graph.{Oop, null, small, ref, Body, fields, bytes, Heap, index_of}
use littlesmalltalk.Image.Graph.Copy.{moved, moved_body, moved_object, copies, moved-found}
use littlesmalltalk.Image.Graph.Coverage.{Known, AllKnown, BodyKnown, ObjectKnown, IsComplete}
use littlesmalltalk.Image.Files.{
  View, in_heap, in_objects, fields_of, bytes_of, field_of, value_at, lookup_loop, lookup_keys,
  lookup_global,
}

-- The second run does what the first does, with the copy of its value; the value has the property.
pub record Follows {A B : Type 0} (copy : A → B) (P : A → Type 0) (r : Result A) (r' : Result B)
    : Type 0 where
  pub same : r' ≡ (r >>= λ a. ok (copy a))
  pub has : (a : A) → r ≡ ok a → P a

pub Follows-ok :
    {A B : Type 0} {copy : A → B} {P : A → Type 0} (a : A)
    → P a
    → Follows copy P (ok a) (ok (copy a))
Follows-ok {P} a p = record {
  same = refl;
  has = λ a' e. (let eq : a ≡ a' = ground arith in rw (← eq) p);
}

pub Follows-fault : {A B : Type 0} {copy : A → B} {P : A → Type 0} → Follows copy P fault fault
Follows-fault = record { same = refl; has = λ a e. cc }

pub Follows->>= :
    {A B C D : Type 0} {copy : A → B} {P : A → Type 0} {copy' : C → D} {Q : C → Type 0}
    {r : Result A} {r' : Result B} {f : A → Result C} (f' : B → Result D)
    → Follows copy P r r'
    → ((a : A) → P a → Follows copy' Q (f a) (f' (copy a)))
    → Follows copy' Q (r >>= f) (r' >>= f')
Follows->>= {r = ok a} f' step next = rw step.same (next a (step.has a refl))
Follows->>= {r = error} f' step next = rw step.same (record { same = refl; has = λ a e. cc })
Follows->>= {r = fault} f' step next = rw step.same (record { same = refl; has = λ a e. cc })
Follows->>= {r = out_of_fuel} f' step next = rw step.same (record { same = refl; has = λ a e. cc })

-- NULL, or what the table knows.
abbrev pub Fine : List ℕ → Oop → Type 0
Fine indir o = (o ≡ null) ⊎ Known indir o

index_of-at : (a : ℕ) (xs : List ℕ) (i : ℕ) → index_of a xs ≡ some i → get_elem? xs i ≡ some a
unfolding index_of
index_of-at a [] i e = cc
index_of-at a (x ∷ xs) i e = elim (Bool-cases (x == a)) [
  | inl hit ↦ let first : 0 ≡ i = ground arith in rw (← first) (ap some ((==_iff x a).0 hit))
  | inr other ↦ elim (Option-cases (index_of a xs)) [
    | inl missing ↦ cc (rw (other, missing) at e)
    | inr (j, found) ↦
        let later : suc j ≡ i = ground arith in rw (← later) (index_of-at a xs j found)
  ]
]

get_elem?-map :
    {A B : Type 0} (f : A → B) (xs : List A) (i : ℕ) (x : A)
    → get_elem? xs i ≡ some x
    → get_elem? (map f xs) i ≡ some (f x)
get_elem?-map f [] i x e = cc
get_elem?-map f (y ∷ xs) zero x e = ground arith
get_elem?-map f (y ∷ xs) (suc i) x e = get_elem?-map f xs i x e

ObjectKnown-at :
    (heap : Heap) (indir xs : List ℕ) (i a : ℕ)
    → IsComplete heap indir xs
    → get_elem? xs i ≡ some a
    → ObjectKnown heap indir a
ObjectKnown-at heap indir [] i a complete e = cc
ObjectKnown-at heap indir (x ∷ xs) zero a (k, ks) e =
    let same : x ≡ a = ground arith in rw (← same) k
ObjectKnown-at heap indir (x ∷ xs) (suc i) a (k, ks) e = ObjectKnown-at heap indir xs i a ks e

AllKnown-at :
    (indir : List ℕ) (os : List Oop) (i : ℕ)
    → AllKnown indir os
    → Follows
        (moved indir)
        (Fine indir)
        (access (get_elem? os i))
        (access (get_elem? (map (moved indir) os) i))
AllKnown-at indir [] i ks = Follows-fault
AllKnown-at indir (o ∷ os) zero (k, ks) = Follows-ok o (inr k)
AllKnown-at indir (o ∷ os) (suc i) (k, ks) = AllKnown-at indir os i ks

module _ (heap : Heap) (indir : List ℕ) (complete : IsComplete heap indir indir) where
  -- The two graphs, and what `moved` does to an object pointer.
  abbrev before_copy : View
  before_copy = in_heap heap

  abbrev after_copy : View
  after_copy = in_objects (copies heap indir indir)

  fields_of_known :
      (o o' : Oop) (c : Oop) (b : Body)
      → before_copy o ≡ some (record { class_ = c; body = b })
      → after_copy o' ≡ some (moved_object indir (some (record { class_ = c; body = b })))
      → BodyKnown indir b
      → Follows
          (map (moved indir))
          (AllKnown indir)
          (fields_of before_copy o)
          (fields_of after_copy o')
  unfolding fields_of moved_object moved_body
  fields_of_known o o' c (fields os) e e' k = rw (e, e') (Follows-ok os k)
  fields_of_known o o' c (bytes bs) e e' k = rw (e, e') Follows-fault

  pub fields_of-Follows :
      (o : Oop)
      → Fine indir o
      → Follows
          (map (moved indir))
          (AllKnown indir)
          (fields_of before_copy o)
          (fields_of after_copy (moved indir o))
  unfolding fields_of moved
  fields_of-Follows null k = Follows-fault
  fields_of-Follows (small v) k = Follows-fault
  fields_of-Follows (ref a) (inl e) = cc
  fields_of-Follows (ref a) (inr (i, found)) =
      let k = ObjectKnown-at heap indir indir i a complete (index_of-at a indir i found) in
      let there =
        get_elem?-map (λ x. moved_object indir (heap x)) indir i a (index_of-at a indir i found) in
      rw (moved-found indir a i found)
        (fields_of_known (ref a) (ref i) k.class_ k.body k.there (rw (there, k.there)) k.body_known)

  bytes_of_known :
      (o o' : Oop) (c : Oop) (b : Body)
      → before_copy o ≡ some (record { class_ = c; body = b })
      → after_copy o' ≡ some (moved_object indir (some (record { class_ = c; body = b })))
      → Follows (λ bs. bs) (λ bs. Unit) (bytes_of before_copy o) (bytes_of after_copy o')
  unfolding bytes_of moved_object moved_body
  bytes_of_known o o' c (fields os) e e' = rw (e, e') Follows-fault
  bytes_of_known o o' c (bytes bs) e e' = rw (e, e') (Follows-ok bs tt)

  bytes_of-Follows :
      (o : Oop)
      → Fine indir o
      → Follows
          (λ bs. bs)
          (λ bs. Unit)
          (bytes_of before_copy o)
          (bytes_of after_copy (moved indir o))
  unfolding bytes_of moved
  bytes_of-Follows null k = Follows-fault
  bytes_of-Follows (small v) k = Follows-fault
  bytes_of-Follows (ref a) (inl e) = cc
  bytes_of-Follows (ref a) (inr (i, found)) =
      let k = ObjectKnown-at heap indir indir i a complete (index_of-at a indir i found) in
      let there =
        get_elem?-map (λ x. moved_object indir (heap x)) indir i a (index_of-at a indir i found) in
      rw (moved-found indir a i found)
        (bytes_of_known (ref a) (ref i) k.class_ k.body k.there (rw (there, k.there)))

  pub field_of-Follows :
      (o : Oop) (i : ℕ)
      → Fine indir o
      → Follows
          (moved indir)
          (Fine indir)
          (field_of before_copy o i)
          (field_of after_copy (moved indir o) i)
  unfolding field_of
  field_of-Follows o i k =
      Follows->>= _ (fields_of-Follows o k) (λ os ks. AllKnown-at indir os i ks)

  value_at-Follows :
      (dict : Oop) (mid : ℕ)
      → Fine indir dict
      → Follows
          (moved indir)
          (Fine indir)
          (value_at before_copy dict mid)
          (value_at after_copy (moved indir dict) mid)
  unfolding value_at
  value_at-Follows dict mid k =
      Follows->>= _ (field_of-Follows dict 1 k) (λ vals kv. field_of-Follows vals mid kv)

  lookup_loop-Follows :
      (dict : Oop) (name : Bytes) (keys : List Oop)
      → Fine indir dict
      → AllKnown indir keys
      → (fuel low high : ℕ)
      → Follows
          (moved indir)
          (Fine indir)
          (lookup_loop before_copy dict name keys fuel low high)
          (lookup_loop after_copy (moved indir dict) name (map (moved indir) keys) fuel low high)
  unfolding lookup_loop moved
  lookup_loop-Follows dict name keys kd ks zero low high = record { same = refl; has = λ a e. cc }
  lookup_loop-Follows dict name keys kd ks (suc fuel) low high =
      let mid : ℕ = (low + high) / 2 in
      elim (Bool-cases (ltb low high)) [
        | inr done ↦ rw done (Follows-ok null (inl refl))
        | inl more ↦ rw more (
            Follows->>= _ (AllKnown-at indir keys mid ks) (λ key kk.
              Follows->>= _ (bytes_of-Follows key kk) (λ bs kb.
                elim (Probe-cases (probe_of (strsymcomp name bs))) [
                  | inl e ↦ rw e (value_at-Follows dict mid kd)
                  | inr (inl e) ↦ rw e (lookup_loop-Follows dict name keys kd ks fuel low mid)
                  | inr (inr e) ↦
                      rw e (lookup_loop-Follows dict name keys kd ks fuel (mid + 1) high)
                ])))
      ]

  lookup_keys-Follows :
      (dict : Oop) (name : Bytes)
      → Fine indir dict
      → Follows
          (moved indir)
          (Fine indir)
          (lookup_keys before_copy dict name)
          (lookup_keys after_copy (moved indir dict) name)
  unfolding lookup_keys
  lookup_keys-Follows dict name k = Follows->>= _ (field_of-Follows dict 0 k) (λ keys kk.
      Follows->>= _ (fields_of-Follows keys kk) (λ ks kks.
        rw (length-map ks (moved indir))
          (lookup_loop-Follows dict name ks k kks (suc (length ks)) 0 (length ks))))

  -- Where everything in the table is complete, `lookupGlobal` in the copy of the dictionary ends the way
  -- it ends in the dictionary itself, and what it returns is the copy of what it returns there.
  pub lookup_global-Follows :
      (globals : Oop) (name : Bytes)
      → Fine indir globals
      → Follows
          (moved indir)
          (Fine indir)
          (lookup_global before_copy globals name)
          (lookup_global after_copy (moved indir globals) name)
  unfolding lookup_global moved
  lookup_global-Follows null name k = record { same = refl; has = λ a e. cc }
  lookup_global-Follows (small v) name k = lookup_keys-Follows (small v) name k
  lookup_global-Follows (ref a) name (inl e) = cc
  lookup_global-Follows (ref a) name (inr (i, found)) =
      let whole = lookup_keys-Follows (ref a) name (inr (i, found)) in
      rw (moved-found indir a i found) (rw (moved-found indir a i found) at whole)
