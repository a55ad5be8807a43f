-- ===== src/Primitives/BulkReplace.antt =====
-- `bulkReplace` of vm/interp.c. An argument is a SmallInt or another object; storage is the words or the
-- bytes of an object. The result 1 makes the primitive fail. The source and the destination may be one
-- object: `bcopy` copies as if by way of a buffer, so the model reads all of the source first.
use littlesmalltalk.Prelude.{
  ℕ, zero, suc, ◌+◌, ◌-◌, ◌<◌, ◌≤◌, ◌≡◌, refl, ◌∙◌, Bool, true, false, not, ◌&&◌, ◌||◌, List, ◌++◌,
  Option, none, some, ltb, leb, if◌then◌else◌, length, length-take, length-drop, take, drop,
  get_elem?, get_elem?-append_left, get_elem?-append_right, get_elem?-take, get_elem?-drop, arith,
}
use littlesmalltalk.Prelude.Int.{ℤ, pos, negsuc}
use littlesmalltalk.Prelude.Result.{Result, ok, fault, ◌>>=◌}

pub record Storage : Type 0 where
  pub is_binary : Bool
  pub is_dynamic : Bool
  pub data_ : List ℕ

-- A one-based index as a zero-based one; `none` where it is not a SmallInt or is less than 1.
abbrev pub index : Option ℤ → Option ℕ
index none = none
index (some (negsuc n)) = none
index (some (pos zero)) = none
index (some (pos (suc n))) = some n

-- `bcopy` of `count` units to `istart`; behind the end of the destination it is a fault.
unfoldable pub bcopy : List ℕ → ℕ → List ℕ → ℕ → ℕ → Result (List ℕ)
bcopy src rep dest istart count =
    if leb (istart + count) (length dest) && leb (rep + count) (length src)
    then ok (take istart dest ++ (take count (drop rep src) ++ drop (istart + count) dest))
    else fault

-- The result, and the destination. The indices here are zero-based.
unfoldable pub replace_checked : Storage → ℕ → ℕ → Storage → ℕ → Result (ℕ × Storage)
replace_checked dest istart istop src rep =
    let count = istop + 1 - istart in
    let copied =
      (bcopy src.data_ rep dest.data_ istart count >>= λ d. ok (0, record dest { data_ = d })) in
    if leb (istop + 1) istart
    then ok (1, dest)
    else if ltb (length dest.data_) istop || ltb (length src.data_) (rep + count)
    then ok (1, dest)
    else if src.is_binary && dest.is_binary
    then copied
    else if src.is_binary || dest.is_binary
    then ok (1, dest)
    else if (src.is_dynamic && not dest.is_dynamic) || (not src.is_dynamic && dest.is_dynamic)
    then ok (1, dest)
    else copied

unfoldable pub bulk_replace :
    Storage → Option ℤ → Option ℤ → Storage → Option ℤ → Result (ℕ × Storage)
bulk_replace dest start stop src rep_start = elim (index rep_start) [
  | none ↦ ok (1, dest)
  | some rep ↦ elim (index start) [
    | none ↦ ok (1, dest)
    | some istart ↦ elim (index stop) [
      | none ↦ ok (1, dest)
      | some istop ↦ replace_checked dest istart istop src rep
    ]
  ]
]

-- Both objects are binary, or neither is and both are in one of the two spaces.
abbrev pub AreAlike : Storage → Storage → Type 0
AreAlike src dest = (src.is_binary ≡ dest.is_binary) × (src.is_dynamic ≡ dest.is_dynamic)

-- Indices that pass the range check.
abbrev pub InRange : Storage → ℕ → ℕ → Storage → ℕ → Type 0
InRange dest istart istop src rep =
    (istart ≤ istop) × (istop ≤ length dest.data_) × (rep + (istop + 1 - istart) ≤ length src.data_)

kinds-alike :
    {A : Type 0} (b d : Bool) (x y : A)
    → (if b && b then x else if b || b then y else if (d && not d) || (not d && d) then y else x)
      ≡ x
kinds-alike true d x y = refl
kinds-alike false true x y = refl
kinds-alike false false x y = refl

-- Alike objects and indices in range lead to `bcopy`.
replace_checked-alike :
    (dest : Storage) (istart istop : ℕ) (src : Storage) (rep : ℕ)
    → AreAlike src dest
    → InRange dest istart istop src rep
    → replace_checked dest istart istop src rep ≡ (
        bcopy src.data_ rep dest.data_ istart (istop + 1 - istart) >>= λ d.
        ok (0, record dest { data_ = d }))
unfolding replace_checked
replace_checked-alike dest istart istop src rep (bin, dyn) (order, top, enough) =
    let some_count : leb (istop + 1) istart ≡ false = ground arith in
    let dest_room : ltb (length dest.data_) istop ≡ false = ground arith in
    let src_room : ltb (length src.data_) (rep + (istop + 1 - istart)) ≡ false = ground arith in
    rw (some_count, dest_room, src_room, bin, dyn) (kinds-alike dest.is_binary dest.is_dynamic _ _)

-- A destination with `count` of its elements replaced.
abbrev spliced : List ℕ → ℕ → List ℕ → ℕ → ℕ → List ℕ
spliced src rep dest istart count =
    take istart dest ++ (take count (drop rep src) ++ drop (istart + count) dest)

module _ (src : List ℕ) (rep : ℕ) (dest : List ℕ) (istart count : ℕ)
    (room : istart + count ≤ length dest) (enough : rep + count ≤ length src) where
  length-front : length (take istart dest) ≡ istart
  length-front = omega (arith, length-take istart dest)

  length-middle : length (take count (drop rep src)) ≡ count
  length-middle = omega (arith, length-take count (drop rep src), length-drop rep src)

  spliced-front :
      (i : ℕ) → i < istart → get_elem? (spliced src rep dest istart count) i ≡ get_elem? dest i
  spliced-front i h =
      get_elem?-append_left (take istart dest) _ i (omega (arith, length-front))
      ∙ get_elem?-take istart dest i h

  spliced-middle :
      (k : ℕ)
      → k < count
      → get_elem? (spliced src rep dest istart count) (istart + k) ≡ get_elem? src (rep + k)
  spliced-middle k h =
      rw length-front at (
        get_elem?-append_right (take istart dest)
          (take count (drop rep src) ++ drop (istart + count) dest) k)
      ∙ get_elem?-append_left (take count (drop rep src)) _ k (omega (arith, length-middle))
      ∙ get_elem?-take count (drop rep src) k h
      ∙ get_elem?-drop rep src k

  spliced-back :
      (i : ℕ)
      → get_elem? (spliced src rep dest istart count) (istart + (count + i))
        ≡ get_elem? dest (istart + count + i)
  spliced-back i =
      rw length-front at (
        get_elem?-append_right (take istart dest)
          (take count (drop rep src) ++ drop (istart + count) dest) (count + i))
      ∙ rw length-middle at
          (get_elem?-append_right (take count (drop rep src)) (drop (istart + count) dest) i)
      ∙ get_elem?-drop (istart + count) dest i

-- Where the objects are alike, the range is in the destination and the source has enough elements, the
-- primitive succeeds: every element from `start` to `stop` is that of the source from `repStart` on, and
-- every element before and behind is as it was, also where `start` is the first element.
pub bulk_replace-copies :
    (dest : Storage) (istart istop : ℕ) (src : Storage) (rep : ℕ)
    → AreAlike src dest
    → InRange dest istart istop src rep
    → istop < length dest.data_
    → (dest' : Storage) × (bulk_replace dest
          (some (pos (suc istart)))
          (some (pos (suc istop)))
          src
          (some (pos (suc rep)))
        ≡ ok (0, dest'))
      × ((i : ℕ) → i < istart → get_elem? dest'.data_ i ≡ get_elem? dest.data_ i)
      × ((k : ℕ)
          → k < istop + 1 - istart
          → get_elem? dest'.data_ (istart + k) ≡ get_elem? src.data_ (rep + k))
      × ((j : ℕ) → istop < j → get_elem? dest'.data_ j ≡ get_elem? dest.data_ j)
unfolding bulk_replace bcopy
bulk_replace-copies dest istart istop src rep alike range inside =
    let (order, top, enough) = range in
    let count = istop + 1 - istart in
    let room : istart + count ≤ length dest.data_ = omega arith in
    let fits : leb (istart + count) (length dest.data_) ≡ true = ground arith in
    let has : leb (rep + count) (length src.data_) ≡ true = ground arith in
    (
      record dest { data_ = spliced src.data_ rep dest.data_ istart count },
      replace_checked-alike dest istart istop src rep alike range ∙ rw (fits, has) refl,
      spliced-front src.data_ rep dest.data_ istart count room enough,
      spliced-middle src.data_ rep dest.data_ istart count room enough,
      λ j behind.
          let from : istart + (count + (j - (istop + 1))) ≡ j = omega arith in
          let from' : istart + count + (j - (istop + 1)) ≡ j = omega arith in
          rw (from, from') at
            (spliced-back src.data_ rep dest.data_ istart count room enough (j - (istop + 1))),
    )

-- The range check lets through a `stop` one behind the last element of the destination, and the copy
-- then writes behind the object.
pub bulk_replace-past_end :
    (dest : Storage) (istart : ℕ) (src : Storage) (rep : ℕ)
    → AreAlike src dest
    → InRange dest istart (length dest.data_) src rep
    → bulk_replace dest
        (some (pos (suc istart)))
        (some (pos (suc (length dest.data_))))
        src
        (some (pos (suc rep)))
      ≡ fault
unfolding bulk_replace bcopy
bulk_replace-past_end dest istart src rep alike range =
    let (order, top, enough) = range in
    let beyond : leb (istart + (length dest.data_ + 1 - istart)) (length dest.data_) ≡ false =
      ground arith in
    replace_checked-alike dest istart (length dest.data_) src rep alike range ∙ rw beyond refl
