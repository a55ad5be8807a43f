-- ===== src/Image/Graph/Known.antt =====
-- Reading what needs no new object: tags, integers, and objects that were met before.
use littlesmalltalk.Prelude.{
  ℕ, suc, ◌*◌, ◌<◌, ◌≡◌, refl, ◌∙◌, true, false, List, ◌++◌, some, length, ◌==◌, ==_iff, ltb,
  Bool-cases, inl, inr, arith,
}
use littlesmalltalk.Prelude.Int.{ℤ, pos, negsuc}
use littlesmalltalk.Prelude.Result.{Result, ok, ◌>>=◌, >>=-eq-ok}
use littlesmalltalk.Image.Tag.{write_tag, read_tag}
use littlesmalltalk.Image.Tag.RoundTrip.{write_tag-back}
use littlesmalltalk.Image.Graph.{
  Oop, small, ref, Object, Heap, index_of, tagged, write_small, write_known, Reading, place_of,
  read_known, read_tagged,
}
use littlesmalltalk.Image.Graph.Copy.{moved, index_of-append, index_of-lt, moved-found}
use littlesmalltalk.Image.Graph.Sequence.{reading, Copied, Copied-known, written_eq}

-- The reader of one object, with `r` for the recursive calls.
abbrev pub reader : (Reading → Result (Oop × Reading)) → Reading → Result (Oop × Reading)
reader r s = read_tag s.input >>= λ (tag, rest). read_tagged r tag (record s { input = rest })

module _ (r : Reading → Result (Oop × Reading)) where
  -- A tag in front of what `read_tagged` reads.
  pub reader-tag :
      (t : ℕ) (v : ℤ) (tag rest : List ℕ) (objs : List Object)
      → t < 8
      → write_tag (32 * t) v ≡ ok tag
      → reader r (reading objs (tag ++ rest))
        ≡ read_tagged r (record { type = 32 * t; val = v }) (reading objs rest)
  reader-tag t v tag rest objs h w = rw (write_tag-back t v tag h w rest)

  -- A tag alone.
  tagged-Copied :
      (heap : Heap) (t : ℕ) (v : ℤ) (obj : Oop) (indir indir' out : List ℕ)
      → t < 8
      → tagged indir (32 * t) v ≡ ok (indir', out)
      → ((final later : List ℕ) (objs : List Object) (rest : List ℕ)
          → final ≡ indir ++ later
          → length objs ≡ length indir
          → read_tagged r (record { type = 32 * t; val = v }) (reading objs rest)
            ≡ ok (moved final obj, reading objs rest))
      → Copied heap (reader r) (λ final. moved final obj) indir indir' out
  tagged-Copied heap t v obj indir indir' out ht h reads =
      let (tag, w, h₁) = >>=-eq-ok (write_tag (32 * t) v) _ h in
      let (same, outs) = written_eq h₁ in
      rw (← same, ← outs)
        (Copied-known λ final later objs rest e l.
          reader-tag t v tag rest objs ht w ∙ reads final later objs rest e l)

  pub write_small-Copied :
      (heap : Heap) (v : ℤ) (indir indir' out : List ℕ)
      → write_small v indir ≡ ok (indir', out)
      → Copied heap (reader r) (λ final. moved final (small v)) indir indir' out
  unfolding write_small read_tagged moved
  write_small-Copied heap (pos n) indir indir' out h =
      tagged-Copied heap 2 (pos n) (small (pos n)) indir indir' out (omega arith) h
        λ final later objs rest e l. refl
  write_small-Copied heap (negsuc n) indir indir' out h =
      tagged-Copied heap 3 (pos (suc n)) (small (negsuc n)) indir indir' out (omega arith) h
        λ final later objs rest e l. refl

  -- A place of the writer's array is a place of the reader's.
  place_of-moved :
      (a i : ℕ) (indir final later : List ℕ) (objs : List Object) (rest : List ℕ)
      → index_of a indir ≡ some i
      → final ≡ indir ++ later
      → length objs ≡ length indir
      → (read_known i (reading objs rest) ≡ ok (moved final (ref a), reading objs rest))
        × (place_of i (reading objs rest) ≡ ok (moved final (ref a), reading objs rest))
  unfolding place_of read_known
  place_of-moved a i indir final later objs rest found e l =
      let there : i < length objs = omega (arith, index_of-lt a indir i found) in
      let below : ltb i (length objs) ≡ true = ground arith in
      let not_above : ltb (length objs) i ≡ false = ground arith in
      let place = moved-found final a i (rw e (index_of-append a indir later i found)) in
      (rw (not_above, below, place), rw (below, place))

  pub write_known-Copied :
      (heap : Heap) (a i : ℕ) (indir indir' out : List ℕ)
      → index_of a indir ≡ some i
      → write_known i indir ≡ ok (indir', out)
      → Copied heap (reader r) (λ final. moved final (ref a)) indir indir' out
  unfolding write_known read_tagged
  write_known-Copied heap a i indir indir' out found h = elim (Bool-cases (i == 0)) [
    | inl first ↦
        let zeroth : i ≡ 0 = (==_iff i 0).0 first in
        tagged-Copied heap 6 (pos 0) (ref a) indir indir' out (omega arith) (rw first at h)
          λ final later objs rest e l.
            (place_of-moved a 0 indir final later objs rest (rw zeroth at found) e l).1
    | inr later ↦
        tagged-Copied heap 5 (pos i) (ref a) indir indir' out (omega arith) (rw later at h)
          λ final later' objs rest e l.
            (place_of-moved a i indir final later' objs rest found e l).0
  ]
