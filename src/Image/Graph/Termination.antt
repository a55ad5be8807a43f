-- ===== src/Image/Graph/Termination.antt =====
-- `objectWrite` returns: on a finite graph of objects whose pointers stay inside it, the depth of its
-- recursion is at most the number of objects.
use littlesmalltalk.Prelude.{
  ℕ, zero, suc, ◌+◌, ◌*◌, ◌^◌, ◌<◌, ◌≤◌, ◌≡◌, refl, false, List, [], ◌∷◌, ◌++◌, none, some, length,
  length-append, ◌==◌, ltb, leb, Bool-cases, Option-cases, inl, inr, arith,
}
use littlesmalltalk.Prelude.Int.{ℤ, pos, negsuc, pos_part, neg_part}
use littlesmalltalk.Prelude.Result.{Result, ok}
use littlesmalltalk.Image.Tag.RoundTrip.{read_tag-write_tag}
use littlesmalltalk.Image.Graph.{
  Oop, null, small, ref, Body, fields, bytes, Heap, index_of, Written, tagged, write_all, write_new,
  write_small, write_known, write_ref, write_oop, write_object, image_max_objects, read_object,
}
use littlesmalltalk.Image.Graph.Copy.{moved, copies, index_of-lt}
use littlesmalltalk.Image.Graph.Remaining.{Member, remaining, remaining-new, remaining-nil}
use littlesmalltalk.Image.Graph.Coverage.{Known, IsComplete, write_object-IsComplete}
use littlesmalltalk.Image.Graph.Sequence.{reading}
use littlesmalltalk.Image.Graph.RoundTrip.{read_object-write_object}

-- A pointer that can be written: an integer with 31 bits, or an object of the graph.
abbrev pub IsInside : List ℕ → Oop → Type 0
IsInside graph null = ⊥
IsInside graph (small v) = (pos_part v < 2 ^ 31) × (neg_part v < 2 ^ 31)
IsInside graph (ref a) = Member a graph

abbrev pub AllInside : List ℕ → List Oop → Type 0
AllInside graph [] = Unit
AllInside graph (o ∷ os) = IsInside graph o × AllInside graph os

abbrev pub BodyInside : List ℕ → Body → Type 0
BodyInside graph (fields os) = (length os < 2 ^ 31) × AllInside graph os
BodyInside graph (bytes bs) = length bs < 2 ^ 31

-- What is at an address of the graph.
pub record ObjectInside (heap : Heap) (graph : List ℕ) (a : ℕ) : Type 0 where
  pub class_ : Oop
  pub body : Body
  pub there : heap a ≡ some (record { class_ = class_; body = body })
  pub class_inside : IsInside graph class_
  pub body_inside : BodyInside graph body

-- Every address of the graph has an object, and its class and fields stay inside the graph.
abbrev pub IsClosed : Heap → List ℕ → Type 0
IsClosed heap graph = (a : ℕ) → Member a graph → ObjectInside heap graph a

module _ (graph : List ℕ) where
  -- The table has addresses of the graph only, each once.
  abbrev Fits : List ℕ → Type 0
  Fits indir = length indir + remaining graph indir ≤ length graph

  -- A part that returns, with a table that still fits and no more left to write.
  record Returns (indir : List ℕ) (r : Result Written) : Type 0 where
    indir' : List ℕ
    out : List ℕ
    returns : r ≡ ok (indir', out)
    fits : Fits indir'
    fewer : remaining graph indir' ≤ remaining graph indir

  -- A writer that returns while less than `k` objects are left.
  abbrev IsTotal : (Oop → List ℕ → Result Written) → ℕ → Type 0
  IsTotal w k =
      (obj : Oop) (indir : List ℕ)
      → IsInside graph obj
      → Fits indir
      → remaining graph indir < k
      → Returns indir (w obj indir)

  tagged-Returns :
      (t n : ℕ) (indir : List ℕ)
      → t < 8
      → n < 2 ^ 31
      → Fits indir
      → Returns indir (tagged indir (32 * t) (pos n))
  tagged-Returns t n indir ht hn fits =
      let (out, e, back) = read_tag-write_tag t n ht hn in
      record { indir' = indir; out = out; returns = rw e; fits = fits; fewer = omega arith }

  write_small-Returns :
      (v : ℤ) (indir : List ℕ)
      → IsInside graph (small v)
      → Fits indir
      → Returns indir (write_small v indir)
  unfolding write_small
  write_small-Returns (pos n) indir (h, k) fits = tagged-Returns 2 n indir (omega arith) h fits
  write_small-Returns (negsuc n) indir (h, k) fits =
      tagged-Returns 3 (suc n) indir (omega arith) k fits

  write_known-Returns :
      (i : ℕ) (indir : List ℕ) → i < 2 ^ 31 → Fits indir → Returns indir (write_known i indir)
  unfolding write_known
  write_known-Returns i indir h fits = elim (Bool-cases (i == 0)) [
    | inl first ↦ rw first (tagged-Returns 6 0 indir (omega arith) (omega arith) fits)
    | inr later ↦ rw later (tagged-Returns 5 i indir (omega arith) h fits)
  ]

  module _ (w : Oop → List ℕ → Result Written) (k : ℕ) (total : IsTotal w k) where
    write_all-Returns :
        (os : List Oop) (indir : List ℕ)
        → AllInside graph os
        → Fits indir
        → remaining graph indir < k
        → Returns indir (write_all w os indir)
    unfolding write_all
    write_all-Returns [] indir inside fits h = record {
      indir' = indir;
      out = [];
      returns = refl;
      fits = fits;
      fewer = omega arith;
    }
    write_all-Returns (o ∷ os) indir (here, later) fits h =
        let first = total o indir here fits h in
        let rest =
          write_all-Returns os first.indir' later first.fits (omega (arith, first.fewer)) in
        record {
          indir' = rest.indir';
          out = first.out ++ rest.out;
          returns = rw (first.returns, rest.returns);
          fits = rest.fits;
          fewer = omega (arith, first.fewer, rest.fewer);
        }

    write_new-Returns :
        (c : Oop) (b : Body) (indir : List ℕ)
        → IsInside graph c
        → BodyInside graph b
        → Fits indir
        → remaining graph indir < k
        → Returns indir (write_new w (record { class_ = c; body = b }) indir)
    unfolding write_new
    write_new-Returns c (bytes bs) indir ci size fits h =
        let (tag, e, back) = read_tag-write_tag 4 (length bs) (omega arith) size in
        let first = total c indir ci fits h in
        record {
          indir' = first.indir';
          out = tag ++ (bs ++ first.out);
          returns = rw (e, first.returns);
          fits = first.fits;
          fewer = first.fewer;
        }
    write_new-Returns c (fields os) indir ci (size, inside) fits h =
        let (tag, e, back) = read_tag-write_tag 1 (length os) (omega arith) size in
        let first = total c indir ci fits h in
        let rest =
          write_all-Returns os first.indir' inside first.fits (omega (arith, first.fewer)) in
        record {
          indir' = rest.indir';
          out = tag ++ (first.out ++ rest.out);
          returns = rw (e, first.returns, rest.returns);
          fits = rest.fits;
          fewer = omega (arith, first.fewer, rest.fewer);
        }

    module _ (capacity : ℕ) (heap : Heap) (closed : IsClosed heap graph)
        (room : length graph ≤ capacity) where
      write_ref-Returns :
          (a : ℕ) (indir : List ℕ)
          → Member a graph
          → index_of a indir ≡ none
          → Fits indir
          → remaining graph indir < suc k
          → Returns indir (write_ref capacity heap w a indir)
      unfolding write_ref
      write_ref-Returns a indir m fresh fits h =
          let o = closed a m in
          let less = remaining-new graph indir a m fresh in
          let free : leb capacity (length indir) ≡ false = ground arith in
          let inner =
            write_new-Returns o.class_ o.body (indir ++ a ∷ []) o.class_inside o.body_inside
              (omega (arith, length-append indir (a ∷ []))) (omega arith) in
          record {
            indir' = inner.indir';
            out = inner.out;
            returns = rw (o.there, free) inner.returns;
            fits = inner.fits;
            fewer = omega (arith, inner.fewer);
          }

      write_oop-Returns :
          length graph ≤ image_max_objects → IsTotal (write_oop capacity heap w) (suc k)
      unfolding write_oop
      write_oop-Returns small_graph null indir inside fits h = elim inside [ ]
      write_oop-Returns small_graph (small v) indir inside fits h =
          write_small-Returns v indir inside fits
      write_oop-Returns small_graph (ref a) indir m fits h =
          elim (Option-cases (index_of a indir)) [
            | inr (i, found) ↦
                rw (found, write_oop)
                  (write_known-Returns i indir (omega (arith, index_of-lt a indir i found)) fits)
            | inl fresh ↦ rw (fresh, write_oop) (write_ref-Returns a indir m fresh fits h)
          ]

  write_object-Returns :
      (capacity : ℕ) (heap : Heap)
      → IsClosed heap graph
      → length graph ≤ capacity
      → length graph ≤ image_max_objects
      → (fuel : ℕ) → IsTotal (write_object capacity heap fuel) fuel
  unfolding write_object
  write_object-Returns capacity heap closed room small_graph zero obj indir inside fits h =
      absurd (omega arith)
  write_object-Returns capacity heap closed room small_graph (suc fuel) obj indir inside fits h =
      let within : ltb image_max_objects (length indir) ≡ false = ground arith in
      rw within (
        write_oop-Returns (write_object capacity heap fuel) fuel
          (write_object-Returns capacity heap closed room small_graph fuel) capacity heap closed
          room small_graph obj indir inside fits h)

-- On a graph of at most 10000 objects whose pointers stay inside it, where its table has as many
-- places, `objectWrite` from an empty table returns, with a fuel above the number of objects. The table
-- then has at most that many entries, it knows the object written and everything that an object in it
-- points to, and `objectRead` of the bytes returns the copy of the object and makes the copies of the
-- objects in the table.
pub write_object-read_object :
    (capacity : ℕ) (heap : Heap) (graph : List ℕ) (fuel : ℕ) (obj : Oop) (rest : List ℕ)
    → IsClosed heap graph
    → length graph ≤ capacity
    → length graph ≤ image_max_objects
    → length graph < fuel
    → IsInside graph obj
    → (indir out : List ℕ) × (write_object capacity heap fuel obj [] ≡ ok (indir, out))
      × (length indir ≤ length graph)
      × (Known indir obj × IsComplete heap indir indir)
      × (read_object fuel (reading [] (out ++ rest))
          ≡ ok (moved indir obj, reading (copies heap indir indir) rest))
write_object-read_object capacity heap graph fuel obj rest closed room small_graph enough inside =
    let empty = remaining-nil graph in
    let w =
      write_object-Returns graph capacity heap closed room small_graph fuel obj [] inside
        (omega (arith, empty)) (omega (arith, empty)) in
    (
      w.indir',
      w.out,
      w.returns,
      omega (arith, w.fits),
      write_object-IsComplete capacity heap fuel obj w.indir' w.out w.returns,
      read_object-write_object capacity heap fuel obj w.indir' w.out rest w.returns,
    )
