-- ===== src/Image/Graph/Coverage.antt =====
-- The table that `objectWrite` leaves is complete: every class and field of an object in it is in it.
use mathlib.Core.List.{append_assoc, append-nil}
use littlesmalltalk.Prelude.{
  ℕ, zero, suc, ◌≡◌, sym, ap, ◌∙◌, List, [], ◌∷◌, ◌++◌, none, some, length, Option-cases,
  Bool-cases, ltb, leb, inl, inr, ◌==◌,
}
use littlesmalltalk.Prelude.Int.{ℤ, pos, negsuc}
use littlesmalltalk.Prelude.Result.{Result, ok, >>=-eq-ok, access, access-ok}
use littlesmalltalk.Image.Tag.{write_tag, lst_obj_type, lst_barray_type}
use littlesmalltalk.Image.Graph.{
  Oop, null, small, ref, Body, fields, bytes, Heap, index_of, Written, tagged, write_all, write_new,
  write_small, write_known, write_ref, write_oop, write_object, image_max_objects,
}
use littlesmalltalk.Image.Graph.Copy.{index_of-append, index_of-new}
use littlesmalltalk.Image.Graph.Sequence.{written_eq}

-- A pointer that the table knows.
abbrev pub Known : List ℕ → Oop → Type 0
Known indir null = ⊥
Known indir (small v) = Unit
Known indir (ref a) = (i : ℕ) × (index_of a indir ≡ some i)

abbrev pub AllKnown : List ℕ → List Oop → Type 0
AllKnown indir [] = Unit
AllKnown indir (o ∷ os) = Known indir o × AllKnown indir os

abbrev pub BodyKnown : List ℕ → Body → Type 0
BodyKnown indir (fields os) = AllKnown indir os
BodyKnown indir (bytes bs) = Unit

-- The object at an address, with everything it points to in the table.
pub record ObjectKnown (heap : Heap) (indir : List ℕ) (a : ℕ) : Type 0 where
  pub class_ : Oop
  pub body : Body
  pub there : heap a ≡ some (record { class_ = class_; body = body })
  pub class_known : Known indir class_
  pub body_known : BodyKnown indir body

abbrev pub IsComplete : Heap → List ℕ → List ℕ → Type 0
IsComplete heap indir [] = Unit
IsComplete heap indir (a ∷ as_) = ObjectKnown heap indir a × IsComplete heap indir as_

-- The part that led from `indir` to `indir'` makes `P` true of every table that continues it, and
-- completes the objects that it added.
record Covers (heap : Heap) (P : List ℕ → Type 0) (indir indir' : List ℕ) : Type 0 where
  new : List ℕ
  extends : indir' ≡ indir ++ new
  covered : (final later : List ℕ) → final ≡ indir' ++ later → P final × IsComplete heap final new

abbrev IsCovering : Heap → (Oop → List ℕ → Result Written) → Type 0
IsCovering heap w =
    (obj : Oop) (indir indir' out : List ℕ)
    → w obj indir ≡ ok (indir', out)
    → Covers heap (λ final. Known final obj) indir indir'

module _ (heap : Heap) where
  IsComplete-append :
      (final xs ys : List ℕ)
      → IsComplete heap final xs
      → IsComplete heap final ys
      → IsComplete heap final (xs ++ ys)
  IsComplete-append final [] ys p q = q
  IsComplete-append final (x ∷ xs) ys (p, ps) q = (p, IsComplete-append final xs ys ps q)

  Covers-both :
      (P Q : List ℕ → Type 0) (indir middle end : List ℕ)
      → Covers heap P indir middle
      → Covers heap Q middle end
      → Covers heap (λ final. P final × Q final) indir end
  Covers-both P Q indir middle end c d = record {
    new = c.new ++ d.new;
    extends = d.extends ∙ ap (λ t. t ++ d.new) c.extends ∙ append_assoc indir c.new d.new;
    covered = λ final later e.
        let (p, ps) =
          c.covered final (d.new ++ later)
            (e ∙ ap (λ t. t ++ later) d.extends ∙ append_assoc middle d.new later) in
        let (q, qs) = d.covered final later e in
        ((p, q), IsComplete-append final c.new d.new ps qs);
  }

  -- Nothing was added.
  Covers-known :
      (P : List ℕ → Type 0) (indir : List ℕ)
      → ((final later : List ℕ) → final ≡ indir ++ later → P final)
      → Covers heap P indir indir
  Covers-known P indir h = record {
    new = [];
    extends = sym (append-nil indir);
    covered = λ final later e. (h final later e, tt);
  }

  Covers-tagged :
      (P : List ℕ → Type 0) (indir indir' out : List ℕ) (t : ℕ) (v : ℤ)
      → tagged indir t v ≡ ok (indir', out)
      → ((final later : List ℕ) → final ≡ indir ++ later → P final)
      → Covers heap P indir indir'
  Covers-tagged P indir indir' out t v h known =
      let (tag, w, h₁) = >>=-eq-ok (write_tag t v) _ h in
      let (same, outs) = written_eq h₁ in rw (← same) (Covers-known P indir known)

  write_small-Covers :
      (v : ℤ) (indir indir' out : List ℕ)
      → write_small v indir ≡ ok (indir', out)
      → Covers heap (λ final. Known final (small v)) indir indir'
  unfolding write_small
  write_small-Covers (pos n) indir indir' out h =
      Covers-tagged _ indir indir' out _ _ h (λ final later e. tt)
  write_small-Covers (negsuc n) indir indir' out h =
      Covers-tagged _ indir indir' out _ _ h (λ final later e. tt)

  write_known-Covers :
      (a i : ℕ) (indir indir' out : List ℕ)
      → index_of a indir ≡ some i
      → write_known i indir ≡ ok (indir', out)
      → Covers heap (λ final. Known final (ref a)) indir indir'
  unfolding write_known
  write_known-Covers a i indir indir' out found h =
      let known : (final later : List ℕ) → final ≡ indir ++ later → Known final (ref a) =
        λ final later e. (i, rw e (index_of-append a indir later i found)) in
      elim (Bool-cases (i == 0)) [
        | inl first ↦ Covers-tagged _ indir indir' out _ _ (rw first at h) known
        | inr other ↦ Covers-tagged _ indir indir' out _ _ (rw other at h) known
      ]

  -- The object at `a`, which stands in the table before its parts, is complete with them.
  Covers-made :
      (a : ℕ) (c : Oop) (b : Body) (indir indir' : List ℕ)
      → heap a ≡ some (record { class_ = c; body = b })
      → index_of a indir ≡ none
      → Covers heap (λ final. Known final c × BodyKnown final b) (indir ++ a ∷ []) indir'
      → Covers heap (λ final. Known final (ref a)) indir indir'
  Covers-made a c b indir indir' there fresh d = record {
    new = a ∷ d.new;
    extends = d.extends ∙ append_assoc indir (a ∷ []) d.new;
    covered = λ final later e.
        let ((ck, bk), rest) = d.covered final later e in
        let whole : final ≡ indir ++ a ∷ (d.new ++ later) = rw (e, d.extends) (simp append_assoc) in
        (
          (length indir, rw whole (index_of-new a indir (d.new ++ later) fresh)),
          (record { class_ = c; body = b; there = there; class_known = ck; body_known = bk }, rest),
        );
  }

  module _ (w : Oop → List ℕ → Result Written) (covering : IsCovering heap w) where
    write_all-Covers :
        (os : List Oop) (indir indir' out : List ℕ)
        → write_all w os indir ≡ ok (indir', out)
        → Covers heap (λ final. AllKnown final os) indir indir'
    unfolding write_all
    write_all-Covers [] indir indir' out h =
        let (same, outs) = written_eq h in rw (← same) (Covers-known _ indir (λ final later e. tt))
    write_all-Covers (o ∷ os) indir indir' out h =
        let ((middle, out₁), first, h₁) = >>=-eq-ok (w o indir) _ h in
        let ((end, out₂), second, h₂) = >>=-eq-ok (write_all w os middle) _ h₁ in
        let c = covering o indir middle out₁ first in
        let d = write_all-Covers os middle end out₂ second in
        let (same, outs) = written_eq h₂ in
        rw (← same)
          (Covers-both (λ final. Known final o) (λ final. AllKnown final os) indir middle end c d)

    write_new-Covers :
        (a : ℕ) (c : Oop) (b : Body) (indir indir' out : List ℕ)
        → heap a ≡ some (record { class_ = c; body = b })
        → index_of a indir ≡ none
        → write_new w (record { class_ = c; body = b }) (indir ++ a ∷ []) ≡ ok (indir', out)
        → Covers heap (λ final. Known final (ref a)) indir indir'
    unfolding write_new
    write_new-Covers a c (fields os) indir indir' out there fresh h =
        let (tag, written, h₁) = >>=-eq-ok (write_tag lst_obj_type (pos (length os))) _ h in
        let ((middle, out₁), first, h₂) = >>=-eq-ok (w c (indir ++ a ∷ [])) _ h₁ in
        let ((end, out₂), second, h₃) = >>=-eq-ok (write_all w os middle) _ h₂ in
        let (same, outs) = written_eq h₃ in
        rw (← same) (
          Covers-made a c (fields os) indir end there fresh (
            Covers-both (λ final. Known final c) (λ final. AllKnown final os) (indir ++ a ∷ [])
              middle end (covering c (indir ++ a ∷ []) middle out₁ first)
              (write_all-Covers os middle end out₂ second)))
    write_new-Covers a c (bytes bs) indir indir' out there fresh h =
        let (tag, written, h₁) = >>=-eq-ok (write_tag lst_barray_type (pos (length bs))) _ h in
        let ((end, out₁), first, h₂) = >>=-eq-ok (w c (indir ++ a ∷ [])) _ h₁ in
        let (same, outs) = written_eq h₂ in
        let d = covering c (indir ++ a ∷ []) end out₁ first in
        rw (← same) (
          Covers-made a c (bytes bs) indir end there fresh (record {
            new = d.new;
            extends = d.extends;
            covered = λ final later e. (let (k, ks) = d.covered final later e in ((k, tt), ks));
          }))

    write_ref-Covers :
        (capacity a : ℕ) (indir indir' out : List ℕ)
        → index_of a indir ≡ none
        → write_ref capacity heap w a indir ≡ ok (indir', out)
        → Covers heap (λ final. Known final (ref a)) indir indir'
    unfolding write_ref
    write_ref-Covers capacity a indir indir' out fresh h =
        let (o, got, h₁) = >>=-eq-ok (access (heap a)) _ h in
        elim (Bool-cases (leb capacity (length indir))) [
          | inl full ↦ cc (rw full at h₁)
          | inr room ↦
              write_new-Covers a o.class_ o.body indir indir' out (access-ok (heap a) got) fresh
                (rw room at h₁)
        ]

    write_oop-Covers : (capacity : ℕ) → IsCovering heap (write_oop capacity heap w)
    unfolding write_oop
    write_oop-Covers capacity null indir indir' out h = cc
    write_oop-Covers capacity (small v) indir indir' out h = write_small-Covers v indir indir' out h
    write_oop-Covers capacity (ref a) indir indir' out h = elim (Option-cases (index_of a indir)) [
      | inr (i, found) ↦ write_known-Covers a i indir indir' out found (rw (found, write_oop) at h)
      | inl fresh ↦ write_ref-Covers capacity a indir indir' out fresh (rw (fresh, write_oop) at h)
    ]

write_object-Covers :
    (capacity : ℕ) (heap : Heap) (fuel : ℕ) → IsCovering heap (write_object capacity heap fuel)
unfolding write_object
write_object-Covers capacity heap zero obj indir indir' out h = cc
write_object-Covers capacity heap (suc fuel) obj indir indir' out h =
    elim (Bool-cases (ltb image_max_objects (length indir))) [
      | inl full ↦ cc (rw full at h)
      | inr room ↦
          write_oop-Covers heap (write_object capacity heap fuel)
            (write_object-Covers capacity heap fuel) capacity obj indir indir' out (rw room at h)
    ]

-- From an empty table.
pub write_object-IsComplete :
    (capacity : ℕ) (heap : Heap) (fuel : ℕ) (obj : Oop) (indir out : List ℕ)
    → write_object capacity heap fuel obj [] ≡ ok (indir, out)
    → Known indir obj × IsComplete heap indir indir
write_object-IsComplete capacity heap fuel obj indir out h =
    let c = write_object-Covers capacity heap fuel obj [] indir out h in
    let (k, ks) = c.covered indir [] (sym (append-nil indir)) in
    let same : indir ≡ c.new = c.extends in (k, rw (← same) at ks)
