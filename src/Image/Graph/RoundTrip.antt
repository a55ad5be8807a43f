-- ===== src/Image/Graph/RoundTrip.antt =====
-- An image that was written is read back as the same graph.
use mathlib.Core.List.{append_assoc, append-nil}
use littlesmalltalk.Prelude.{
  ℕ, zero, suc, ◌≡◌, refl, sym, ap, ◌∙◌, List, [], ◌∷◌, ◌++◌, map, none, some, length,
  length-append, ltb, leb, Bool-cases, Option-cases, inl, inr, arith,
}
use littlesmalltalk.Prelude.Int.{pos}
use littlesmalltalk.Prelude.Result.{
  Result, ok, error, out_of_fuel, ◌>>=◌, >>=-eq-ok, >>=-assoc, access, access-ok, fault,
}
use littlesmalltalk.Image.Tag.{write_tag, lst_obj_type, lst_barray_type}
use littlesmalltalk.Image.Graph.{
  Oop, null, small, ref, Body, fields, bytes, Object, Heap, index_of, Written, write_all, write_new,
  write_ref, write_oop, write_object, placeholder, Reading, read_all, read_bytes, fill, make,
  read_fields, read_barray, read_tagged, read_object, image_max_objects,
}
use littlesmalltalk.Image.Graph.Copy.{
  moved, moved_body, moved_object, copies, index_of-new, moved-found, set-append,
}
use littlesmalltalk.Image.Graph.Sequence.{
  reading, Copied, IsCopier, Copied-both, both, write_all-Copied, written_eq,
}
use littlesmalltalk.Image.Graph.Known.{reader, reader-tag, write_small-Copied, write_known-Copied}

-- Making a new object: its place is taken, its contents are read by `q`, and then it is filled.
abbrev making : (Reading → Result (Object × Reading)) → Reading → Result (Oop × Reading)
making q s = q (make s) >>= λ (o, s'). ok (ref (length s.objects), fill (length s.objects) o s')

module _ (heap : Heap) (a : ℕ) (o : Object) (indir : List ℕ) (known : heap a ≡ some o)
    (fresh : index_of a indir ≡ none) where
  -- `p` reads `pre` and then makes an object.
  making-Copied :
      (p : Reading → Result (Oop × Reading)) (q : Reading → Result (Object × Reading))
      (pre indir' out : List ℕ)
      → ((objs : List Object) (rest : List ℕ)
          → p (reading objs (pre ++ rest)) ≡ making q (reading objs rest))
      → Copied heap q (λ final. moved_object final (some o)) (indir ++ a ∷ []) indir' out
      → Copied heap p (λ final. moved final (ref a)) indir indir' (pre ++ out)
  making-Copied p q pre indir' out steps c = record {
    new = a ∷ c.new;
    extends = c.extends ∙ append_assoc indir (a ∷ []) c.new;
    reads = λ final later objs rest e l.
        let inner = c.reads final later (objs ++ placeholder ∷ []) rest e (
          rw (length-append objs (placeholder ∷ []), length-append indir (a ∷ [])) (omega arith)) in
        let whole : final ≡ indir ++ a ∷ (c.new ++ later) = rw (e, c.extends) (simp append_assoc) in
        let place =
          moved-found final a (length indir)
            (rw whole (index_of-new a indir (c.new ++ later) fresh)) in
        let filled =
          set-append objs (copies heap final c.new) placeholder (moved_object final (some o)) in
        rw (
          append_assoc pre out rest,
          steps objs (out ++ rest),
          inner,
          place,
          ← l,
          known,
          append_assoc objs (placeholder ∷ []) (copies heap final c.new),
          filled,
        );
  }

-- The bytes of a binary object.
read_bytes-append : (bs rest : List ℕ) → read_bytes (length bs) (bs ++ rest) ≡ (bs, rest)
unfolding read_bytes
read_bytes-append [] rest = refl
read_bytes-append (b ∷ bs) rest = rw (read_bytes-append bs rest)

>>=-assoc₂ :
    {A B C D : Type 0} (m : Result A) (k : A → Result B) (f : A → B → C) (g : C → Result D)
    → (m >>= λ a. k a >>= λ b. g (f a b)) ≡ ((m >>= λ a. k a >>= λ b. ok (f a b)) >>= g)
>>=-assoc₂ (ok a) k f g = sym (>>=-assoc (k a) (λ b. ok (f a b)) g)
>>=-assoc₂ error k f g = refl
>>=-assoc₂ fault k f g = refl
>>=-assoc₂ out_of_fuel k f g = refl

-- The class and the fields of an object.
abbrev contents : (Reading → Result (Oop × Reading)) → ℕ → Reading → Result (Object × Reading)
contents r size = both (λ c os. record { class_ = c; body = fields os }) r (read_all r size)

read_fields-making :
    (r : Reading → Result (Oop × Reading)) (size : ℕ) (s : Reading)
    → read_fields r size s ≡ making (contents r size) s
unfolding read_fields
read_fields-making r size s = >>=-assoc₂ (r (make s)) (λ (c, s₁). read_all r size s₁) _ _

abbrev with_bytes :
    (Reading → Result (Oop × Reading)) → List ℕ → Reading → Result (Object × Reading)
with_bytes r bs s = r s >>= λ (c, s'). ok (record { class_ = c; body = bytes bs }, s')

read_barray-making :
    (r : Reading → Result (Oop × Reading)) (bs rest : List ℕ) (objs : List Object)
    → read_barray r (length bs) (reading objs (bs ++ rest))
      ≡ making (with_bytes r bs) (reading objs rest)
unfolding read_barray
read_barray-making r bs rest objs = rw (read_bytes-append bs rest, >>=-assoc)

module _ (heap : Heap) (r : Reading → Result (Oop × Reading)) (a : ℕ) (c : Oop)
    (indir : List ℕ) where
  fields_made :
      (os : List Oop) (tag middle end out out' : List ℕ)
      → heap a ≡ some (record { class_ = c; body = fields os })
      → index_of a indir ≡ none
      → write_tag lst_obj_type (pos (length os)) ≡ ok tag
      → Copied heap r (λ final. moved final c) (indir ++ a ∷ []) middle out
      → Copied heap (read_all r (length os)) (λ final. map (moved final) os) middle end out'
      → Copied heap (reader r) (λ final. moved final (ref a)) indir end (tag ++ (out ++ out'))
  unfolding read_tagged moved_object moved_body
  fields_made os tag middle end out out' known fresh written first second =
      making-Copied heap a (record { class_ = c; body = fields os }) indir known fresh (reader r)
        (contents r (length os)) tag end (out ++ out')
        (λ objs rest.
          reader-tag r 1 (pos (length os)) tag rest objs (omega arith) written
          ∙ read_fields-making r (length os) (reading objs rest))
        (Copied-both heap (λ c' os'. record { class_ = c'; body = fields os' }) first second)

  bytes_made :
      (bs : List ℕ) (tag end out : List ℕ)
      → heap a ≡ some (record { class_ = c; body = bytes bs })
      → index_of a indir ≡ none
      → write_tag lst_barray_type (pos (length bs)) ≡ ok tag
      → Copied heap r (λ final. moved final c) (indir ++ a ∷ []) end out
      → Copied heap (reader r) (λ final. moved final (ref a)) indir end ((tag ++ bs) ++ out)
  unfolding read_tagged moved_object moved_body
  bytes_made bs tag end out known fresh written first =
      making-Copied heap a (record { class_ = c; body = bytes bs }) indir known fresh (reader r)
        (with_bytes r bs) (tag ++ bs) end out
        (λ objs rest.
          ap (λ t. reader r (reading objs t)) (append_assoc tag bs rest)
          ∙ reader-tag r 4 (pos (length bs)) tag (bs ++ rest) objs (omega arith) written
          ∙ read_barray-making r bs rest objs)
        (record {
          new = first.new;
          extends = first.extends;
          reads = λ final later objs rest e l. rw (first.reads final later objs rest e l);
        })

module _ (heap : Heap) (w : Oop → List ℕ → Result Written) (r : Reading → Result (Oop × Reading))
    (copier : IsCopier heap w r) where
  write_new-Copied :
      (a : ℕ) (c : Oop) (b : Body) (indir indir' out : List ℕ)
      → heap a ≡ some (record { class_ = c; body = b })
      → index_of a indir ≡ none
      → write_new w (record { class_ = c; body = b }) (indir ++ a ∷ []) ≡ ok (indir', out)
      → Copied heap (reader r) (λ final. moved final (ref a)) indir indir' out
  unfolding write_new
  write_new-Copied a c (fields os) indir indir' out known fresh h =
      let (tag, written, h₁) = >>=-eq-ok (write_tag lst_obj_type (pos (length os))) _ h in
      let ((middle, out₁), first, h₂) = >>=-eq-ok (w c (indir ++ a ∷ [])) _ h₁ in
      let ((end, out₂), second, h₃) = >>=-eq-ok (write_all w os middle) _ h₂ in
      let (same, joined) = written_eq h₃ in
      rw (← same, ← joined)
        (fields_made heap r a c indir os tag middle end out₁ out₂ known fresh written
          (copier c (indir ++ a ∷ []) middle out₁ first)
          (write_all-Copied heap w r copier os middle end out₂ second))
  write_new-Copied a c (bytes bs) indir indir' out known fresh h =
      let (tag, written, h₁) = >>=-eq-ok (write_tag lst_barray_type (pos (length bs))) _ h in
      let ((end, out₁), first, h₂) = >>=-eq-ok (w c (indir ++ a ∷ [])) _ h₁ in
      let (same, joined) = written_eq h₂ in
      rw (← same, ← joined, ← append_assoc tag bs out₁)
        (bytes_made heap r a c indir bs tag end out₁ known fresh written
          (copier c (indir ++ a ∷ []) end out₁ first))

  write_ref-Copied :
      (capacity a : ℕ) (indir indir' out : List ℕ)
      → index_of a indir ≡ none
      → write_ref capacity heap w a indir ≡ ok (indir', out)
      → Copied heap (reader r) (λ final. moved final (ref a)) indir indir' out
  unfolding write_ref
  write_ref-Copied capacity a indir indir' out fresh h =
      let (o, got, h₁) = >>=-eq-ok (access (heap a)) _ h in
      elim (Bool-cases (leb capacity (length indir))) [
        | inl full ↦ cc (rw full at h₁)
        | inr room ↦
            write_new-Copied a o.class_ o.body indir indir' out (access-ok (heap a) got) fresh
              (rw room at h₁)
      ]

  write_oop-Copied : (capacity : ℕ) → IsCopier heap (write_oop capacity heap w) (reader r)
  unfolding write_oop
  write_oop-Copied capacity null indir indir' out h = cc
  write_oop-Copied capacity (small v) indir indir' out h =
      write_small-Copied r heap v indir indir' out h
  write_oop-Copied capacity (ref a) indir indir' out h = elim (Option-cases (index_of a indir)) [
    | inr (i, found) ↦
        write_known-Copied r heap a i indir indir' out found (rw (found, write_oop) at h)
    | inl fresh ↦ write_ref-Copied capacity a indir indir' out fresh (rw (fresh, write_oop) at h)
  ]

-- Reading copies what writing wrote, with the same fuel.
pub write_object-Copied :
    (capacity : ℕ) (heap : Heap) (fuel : ℕ)
    → IsCopier heap (write_object capacity heap fuel) (read_object fuel)
unfolding write_object read_object
write_object-Copied capacity heap zero obj indir indir' out h = cc
write_object-Copied capacity heap (suc fuel) obj indir indir' out h =
    elim (Bool-cases (ltb image_max_objects (length indir))) [
      | inl full ↦ cc (rw full at h)
      | inr room ↦
          write_oop-Copied heap (write_object capacity heap fuel) (read_object fuel)
            (write_object-Copied capacity heap fuel) capacity obj indir indir' out (rw room at h)
    ]

-- An image that was written is read back as the same graph: where `objectWrite` from an empty
-- `indirArray` returns, `objectRead` of the bytes, with whatever behind them, returns the copy of the
-- object, and it has made exactly the copies of the objects the writer met, each with the class and the
-- fields that stand for those of the original, or with its bytes.
pub read_object-write_object :
    (capacity : ℕ) (heap : Heap) (fuel : ℕ) (obj : Oop) (indir out rest : List ℕ)
    → write_object capacity heap fuel obj [] ≡ ok (indir, out)
    → read_object fuel (reading [] (out ++ rest))
      ≡ ok (moved indir obj, reading (copies heap indir indir) rest)
read_object-write_object capacity heap fuel obj indir out rest h =
    let c = write_object-Copied capacity heap fuel obj [] indir out h in
    rw (c.reads indir [] [] rest (sym (append-nil indir)) refl, ← c.extends)
