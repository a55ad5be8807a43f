-- ===== src/Image/Graph/Sequence.antt =====
-- What it means that a reader copies what a writer wrote, and that it goes through for the fields of
-- an object one after the other.
use mathlib.Core.List.{append_assoc, append-nil, map-append}
use littlesmalltalk.Prelude.{
  ℕ, ◌≡◌, refl, sym, ap, ◌∙◌, List, [], ◌∷◌, ◌++◌, map, length, length-append, length-map, arith,
}
use littlesmalltalk.Prelude.Result.{Result, ok, ◌>>=◌, >>=-eq-ok}
use littlesmalltalk.Image.Graph.{Oop, Object, Heap, Written, Reading, write_all, read_all}
use littlesmalltalk.Image.Graph.Copy.{moved, moved_object, copies}

abbrev pub reading : List Object → List ℕ → Reading
reading objs input = record { objects = objs; input = input }

-- Writing `x` added the addresses `new` and wrote `out`; reading `out`, whatever follows it, gives the
-- copy of `x` and adds the copies of the new objects, in terms of any `indirArray` that the writer may
-- end with.
pub record Copied {A : Type 0} (heap : Heap) (r : Reading → Result (A × Reading))
    (copy : List ℕ → A) (indir indir' out : List ℕ) : Type 0 where
  pub new : List ℕ
  pub extends : indir' ≡ indir ++ new
  pub reads :
      (final later : List ℕ) (objs : List Object) (rest : List ℕ)
      → final ≡ indir' ++ later
      → length objs ≡ length indir
      → r (reading objs (out ++ rest))
        ≡ ok (copy final, reading (objs ++ copies heap final new) rest)

abbrev pub IsCopier :
    Heap → (Oop → List ℕ → Result Written) → (Reading → Result (Oop × Reading)) → Type 0
IsCopier heap w r =
    (obj : Oop) (indir indir' out : List ℕ)
    → w obj indir ≡ ok (indir', out)
    → Copied heap r (λ final. moved final obj) indir indir' out

module _ (heap : Heap) where
  -- The `indirArray` of the end continues that of the middle.
  continues :
      (final middle new' end later : List ℕ)
      → end ≡ middle ++ new'
      → final ≡ end ++ later
      → final ≡ middle ++ (new' ++ later)
  continues final middle new' end later e f =
      f ∙ ap (λ t. t ++ later) e ∙ append_assoc middle new' later

  copies-append :
      (final : List ℕ) (objs : List Object) (xs ys : List ℕ)
      → (objs ++ copies heap final xs) ++ copies heap final ys
        ≡ objs ++ copies heap final (xs ++ ys)
  copies-append final objs xs ys = simp (append_assoc, map-append)

  length-copied :
      (final : List ℕ) (objs : List Object) (indir new middle : List ℕ)
      → middle ≡ indir ++ new
      → length objs ≡ length indir
      → length (objs ++ copies heap final new) ≡ length middle
  length-copied final objs indir new middle e l =
      rw (e, length-append, length-append)
        (omega (arith, length-map new (λ a. moved_object final (heap a))))

-- A reader for one part, then a reader for another.
abbrev pub both :
    {A B C : Type 0}
    → (A → B → C)
    → (Reading → Result (A × Reading))
    → (Reading → Result (B × Reading))
    → Reading
    → Result (C × Reading)
both f r q s = r s >>= λ (a, s'). q s' >>= λ (b, s''). ok (f a b, s'')

pub Copied-both :
    {A B C : Type 0} (heap : Heap) (f : A → B → C) {r : Reading → Result (A × Reading)}
    {q : Reading → Result (B × Reading)} {copy : List ℕ → A} {copy' : List ℕ → B}
    {indir middle end out out' : List ℕ}
    → Copied heap r copy indir middle out
    → Copied heap q copy' middle end out'
    → Copied heap (both f r q) (λ final. f (copy final) (copy' final)) indir end (out ++ out')
Copied-both heap f {r} {q} {copy} {copy'} {indir} {middle} {end} {out} {out'} c d = record {
  new = c.new ++ d.new;
  extends = d.extends ∙ ap (λ t. t ++ d.new) c.extends ∙ append_assoc indir c.new d.new;
  reads = λ final later objs rest e l.
      let first =
        c.reads final (d.new ++ later) objs (out' ++ rest)
          (continues heap final middle d.new end later d.extends e) l in
      let second =
        d.reads final later (objs ++ copies heap final c.new) rest e
          (length-copied heap final objs indir c.new middle c.extends l) in
      rw (append_assoc out out' rest, first, second)
        (ap (λ t. ok (f (copy final) (copy' final), reading t rest))
          (copies-append heap final objs c.new d.new));
}

pub written_eq :
    {a c b d : List ℕ} → ◌≡◌ {A = Result Written} (ok (a, b)) (ok (c, d)) → (a ≡ c) × (b ≡ d)
written_eq h = (ground arith, ground arith)

-- Nothing new: the reader only reads `out`.
pub Copied-known :
    {A : Type 0} {heap : Heap} {r : Reading → Result (A × Reading)} {copy : List ℕ → A}
    {indir out : List ℕ}
    → ((final later : List ℕ) (objs : List Object) (rest : List ℕ)
        → final ≡ indir ++ later
        → length objs ≡ length indir
        → r (reading objs (out ++ rest)) ≡ ok (copy final, reading objs rest))
    → Copied heap r copy indir indir out
Copied-known {copy} {indir} reads = record {
  new = [];
  extends = sym (append-nil indir);
  reads = λ final later objs rest e l.
      reads final later objs rest e l
      ∙ ap (λ t. ok (copy final, reading t rest)) (sym (append-nil objs));
}

-- All fields of an object.
pub write_all-Copied :
    (heap : Heap) (w : Oop → List ℕ → Result Written) (r : Reading → Result (Oop × Reading))
    → IsCopier heap w r
    → (os : List Oop) (indir indir' out : List ℕ) → write_all w os indir ≡ ok (indir', out)
    → Copied heap (read_all r (length os)) (λ final. map (moved final) os) indir indir' out
unfolding write_all read_all
write_all-Copied heap w r copier [] indir indir' out h =
    let (same, none_out) = written_eq h in
    rw (← same, ← none_out) (Copied-known (λ final later objs rest e l. refl))
write_all-Copied heap w r copier (o ∷ os) indir indir' out h =
    let ((middle, out₁), first, h₁) = >>=-eq-ok (w o indir) _ h in
    let ((end, out₂), second, h₂) = >>=-eq-ok (write_all w os middle) _ h₁ in
    let c = copier o indir middle out₁ first in
    let d = write_all-Copied heap w r copier os middle end out₂ second in
    let (same, joined) = written_eq h₂ in
    rw (← same, ← joined) (Copied-both heap (λ x xs. x ∷ xs) c d)
