-- ===== src/Image/Graph.antt =====
-- `objectWrite` and `objectRead` of vm/image.c. The writer goes through the heap depth first and keeps
-- the addresses of the objects it has met in `indirArray`; an object met again is written as its place
-- there. The reader keeps the objects it has made in its own `indirArray`: the model names a made object
-- by its place there, since no two calls of `gcalloc` return one address. Reading assumes that the
-- space is large enough for the image.
pub mod Copy
pub mod Sequence
pub mod Known
pub mod RoundTrip
pub mod Coverage
pub mod Remaining
pub mod Termination
use littlesmalltalk.Prelude.{
  ℕ, zero, suc, ◌+◌, List, [], ◌∷◌, ◌++◌, Option, none, some, Bool, true, false, ◌==◌, ltb, leb,
  if◌then◌else◌, length, get_elem?, set,
}
use littlesmalltalk.Prelude.Int.{ℤ, pos, negsuc, neg_ℤ}
use littlesmalltalk.Prelude.Result.{Result, ok, error, fault, out_of_fuel, ◌>>=◌, access}
use littlesmalltalk.Image.Tag.{
  Tag, write_tag, read_tag, lst_obj_type, lst_pint_type, lst_nint_type, lst_barray_type,
  lst_pobj_type, lst_nil_type,
}

-- What a `struct object *` is: NULL, a SmallInt, or the address of an object.
pub data Oop : Type 0 where
  null : Oop
  small : ℤ → Oop
  ref : ℕ → Oop

-- The fields of an object, or the bytes of a binary one.
pub data Body : Type 0 where
  fields : List Oop → Body
  bytes : List ℕ → Body

pub record Object : Type 0 where
  pub class_ : Oop
  pub body : Body

abbrev pub Heap : Type 0
Heap = ℕ → Option Object

-- `for (i = 0; i < indirtop; i++) if (obj == indirArray[i])`
unfoldable pub index_of : ℕ → List ℕ → Option ℕ
index_of a [] = none
index_of a (b ∷ bs) =
    if b == a then some 0 else elim (index_of a bs) [ none ↦ none | some i ↦ some (i + 1) ]

abbrev pub image_max_objects : ℕ
image_max_objects = 10000

-- The addresses met so far, and the bytes written.
abbrev pub Written : Type 0
Written = List ℕ × List ℕ

-- `for (i = 0; i < size; i++) objectWrite(fp, obj->data[i]);`
unfoldable pub write_all : (Oop → List ℕ → Result Written) → List Oop → List ℕ → Result Written
write_all w [] indir = ok (indir, [])
write_all w (o ∷ os) indir = w o indir >>= λ (indir', out).
    write_all w os indir' >>= λ (indir'', out'). ok (indir'', out ++ out')

-- An object that was not written yet, with `w` for the recursive calls.
unfoldable pub write_new : (Oop → List ℕ → Result Written) → Object → List ℕ → Result Written
write_new w obj indir = elim (obj.body) [
  | bytes bs ↦ write_tag lst_barray_type (pos (length bs)) >>= λ tag.
      w obj.class_ indir >>= λ (indir', out). ok (indir', tag ++ (bs ++ out))
  | fields os ↦ write_tag lst_obj_type (pos (length os)) >>= λ tag.
      w obj.class_ indir >>= λ (indir', out).
      write_all w os indir' >>= λ (indir'', out'). ok (indir'', tag ++ (out ++ out'))
]

-- A tag alone.
abbrev pub tagged : List ℕ → ℕ → ℤ → Result Written
tagged indir type val = write_tag type val >>= λ out. ok (indir, out)

unfoldable pub write_small : ℤ → List ℕ → Result Written
write_small (pos n) indir = tagged indir lst_pint_type (pos n)
write_small (negsuc n) indir = tagged indir lst_nint_type (neg_ℤ (negsuc n))

unfoldable pub write_known : ℕ → List ℕ → Result Written
write_known i indir =
    if i == 0 then tagged indir lst_nil_type (pos 0) else tagged indir lst_pobj_type (pos i)

-- `capacity` is the number of places of `indirArray`.
unfoldable pub write_ref :
    (capacity : ℕ) → Heap → (Oop → List ℕ → Result Written) → ℕ → List ℕ → Result Written
write_ref capacity heap w a indir = access (heap a) >>= λ o.
    if leb capacity (length indir) then fault else write_new w o (indir ++ a ∷ [])

unfoldable pub write_oop :
    (capacity : ℕ) → Heap → (Oop → List ℕ → Result Written) → Oop → List ℕ → Result Written
write_oop capacity heap w null indir = error
write_oop capacity heap w (small v) indir = write_small v indir
write_oop capacity heap w (ref a) indir = elim (index_of a indir) [
  | some i ↦ write_known i indir
  | none ↦ write_ref capacity heap w a indir
]

unfoldable pub write_object : (capacity : ℕ) → Heap → ℕ → Oop → List ℕ → Result Written
write_object capacity heap zero obj indir = out_of_fuel
write_object capacity heap (suc fuel) obj indir =
    let written = write_oop capacity heap (write_object capacity heap fuel) obj indir in
    if ltb image_max_objects (length indir) then error else written

-- The objects made so far, and what is left of the file.
pub record Reading : Type 0 where
  pub objects : List Object
  pub input : List ℕ

abbrev pub placeholder : Object
placeholder = record { class_ = null; body = fields [] }

unfoldable pub read_all :
    (Reading → Result (Oop × Reading)) → ℕ → Reading → Result (List Oop × Reading)
read_all r zero s = ok ([], s)
read_all r (suc n) s = r s >>= λ (o, s'). read_all r n s' >>= λ (os, s''). ok (o ∷ os, s'')

-- `bnewObj->bytes[i] = (uint8_t)get_byte(fp);`: behind the end of the file that is the byte 255.
unfoldable pub read_bytes : ℕ → List ℕ → List ℕ × List ℕ
read_bytes zero input = ([], input)
read_bytes (suc n) [] = let (bs, input) = read_bytes n [] in (255 ∷ bs, input)
read_bytes (suc n) (b ∷ input) = let (bs, rest) = read_bytes n input in (b ∷ bs, rest)

-- The object that stands at a place of `indirArray` gets its class and its contents.
abbrev pub fill : ℕ → Object → Reading → Reading
fill i o s = record s { objects = set s.objects i o }

-- `gcalloc(size); indirArray[indirtop++] = newObj;`
abbrev pub make : Reading → Reading
make s = record s { objects = s.objects ++ placeholder ∷ [] }

-- The fields are stored when all are read; nothing looks at them before.
unfoldable pub read_fields :
    (Reading → Result (Oop × Reading)) → ℕ → Reading → Result (Oop × Reading)
read_fields r size s =
    let i = length s.objects in
    r (make s) >>= λ (c, s₁). read_all r size s₁ >>= λ (os, s₂).
    ok (ref i, fill i (record { class_ = c; body = fields os }) s₂)

unfoldable pub read_barray :
    (Reading → Result (Oop × Reading)) → ℕ → Reading → Result (Oop × Reading)
read_barray r size s =
    let i = length s.objects in
    let (bs, rest) = read_bytes size s.input in
    r (make (record s { input = rest })) >>= λ (c, s₁).
    ok (ref i, fill i (record { class_ = c; body = bytes bs }) s₁)

-- A size or a place that is read as a negative int is not one that `gcalloc` or the array can take.
abbrev pub natural : ℤ → Result ℕ
natural (pos n) = ok n
natural (negsuc n) = fault

-- `indirArray[val]`
unfoldable pub place_of : ℕ → Reading → Result (Oop × Reading)
place_of val s = if ltb val (length s.objects) then ok (ref val, s) else fault

-- `if (val > indirtop) error(…); newObj = indirArray[val];`
unfoldable pub read_known : ℕ → Reading → Result (Oop × Reading)
read_known val s = if ltb (length s.objects) val then error else place_of val s

-- The `switch` on the type of a tag.
unfoldable pub read_tagged :
    (Reading → Result (Oop × Reading)) → Tag → Reading → Result (Oop × Reading)
unfolding read_known
read_tagged r tag s =
    if tag.type == lst_obj_type
    then (natural tag.val >>= λ size. read_fields r size s)
    else if tag.type == lst_pint_type
    then ok (small tag.val, s)
    else if tag.type == lst_nint_type
    then ok (small (neg_ℤ tag.val), s)
    else if tag.type == lst_barray_type
    then (natural tag.val >>= λ size. read_barray r size s)
    else if tag.type == lst_pobj_type
    then (natural tag.val >>= λ val. read_known val s)
    else if tag.type == lst_nil_type
    then place_of 0 s
    else error

unfoldable pub read_object : ℕ → Reading → Result (Oop × Reading)
read_object zero s = out_of_fuel
read_object (suc fuel) s = read_tag s.input >>= λ (tag, rest).
    read_tagged (read_object fuel) tag (record s { input = rest })
