-- ===== src/Image/Dump/Loading.antt =====
-- A version 2 image as a whole (vm/image.c): its variables, then its objects.
use littlesmalltalk.Prelude.{
  ℕ, true, false, ◌+◌, ◌-◌, ◌*◌, ◌/◌, ◌%◌, ◌^◌, ◌<◌, ◌≤◌, ◌≡◌, ◌↔◌, refl, inl, inr, List, [], ◌∷◌,
  ltb, length, arith,
}
use littlesmalltalk.Prelude.Int.{pos}
use littlesmalltalk.Prelude.Result.{ok}
use littlesmalltalk.Memory.Collector.{Mobject, Store, words_down}
use littlesmalltalk.Memory.Collector.Frame.{Among}
use littlesmalltalk.Image.Dump.{new_offset, fix_roots, total_cells, load_dump}
use littlesmalltalk.Image.Dump.Relocated.{Lands, fix_offset-Lands}
use littlesmalltalk.Image.Dump.Objects.{AreLaid, IsObject, Relocated, fix_up_loop-Loaded}

abbrev pub AreShifted : (mb ib : ℕ) → (ws rs : List ℕ) → Type 0
AreShifted mb ib [] [] = Unit {0}
AreShifted mb ib (w ∷ ws) (r ∷ rs) = (r + ib ≡ w + mb) × AreShifted mb ib ws rs
AreShifted mb ib [] (r ∷ rs) = ⊥
AreShifted mb ib (w ∷ ws) [] = ⊥

-- Where the objects of the image are read to.
abbrev pub image_place : (memory_top image_pointer image_top : ℕ) → ℕ
image_place mt ip it = mt - 8 * ((it - ip) / 8)

-- An image smaller than 2^31 bytes has the size that the difference of its addresses says.
total_cells-small :
    (ip it : ℕ) → ip ≤ it → it - ip < 2 ^ 31 → total_cells ip it ≡ pos ((it - ip) / 8)
total_cells-small ip it order size =
    let cut : (it + 2 ^ 64 - ip) % 2 ^ 32 ≡ it - ip = omega arith in
    let small_ : ltb (it - ip) (2 ^ 31) ≡ true = ground arith in rw (cut, small_) refl

module _ (low high nil mb ib : ℕ) (base : mb % 8 ≡ 0) (image : ib % 8 ≡ 0) where
  fix_roots-Shifted :
      (ws : List ℕ)
      → ((w : ℕ) → Among w ws → (v : ℕ) × Lands low high nil mb ib base image w v)
      → (rs : List ℕ) × (fix_roots low high nil (new_offset mb ib) ws ≡ ok rs)
        × AreShifted mb ib ws rs
  unfolding fix_roots
  fix_roots-Shifted [] lands = ([], refl, tt)
  fix_roots-Shifted (w ∷ ws) lands =
      let (v, l) = lands w (inl refl) in
      let (rs, done, shifted) = fix_roots-Shifted ws (λ x m. lands x (inr m)) in
      (
        v ∷ rs,
        rw (fix_offset-Lands low high nil mb ib base image w v l, done) refl,
        (l.shift, shifted),
      )

module _ (mb mt nil ib ip it : ℕ) (base : mb % 8 ≡ 0) (image : ib % 8 ≡ 0) where
  -- The image is smaller than 2^31 bytes and fits between the base and the top of the memory. Its objects
  -- lie one behind the other, and all addresses land among them.
  pub record IsDump (roots : List ℕ) (raw : ℕ → Mobject) (os : List ℕ) : Type 0 where
    pub based : 0 < mb
    pub order : ip ≤ it
    pub size : it - ip < 2 ^ 31
    pub fits : mb + 8 * ((it - ip) / 8) ≤ mt
    pub laid : AreLaid raw (image_place mt ip it) os mt
    pub objects :
        (a : ℕ) → Among a os → IsObject (image_place mt ip it) mt nil mb ib base image (raw a)
    pub variables :
        (w : ℕ) → Among w roots → (v : ℕ) × Lands (image_place mt ip it) mt nil mb ib base image w v

  -- Where the bases of the memory and of the image are multiples of eight, the image is smaller than 2^31
  -- bytes and fits into the space above the base, and all addresses land among the objects, the reading of
  -- a version 2 image returns, with fuel above the number of objects. The variables and the classes and
  -- fields of all objects are moved by the difference of the bases; a NULL field becomes what `nilObject`
  -- holds, SmallInts and bytes stay, and so do sizes and flags.
  pub load_dump-Relocated :
      (fuel : ℕ) (roots : List ℕ) (raw : ℕ → Mobject) (os : List ℕ)
      → IsDump roots raw os
      → length os < fuel
      → (rs : List ℕ) × (s : Store) × (load_dump fuel mb mt nil ib ip it roots raw ≡ ok (rs, s))
        × AreShifted mb ib roots rs
        × ((a : ℕ)
            → Among a os
            → Relocated (image_place mt ip it) mt nil mb ib base image (raw a) (s.at a))
  unfolding load_dump words_down
  load_dump-Relocated fuel roots raw os dump enough =
      let low : ℕ = image_place mt ip it in
      let fits = dump.fits in
      let based = dump.based in
      let room : ltb mt (8 * ((it - ip) / 8)) ≡ false = ground arith in
      let above : ltb low mb ≡ false = ground arith in
      let below : ltb mt low ≡ false = ground arith in
      let all_cells = total_cells-small ip it dump.order dump.size in
      let (rs, read, shifted) =
        fix_roots-Shifted low mt nil mb ib base image roots dump.variables in
      let loop =
        fix_up_loop-Loaded low mt nil mb ib base image (record { at = raw; memory_pointer = low })
          low os fuel dump.laid dump.objects (omega arith) enough in
      (
        rs,
        loop.after_,
        rw (all_cells, room, read, above, below, loop.returns) refl,
        shifted,
        loop.relocated,
      )

-- The address that a pointer is moved to is the place that its object is read to exactly if both spaces
-- have the same size.
place-shift : (mb mt ib it w v : ℕ) → v + ib ≡ w + mb → ((v + it ≡ w + mt) ↔ (it + mb ≡ mt + ib))
place-shift mb mt ib it w v shift = ((λ e. omega arith), (λ e. omega arith))
