-- ===== src/Image/Tag.antt =====
-- `getIntSize`, `writeTag`, `readTag` of vm/image.c. A file is the list of its bytes; a reader returns
-- what it leaves of them.
pub mod Bytes
pub mod RoundTrip
use littlesmalltalk.Prelude.{
  ℕ, zero, suc, ◌+◌, ◌*◌, ◌/◌, ◌%◌, ◌^◌, Bool, List, [], ◌∷◌, ◌++◌, bit_or, bit_and, ◌==◌, ltb, leb,
  if◌then◌else◌,
}
use littlesmalltalk.Prelude.Int.{ℤ, pos, negsuc, int_of_word}
use littlesmalltalk.Prelude.Result.{Result, ok, error, fault, ◌>>=◌}

-- The types of tags, in the upper three bits.
abbrev pub lst_obj_type : ℕ
lst_obj_type = 0x20

abbrev pub lst_pint_type : ℕ
lst_pint_type = 0x40

abbrev pub lst_nint_type : ℕ
lst_nint_type = 0x60

abbrev pub lst_barray_type : ℕ
lst_barray_type = 0x80

abbrev pub lst_pobj_type : ℕ
lst_pobj_type = 0xa0

abbrev pub lst_nil_type : ℕ
lst_nil_type = 0xc0

abbrev pub small_tag_limit : ℕ
small_tag_limit = 0x0f

abbrev pub large_tag_flag : ℕ
large_tag_flag = 0x10

abbrev pub bytes_per_word : ℕ
bytes_per_word = 8

unfoldable pub get_int_size : ℤ → Result ℕ
get_int_size (negsuc n) = error
get_int_size (pos val) =
    if leb val small_tag_limit
    then ok 0
    else if leb val 127
    then ok 1
    else if leb val 32767
    then ok 2
    else if leb val 8388608
    then ok 3
    else if leb val 2147483647
    then ok 4
    else error

-- `for (i = 0; i < tempSize; i++) fputc((val >> (8 * i)), fp);`: a byte, then the rest of the value.
unfoldable pub put_bytes : ℕ → ℕ → List ℕ
put_bytes zero val = []
put_bytes (suc n) val = val % 256 ∷ put_bytes n (val / 256)

-- The value is not negative once its size is known.
abbrev magnitude : ℤ → ℕ
magnitude (pos n) = n
magnitude (negsuc n) = n

unfoldable pub write_tag : ℕ → ℤ → Result (List ℕ)
write_tag type val = get_int_size val >>= λ temp_size. ok (
    if temp_size == 0
    then bit_or type (magnitude val) % 256 ∷ []
    else bit_or (bit_or type temp_size) large_tag_flag % 256 ∷ put_bytes temp_size (magnitude val))

-- The bytes of a large value, lowest first, from byte `i` on. C leaves a shift by 32 or more undefined.
unfoldable pub get_bytes : ℕ → ℕ → ℕ → List ℕ → Result (ℕ × List ℕ)
get_bytes zero i tmp bytes = ok (tmp, bytes)
get_bytes (suc n) i tmp [] = error
get_bytes (suc n) i tmp (in_byte ∷ bytes) =
    let next =
      get_bytes n (i + 1) (bit_or tmp (bit_and in_byte 0xff * 2 ^ (8 * i) % 2 ^ 32)) bytes in
    if leb 4 i then fault else next

-- The type and the value of the next tag.
pub record Tag : Type 0 where
  pub type : ℕ
  pub val : ℤ

unfoldable pub read_tag : List ℕ → Result (Tag × List ℕ)
read_tag [] = error
read_tag (in_byte ∷ bytes) =
    let temp_size = bit_and in_byte 0x1f in
    let type = bit_and in_byte 0xe0 in
    let size = bit_and temp_size small_tag_limit in
    let large =
      (get_bytes size 0 0 bytes >>= λ (tmp, rest).
      ok (record { type = type; val = int_of_word tmp }, rest)) in
    if bit_and temp_size large_tag_flag == 0
    then ok (record { type = type; val = pos temp_size }, bytes)
    else if ltb bytes_per_word size
    then error
    else large
