-- ===== src/Image/Tests.antt =====
-- A class that is its own class, with a string, written and read back.
use littlesmalltalk.Prelude.{
  ℕ, ◌*◌, ◌≡◌, refl, List, [], ◌∷◌, ◌++◌, none, some, ◌==◌, if◌then◌else◌, arith,
}
use littlesmalltalk.Prelude.Int.{pos}
use littlesmalltalk.Prelude.Result.{ok}
use littlesmalltalk.Image.Tag.{get_int_size, put_bytes, write_tag, read_tag}
use littlesmalltalk.Image.Tag.RoundTrip.{read_tag-write_tag}
use littlesmalltalk.Image.Graph.{
  small, ref, fields, bytes, Heap, index_of, write_all, write_new, write_small, write_known,
  write_ref, write_oop, write_object, read_object,
}
use littlesmalltalk.Image.Graph.Copy.{moved, copies}
use littlesmalltalk.Image.Graph.Sequence.{reading}
use littlesmalltalk.Image.Graph.RoundTrip.{read_object-write_object}

read_tag-write_tag_example :
    (out : List ℕ) × (write_tag (32 * 1) (pos 300) ≡ ok out)
    × ((rest : List ℕ)
        → read_tag (out ++ rest) ≡ ok (record { type = 32 * 1; val = pos 300 }, rest))
read_tag-write_tag_example = read_tag-write_tag 1 300 (omega arith) (omega arith)

abbrev two_objects : Heap
two_objects a =
    if a == 50
    then some (record { class_ = ref 50; body = fields (small (pos 7) ∷ ref 60 ∷ ref 60 ∷ []) })
    else if a == 60
    then some (record { class_ = ref 50; body = bytes (1 ∷ 2 ∷ []) })
    else none

written_image :
    write_object 10000 two_objects 4 (ref 50) []
    ≡ ok (50 ∷ 60 ∷ [], 0x23 ∷ 0xc0 ∷ 0x47 ∷ 0x82 ∷ 1 ∷ 2 ∷ 0xc0 ∷ 0xa1 ∷ [])
unfolding write_object write_oop write_ref write_new write_all write_small write_known index_of
    write_tag get_int_size put_bytes
written_image = refl

read_object-write_object_example :
    read_object 4 (reading [] ((0x23 ∷ 0xc0 ∷ 0x47 ∷ 0x82 ∷ 1 ∷ 2 ∷ 0xc0 ∷ 0xa1 ∷ []) ++ 9 ∷ []))
    ≡ ok (
      moved (50 ∷ 60 ∷ []) (ref 50),
      reading (copies two_objects (50 ∷ 60 ∷ []) (50 ∷ 60 ∷ [])) (9 ∷ []),
    )
read_object-write_object_example =
    read_object-write_object 10000 two_objects 4 (ref 50) (50 ∷ 60 ∷ [])
      (0x23 ∷ 0xc0 ∷ 0x47 ∷ 0x82 ∷ 1 ∷ 2 ∷ 0xc0 ∷ 0xa1 ∷ []) (9 ∷ []) written_image
