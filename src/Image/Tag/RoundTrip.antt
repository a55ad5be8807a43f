-- ===== src/Image/Tag/RoundTrip.antt =====
-- A tag that was written is read back, with the bytes behind it.
use littlesmalltalk.Prelude.{
  ℕ, ◌+◌, ◌*◌, ◌%◌, ◌^◌, ◌<◌, ◌≤◌, ◌≡◌, ◌≢◌, refl, ap, ◌∙◌, true, false, List, [], ◌∷◌, ◌++◌,
  bit_or, bit_and, ◌==◌, ==_iff, ltb, leb, inl, inr, if◌then◌else◌, arith, Bool-cases,
}
use littlesmalltalk.Prelude.Bits.{all_below_sound}
use littlesmalltalk.Prelude.Int.{ℤ, pos, negsuc}
use littlesmalltalk.Prelude.Result.{Result, ok}
use littlesmalltalk.Image.Tag.{Tag, get_int_size, put_bytes, write_tag, read_tag, large_tag_flag}
use littlesmalltalk.Image.Tag.Bytes.{byte_fields, small_table, large_fields, get_bytes-put_bytes}

-- What `getIntSize` answers: no byte where the value fits the tag itself, and enough bytes else.
record IntSize (val : ℕ) : Type 0 where
  size : ℕ
  answer : get_int_size (pos val) ≡ ok size
  few : size ≤ 4
  small : size ≡ 0 → val < 16
  enough : size ≢ 0 → val < 2 ^ (8 * size)

int_size : (val : ℕ) → val < 2 ^ 31 → IntSize val
unfolding get_int_size
int_size val h = elim (Bool-cases (leb val 15)) [
  | inl a ↦ record {
    size = 0;
    answer = rw a;
    few = omega arith;
    small = ground arith;
    enough = ground arith;
  }
  | inr a ↦ elim (Bool-cases (leb val 127)) [
    | inl b ↦ record {
      size = 1;
      answer = rw (a, b);
      few = omega arith;
      small = ground arith;
      enough = ground arith;
    }
    | inr b ↦ elim (Bool-cases (leb val 32767)) [
      | inl c ↦ record {
        size = 2;
        answer = rw (a, b, c);
        few = omega arith;
        small = ground arith;
        enough = ground arith;
      }
      | inr c ↦ elim (Bool-cases (leb val 8388608)) [
        | inl d ↦ record {
          size = 3;
          answer = rw (a, b, c, d);
          few = omega arith;
          small = ground arith;
          enough = ground arith;
        }
        | inr d ↦
            let e : leb val 2147483647 ≡ true = ground arith in
            record {
              size = 4;
              answer = rw (a, b, c, d, e);
              few = omega arith;
              small = ground arith;
              enough = ground arith;
            }
      ]
    ]
  ]
]

read_tag-small :
    (t v : ℕ) (rest : List ℕ)
    → t < 8
    → v < 16
    → read_tag ((32 * t + v) ∷ rest) ≡ ok (record { type = 32 * t; val = pos v }, rest)
unfolding read_tag
read_tag-small t v rest ht hv =
    let f = byte_fields t v ht (omega arith) in
    rw (f.low, f.high, all_below_sound 16 (λ s. bit_and s 0x10 == 0) v small_table hv)

read_tag-large :
    (t size val : ℕ) (rest : List ℕ)
    → t < 8
    → size ≤ 4
    → val < 2 ^ (8 * size)
    → val < 2 ^ 31
    → read_tag ((32 * t + (size + 16)) ∷ (put_bytes size val ++ rest))
      ≡ ok (record { type = 32 * t; val = pos val }, rest)
unfolding read_tag
read_tag-large t size val rest ht hs hv hw =
    let f = byte_fields t (size + 16) ht (omega arith) in
    let g = large_fields t size ht (omega arith) in
    let one : val * 2 ^ (8 * 0) ≡ val = omega arith in
    let value =
      get_bytes-put_bytes size size 0 0 val rest (omega arith) hs (omega arith) (omega arith) in
    let fits : ltb 8 size ≡ false = ground arith in
    let word : ltb (0 + val * 2 ^ (8 * 0)) (2 ^ 31) ≡ true = ground arith in
    rw (f.low, f.high, g.size, g.flag, value, fits, word)
      (ap {B = Result (Tag × List ℕ)} (λ (n : ℕ). ok (record { type = 32 * t; val = pos n }, rest))
        (omega arith))

write_tag-size :
    (type val size : ℕ)
    → get_int_size (pos val) ≡ ok size
    → write_tag type (pos val)
      ≡ ok (
          if size == 0
          then bit_or type val % 256 ∷ []
          else bit_or (bit_or type size) large_tag_flag % 256 ∷ put_bytes size val)
unfolding write_tag
write_tag-size type val size e = rw e

-- Each tag with a type of three bits and a value from 0 to 2 ^ 31 - 1 is written without an error, and
-- `readTag` gives the same type and value back and leaves the bytes behind the tag.
pub read_tag-write_tag :
    (t val : ℕ)
    → t < 8
    → val < 2 ^ 31
    → (out : List ℕ) × (write_tag (32 * t) (pos val) ≡ ok out)
      × ((rest : List ℕ)
          → read_tag (out ++ rest) ≡ ok (record { type = 32 * t; val = pos val }, rest))
read_tag-write_tag t val ht hv =
    let s = int_size val hv in
    elim (Bool-cases (s.size == 0)) [
      | inl none_needed ↦
          let f = byte_fields t val ht (omega (arith, s.small ((==_iff s.size 0).0 none_needed))) in
          let byte : bit_or (32 * t) val % 256 ≡ 32 * t + val =
            omega (arith, f.joined, s.small ((==_iff s.size 0).0 none_needed)) in
          (
            (32 * t + val) ∷ [],
            write_tag-size (32 * t) val s.size s.answer ∙ rw (none_needed, byte),
            λ rest. read_tag-small t val rest ht (s.small ((==_iff s.size 0).0 none_needed)),
          )
      | inr needed ↦
          let some_needed : s.size ≢ 0 = ground arith in
          let fit = s.enough some_needed in
          let f = byte_fields t s.size ht (omega (arith, s.few)) in
          let g = large_fields t s.size ht (omega (arith, s.few)) in
          let byte : bit_or (bit_or (32 * t) s.size) 16 % 256 ≡ 32 * t + (s.size + 16) =
            rw f.joined (rw g.flagged (omega (arith, s.few))) in
          (
            (32 * t + (s.size + 16)) ∷ put_bytes s.size val,
            write_tag-size (32 * t) val s.size s.answer ∙ rw (needed, byte),
            λ rest. read_tag-large t s.size val rest ht s.few fit hv,
          )
    ]

write_tag-range :
    (type : ℕ) (v : ℤ) (out : List ℕ)
    → write_tag type v ≡ ok out
    → (val : ℕ) × (v ≡ pos val) × (val < 2 ^ 31)
unfolding write_tag get_int_size
write_tag-range type (negsuc n) out h = cc
write_tag-range type (pos val) out h = (val, refl, ground arith)

-- Whatever `writeTag` writes, `readTag` reads back.
pub write_tag-back :
    (t : ℕ) (v : ℤ) (out : List ℕ)
    → t < 8
    → write_tag (32 * t) v ≡ ok out
    → (rest : List ℕ) → read_tag (out ++ rest) ≡ ok (record { type = 32 * t; val = v }, rest)
write_tag-back t v out ht h rest =
    let (val, e, hv) = write_tag-range (32 * t) v out h in
    let (out', w, back) = read_tag-write_tag t val ht hv in
    let same : out ≡ out' = cc in rw (same, e) (back rest)
