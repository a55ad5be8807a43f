-- ===== src/Image/Tag/Bytes.antt =====
-- The bytes of a tag (vm/image.c): the masks of its first byte, and the bytes of a large value read back.
use littlesmalltalk.Prelude.{
  ℕ, zero, suc, ◌+◌, ◌*◌, ◌/◌, ◌%◌, ◌^◌, ◌<◌, ◌≤◌, ◌≡◌, refl, ap, ◌∙◌, Bool, true, false, ◌&&◌,
  List, ◌++◌, bit_or, bit_and, ◌==◌, ==_iff, leb, arith,
}
use littlesmalltalk.Prelude.Bits.{all_below, all_below_sound, bit_or_shifted}
use littlesmalltalk.Prelude.Result.{ok}
use littlesmalltalk.Image.Tag.{put_bytes, get_bytes}

-- The masks of a tag byte with type `32 * t` and low bits `s`.
byte_checks : ℕ → ℕ → Bool
byte_checks t s =
    bit_or (32 * t) s == 32 * t + s
    && bit_and (32 * t + s) 0x1f == s
    && bit_and (32 * t + s) 0xe0 == 32 * t

byte_table : all_below 8 (λ t. all_below 32 (λ s. byte_checks t s)) ≡ true
unfolding all_below byte_checks
byte_table = refl

byte_checked : (t s : ℕ) → t < 8 → s < 32 → byte_checks t s ≡ true
byte_checked t s ht hs =
    all_below_sound 32 (λ s. byte_checks t s) s
      (all_below_sound 8 (λ t. all_below 32 (λ s. byte_checks t s)) t byte_table ht) hs

pub record ByteFields (t s : ℕ) : Type 0 where
  pub joined : bit_or (32 * t) s ≡ 32 * t + s
  pub low : bit_and (32 * t + s) 0x1f ≡ s
  pub high : bit_and (32 * t + s) 0xe0 ≡ 32 * t

pub byte_fields : (t s : ℕ) → t < 8 → s < 32 → ByteFields t s
unfolding byte_checks
byte_fields t s ht hs =
    let h = byte_checked t s ht hs in
    record { joined = ground arith; low = ground arith; high = ground arith }

pub small_table : all_below 16 (λ s. bit_and s 0x10 == 0) ≡ true
unfolding all_below
small_table = refl

large_checks : ℕ → ℕ → Bool
large_checks t s =
    bit_or (32 * t + s) 0x10 == 32 * t + (s + 16)
    && bit_and (s + 16) 0x10 == 16
    && bit_and (s + 16) 0x0f == s

large_table : all_below 8 (λ t. all_below 16 (λ s. large_checks t s)) ≡ true
unfolding all_below large_checks
large_table = refl

pub record LargeFields (t s : ℕ) : Type 0 where
  pub flagged : bit_or (32 * t + s) 0x10 ≡ 32 * t + (s + 16)
  pub flag : bit_and (s + 16) 0x10 ≡ 16
  pub size : bit_and (s + 16) 0x0f ≡ s

pub large_fields : (t s : ℕ) → t < 8 → s < 16 → LargeFields t s
unfolding large_checks
large_fields t s ht hs =
    let h =
      all_below_sound 16 (λ s. large_checks t s) s
        (all_below_sound 8 (λ t. all_below 16 (λ s. large_checks t s)) t large_table ht) hs in
    record { flagged = ground arith; flag = ground arith; size = ground arith }

mask_table : all_below 256 (λ b. bit_and b 0xff == b) ≡ true
unfolding all_below
mask_table = refl

mask_byte : (b : ℕ) → b < 256 → bit_and b 0xff ≡ b
mask_byte b h = (==_iff _ b).0 (all_below_sound 256 _ b mask_table h)

-- One byte of a large value, at place `i`.
or_byte :
    (i tmp b : ℕ)
    → i < 4
    → tmp < 2 ^ (8 * i)
    → b < 256
    → bit_or tmp (bit_and b 0xff * 2 ^ (8 * i) % 2 ^ 32) ≡ tmp + b * 2 ^ (8 * i)
or_byte zero tmp b hi ht hb =
    let fits : b * 1 % 2 ^ 32 ≡ b * 2 ^ 0 = omega arith in
    rw (mask_byte b hb, fits) (bit_or_shifted 0 tmp b ht)
or_byte (suc zero) tmp b hi ht hb =
    let fits : b * 2 ^ 8 % 2 ^ 32 ≡ b * 2 ^ 8 = omega arith in
    rw (mask_byte b hb, fits) (bit_or_shifted 8 tmp b ht)
or_byte (suc (suc zero)) tmp b hi ht hb =
    let fits : b * 2 ^ 16 % 2 ^ 32 ≡ b * 2 ^ 16 = omega arith in
    rw (mask_byte b hb, fits) (bit_or_shifted 16 tmp b ht)
or_byte (suc (suc (suc zero))) tmp b hi ht hb =
    let fits : b * 2 ^ 24 % 2 ^ 32 ≡ b * 2 ^ 24 = omega arith in
    rw (mask_byte b hb, fits) (bit_or_shifted 24 tmp b ht)
or_byte (suc (suc (suc (suc i)))) tmp b hi ht hb = absurd (omega arith)

next_power : (i : ℕ) → i < 4 → 2 ^ (8 * (i + 1)) ≡ 256 * 2 ^ (8 * i)
next_power zero h = refl
next_power (suc zero) h = refl
next_power (suc (suc zero)) h = refl
next_power (suc (suc (suc zero))) h = refl
next_power (suc (suc (suc (suc i)))) h = absurd (omega arith)

eq_zero_of_lt : (val p : ℕ) → val * p < p → val ≡ 0
eq_zero_of_lt zero p h = refl
eq_zero_of_lt (suc val) p h = absurd (grind arith)

-- The bytes of a value are read back from place `i` on.
pub get_bytes-put_bytes :
    (m n i tmp val : ℕ) (rest : List ℕ)
    → i + n ≡ m
    → m ≤ 4
    → tmp < 2 ^ (8 * i)
    → val * 2 ^ (8 * i) < 2 ^ (8 * m)
    → get_bytes n i tmp (put_bytes n val ++ rest) ≡ ok (tmp + val * 2 ^ (8 * i), rest)
unfolding get_bytes put_bytes
get_bytes-put_bytes m zero i tmp val rest hi hm ht hv =
    let last : i ≡ m = omega arith in
    let none_left : val ≡ 0 = eq_zero_of_lt val (2 ^ (8 * i)) (rw (← last) at hv) in
    ap (λ t. ok (t, rest)) (rw none_left (omega arith))
get_bytes-put_bytes m (suc n) i tmp val rest hi hm ht hv =
    let split : val * 2 ^ (8 * i) ≡ (val % 256 + 256 * (val / 256)) * 2 ^ (8 * i) =
      ap (λ (t : ℕ). t * 2 ^ (8 * i)) (omega arith) in
    let small : val % 256 * 2 ^ (8 * i) ≤ 255 * 2 ^ (8 * i) = grind arith in
    let guard : leb 4 i ≡ false = ground arith in
    let power = next_power i (omega arith) in
    let shifted : val / 256 * 2 ^ (8 * (i + 1)) ≡ val / 256 * (256 * 2 ^ (8 * i)) =
      ap (λ (t : ℕ). val / 256 * t) power in
    rw (guard, or_byte i tmp (val % 256) (omega arith) ht (omega arith))
      (get_bytes-put_bytes m n (i + 1) (tmp + val % 256 * 2 ^ (8 * i)) (val / 256) rest
          (omega arith) hm (omega arith) (omega arith)
        ∙ ap (λ t. ok (t, rest)) (omega arith))
