-- ===== src/Image/Dump/Relocated.antt =====
-- What the reader of version 2 images (vm/image.c) makes of the objects.
use littlesmalltalk.Prelude.{
  ℕ, zero, suc, ◌+◌, ◌%◌, ◌≤◌, ◌<◌, ◌≡◌, ◌≢◌, ◌⊎◌, refl, ◌∙◌, inl, inr, true, false, ◌==◌, ==_iff,
  Bool-cases, arith,
}
use littlesmalltalk.Prelude.Int.{pos, ◌+ℤ◌, ◌-ℤ◌, pos_part, neg_part, +ℤ_parts, eq_of_parts}
use littlesmalltalk.Prelude.Result.{ok}
use littlesmalltalk.Memory.Collector.{is_small_int, set_word}
use littlesmalltalk.Memory.Collector.Gray.{==_ne, ==_self}
use littlesmalltalk.Image.Dump.{bytes, new_offset, fix_offset, fix_field, fix_fields}

-- The offset in cells and back in bytes is the difference of the bases.
bytes-cells :
    (m i : ℕ)
    → m % 8 ≡ 0
    → i % 8 ≡ 0
    → pos_part (bytes (new_offset m i)) + i ≡ neg_part (bytes (new_offset m i)) + m
unfolding new_offset ◌-ℤ◌
bytes-cells m i hm hi = ground arith

pub rw_set : (words : ℕ → ℕ) (i v j : ℕ) → j ≢ i → set_word words i v j ≡ words j
rw_set words i v j ne = rw (==_ne j i ne) refl

module _ (low high nil mb ib : ℕ) (base : mb % 8 ≡ 0) (image : ib % 8 ≡ 0) where
  -- The address `v` is as far from the base of the memory as `w` from that of the image, and it is in the
  -- part that is filled.
  pub record Lands (w v : ℕ) : Type 0 where
    pub shift : v + ib ≡ w + mb
    pub from : low ≤ v
    pub to : v < high

  pub fix_offset-Lands : (w v : ℕ) → Lands w v → fix_offset low high w (new_offset mb ib) ≡ ok v
  unfolding fix_offset
  fix_offset-Lands w v l =
      let sum : pos w +ℤ bytes (new_offset mb ib) ≡ pos v = eq_of_parts _ _ (
        let p = +ℤ_parts (pos w) (bytes (new_offset mb ib)) in
        let q = bytes-cells mb ib base image in let s = l.shift in omega arith) in
      rw sum (let f = l.from in let t = l.to in ground arith)

  -- A word of an ordinary object is NULL, a SmallInt, or an address that lands.
  abbrev pub IsField : ℕ → Type 0
  IsField w =
      (w ≡ 0) ⊎ (is_small_int w ≡ true) ⊎ ((w ≢ 0) × (is_small_int w ≡ false) × (v : ℕ) × Lands w v)

  -- What it becomes.
  pub record Fixed (w v : ℕ) : Type 0 where
    pub null : w ≡ 0 → v ≡ nil
    pub small : is_small_int w ≡ true → v ≡ w
    pub address : w ≢ 0 → is_small_int w ≡ false → v + ib ≡ w + mb

  fix_field-Fixed :
      (w : ℕ)
      → IsField w
      → (v : ℕ) × (fix_field low high nil (new_offset mb ib) w ≡ ok v) × Fixed w v
  unfolding fix_field
  fix_field-Fixed w (inl e) = (
    nil,
    rw e refl,
    record { null = λ _. refl; small = λ s. cc (rw e at s); address = λ ne _. absurd (ne e) },
  )
  fix_field-Fixed w (inr (inl s)) =
      let not_null : (w == 0) ≡ false = ==_ne w 0 (λ e. cc (rw e at s)) in
      (
        w,
        rw (not_null, s) refl,
        record { null = λ e. cc (rw e at s); small = λ _. refl; address = λ _ r. cc (r, s) },
      )
  fix_field-Fixed w (inr (inr (ne, r, v, l))) = (
    v,
    rw (==_ne w 0 ne, r) (fix_offset-Lands w v l),
    record { null = λ e. absurd (ne e); small = λ s. cc (r, s); address = λ _ _. l.shift },
  )

  -- The words from `i` on have become `words'`, the others are as they were.
  pub record FieldsFixed (k i : ℕ) (words words' : ℕ → ℕ) : Type 0 where
    pub fixed : (j : ℕ) → i ≤ j → j < i + k → Fixed (words j) (words' j)
    pub before : (j : ℕ) → j < i → words' j ≡ words j
    pub behind : (j : ℕ) → i + k ≤ j → words' j ≡ words j

  pub fix_fields-Fixed :
      (k i : ℕ) (words : ℕ → ℕ)
      → ((j : ℕ) → i ≤ j → j < i + k → IsField (words j))
      → (words' : ℕ → ℕ) × (fix_fields low high nil (new_offset mb ib) k i words ≡ ok words')
        × FieldsFixed k i words words'
  unfolding fix_fields
  fix_fields-Fixed zero i words good = (
    words,
    refl,
    record { fixed = λ j l u. absurd (omega arith); before = λ j l. refl; behind = λ j l. refl },
  )
  fix_fields-Fixed (suc k) i words good =
      let (v, done, fixed) = fix_field-Fixed (words i) (good i (omega arith) (omega arith)) in
      let away = λ (j : ℕ) (ne : j ≢ i). rw_set words i v j ne in
      let (words', rest, f) =
        fix_fields-Fixed k (suc i) (set_word words i v)
          (λ j l u. rw (away j (λ e. omega arith)) (good j (omega arith) (omega arith))) in
      (
        words',
        rw (done, rest) refl,
        record {
          fixed = λ j l u. elim (Bool-cases (j == i)) [
            | inl e ↦
                let same : j ≡ i = (==_iff j i).0 e in
                let value : words' i ≡ v = f.before i (omega arith) ∙ rw (==_self i) refl in
                rw (same, value) fixed
            | inr e ↦
                let ne : j ≢ i = λ x. cc (e, (==_iff j i).1 x) in
                let later = f.fixed j (ground arith) (omega arith) in rw (away j ne) at later
          ];
          before = λ j l. f.before j (omega arith) ∙ away j (λ e. omega arith);
          behind = λ j l. f.behind j (omega arith) ∙ away j (λ e. omega arith);
        },
      )
