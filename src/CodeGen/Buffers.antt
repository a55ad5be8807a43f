-- ===== src/CodeGen/Buffers.antt =====
-- A buffer implements a list that grows at its end, up to its limit.
use littlesmalltalk.Prelude.{
  ℕ, zero, suc, ◌<◌, ◌≡◌, refl, ◌∙◌, List, [], ◌∷◌, ◌++◌, Bool-cases, inl, inr, ltb, leb, true,
  false, length, length-set, length-take, set, take, ltb→lt, lt→ltb, arith,
}
use littlesmalltalk.Prelude.Result.{ok, error}
use littlesmalltalk.CodeGen.{Buffer, push}

-- A buffer of `limit` places that is not full.
pub record IsBuffer {A : Type 0} (limit : ℕ) (s : Buffer A) : Type 0 where
  pub size : length s.places ≡ limit
  pub room : s.top < limit

-- What is in a buffer.
abbrev pub filled : {A : Type 0} → Buffer A → List A
filled s = take s.top s.places

module _ {A : Type 0} where
  take-set_end :
      (xs : List A) (i : ℕ) (v : A)
      → i < length xs
      → take (suc i) (set xs i v) ≡ take i xs ++ v ∷ []
  take-set_end [] i v h = absurd (omega arith)
  take-set_end (x ∷ xs) zero v h = refl
  take-set_end (x ∷ xs) (suc i) v h = rw (take-set_end xs i v (omega arith))

  pub length-filled : (limit : ℕ) (s : Buffer A) → IsBuffer limit s → length (filled s) ≡ s.top
  length-filled limit s b = omega (arith, length-take s.top s.places, b.size, b.room)

  -- The last place is never used: filling it ends the process.
  pub push-full :
      (limit : ℕ) (v : A) (s : Buffer A)
      → IsBuffer limit s
      → suc s.top ≡ limit
      → push limit v s ≡ error
  unfolding push
  push-full limit v s b e =
      let there : ltb s.top (length s.places) ≡ true = rw b.size (lt→ltb s.top limit b.room) in
      let full : leb limit (suc s.top) ≡ true = ground arith in rw (there, full)

  pub push-room :
      (limit : ℕ) (v : A) (s : Buffer A)
      → IsBuffer limit s
      → suc s.top < limit
      → (s' : Buffer A) × (push limit v s ≡ ok s')
        × IsBuffer limit s'
        × (filled s' ≡ filled s ++ v ∷ [])
  unfolding push
  push-room limit v s b h =
      let there : ltb s.top (length s.places) ≡ true = rw b.size (lt→ltb s.top limit b.room) in
      let room : leb limit (suc s.top) ≡ false = ground arith in
      (
        record { places = set s.places s.top v; top = suc s.top },
        rw (there, room),
        record { size = length-set s.places s.top v ∙ b.size; room = h },
        take-set_end s.places s.top v (ltb→lt s.top (length s.places) there),
      )

  -- A push that returns has appended.
  pub push-appends :
      (limit : ℕ) (v : A) (s s' : Buffer A)
      → IsBuffer limit s
      → push limit v s ≡ ok s'
      → IsBuffer limit s' × (filled s' ≡ filled s ++ v ∷ [])
  push-appends limit v s s' b h = elim (Bool-cases (ltb (suc s.top) limit)) [
    | inl room ↦
        let (t, e, b', f) = push-room limit v s b (ltb→lt (suc s.top) limit room) in
        let same : t ≡ s' = cc in rw (← same) (b', f)
    | inr full ↦
        let last : suc s.top ≡ limit = ground (arith, b.room) in
        cc (rw (push-full limit v s b last) at h)
  ]
