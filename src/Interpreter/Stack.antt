-- ===== src/Interpreter/Stack.antt =====
-- The stack of a context as a list.
use littlesmalltalk.Prelude.{
  ℕ, zero, suc, ◌<◌, ◌≤◌, ◌≡◌, ◌≢◌, refl, sym, ap, ◌∙◌, false, List, [], ◌∷◌, ◌++◌, some, ◌==◌,
  ==_iff, ltb, lt→ltb, ltb→lt, ◌⊎◌, inl, inr, Bool-cases, length, length-set, get_elem?, set, take,
  arith,
}
use littlesmalltalk.Prelude.Result.{ok, fault}
use littlesmalltalk.Interpreter.{Store, Frame, Machine, assign, update, push}

-- The stack object has the values `vs` up to the top.
pub record Holds (f : Frame) (m : Machine) (vs : List ℕ) : Type 0 where
  pub fields : List ℕ
  pub there : m.store f.stack ≡ some fields
  pub size : m.stack_top ≤ length fields
  pub values : take m.stack_top fields ≡ vs

pub set-same : (xs : List ℕ) (i v : ℕ) → get_elem? xs i ≡ some v → set xs i v ≡ xs
set-same [] i v h = refl
set-same (x ∷ xs) zero v h = (let same : x ≡ v = cc in ap (λ t. t ∷ xs) (sym same))
set-same (x ∷ xs) (suc i) v h = ap (λ t. x ∷ t) (set-same xs i v h)

pub assign-ok :
    (store : Store) (object i v : ℕ) (fields : List ℕ)
    → store object ≡ some fields
    → i < length fields
    → assign store object i v ≡ ok (update store object (set fields i v))
unfolding assign
assign-ok store object i v fields e h = rw (e, lt→ltb i (length fields) h)

pub update-same :
    (store : Store) (object : ℕ) (fields : List ℕ) → update store object fields object ≡ some fields
update-same store object fields = rw ((==_iff object object).1 refl)

pub update-other :
    (store : Store) (object a : ℕ) (fields : List ℕ)
    → a ≢ object
    → update store object fields a ≡ store a
update-other store object a fields ne =
    (let no_match : (a == object) ≡ false = ground arith in rw no_match)

take-set_end :
    (xs : List ℕ) (i v : ℕ) → i < length xs → take (suc i) (set xs i v) ≡ take i xs ++ v ∷ []
take-set_end [] i v h = absurd (omega arith)
take-set_end (x ∷ xs) zero v h = refl
take-set_end (x ∷ xs) (suc i) v h = ap (λ t. x ∷ t) (take-set_end xs i v (omega arith))

-- A push on a stack with room appends the value to what the stack holds, leaves every other object as
-- it was, and moves nothing but the top; on a full stack it writes behind the stack object.
pub push-Holds :
    (f : Frame) (m : Machine) (v other : ℕ) (vs fields : List ℕ)
    → m.store f.stack ≡ some fields
    → take m.stack_top fields ≡ vs
    → other ≢ f.stack
    → (m.stack_top < length fields
        × ((m' : Machine) × (push f v m ≡ ok m')
            × Holds f m' (vs ++ v ∷ [])
            × (m'.store other ≡ m.store other)
            × (m'.byte_pointer ≡ m.byte_pointer)))
      ⊎ ((length fields ≤ m.stack_top) × (push f v m ≡ fault))
unfolding push assign
push-Holds f m v other vs fields there values apart =
    elim (Bool-cases (ltb m.stack_top (length fields))) [
      | inl room ↦
          let h = ltb→lt m.stack_top (length fields) room in
          inl (
            h,
            (
              record m {
                store = update m.store f.stack (set fields m.stack_top v);
                stack_top = suc m.stack_top;
              },
              rw (there, room),
              record {
                fields = set fields m.stack_top v;
                there = update-same m.store f.stack (set fields m.stack_top v);
                size = omega (arith, h, length-set fields m.stack_top v);
                values = take-set_end fields m.stack_top v h ∙ ap (λ t. t ++ v ∷ []) values;
              },
              update-other m.store f.stack other (set fields m.stack_top v) apart,
              refl,
            ),
          )
      | inr full ↦ inr (ground arith, rw (there, full))
    ]
