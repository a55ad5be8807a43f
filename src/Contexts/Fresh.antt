-- ===== src/Contexts/Fresh.antt =====
-- `gcalloc` (vm/memory.c) where there is room: a new object where nothing was.
use littlesmalltalk.Prelude.{
  ℕ, zero, suc, ◌+◌, ◌-◌, ◌*◌, ◌<◌, ◌≤◌, ◌≡◌, ◌≢◌, refl, ap, ◌∙◌, List, [], ◌∷◌, map, replicate,
  none, leb, true, length, arith,
}
use littlesmalltalk.Prelude.Result.{Result}
use littlesmalltalk.Image.Graph.{Oop, ref}
use littlesmalltalk.Contexts.{
  Memory, put_object, set_class, stale_fields, gcalloc, new_object, new_filled,
}
use littlesmalltalk.Contexts.Yields.{
  Yields, Yields-ok, Yields->>=, object, Only, fill-Only, put_object-at, put_object-other,
}

-- Nothing stands between the base and the pointer.
abbrev pub IsFree : Memory → Type 0
IsFree m = (a : ℕ) → m.memory_base ≤ a → a < m.memory_pointer → m.heap a ≡ none

-- `o` is a new object in `m'`, with `sz` fields, and nothing else is different from `m`.
pub record Fresh (m : Memory) (sz : ℕ) (class_ : Oop) (os : List Oop) (o : Oop) (m' : Memory)
    : Type 0 where
  pub address : ℕ
  pub is_ref : o ≡ ref address
  pub was_free : m.heap address ≡ none
  pub only : Only m.heap m' address (object class_ os)
  pub free : IsFree m'
  pub roots : m'.root_stack ≡ m.root_stack
  pub pointer : m'.memory_pointer + 8 * (sz + 2) ≡ m.memory_pointer
  pub base : m'.memory_base ≡ m.memory_base

length-stale_fields : (stale : ℕ → Oop) (a n : ℕ) → length (stale_fields stale a n) ≡ n
length-stale_fields stale a zero = refl
length-stale_fields stale a (suc n) = ap suc (length-stale_fields stale (a + 8) n)

map-replicate : (v : Oop) (os : List Oop) → map (λ old. v) os ≡ replicate (length os) v
map-replicate v [] = refl
map-replicate v (o ∷ os) = ap (λ t. v ∷ t) (map-replicate v os)

module _ (gcollect : ℕ → Memory → Result (Oop × Memory)) where
  pub new_object-Fresh :
      (sz : ℕ) (class_ : Oop) (m : Memory)
      → IsFree m
      → m.memory_base + 8 * (sz + 2) ≤ m.memory_pointer
      → Yields
          (λ (o, m'). (a : ℕ) × Fresh m sz class_ (stale_fields m.stale a sz) o m')
          (new_object gcollect sz class_ m)
  unfolding new_object gcalloc set_class
  new_object-Fresh sz class_ m free room =
      let a : ℕ = m.memory_pointer - 8 * (sz + 2) in
      let os : List Oop = stale_fields m.stale (a + 16) sz in
      let fits : leb (m.memory_base + 8 * (sz + 2)) m.memory_pointer ≡ true = ground arith in
      let made : Memory =
        put_object (record m { memory_pointer = a }) a (object (m.stale (a + 8)) os) in
      record {
        result = (ref a, put_object made a (object class_ os));
        returns =
            rw
              (
                fits,
                put_object-at (record m { memory_pointer = a }) a (object (m.stale (a + 8)) os),
              )
              refl;
        holds = (
          a + 16,
          record {
            address = a;
            is_ref = refl;
            was_free = free a (omega arith) (omega arith);
            only = (
              put_object-at made a (object class_ os),
              λ b ne.
                  put_object-other made a b (object class_ os) ne
                  ∙ put_object-other (record m { memory_pointer = a }) a b _ ne,
            );
            free = λ b low high.
                put_object-other made a b (object class_ os) (λ e. omega arith)
                ∙ put_object-other (record m { memory_pointer = a }) a b _ (λ e. omega arith)
                ∙ free b low (omega arith);
            roots = refl;
            pointer = omega arith;
            base = refl;
          },
        );
      }

  -- Where there is room, the new object has the class, and the value in each of its fields.
  pub new_filled-Fresh :
      (sz : ℕ) (class_ v : Oop) (m : Memory)
      → IsFree m
      → m.memory_base + 8 * (sz + 2) ≤ m.memory_pointer
      → Yields
          (λ (o, m'). Fresh m sz class_ (replicate sz v) o m')
          (new_filled gcollect sz class_ v m)
  unfolding new_filled
  new_filled-Fresh sz class_ v m free room =
      Yields->>= _ (new_object-Fresh sz class_ m free room) (λ (o, m') (a, f).
        let os : List Oop = stale_fields m.stale a sz in
        let size : length os ≡ sz = length-stale_fields m.stale a sz in
        rw (f.is_ref) (
          Yields->>= _ (fill-Only m.heap m' f.address class_ v os f.only)
            (λ m'' (only, (roots, pointer, base)).
              Yields-ok (ref f.address, m'')
                (record {
                  address = f.address;
                  is_ref = refl;
                  was_free = f.was_free;
                  only = rw (map-replicate v os, size) at only;
                  free = λ b low high.
                      let empty : m'.heap b ≡ none =
                        f.free b (rw base at low) (rw pointer at high) in
                      let apart : b ≢ f.address = λ e. cc (rw e at empty, f.only.0) in
                      only.1 b apart ∙ free b (omega (arith, f.base)) (omega (arith, f.pointer));
                  roots = roots ∙ f.roots;
                  pointer = ap (λ t. t + 8 * (sz + 2)) pointer ∙ f.pointer;
                  base = base ∙ f.base;
                }))))
