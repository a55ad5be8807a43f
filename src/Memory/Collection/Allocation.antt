-- ===== src/Memory/Collection/Allocation.antt =====
-- Allocation with a collection where the space is full (`gcalloc`, `gcollect`, `gcialloc`, vm/memory.c).
use littlesmalltalk.Prelude.{
  ℕ, ◌+◌, ◌*◌, ◌≤◌, ◌≡◌, ◌≢◌, ◌⊎◌, refl, inl, inr, true, false, List, Bool-cases, arith,
}
use littlesmalltalk.Prelude.Result.{ok}
use littlesmalltalk.Memory.Collector.{to_words}
use littlesmalltalk.Memory.Collector.Gray.{==_ne, ==_self}
use littlesmalltalk.Memory.Collection.{
  Memory, do_gc, take, is_full, gcollect, gcalloc, gcialloc, set_binary,
}
use littlesmalltalk.Memory.Collection.Live.{heap_bytes, IsHeap, Collected}
use littlesmalltalk.Memory.Collection.Again.{do_gc-IsHeap}

-- A new object of `amt` words at `o`, below all that is taken in the memory `m`.
pub record Placed (m : Memory) (amt : ℕ) (o : ℕ) (m' : Memory) : Type 0 where
  pub place : o + 8 * (amt + 2) ≡ m.store.memory_pointer
  pub pointer : m'.store.memory_pointer ≡ o
  pub base : m.memory_base ≤ o
  pub live : (m'.store.at o).done ≡ false
  pub others : (b : ℕ) → b ≢ o → m'.store.at b ≡ m.store.at b

-- The memory in which the place is taken: the one at hand, or the one after a collection.
abbrev pub Before : ℕ → Memory → List ℕ → Memory → Type 0
Before fuel m os m₁ = (m₁ ≡ m) ⊎ ((do_gc fuel m ≡ ok m₁) × Collected m os m₁)

take-Placed :
    (sz : ℕ) (m : Memory)
    → is_full sz m ≡ false
    → Placed m sz (take sz m).0 (take sz m).1
      × (((take sz m).1.store.at (take sz m).0).size ≡ sz)
      × (((take sz m).1.store.at (take sz m).0).binary ≡ false)
take-Placed sz m room =
    let self = ==_self (take sz m).0 in
    (
      record {
        place = ground arith;
        pointer = refl;
        base = ground arith;
        live = rw self refl;
        others = λ b ne. rw (==_ne b (take sz m).0 ne) refl;
      },
      rw self refl,
      rw self refl,
    )

module _ (fuel sz : ℕ) (m : Memory) (os : List ℕ) (heap : IsHeap m os)
    (enough : 16 * m.space_size + 2 ≤ fuel) where
  record Allocated : Type 0 where
    m₁ : Memory
    before : Before fuel m os m₁
    room : is_full sz m₁ ≡ false
    returns : gcalloc fuel sz m ≡ ok (take sz m₁)

  gcalloc-Allocated : heap_bytes m.store.at os + 8 * (sz + 2) ≤ 16 * m.space_size → Allocated
  unfolding gcalloc gcollect
  gcalloc-Allocated fits = elim (Bool-cases (is_full sz m)) [
    | inr room ↦ record { m₁ = m; before = inl refl; room = room; returns = rw room refl }
    | inl full ↦
        let (m₁, collected, c, next) = do_gc-IsHeap m os fuel heap enough in
        let used = c.used in
        let top = c.top in
        let room : is_full sz m₁ ≡ false = ground arith in
        record {
          m₁ = m₁;
          before = inr (collected, c);
          room = room;
          returns = rw (full, collected, room) refl;
        }
  ]

-- In a memory that `do_gc` can collect with the fuel, and where its objects and the new one fit a space,
-- `gcialloc` returns: from the memory at hand, or from the one after a collection, it takes the words that
-- the bytes need, below all that is taken and not below the start of the space; the object there is
-- binary, unmarked and of the size asked for, and every other object is as it was.
pub gcialloc-Placed :
    (fuel sz : ℕ) (m : Memory) (os : List ℕ)
    → IsHeap m os
    → 16 * m.space_size + 2 ≤ fuel
    → heap_bytes m.store.at os + 8 * (to_words sz + 2) ≤ 16 * m.space_size
    → (m₁ : Memory) × (o : ℕ) × (m' : Memory) × (gcialloc fuel sz m ≡ ok (o, m'))
      × Before fuel m os m₁
      × Placed m₁ (to_words sz) o m'
      × ((m'.store.at o).size ≡ sz)
      × ((m'.store.at o).binary ≡ true)
      × (sz ≤ 8 * to_words sz)
unfolding gcialloc
gcialloc-Placed fuel sz m os heap enough fits =
    let a = gcalloc-Allocated fuel (to_words sz) m os heap enough fits in
    let (placed, _, _) = take-Placed (to_words sz) a.m₁ a.room in
    let o : ℕ = (take (to_words sz) a.m₁).0 in
    let self = ==_self o in
    (
      a.m₁,
      o,
      set_binary sz o (take (to_words sz) a.m₁).1,
      rw (a.returns) refl,
      a.before,
      record {
        place = placed.place;
        pointer = placed.pointer;
        base = placed.base;
        live = rw self refl;
        others = λ b ne. rw (==_ne b o ne) refl;
      },
      rw self refl,
      rw self refl,
      omega arith,
    )
