-- ===== src/Memory/Collection/Tests.antt =====
-- A collection of two objects that point to each other (vm/memory.c).
use littlesmalltalk.Prelude.{
  ℕ, zero, suc, ◌≤◌, ◌≡◌, refl, inl, inr, true, false, List, [], ◌∷◌, ◌==◌, if◌then◌else◌, arith,
}
use littlesmalltalk.Prelude.Result.{ok, ◌>>=◌}
use littlesmalltalk.Memory.StaticRoots.{is_root}
use littlesmalltalk.Memory.Collector.{
  Mobject, Store, is_small_int, in_oldspace, last, gc_move, move_loop, step_down, step_up, move,
  words_down, copy_words, class_up, field_up, skip_zeros,
}
use littlesmalltalk.Memory.Collector.Frame.{
  Among, holds_pointer, remaining, IsClosed, IsReady, IsFine,
}
use littlesmalltalk.Memory.Collection.{Memory, spaces, move_roots, move_statics, do_gc, gcialloc}
use littlesmalltalk.Memory.Collection.Roots.{Moves, gc_move-Moved}
use littlesmalltalk.Memory.Collection.Live.{IsHeap, Collected, heap_bytes}
use littlesmalltalk.Memory.Collection.Again.{copies, do_gc-IsHeap}
use littlesmalltalk.Memory.Collection.Allocation.{Before, Placed, gcialloc-Placed}

-- An object with a pointer to itself, NULL and a SmallInt, and a binary one that is its class.
abbrev node_words : ℕ → ℕ
node_words zero = 1040
node_words (suc zero) = 1000
node_words (suc (suc zero)) = 0
node_words (suc (suc (suc j))) = 7

abbrev text_words : ℕ → ℕ
text_words zero = 1000
text_words (suc j) = 12345

abbrev node : Mobject
node = record { size = 3; binary = false; done = false; words = node_words }

abbrev text : Mobject
text = record { size = 3; binary = true; done = false; words = text_words }

abbrev nothing : Mobject
nothing = record { size = 0; binary = false; done = false; words = λ j. 0 }

abbrev store : Store
store = record {
  at = λ a. if a == 1000 then node else if a == 1040 then text else nothing;
  memory_pointer = 1000;
}

abbrev memory : Memory
memory = record {
  store = store;
  space_one = 1000;
  space_two = 2000;
  space_size = 8;
  in_space_one = true;
  memory_base = 1000;
  memory_top = 1128;
  root_stack = 1000 ∷ 5 ∷ [];
  static_roots = 500 ∷ [];
  static_words = λ a. if a == 500 then 1040 else 0;
  cache = record {
    entries = λ i. record { name = 0; class_ = 0; method = 0 };
    cache_hit = 0;
    cache_miss = 0;
  };
  gc_count = 0;
  gc_total_mem_copied = 0;
  gc_mem_max_copied = 0;
}

-- The root stack, the static word, a field and the class of the copies, and the bytes taken.
abbrev seen : Memory → List ℕ
seen m =
    m.static_words 500
    ∷ (m.store.at 2088).words 0
    ∷ (m.store.at 2088).words 1
    ∷ (m.store.at 2088).words 2
    ∷ (m.store.at 2088).words 3
    ∷ (m.store.at 2064).words 0
    ∷ (m.store.at 2064).words 1
    ∷ m.store.memory_pointer
    ∷ m.root_stack

collects :
    (do_gc 140 memory >>= λ m. ok (seen m))
    ≡ ok (2064 ∷ 2064 ∷ 2088 ∷ 0 ∷ 7 ∷ 2088 ∷ 12345 ∷ 2064 ∷ 2088 ∷ 5 ∷ [])
unfolding do_gc move_roots move_statics gc_move move_loop step_down step_up move words_down
    copy_words class_up field_up skip_zeros
collects = refl

abbrev objects : List ℕ
objects = 1000 ∷ 1040 ∷ []

abbrev Fine : ℕ → Type 0
Fine = IsFine (spaces memory) store.at objects

node-Fine : Fine 1000
node-Fine = record { not_new = λ r. refl; object = λ r o. inl refl }

text-Fine : Fine 1040
text-Fine = record { not_new = λ r. refl; object = λ r o. inr (inl refl) }

null-Fine : Fine 0
null-Fine = record { not_new = λ r. refl; object = λ r o. cc }

small-Fine : (w : ℕ) → is_small_int w ≡ true → Fine w
small-Fine w s = record { not_new = λ r. cc (s, r); object = λ r o. cc (s, r) }

node_fields : (j : ℕ) → Fine (node_words j)
node_fields zero = text-Fine
node_fields (suc zero) = node-Fine
node_fields (suc (suc zero)) = null-Fine
node_fields (suc (suc (suc j))) = small-Fine 7 refl

text_fields : (j : ℕ) → (j == 0) ≡ true → Fine (text_words j)
text_fields zero p = node-Fine
text_fields (suc j) p = absurd (pointer j p)
  where
    pointer : (j : ℕ) → (suc j == 0) ≡ true → ⊥
    pointer j p = ground arith

fields-Fine :
    (b j : ℕ)
    → Among b objects
    → j ≤ last (store.at b)
    → holds_pointer (store.at b) j ≡ true
    → Fine ((store.at b).words j)
fields-Fine b j (inl e) l p = rw e (node_fields j)
fields-Fine b j (inr (inl e)) l p = rw e (text_fields j (rw e at p))
fields-Fine b j (inr (inr e)) l p = absurd e

closed : IsClosed (spaces memory) store.at objects
closed = record {
  apart = λ a o. ground arith;
  null = refl;
  old = λ b m. old b m;
  fields = fields-Fine;
}
  where
    old : (b : ℕ) → Among b objects → in_oldspace (spaces memory) b ≡ true
    old b (inl e) = rw e refl
    old b (inr (inl e)) = rw e refl
    old b (inr (inr e)) = absurd e

stack-Fine : (w : ℕ) → Among w (1000 ∷ 5 ∷ []) → Fine w
stack-Fine w (inl e) = rw e node-Fine
stack-Fine w (inr (inl e)) = rw e (small-Fine 5 refl)
stack-Fine w (inr (inr e)) = absurd e

statics-Fine : (a : ℕ) → is_root a (500 ∷ []) ≡ true → Fine (if a == 500 then 1040 else 0)
unfolding is_root
statics-Fine a r = (let same : a ≡ 500 = ground arith in rw same text-Fine)

unmarked : (b : ℕ) → Among b objects → (store.at b).done ≡ false
unmarked b (inl e) = rw e refl
unmarked b (inr (inl e)) = rw e refl
unmarked b (inr (inr e)) = absurd e

heap : IsHeap memory objects
unfolding is_root heap_bytes
heap = record {
  closed = closed;
  unmarked = unmarked;
  stack = stack-Fine;
  statics = statics-Fine;
  unique = (refl, tt);
  fits = omega arith;
  aligned = (refl, refl);
  not_null = (omega arith, omega arith);
}

ready : IsReady (spaces memory) store.at objects (record store { memory_pointer = 2128 })
unfolding remaining
ready = record { fresh = λ b o u. refl; room = omega arith; below = omega arith; aligned = refl }

gc_move-Moved_example :
    Moves (spaces memory) store.at objects closed 140 (record store { memory_pointer = 2128 }) 1000
gc_move-Moved_example =
    gc_move-Moved (spaces memory) store.at objects closed 140
      (record store { memory_pointer = 2128 }) 1000 ready node-Fine (omega arith)

do_gc-IsHeap_example :
    (m' : Memory) × (do_gc 140 memory ≡ ok m')
    × Collected memory objects m'
    × IsHeap m' (copies m'.store objects)
do_gc-IsHeap_example = do_gc-IsHeap memory objects 140 heap (omega arith)

gcialloc-Placed_example :
    (m₁ : Memory) × (o : ℕ) × (m' : Memory) × (gcialloc 140 11 memory ≡ ok (o, m'))
    × Before 140 memory objects m₁
    × Placed m₁ 2 o m'
    × ((m'.store.at o).size ≡ 11)
    × ((m'.store.at o).binary ≡ true)
    × (11 ≤ 16)
unfolding heap_bytes
gcialloc-Placed_example = gcialloc-Placed 140 11 memory objects heap (omega arith) (omega arith)
