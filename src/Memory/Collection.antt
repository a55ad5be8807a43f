-- ===== src/Memory/Collection.antt =====
-- `do_gc`, `gcollect`, `gcalloc` and `gcialloc` of vm/memory.c on the memory of Collector. The times that
-- `do_gc` takes of the clock are left out; the counts of collections and of bytes are kept.
pub mod Again
pub mod Allocation
pub mod Live
pub mod Roots
pub mod Tests
use littlesmalltalk.Prelude.{
  ℕ, ◌+◌, ◌-◌, ◌*◌, Bool, true, false, not, List, [], ◌∷◌, ltb, if◌then◌else◌,
}
use littlesmalltalk.Prelude.Result.{Result, ok, error, ◌>>=◌}
use littlesmalltalk.Methods.{MethodCache, flush_cache}
use littlesmalltalk.Memory.Collector.{
  Mobject, Store, Spaces, to_words, set_word, set_object, gc_move,
}

-- The variables of the file. `static_words` is what stands at the addresses in `staticRoots`.
pub record Memory : Type 0 where
  pub store : Store
  pub space_one : ℕ
  pub space_two : ℕ
  pub space_size : ℕ
  pub in_space_one : Bool
  pub memory_base : ℕ
  pub memory_top : ℕ
  pub root_stack : List ℕ
  pub static_roots : List ℕ
  pub static_words : ℕ → ℕ
  pub cache : MethodCache
  pub gc_count : ℕ
  pub gc_total_mem_copied : ℕ
  pub gc_mem_max_copied : ℕ

-- The spaces during the collection: a space has `spaceSize` times the 16 bytes of a header and class.
abbrev pub spaces : Memory → Spaces
spaces m =
    let base : ℕ = if m.in_space_one then m.space_two else m.space_one in
    let old : ℕ = if m.in_space_one then m.space_one else m.space_two in
    record {
      memory_base = base;
      memory_top = base + 16 * m.space_size;
      old_base = old;
      old_top = old + 16 * m.space_size;
    }

unfoldable pub move_roots : ℕ → Spaces → List ℕ → Store → Result (List ℕ × Store)
move_roots fuel sp [] s = ok ([], s)
move_roots fuel sp (w ∷ ws) s =
    gc_move fuel sp w s >>= λ (r, s'). move_roots fuel sp ws s' >>= λ (rs, s''). ok (r ∷ rs, s'')

unfoldable pub move_statics :
    ℕ → Spaces → (roots : List ℕ) (words : ℕ → ℕ) → Store → Result ((ℕ → ℕ) × Store)
move_statics fuel sp [] words s = ok (words, s)
move_statics fuel sp (a ∷ roots) words s =
    gc_move fuel sp (words a) s >>= λ (r, s'). move_statics fuel sp roots (set_word words a r) s'

-- The end of `do_gc`.
abbrev pub flushed : Memory → (roots : List ℕ) (words : ℕ → ℕ) → Store → Memory
flushed m roots words s =
    let sp = spaces m in
    let copied : ℕ = sp.memory_top - s.memory_pointer in
    record m {
      store = s;
      in_space_one = not m.in_space_one;
      memory_base = sp.memory_base;
      memory_top = sp.memory_top;
      root_stack = roots;
      static_words = words;
      cache = flush_cache m.cache;
      gc_count = m.gc_count + 1;
      gc_total_mem_copied = m.gc_total_mem_copied + copied;
      gc_mem_max_copied = if ltb m.gc_mem_max_copied copied then copied else m.gc_mem_max_copied;
    }

unfoldable pub do_gc : ℕ → Memory → Result Memory
do_gc fuel m =
    let sp = spaces m in
    move_roots fuel sp m.root_stack (record m.store { memory_pointer = sp.memory_top })
    >>= λ (roots, s). move_statics fuel sp m.static_roots m.static_words s >>= λ (words, s').
        ok (flushed m roots words s')

-- The place of a new object, where `memoryPointer` stays in the space, and `SET_SIZE`.
abbrev pub take : ℕ → Memory → ℕ × Memory
take sz m =
    let o : ℕ = m.store.memory_pointer - 8 * (sz + 2) in
    let s : Store = record m.store { memory_pointer = o } in
    (
      o,
      record m {
        store = set_object s o (record (m.store.at o) { size = sz; binary = false; done = false });
      },
    )

abbrev pub is_full : ℕ → Memory → Bool
is_full sz m = ltb m.store.memory_pointer (m.memory_base + 8 * (sz + 2))

unfoldable pub gcollect : ℕ → ℕ → Memory → Result (ℕ × Memory)
gcollect fuel sz m = do_gc fuel m >>= λ m'. if is_full sz m' then error else ok (take sz m')

unfoldable pub gcalloc : ℕ → ℕ → Memory → Result (ℕ × Memory)
gcalloc fuel sz m = if is_full sz m then gcollect fuel sz m else ok (take sz m)

-- `SET_SIZE` and `SET_BINOBJ`
abbrev pub set_binary : ℕ → ℕ → Memory → Memory
set_binary sz o m = record m {
  store = set_object m.store o (record (m.store.at o) { size = sz; binary = true; done = false });
}

unfoldable pub gcialloc : ℕ → ℕ → Memory → Result (ℕ × Memory)
gcialloc fuel sz m = gcalloc fuel (to_words sz) m >>= λ (o, m'). ok (o, set_binary sz o m')
