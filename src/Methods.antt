-- ===== src/Methods.antt =====
-- Method lookup (vm/interp.c): `lookupMethod` walks up the classes and searches each method dictionary
-- by halving; the part of `execute` from `findMethodFromSymbol` to `checkCache` puts a cache of 703
-- places in front of it and falls back to `doesNotUnderstand:`. Objects are addresses, 0 is NULL.
pub mod Inherited
pub mod Cache
pub mod Tests
use littlesmalltalk.Prelude.{
  ℕ, zero, suc, ◌+◌, ◌%◌, ◌^◌, Bool, true, false, ◌&&◌, ◌||◌, List, Option, none, some, ◌==◌,
  if◌then◌else◌,
}
use littlesmalltalk.Prelude.Int.{is_neg}
use littlesmalltalk.Prelude.Result.{Result, ok, error, fault, out_of_fuel, ◌>>=◌, access}
use littlesmalltalk.Symbols.{Bytes, symbolcomp}
use littlesmalltalk.Dictionary.{Probe, here, before, after, search}

-- A class: its parent and the two arrays of its method dictionary (`data[0]` and `data[1]`).
pub record Class : Type 0 where
  pub parent : ℕ
  pub method_keys : List ℕ
  pub method_vals : List ℕ

-- What the lookup reads of the heap: the bytes of symbols, the class objects, `nilObject`.
pub record View : Type 0 where
  pub bytes_of : ℕ → Bytes
  pub class_at : ℕ → Option Class
  pub nil_object : ℕ

-- `if (val == selector) …; if (symbolcomp(selector, val) < 0) …`
abbrev pub probe_selector : View → ℕ → ℕ → Probe
probe_selector w selector val =
    if val == selector
    then here
    else if is_neg (symbolcomp (w.bytes_of selector) (w.bytes_of val))
    then before
    else after

-- The scan upward through the class hierarchy, at most `fuel` classes.
unfoldable pub scan_classes : View → ℕ → ℕ → ℕ → Result (Option ℕ)
scan_classes w zero selector class_ = out_of_fuel
scan_classes w (suc fuel) selector class_ =
    let up =
      (access (w.class_at class_) >>= λ c.
      search (probe_selector w selector) c.method_keys c.method_vals >>= λ found. elim found [
        | some method ↦ ok (some method)
        | none ↦ scan_classes w fuel selector c.parent
      ]) in
    if class_ == w.nil_object then ok none else up

unfoldable pub lookup_method : View → ℕ → ℕ → ℕ → Result (Option ℕ)
unfolding scan_classes
lookup_method w fuel selector class_ =
    if selector == 0 || selector == w.nil_object
    then ok none
    else if class_ == 0 || class_ == w.nil_object
    then ok none
    else scan_classes w fuel selector class_

pub record CacheEntry : Type 0 where
  pub name : ℕ
  pub class_ : ℕ
  pub method : ℕ

abbrev pub method_cache_size : ℕ
method_cache_size = 703

pub record MethodCache : Type 0 where
  pub entries : ℕ → CacheEntry
  pub cache_hit : ℕ
  pub cache_miss : ℕ

unfoldable pub flush_cache : MethodCache → MethodCache
flush_cache cache = record cache { entries = λ i. record (cache.entries i) { name = 0 } }

-- The sum of two 64-bit addresses, modulo the size of the cache.
abbrev pub cache_index : ℕ → ℕ → ℕ
cache_index selector class_ = (selector + class_) % 2 ^ 64 % method_cache_size

store_entry : MethodCache → ℕ → CacheEntry → MethodCache
store_entry cache low e = record cache { entries = λ i. if i == low then e else cache.entries i }

-- `checkCache:` up to the point where a method is there or is missing.
unfoldable pub check_cache : View → ℕ → MethodCache → ℕ → ℕ → Result (Option ℕ × MethodCache)
unfolding store_entry
check_cache w fuel cache selector class_ =
    let low = cache_index selector class_ in
    let e = cache.entries low in
    let missed : MethodCache = record cache { cache_miss = cache.cache_miss + 1 } in
    let miss =
      (lookup_method w fuel selector class_ >>= λ found. elim found [
        | none ↦ ok (none, missed)
        | some m ↦ ok (
          some m,
          store_entry missed low (record { name = selector; class_ = class_; method = m }),
        )
      ]) in
    if e.name == selector && e.class_ == class_
    then ok (some e.method, record cache { cache_hit = cache.cache_hit + 1 })
    else miss
