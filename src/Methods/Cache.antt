-- ===== src/Methods/Cache.antt =====
-- The method cache never changes what a send finds.
use littlesmalltalk.Prelude.{
  ℕ, ◌+◌, ◌≡◌, ◌≢◌, refl, inl, inr, Bool, true, false, Option, none, some, ◌==◌, Bool-cases, arith,
  ◌&&◌,
}
use littlesmalltalk.Prelude.Result.{ok}
use littlesmalltalk.Methods.{
  View, lookup_method, MethodCache, CacheEntry, cache_index, flush_cache, store_entry, check_cache,
}

module _ (w : View) (fuel : ℕ) where
  -- A place in use holds what `lookupMethod` returns for its name and class.
  abbrev pub Valid : CacheEntry → Type 0
  Valid e = e.name ≢ 0 → lookup_method w fuel e.name e.class_ ≡ ok (some e.method)

  abbrev pub IsCoherent : MethodCache → Type 0
  IsCoherent cache = (i : ℕ) → Valid (cache.entries i)

  -- After `flushCache` no place is in use, whatever the methods are by then.
  pub flush_cache-IsCoherent : (cache : MethodCache) → IsCoherent (flush_cache cache)
  unfolding flush_cache
  flush_cache-IsCoherent cache i used = absurd (used refl)

  store_entry-IsCoherent :
      (cache : MethodCache) (low : ℕ) (e : CacheEntry)
      → IsCoherent cache
      → Valid e
      → IsCoherent (store_entry cache low e)
  unfolding store_entry
  store_entry-IsCoherent cache low e coherent valid i = elim (Bool-cases (i == low)) [
    | inl hit ↦ rw hit valid
    | inr other ↦ rw other (coherent i)
  ]

  module _ (cache : MethodCache) (selector class_ : ℕ) where
    -- The state after a lookup through the cache.
    pub record Looked (found : Option ℕ) : Type 0 where
      pub cache' : MethodCache
      pub result : check_cache w fuel cache selector class_ ≡ ok (found, cache')
      pub coherent : IsCoherent cache'
      pub counted : cache'.cache_hit + cache'.cache_miss ≡ cache.cache_hit + cache.cache_miss + 1

    missed : MethodCache
    missed = record cache { cache_miss = cache.cache_miss + 1 }

    hit-lookup :
        (e : CacheEntry)
        → Valid e
        → selector ≢ 0
        → (e.name == selector && e.class_ == class_) ≡ true
        → lookup_method w fuel selector class_ ≡ ok (some e.method)
    hit-lookup e valid used hit =
        let name : e.name ≡ selector = ground arith in
        let cls : e.class_ ≡ class_ = ground arith in rw (← name, ← cls) (valid (λ z. used (cc)))

    abbrev here : CacheEntry
    here = cache.entries (cache_index selector class_)

    abbrev is_hit : Bool
    is_hit = here.name == selector && here.class_ == class_

    Looked-hit :
        (found : Option ℕ)
        → IsCoherent cache
        → selector ≢ 0
        → is_hit ≡ true
        → lookup_method w fuel selector class_ ≡ ok found
        → Looked found
    unfolding check_cache
    Looked-hit found coherent used hit looked = record {
      cache' = record cache { cache_hit = cache.cache_hit + 1 };
      result = rw hit (cc (hit-lookup here (coherent (cache_index selector class_)) used hit));
      coherent = coherent;
      counted = omega arith;
    }

    Looked-missing :
        IsCoherent cache
        → is_hit ≡ false
        → lookup_method w fuel selector class_ ≡ ok none
        → Looked none
    unfolding check_cache missed
    Looked-missing coherent miss looked = record {
      cache' = missed;
      result = rw (miss, looked);
      coherent = coherent;
      counted = omega arith;
    }

    Looked-new :
        (m : ℕ)
        → IsCoherent cache
        → is_hit ≡ false
        → lookup_method w fuel selector class_ ≡ ok (some m)
        → Looked (some m)
    unfolding check_cache missed
    Looked-new m coherent miss looked =
        let e : CacheEntry = record { name = selector; class_ = class_; method = m } in
        record {
          cache' = store_entry missed (cache_index selector class_) e;
          result = rw (miss, looked);
          coherent =
              store_entry-IsCoherent missed (cache_index selector class_) e coherent (λ _. looked);
          counted = counted_new (cache_index selector class_) e;
        }
      where
        counted_new :
            (low : ℕ) (e : CacheEntry)
            → (store_entry missed low e).cache_hit + (store_entry missed low e).cache_miss
              ≡ cache.cache_hit + cache.cache_miss + 1
        counted_new low e = omega arith

    -- With a coherent cache, `checkCache` returns what `lookupMethod` returns, counts one hit or one
    -- miss, and leaves the cache coherent.
    pub check_cache-lookup_method :
        (found : Option ℕ)
        → IsCoherent cache
        → selector ≢ 0
        → lookup_method w fuel selector class_ ≡ ok found
        → Looked found
    check_cache-lookup_method none coherent used looked = elim (Bool-cases is_hit) [
      | inl hit ↦ Looked-hit none coherent used hit looked
      | inr miss ↦ Looked-missing coherent miss looked
    ]
    check_cache-lookup_method (some m) coherent used looked = elim (Bool-cases is_hit) [
      | inl hit ↦ Looked-hit (some m) coherent used hit looked
      | inr miss ↦ Looked-new m coherent miss looked
    ]
