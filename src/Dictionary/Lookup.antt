-- ===== src/Dictionary/Lookup.antt =====
-- `dictLookup` (vm/globals.c) on an ordered dictionary.
use littlesmalltalk.Prelude.{ℕ, zero, suc, ◌≡◌, refl, true, inl, inr}
use littlesmalltalk.Prelude.Int.{ℤ, pos, negsuc, is_neg, is_zero, is_pos}
use littlesmalltalk.Prelude.Result.{ok}
use littlesmalltalk.Symbols.{Bytes, strsymcomp}
use littlesmalltalk.Symbols.Order.{strsymcomp-Decides}
use littlesmalltalk.Dictionary.{here, before, after, probe_of, dict_lookup}
use littlesmalltalk.Dictionary.Search.{Locates, lt-length, search-Locates, search-Absent}
use littlesmalltalk.Dictionary.Entries.{
  Entries, keys_of, vals_of, entry, IsOrdered, EntryAt, entry_cases, place_unique,
}

pub probe_here : (r : ℤ) → probe_of r ≡ here → is_zero r ≡ true
probe_here (pos zero) h = refl
probe_here (pos (suc n)) h = cc
probe_here (negsuc n) h = cc

pub probe_before : (r : ℤ) → probe_of r ≡ before → is_neg r ≡ true
probe_before (pos zero) h = cc
probe_before (pos (suc n)) h = cc
probe_before (negsuc n) h = refl

pub probe_after : (r : ℤ) → probe_of r ≡ after → is_pos r ≡ true
probe_after (pos zero) h = cc
probe_after (pos (suc n)) h = refl
probe_after (negsuc n) h = cc

module _ {ℓ} {V : Type ℓ} (es : Entries V) (name : Bytes) (ordered : IsOrdered es) where
  strsymcomp-Locates :
      (i : ℕ) (v : V)
      → EntryAt name es i v
      → Locates (λ key. probe_of (strsymcomp name key)) (keys_of es) i
  strsymcomp-Locates i v (_, at, _) j key q =
      let (lt, eq, gt) = strsymcomp-Decides name key in
      let (same, left, right) = place_unique es name i j key ordered at q in
      (
        λ h. same (eq.0 (probe_here (strsymcomp name key) h)),
        λ h. left (lt.0 (probe_before (strsymcomp name key) h)),
        λ h. right (gt.0 (probe_after (strsymcomp name key) h)),
      )

  -- On an ordered dictionary `dictLookup` ends, stays inside both arrays, and returns the value that
  -- stands beside the name, or NULL if the name is not among the keys.
  pub dict_lookup-entry : dict_lookup (keys_of es) (vals_of es) name ≡ ok (entry name es)
  unfolding dict_lookup
  dict_lookup-entry = elim (entry_cases name es) [
    | inl (i, v, found) ↦ rw (found.0) (
        search-Locates _ (keys_of es) (vals_of es) i v (strsymcomp-Locates i v found)
          (lt-length (keys_of es) i found.1) found.2)
    | inr (missing, absent) ↦ rw missing (
        search-Absent _ (keys_of es) (vals_of es) λ j key q h.
          absent j key q ((strsymcomp-Decides name key).1.0 (probe_here (strsymcomp name key) h)))
  ]
