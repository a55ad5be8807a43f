-- ===== src/Image/Files/Versions.antt =====
-- Images of version 0 (vm/image.c), which hold one object for each variable, and version 3 images whose
-- globals lack the special symbols.
use littlesmalltalk.Prelude.{ℕ, ◌<◌, ◌≡◌, refl, List, [], ◌∷◌, none, length, leb, false, arith}
use littlesmalltalk.Prelude.Result.{Result, ok, fault, ◌>>=◌}
use littlesmalltalk.Memory.StaticRoots.{add_static_root, is_root, static_root_limit}
use littlesmalltalk.Dictionary.Entries.{Entries, entry, IsOrdered}
use littlesmalltalk.Image.Graph.{Oop, ref, Object}
use littlesmalltalk.Image.Files.{
  Variable, Vm, in_objects, fields_of, field_of, assign_root, fix_symbols, fix_up, globals_object,
  special_symbols,
}
use littlesmalltalk.Image.Files.Lookup.{IsDictionary, lookup_global-entry}

module _ (address : Variable → ℕ) where
  -- One variable after the other gets one object after the other.
  abbrev pub assign_roots : List Variable → List Oop → Vm → Result Vm
  assign_roots [] os vm = ok vm
  assign_roots (v ∷ vs) [] vm = ok vm
  assign_roots (v ∷ vs) (o ∷ os) vm = assign_root address v o vm >>= assign_roots vs os

  -- In a version 3 image whose globals are an ordered dictionary without the special symbols, what
  -- `fileIn` does after reading is to read a field of NULL.
  pub fix_up-no_symbols :
      (objs : List Object) (globals : ℕ) (es : Entries Oop) (vm : Vm)
      → IsDictionary (in_objects objs) (ref globals) es
      → IsOrdered es
      → entry special_symbols es ≡ none
      → is_root (address globals_object) vm.roots ≡ false
      → length vm.roots < static_root_limit
      → fix_up address (in_objects objs) (ref globals) vm ≡ fault
  unfolding fix_up fix_symbols field_of fields_of assign_root add_static_root
  fix_up-no_symbols objs globals es vm d ordered missing new room =
      let below : leb static_root_limit (length vm.roots) ≡ false = ground arith in
      let nothing = lookup_global-entry (in_objects objs) globals es special_symbols d ordered in
      rw (new, below, nothing, missing) refl
