-- ===== src/Image/Files/RoundTrip.antt =====
-- An image that `fileOut` writes and `fileIn` reads (vm/image.c): the variables of the virtual machine
-- that reads it are the copies of what the same look-ups find in the objects that were written.
use mathlib.Core.List.{append_assoc}
use littlesmalltalk.Prelude.{ℕ, ◌+◌, ◌<◌, ◌≤◌, ◌≡◌, refl, List, [], ◌∷◌, ◌++◌, length, inr}
use littlesmalltalk.Prelude.Result.{Result, ok, error, fault, out_of_fuel, ◌>>=◌, >>=-assoc}
use littlesmalltalk.Symbols.{Bytes}
use littlesmalltalk.Memory.StaticRoots.{add_static_root}
use littlesmalltalk.Image.Header.{put_image_version, get_image_version-put}
use littlesmalltalk.Image.Graph.{Oop, Heap, image_max_objects}
use littlesmalltalk.Image.Graph.Copy.{moved, copies}
use littlesmalltalk.Image.Graph.Coverage.{Known, IsComplete}
use littlesmalltalk.Image.Graph.Termination.{IsClosed, IsInside, write_object-read_object}
use littlesmalltalk.Image.Files.{
  Variable, Vm, View, in_heap, in_objects, Loaded, loaded, assign_root, fix_symbols, fix_globals,
  fix_up, file_in_version_3, file_in, file_out, globals_object, special_symbols, symbol_variables,
  global_variables,
}
use littlesmalltalk.Image.Files.Copies.{
  Follows, Follows-ok, Follows->>=, Fine, field_of-Follows, lookup_global-Follows,
}

abbrev pub moved_values : List ℕ → List (Variable × Oop) → List (Variable × Oop)
moved_values indir [] = []
moved_values indir ((v, o) ∷ vs) = (v, moved indir o) ∷ moved_values indir vs

-- The same variables with the copies of their objects.
abbrev pub moved_vm : List ℕ → Vm → Vm
moved_vm indir vm = record { values = moved_values indir vm.values; roots = vm.roots }

abbrev Anything : {A : Type 0} → A → Type 0
Anything a = Unit

Follows-same : {A : Type 0} (r : Result A) → Follows (λ a. a) Anything r r
Follows-same (ok a) = Follows-ok a tt
Follows-same error = record { same = refl; has = λ a e. tt }
Follows-same fault = record { same = refl; has = λ a e. tt }
Follows-same out_of_fuel = record { same = refl; has = λ a e. tt }

module _ (address : Variable → ℕ) (indir : List ℕ) where
  assign_root-Follows :
      (v : Variable) (o : Oop) (vm : Vm)
      → Follows
          (moved_vm indir)
          Anything
          (assign_root address v o vm)
          (assign_root address v (moved indir o) (moved_vm indir vm))
  unfolding assign_root
  assign_root-Follows v o vm =
      Follows->>= _ (Follows-same (add_static_root (address v) vm.roots))
        (λ roots k. Follows-ok (record { values = (v, o) ∷ vm.values; roots = roots }) tt)

  module _ (heap : Heap) (complete : IsComplete heap indir indir) where
    abbrev before_copy : View
    before_copy = in_heap heap

    abbrev after_copy : View
    after_copy = in_objects (copies heap indir indir)

    fix_symbols-Follows :
        (symbols : Oop)
        → Fine indir symbols
        → (i : ℕ) (vs : List Variable) (vm : Vm)
        → Follows
            (moved_vm indir)
            Anything
            (fix_symbols address before_copy symbols i vs vm)
            (fix_symbols address after_copy (moved indir symbols) i vs (moved_vm indir vm))
    unfolding fix_symbols
    fix_symbols-Follows symbols k i [] vm = Follows-ok vm tt
    fix_symbols-Follows symbols k i (v ∷ vs) vm =
        Follows->>= _ (field_of-Follows heap indir complete symbols i k) (λ o ko.
          Follows->>= _ (assign_root-Follows v o vm)
            (λ vm' kv. fix_symbols-Follows symbols k (i + 1) vs vm'))

    fix_globals-Follows :
        (globals : Oop)
        → Fine indir globals
        → (vs : List (Variable × Bytes)) (vm : Vm)
        → Follows
            (moved_vm indir)
            Anything
            (fix_globals address before_copy globals vs vm)
            (fix_globals address after_copy (moved indir globals) vs (moved_vm indir vm))
    unfolding fix_globals
    fix_globals-Follows globals k [] vm = Follows-ok vm tt
    fix_globals-Follows globals k ((v, name) ∷ vs) vm =
        Follows->>= _ (lookup_global-Follows heap indir complete globals name k) (λ o ko.
          Follows->>= _ (assign_root-Follows v o vm)
            (λ vm' kv. fix_globals-Follows globals k vs vm'))

    pub fix_up-Follows :
        (globals : Oop)
        → Fine indir globals
        → (vm : Vm)
        → Follows
            (moved_vm indir)
            Anything
            (fix_up address before_copy globals vm)
            (fix_up address after_copy (moved indir globals) (moved_vm indir vm))
    unfolding fix_up
    fix_up-Follows globals k vm =
        Follows->>= _ (assign_root-Follows globals_object globals vm) (λ vm₁ k₁.
          Follows->>= _ (lookup_global-Follows heap indir complete globals special_symbols k)
            (λ symbols ks.
              Follows->>= _ (fix_symbols-Follows symbols ks 0 symbol_variables vm₁)
                (λ vm₂ k₂. fix_globals-Follows globals k global_variables vm₂)))

-- A virtual machine whose variables are not set yet.
abbrev pub unset : List ℕ → Vm
unset roots = record { values = []; roots = roots }

-- On a graph of at most 10000 objects whose pointers stay inside it, where its table has as many
-- places, `fileOut` returns with a fuel above the number of objects, and says how many objects it
-- wrote. `fileIn` of the file, whatever follows it, sets the variables from the copies of the objects the
-- way the same look-ups set them from the objects themselves: it ends as they end, every variable holds
-- the copy, and the static roots are the same.
pub file_in-file_out :
    (address : Variable → ℕ) (file_in_version_2 : List ℕ → Vm → Result Loaded) (capacity : ℕ)
    (heap : Heap) (graph : List ℕ) (fuel : ℕ) (globals : Oop) (rest roots : List ℕ)
    → IsClosed heap graph
    → length graph ≤ capacity
    → length graph ≤ image_max_objects
    → length graph < fuel
    → IsInside graph globals
    → (indir file : List ℕ) × (file_out capacity heap fuel globals ≡ ok (length indir, file))
      × (length indir ≤ length graph)
      × Known indir globals
      × (file_in address file_in_version_2 fuel (file ++ rest) (unset roots) ≡ (
          fix_up address (in_heap heap) globals (unset roots) >>= λ vm.
          ok (loaded (copies heap indir indir) (moved_vm indir vm))))
unfolding file_out file_in file_in_version_3
file_in-file_out address v2 capacity heap graph fuel globals rest roots closed room small_graph
      enough inside =
    let (indir, out, written, few, (known, complete), reads) =
      write_object-read_object capacity heap graph fuel globals rest closed room small_graph enough
        inside in
    let follows = fix_up-Follows address indir heap complete globals (inr known) (unset roots) in
    (
      indir,
      put_image_version 3 ++ out,
      rw written refl,
      few,
      known,
      rw
          (
            append_assoc (put_image_version 3) out rest,
            get_image_version-put 3 (out ++ rest),
            reads,
            follows.same,
          )
          (>>=-assoc (fix_up address (in_heap heap) globals (unset roots)) _ _),
    )
