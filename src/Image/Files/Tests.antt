-- ===== src/Image/Files/Tests.antt =====
-- A dictionary of globals with the special symbols alone, written to an image and read back.
use littlesmalltalk.Prelude.{
  ℕ, ◌+◌, ◌≤◌, ◌≡◌, refl, List, [], ◌∷◌, ◌++◌, map, none, some, ◌==◌, if◌then◌else◌, length, inl,
  inr, arith,
}
use littlesmalltalk.Prelude.Int.{pos}
use littlesmalltalk.Prelude.Result.{Result, ok, error, fault, ◌>>=◌}
use littlesmalltalk.Dictionary.Entries.{Entries, entry, bytes_eq}
use littlesmalltalk.Memory.StaticRoots.{is_root}
use littlesmalltalk.Image.Graph.{
  null, Oop, small, ref, fields, bytes, Object, Heap, write_object, read_object,
}
use littlesmalltalk.Image.Graph.Copy.{moved, copies}
use littlesmalltalk.Image.Graph.Sequence.{reading}
use littlesmalltalk.Image.Graph.Coverage.{Known, IsComplete}
use littlesmalltalk.Image.Graph.Termination.{IsClosed, IsInside, write_object-read_object}
use littlesmalltalk.Image.Files.{
  Variable, Vm, Loaded, loaded, in_heap, in_objects, fields_of, bytes_of, field_of, special_symbols,
  nil_object, true_object, false_object, globals_object, initial_method, bad_method_sym,
  small_int_class, integer_class, array_class, block_class, byte_array_class, context_class,
  dictionary_class, string_class, symbol_class, undefined_class, binary_message, lookup_global,
  fix_up, file_in, file_out,
}
use littlesmalltalk.Image.Files.Lookup.{IsDictionary, lookup_global-entry}
use littlesmalltalk.Image.Files.FixUp.{fix_up-entries}
use littlesmalltalk.Image.Files.RoundTrip.{unset, moved_vm, file_in-file_out}
use littlesmalltalk.Image.Files.Versions.{fix_up-no_symbols}

abbrev some_globals : Heap
some_globals a =
    if a == 50
    then some (record { class_ = ref 50; body = fields (ref 51 ∷ ref 52 ∷ []) })
    else if a == 51
    then some (record { class_ = ref 50; body = fields (ref 53 ∷ []) })
    else if a == 52
    then some (record { class_ = ref 50; body = fields (ref 54 ∷ []) })
    else if a == 53
    then some (record { class_ = ref 50; body = bytes special_symbols })
    else if a == 54
    then some (record {
      class_ = ref 50;
      body = fields (small (pos 1) ∷ small (pos 2) ∷ ref 50 ∷ ref 53 ∷ []);
    })
    else none

abbrev graph : List ℕ
graph = 50 ∷ 51 ∷ 52 ∷ 53 ∷ 54 ∷ []

in_50 : IsInside graph (ref 50)
in_50 = inl refl

in_51 : IsInside graph (ref 51)
in_51 = inr (inl refl)

in_52 : IsInside graph (ref 52)
in_52 = inr (inr (inl refl))

in_53 : IsInside graph (ref 53)
in_53 = inr (inr (inr (inl refl)))

in_54 : IsInside graph (ref 54)
in_54 = inr (inr (inr (inr (inl refl))))

some_globals-IsClosed : IsClosed some_globals graph
some_globals-IsClosed a (inl e) = rw (← e) (record {
  class_ = ref 50;
  body = fields (ref 51 ∷ ref 52 ∷ []);
  there = refl;
  class_inside = in_50;
  body_inside = (omega arith, (in_51, (in_52, tt)));
})
some_globals-IsClosed a (inr (inl e)) = rw (← e) (record {
  class_ = ref 50;
  body = fields (ref 53 ∷ []);
  there = refl;
  class_inside = in_50;
  body_inside = (omega arith, (in_53, tt));
})
some_globals-IsClosed a (inr (inr (inl e))) = rw (← e) (record {
  class_ = ref 50;
  body = fields (ref 54 ∷ []);
  there = refl;
  class_inside = in_50;
  body_inside = (omega arith, (in_54, tt));
})
some_globals-IsClosed a (inr (inr (inr (inl e)))) = rw (← e) (record {
  class_ = ref 50;
  body = bytes special_symbols;
  there = refl;
  class_inside = in_50;
  body_inside = omega arith;
})
some_globals-IsClosed a (inr (inr (inr (inr (inl e))))) = rw (← e) (record {
  class_ = ref 50;
  body = fields (small (pos 1) ∷ small (pos 2) ∷ ref 50 ∷ ref 53 ∷ []);
  there = refl;
  class_inside = in_50;
  body_inside = (
    omega arith,
    ((omega arith, omega arith), ((omega arith, omega arith), (in_50, (in_53, tt)))),
  );
})
some_globals-IsClosed a (inr (inr (inr (inr (inr e))))) = absurd e

write_object-read_object_example :
    (indir out : List ℕ) × (write_object 10000 some_globals 6 (ref 50) [] ≡ ok (indir, out))
    × (length indir ≤ length graph)
    × (Known indir (ref 50) × IsComplete some_globals indir indir)
    × (read_object 6 (reading [] (out ++ 9 ∷ []))
        ≡ ok (moved indir (ref 50), reading (copies some_globals indir indir) (9 ∷ [])))
write_object-read_object_example =
    write_object-read_object 10000 some_globals graph 6 (ref 50) (9 ∷ []) some_globals-IsClosed
      (omega arith) (omega arith) (omega arith) in_50

-- The addresses of the variables.
abbrev addresses : Variable → ℕ
addresses nil_object = 0
addresses true_object = 1
addresses false_object = 2
addresses globals_object = 3
addresses initial_method = 4
addresses bad_method_sym = 5
addresses small_int_class = 6
addresses integer_class = 7
addresses array_class = 8
addresses block_class = 9
addresses byte_array_class = 10
addresses context_class = 11
addresses dictionary_class = 12
addresses string_class = 13
addresses symbol_class = 14
addresses undefined_class = 15
addresses (binary_message i) = 16 + i

abbrev no_version_2 : List ℕ → Vm → Result Loaded
no_version_2 input vm = error

file_in-file_out_example :
    (indir file : List ℕ) × (file_out 10000 some_globals 6 (ref 50) ≡ ok (length indir, file))
    × (length indir ≤ length graph)
    × Known indir (ref 50)
    × (file_in addresses no_version_2 6 (file ++ []) (unset []) ≡ (
        fix_up addresses (in_heap some_globals) (ref 50) (unset []) >>= λ vm.
        ok (loaded (copies some_globals indir indir) (moved_vm indir vm))))
file_in-file_out_example =
    file_in-file_out addresses no_version_2 10000 some_globals graph 6 (ref 50) [] []
      some_globals-IsClosed (omega arith) (omega arith) (omega arith) in_50

abbrev some_entries : Entries Oop
some_entries = (special_symbols, ref 54) ∷ []

some_globals-IsDictionary : IsDictionary (in_heap some_globals) (ref 50) some_entries
unfolding field_of fields_of bytes_of
some_globals-IsDictionary = record {
  keys = ref 51;
  vals = ref 52;
  key_oops = ref 53 ∷ [];
  keys_there = refl;
  vals_there = refl;
  keys_array = refl;
  vals_array = refl;
  symbols = (refl, tt);
}

lookup_global-entry_example :
    lookup_global (in_heap some_globals) (ref 50) special_symbols ≡ ok (ref 54)
unfolding entry bytes_eq
lookup_global-entry_example =
    lookup_global-entry (in_heap some_globals) 50 some_entries special_symbols
      some_globals-IsDictionary (tt, tt)

-- Fourteen small integers, one for each variable.
abbrev fourteen : List Oop
fourteen = map (λ n. small (pos n)) (0 ∷ 1 ∷ 2 ∷ 3 ∷ 4 ∷ 5 ∷ 6 ∷ 7 ∷ 8 ∷ 9 ∷ 10 ∷ 11 ∷ 12 ∷ 13 ∷ [])

abbrev fourteen_bytes : List ℕ
fourteen_bytes =
    0x40 ∷ 0x41 ∷ 0x42 ∷ 0x43 ∷ 0x44 ∷ 0x45 ∷ 0x46 ∷ 0x47 ∷ 0x48 ∷ 0x49 ∷ 0x4a ∷ 0x4b ∷ 0x4c ∷ 0x4d
    ∷ []

-- An empty dictionary.
abbrev empty_globals : List Object
empty_globals =
    record { class_ = ref 0; body = fields (ref 1 ∷ ref 1 ∷ []) }
    ∷ record { class_ = ref 0; body = fields [] }
    ∷ []

empty_globals-IsDictionary : IsDictionary (in_objects empty_globals) (ref 0) []
unfolding field_of fields_of
empty_globals-IsDictionary = record {
  keys = ref 1;
  vals = ref 1;
  key_oops = [];
  keys_there = refl;
  vals_there = refl;
  keys_array = refl;
  vals_array = refl;
  symbols = tt;
}

fix_up-no_symbols_example : fix_up addresses (in_objects empty_globals) (ref 0) (unset []) ≡ fault
unfolding entry is_root
fix_up-no_symbols_example =
    fix_up-no_symbols addresses empty_globals 0 [] (unset []) empty_globals-IsDictionary tt refl
      refl (omega arith)

some_entries_there : entry special_symbols some_entries ≡ some (ref 54)
unfolding entry bytes_eq
some_entries_there = refl

some_fields :
    fields_of (in_heap some_globals) (ref 54)
    ≡ ok (small (pos 1) ∷ small (pos 2) ∷ ref 50 ∷ ref 53 ∷ [])
unfolding fields_of
some_fields = refl

fix_up-entries_example :
    (vm : Vm) × (fix_up addresses (in_heap some_globals) (ref 50) (unset []) ≡ ok vm)
    × (vm.values ≡ (
        (undefined_class, null)
        ∷ (symbol_class, null)
        ∷ (string_class, null)
        ∷ (small_int_class, null)
        ∷ (integer_class, null)
        ∷ (dictionary_class, null)
        ∷ (context_class, null)
        ∷ (byte_array_class, null)
        ∷ (block_class, null)
        ∷ (array_class, null)
        ∷ (false_object, null)
        ∷ (true_object, null)
        ∷ (nil_object, null)
        ∷ (bad_method_sym, ref 53)
        ∷ (binary_message 2, ref 50)
        ∷ (binary_message 1, small (pos 2))
        ∷ (binary_message 0, small (pos 1))
        ∷ (globals_object, ref 50)
        ∷ []))
    × (length vm.roots ≤ 0 + 18)
unfolding entry bytes_eq
fix_up-entries_example =
    fix_up-entries addresses (in_heap some_globals) 50 some_entries some_globals-IsDictionary
      (tt, tt) (ref 54) (small (pos 1)) (small (pos 2)) (ref 50) (ref 53) [] (unset [])
      some_entries_there some_fields (omega arith)
