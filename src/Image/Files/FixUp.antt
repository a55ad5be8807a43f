-- ===== src/Image/Files/FixUp.antt =====
-- What `fileIn_version_3` of vm/image.c sets the variables to, by the entries of the dictionary of globals.
use native.Mathlib.Nat.{zero-add}
use littlesmalltalk.Prelude.{
  ℕ, suc, ◌+◌, ◌<◌, ◌≤◌, ◌≡◌, refl, ap, ◌∙◌, Bool-cases, inl, inr, List, [], ◌∷◌, ◌++◌, some,
  length, get_elem?, length-append, leb, false, arith,
}
use littlesmalltalk.Prelude.Result.{Result, ok}
use littlesmalltalk.Symbols.{Bytes}
use littlesmalltalk.Memory.StaticRoots.{add_static_root, is_root, static_root_limit}
use littlesmalltalk.Dictionary.Entries.{Entries, entry, IsOrdered}
use littlesmalltalk.Image.Graph.{Oop, ref}
use littlesmalltalk.Image.Files.{
  Variable, Vm, View, fields_of, field_of, assign_root, fix_symbols, fix_globals, fix_up,
  nil_object, true_object, false_object, array_class, block_class, byte_array_class, context_class,
  dictionary_class, integer_class, small_int_class, string_class, symbol_class, undefined_class,
  bad_method_sym, binary_message, globals_object, special_symbols, symbol_variables,
  global_variables,
}
use littlesmalltalk.Image.Files.Lookup.{IsDictionary, or_null, lookup_global-entry}

-- One assignment after the other, each of the entry with the name.
abbrev pub set_entries :
    Entries Oop → List (Variable × Bytes) → List (Variable × Oop) → List (Variable × Oop)
set_entries es [] values = values
set_entries es ((v, name) ∷ vs) values = set_entries es vs ((v, or_null (entry name es)) ∷ values)

-- One variable after the other is set to one field after the other.
abbrev pub set_fields : List Variable → List Oop → List (Variable × Oop) → List (Variable × Oop)
set_fields [] os values = values
set_fields (v ∷ vs) [] values = values
set_fields (v ∷ vs) (o ∷ os) values = set_fields vs os ((v, o) ∷ values)

-- A table with room takes an address.
add_static_root-room :
    (objp : ℕ) (roots : List ℕ)
    → length roots < static_root_limit
    → (roots' : List ℕ) × (add_static_root objp roots ≡ ok roots')
      × (length roots' ≤ length roots + 1)
unfolding add_static_root
add_static_root-room objp roots room = elim (Bool-cases (is_root objp roots)) [
  | inl there ↦ (roots, rw there refl, omega arith)
  | inr new ↦
      let below : leb static_root_limit (length roots) ≡ false = ground arith in
      (roots ++ objp ∷ [], rw (new, below) refl, omega (arith, length-append roots (objp ∷ [])))
]

module _ (address : Variable → ℕ) where
  -- The variable has the object, and `staticRoots` at most one address more.
  record Assigned (values : List (Variable × Oop)) (roots : List ℕ) (n : ℕ) (r : Result Vm)
      : Type 0 where
    vm' : Vm
    returns : r ≡ ok vm'
    sets : vm'.values ≡ values
    room : length vm'.roots ≤ length roots + n

  assign_root-Assigned :
      (v : Variable) (o : Oop) (vm : Vm)
      → length vm.roots < static_root_limit
      → Assigned ((v, o) ∷ vm.values) vm.roots 1 (assign_root address v o vm)
  unfolding assign_root
  assign_root-Assigned v o vm h =
      let (roots', added, few) = add_static_root-room (address v) vm.roots h in
      record {
        vm' = record { values = (v, o) ∷ vm.values; roots = roots' };
        returns = rw added refl;
        sets = refl;
        room = few;
      }

  module _ (view : View) (globals : ℕ) (es : Entries Oop) (d : IsDictionary view (ref globals) es)
      (ordered : IsOrdered es) where
    fix_globals-Assigned :
        (vs : List (Variable × Bytes)) (vm : Vm)
        → length vm.roots + length vs ≤ static_root_limit
        → Assigned
            (set_entries es vs vm.values)
            vm.roots
            (length vs)
            (fix_globals address view (ref globals) vs vm)
    unfolding fix_globals
    fix_globals-Assigned [] vm h = record {
      vm' = vm;
      returns = refl;
      sets = refl;
      room = omega arith;
    }
    fix_globals-Assigned ((v, name) ∷ vs) vm h =
        let looked = lookup_global-entry view globals es name d ordered in
        let first = assign_root-Assigned v (or_null (entry name es)) vm (omega arith) in
        let rest = fix_globals-Assigned vs first.vm' (omega (arith, first.room)) in
        record {
          vm' = rest.vm';
          returns = rw (looked, first.returns, rest.returns) refl;
          sets = rest.sets ∙ ap (set_entries es vs) first.sets;
          room = omega (arith, first.room, rest.room);
        }

    fix_symbols-Assigned :
        (symbols : Oop) (os : List Oop)
        → fields_of view symbols ≡ ok os
        → (i : ℕ) (vs : List Variable) (os' : List Oop) (vm : Vm)
        → ((j : ℕ) → get_elem? os (i + j) ≡ get_elem? os' j)
        → length vs ≤ length os'
        → length vm.roots + length vs ≤ static_root_limit
        → Assigned
            (set_fields vs os' vm.values)
            vm.roots
            (length vs)
            (fix_symbols address view symbols i vs vm)
    unfolding fix_symbols field_of
    fix_symbols-Assigned symbols os array i [] os' vm same enough h = record {
      vm' = vm;
      returns = refl;
      sets = refl;
      room = omega arith;
    }
    fix_symbols-Assigned symbols os array i (v ∷ vs) [] vm same enough h = absurd (omega arith)
    fix_symbols-Assigned symbols os array i (v ∷ vs) (o ∷ os') vm same enough h =
        let here : get_elem? os i ≡ some o =
          (let at_i : i + 0 ≡ i = omega arith in rw at_i at (same 0)) in
        let first = assign_root-Assigned v o vm (omega arith) in
        let further : (j : ℕ) → get_elem? os (i + 1 + j) ≡ get_elem? os' j =
          λ j. (let moved_on : i + 1 + j ≡ i + suc j = omega arith in rw moved_on (same (suc j))) in
        let rest =
          fix_symbols-Assigned symbols os array (i + 1) vs os' first.vm' further (omega arith)
            (omega (arith, first.room)) in
        record {
          vm' = rest.vm';
          returns = rw (array, here, first.returns, rest.returns) refl;
          sets = rest.sets ∙ ap (set_fields vs os') first.sets;
          room = omega (arith, first.room, rest.room);
        }

    -- One list of the variables after the other, by the tables of names.
    fix_up-tables :
        (symbols : Oop) (os : List Oop) (vm : Vm)
        → entry special_symbols es ≡ some symbols
        → fields_of view symbols ≡ ok os
        → 4 ≤ length os
        → length vm.roots + 18 ≤ static_root_limit
        → (vm' : Vm) × (fix_up address view (ref globals) vm ≡ ok vm')
          × (vm'.values
              ≡ set_entries es global_variables
                  (set_fields symbol_variables os ((globals_object, ref globals) ∷ vm.values)))
          × (length vm'.roots ≤ length vm.roots + 18)
    unfolding fix_up
    fix_up-tables symbols os vm there array four h =
        let looked = lookup_global-entry view globals es special_symbols d ordered in
        let first = assign_root-Assigned globals_object (ref globals) vm (omega arith) in
        let second =
          fix_symbols-Assigned symbols os array 0 symbol_variables os first.vm'
            (λ j. rw (zero-add j) refl) four (omega (arith, first.room)) in
        let third =
          fix_globals-Assigned global_variables second.vm'
            (omega (arith, first.room, second.room)) in
        (
          third.vm',
          rw (first.returns, looked, there, second.returns, third.returns) refl,
          third.sets
              ∙ ap (set_entries es global_variables)
                  (second.sets ∙ ap (set_fields symbol_variables os) first.sets),
          omega (arith, first.room, second.room, third.room),
        )

    -- Where the globals are an ordered dictionary, its entry `specialSymbols` is an array of four fields or
    -- more, and `staticRoots` has room for 18 addresses, what `fileIn_version_3` does after reading
    -- returns, and it has set `globalsObject` to the globals, the three binary messages and `badMethodSym`
    -- to the first four special symbols in this order, and then each of `nilObject`, `trueObject`,
    -- `falseObject` and the ten classes to the value beside its own name in the globals, NULL where there
    -- is none.
    pub fix_up-entries :
        (symbols message_0 message_1 message_2 bad_method : Oop) (os : List Oop) (vm : Vm)
        → entry
            (b's' ∷ b'p' ∷ b'e' ∷ b'c' ∷ b'i' ∷ b'a' ∷ b'l' ∷ b'S' ∷ b'y' ∷ b'm' ∷ b'b' ∷ b'o'
              ∷ b'l' ∷ b's' ∷ [])
            es
          ≡ some symbols
        → fields_of view symbols ≡ ok (message_0 ∷ message_1 ∷ message_2 ∷ bad_method ∷ os)
        → length vm.roots + 18 ≤ static_root_limit
        → (vm' : Vm) × (fix_up address view (ref globals) vm ≡ ok vm')
          × (vm'.values ≡ (
              (
                undefined_class,
                or_null
                    (entry (b'U' ∷ b'n' ∷ b'd' ∷ b'e' ∷ b'f' ∷ b'i' ∷ b'n' ∷ b'e' ∷ b'd' ∷ []) es),
              )
              ∷ (symbol_class, or_null (entry (b'S' ∷ b'y' ∷ b'm' ∷ b'b' ∷ b'o' ∷ b'l' ∷ []) es))
              ∷ (string_class, or_null (entry (b'S' ∷ b't' ∷ b'r' ∷ b'i' ∷ b'n' ∷ b'g' ∷ []) es))
              ∷ (
                small_int_class,
                or_null (entry (b'S' ∷ b'm' ∷ b'a' ∷ b'l' ∷ b'l' ∷ b'I' ∷ b'n' ∷ b't' ∷ []) es),
              )
              ∷ (
                integer_class,
                or_null (entry (b'I' ∷ b'n' ∷ b't' ∷ b'e' ∷ b'g' ∷ b'e' ∷ b'r' ∷ []) es),
              )
              ∷ (
                dictionary_class,
                or_null (
                    entry
                      (b'D' ∷ b'i' ∷ b'c' ∷ b't' ∷ b'i' ∷ b'o' ∷ b'n' ∷ b'a' ∷ b'r' ∷ b'y' ∷ [])
                      es),
              )
              ∷ (
                context_class,
                or_null (entry (b'C' ∷ b'o' ∷ b'n' ∷ b't' ∷ b'e' ∷ b'x' ∷ b't' ∷ []) es),
              )
              ∷ (
                byte_array_class,
                or_null
                    (entry (b'B' ∷ b'y' ∷ b't' ∷ b'e' ∷ b'A' ∷ b'r' ∷ b'r' ∷ b'a' ∷ b'y' ∷ []) es),
              )
              ∷ (block_class, or_null (entry (b'B' ∷ b'l' ∷ b'o' ∷ b'c' ∷ b'k' ∷ []) es))
              ∷ (array_class, or_null (entry (b'A' ∷ b'r' ∷ b'r' ∷ b'a' ∷ b'y' ∷ []) es))
              ∷ (false_object, or_null (entry (b'f' ∷ b'a' ∷ b'l' ∷ b's' ∷ b'e' ∷ []) es))
              ∷ (true_object, or_null (entry (b't' ∷ b'r' ∷ b'u' ∷ b'e' ∷ []) es))
              ∷ (nil_object, or_null (entry (b'n' ∷ b'i' ∷ b'l' ∷ []) es))
              ∷ (bad_method_sym, bad_method)
              ∷ (binary_message 2, message_2)
              ∷ (binary_message 1, message_1)
              ∷ (binary_message 0, message_0)
              ∷ (globals_object, ref globals)
              ∷ vm.values))
          × (length vm'.roots ≤ length vm.roots + 18)
    fix_up-entries symbols message_0 message_1 message_2 bad_method os vm there array h =
        fix_up-tables symbols (message_0 ∷ message_1 ∷ message_2 ∷ bad_method ∷ os) vm there array
          (omega arith) h
