-- ===== src/Image/Files.antt =====
-- `fileIn` and `fileOut` of vm/image.c: how an image file sets the variables of the virtual machine.
-- Versions 0 and 1 hold the objects of the variables one after the other, version 3 holds the
-- dictionary of globals alone, where the others are looked up with `lookupGlobal` (vm/globals.c).
-- Version 2 is a dump of the memory; its reader is a parameter.
pub mod Lookup
pub mod Copies
pub mod RoundTrip
pub mod Versions
pub mod FixUp
pub mod Tests
use littlesmalltalk.Prelude.{
  ℕ, zero, suc, ◌+◌, ◌/◌, List, [], ◌∷◌, ◌++◌, Option, none, some, ◌==◌, ltb, if◌then◌else◌, length,
  get_elem?,
}
use littlesmalltalk.Prelude.Result.{Result, ok, error, fault, out_of_fuel, ◌>>=◌, access}
use littlesmalltalk.Symbols.{Bytes, strsymcomp}
use littlesmalltalk.Dictionary.{here, before, after, probe_of}
use littlesmalltalk.Memory.StaticRoots.{add_static_root}
use littlesmalltalk.Image.Header.{get_image_version, put_image_version}
use littlesmalltalk.Image.Graph.{
  Oop, null, small, ref, fields, bytes, Object, Heap, write_object, Reading, read_object, read_all,
}

-- The variables of the virtual machine that hold objects (vm/globals.c).
pub data Variable : Type 0 where
  nil_object true_object false_object globals_object initial_method bad_method_sym : Variable
  small_int_class integer_class array_class block_class byte_array_class context_class : Variable
  dictionary_class string_class symbol_class undefined_class : Variable
  binary_message : ℕ → Variable

-- The assignments made, the latest first, and the addresses in `staticRoots`.
pub record Vm : Type 0 where
  pub values : List (Variable × Oop)
  pub roots : List ℕ

-- What a pointer points to.
abbrev pub View : Type 0
View = Oop → Option Object

abbrev pub in_heap : Heap → View
in_heap heap null = none
in_heap heap (small v) = none
in_heap heap (ref a) = heap a

abbrev pub in_objects : List Object → View
in_objects objs null = none
in_objects objs (small v) = none
in_objects objs (ref i) = get_elem? objs i

unfoldable pub fields_of : View → Oop → Result (List Oop)
fields_of view o = access (view o) >>= λ obj. elim obj.body [ fields os ↦ ok os | bytes bs ↦ fault ]

unfoldable pub bytes_of : View → Oop → Result Bytes
bytes_of view o = access (view o) >>= λ obj. elim obj.body [ fields os ↦ fault | bytes bs ↦ ok bs ]

-- `o->data[i]`
unfoldable pub field_of : View → Oop → ℕ → Result Oop
field_of view o i = fields_of view o >>= λ os. access (get_elem? os i)

-- `vals = dict->data[valuesInDictionary]; return vals->data[mid];`
unfoldable pub value_at : View → Oop → ℕ → Result Oop
value_at view dict mid = field_of view dict 1 >>= λ vals. field_of view vals mid

-- The loop of `dictLookup`, on the objects.
unfoldable pub lookup_loop : View → Oop → Bytes → List Oop → ℕ → ℕ → ℕ → Result Oop
lookup_loop view dict name keys zero low high = out_of_fuel
lookup_loop view dict name keys (suc fuel) low high =
    let mid = (low + high) / 2 in
    let down = lookup_loop view dict name keys fuel low mid in
    let up = lookup_loop view dict name keys fuel (mid + 1) high in
    let round =
      (access (get_elem? keys mid) >>= λ key. bytes_of view key >>= λ bs.
      elim (probe_of (strsymcomp name bs)) [
        | here ↦ value_at view dict mid
        | before ↦ down
        | after ↦ up
      ]) in
    if ltb low high then round else ok null

unfoldable pub lookup_keys : View → Oop → Bytes → Result Oop
lookup_keys view dict name = field_of view dict 0 >>= λ keys.
    fields_of view keys >>= λ ks. lookup_loop view dict name ks (suc (length ks)) 0 (length ks)

-- `lookupGlobal(name)`, where `globals` is what `globalsObject` holds.
unfoldable pub lookup_global : View → Oop → Bytes → Result Oop
lookup_global view null name = error
lookup_global view globals name = lookup_keys view globals name

-- `indirtop`, the objects that `gcalloc` has made, and the variables.
pub record Loaded : Type 0 where
  pub indirtop : ℕ
  pub objects : List Object
  pub vm : Vm

abbrev pub loaded : List Object → Vm → Loaded
loaded objs vm = record { indirtop = length objs; objects = objs; vm = vm }

abbrev pub special_symbols : Bytes
special_symbols =
    b's' ∷ b'p' ∷ b'e' ∷ b'c' ∷ b'i' ∷ b'a' ∷ b'l' ∷ b'S' ∷ b'y' ∷ b'm' ∷ b'b' ∷ b'o' ∷ b'l' ∷ b's'
    ∷ []

-- The variables set from the special symbols.
abbrev pub symbol_variables : List Variable
symbol_variables = binary_message 0 ∷ binary_message 1 ∷ binary_message 2 ∷ bad_method_sym ∷ []

-- The variables set from globals.
abbrev pub global_variables : List (Variable × Bytes)
global_variables =
    (nil_object, b'n' ∷ b'i' ∷ b'l' ∷ [])
    ∷ (true_object, b't' ∷ b'r' ∷ b'u' ∷ b'e' ∷ [])
    ∷ (false_object, b'f' ∷ b'a' ∷ b'l' ∷ b's' ∷ b'e' ∷ [])
    ∷ (array_class, b'A' ∷ b'r' ∷ b'r' ∷ b'a' ∷ b'y' ∷ [])
    ∷ (block_class, b'B' ∷ b'l' ∷ b'o' ∷ b'c' ∷ b'k' ∷ [])
    ∷ (byte_array_class, b'B' ∷ b'y' ∷ b't' ∷ b'e' ∷ b'A' ∷ b'r' ∷ b'r' ∷ b'a' ∷ b'y' ∷ [])
    ∷ (context_class, b'C' ∷ b'o' ∷ b'n' ∷ b't' ∷ b'e' ∷ b'x' ∷ b't' ∷ [])
    ∷ (dictionary_class, b'D' ∷ b'i' ∷ b'c' ∷ b't' ∷ b'i' ∷ b'o' ∷ b'n' ∷ b'a' ∷ b'r' ∷ b'y' ∷ [])
    ∷ (integer_class, b'I' ∷ b'n' ∷ b't' ∷ b'e' ∷ b'g' ∷ b'e' ∷ b'r' ∷ [])
    ∷ (small_int_class, b'S' ∷ b'm' ∷ b'a' ∷ b'l' ∷ b'l' ∷ b'I' ∷ b'n' ∷ b't' ∷ [])
    ∷ (string_class, b'S' ∷ b't' ∷ b'r' ∷ b'i' ∷ b'n' ∷ b'g' ∷ [])
    ∷ (symbol_class, b'S' ∷ b'y' ∷ b'm' ∷ b'b' ∷ b'o' ∷ b'l' ∷ [])
    ∷ (undefined_class, b'U' ∷ b'n' ∷ b'd' ∷ b'e' ∷ b'f' ∷ b'i' ∷ b'n' ∷ b'e' ∷ b'd' ∷ [])
    ∷ []

-- The variables that a version 0 image holds, and those that a version 1 image
-- holds behind globals.
abbrev pub version_0_variables : List Variable
version_0_variables =
    nil_object
    ∷ true_object
    ∷ false_object
    ∷ globals_object
    ∷ small_int_class
    ∷ integer_class
    ∷ array_class
    ∷ block_class
    ∷ context_class
    ∷ initial_method
    ∷ binary_message 0
    ∷ binary_message 1
    ∷ binary_message 2
    ∷ bad_method_sym
    ∷ []

abbrev pub version_1_variables : List Variable
version_1_variables =
    initial_method ∷ binary_message 0 ∷ binary_message 1 ∷ binary_message 2 ∷ bad_method_sym ∷ []

-- `address v` is `&v`.
module _ (address : Variable → ℕ) where
  -- `v = o; addStaticRoot(&v);`
  unfoldable pub assign_root : Variable → Oop → Vm → Result Vm
  assign_root v o vm = add_static_root (address v) vm.roots >>= λ roots.
      ok (record { values = (v, o) ∷ vm.values; roots = roots })

  -- `v = specialSymbols->data[i];` for one variable after the other.
  unfoldable pub fix_symbols : View → Oop → ℕ → List Variable → Vm → Result Vm
  fix_symbols view symbols i [] vm = ok vm
  fix_symbols view symbols i (v ∷ vs) vm = field_of view symbols i >>= λ o.
      assign_root v o vm >>= λ vm'. fix_symbols view symbols (i + 1) vs vm'

  -- `v = lookupGlobal(name);` for one variable after the other.
  unfoldable pub fix_globals : View → Oop → List (Variable × Bytes) → Vm → Result Vm
  fix_globals view globals [] vm = ok vm
  fix_globals view globals ((v, name) ∷ vs) vm = lookup_global view globals name >>= λ o.
      assign_root v o vm >>= λ vm'. fix_globals view globals vs vm'

  -- `v = objectRead(fp); addStaticRoot(&v);` for one variable after the other.
  unfoldable pub read_roots : (fuel : ℕ) → List Variable → Reading → Vm → Result (Reading × Vm)
  read_roots fuel [] s vm = ok (s, vm)
  read_roots fuel (v ∷ vs) s vm =
      read_object fuel s >>= λ (o, s'). assign_root v o vm >>= λ vm'. read_roots fuel vs s' vm'

  -- All that follows the reading of globals in a version 3 image.
  unfoldable pub fix_up : View → Oop → Vm → Result Vm
  fix_up view globals vm = assign_root globals_object globals vm >>= λ vm₁.
      lookup_global view globals special_symbols >>= λ symbols.
      fix_symbols view symbols 0 symbol_variables vm₁ >>= λ vm₂.
      fix_globals view globals global_variables vm₂

  unfoldable pub file_in_version_0 : (fuel : ℕ) → List ℕ → Vm → Result Loaded
  file_in_version_0 fuel input vm =
      read_roots fuel version_0_variables (record { objects = []; input = input }) vm
      >>= λ (s, vm'). ok (loaded s.objects vm')

  -- `globalsObject` is the first object of the file.
  unfoldable pub file_in_version_1 : (fuel : ℕ) → List ℕ → Vm → Result Loaded
  file_in_version_1 fuel input vm =
      read_object fuel (record { objects = []; input = input }) >>= λ (globals, s).
      assign_root globals_object globals vm >>= λ vm₁.
      read_roots fuel (version_1_variables) s vm₁ >>= λ (s', vm₂).
      fix_globals (in_objects s'.objects) globals global_variables vm₂ >>= λ vm₃.
      ok (loaded s'.objects vm₃)

  unfoldable pub file_in_version_3 : (fuel : ℕ) → List ℕ → Vm → Result Loaded
  file_in_version_3 fuel input vm =
      read_object fuel (record { objects = []; input = input }) >>= λ (globals, s).
      fix_up (in_objects s.objects) globals vm >>= λ vm'. ok (loaded s.objects vm')

  unfoldable pub file_in :
      (file_in_version_2 : List ℕ → Vm → Result Loaded) → (fuel : ℕ) → List ℕ → Vm → Result Loaded
  file_in file_in_version_2 fuel file vm = get_image_version file >>= λ (version, input).
      if version == 0
      then file_in_version_0 fuel input vm
      else if version == 1
      then file_in_version_1 fuel input vm
      else if version == 2
      then file_in_version_2 input vm
      else if version == 3
      then file_in_version_3 fuel input vm
      else error

-- `fileOut_object_version_3`: `indirtop`, and the file.
unfoldable pub file_out : (capacity : ℕ) → Heap → (fuel : ℕ) → Oop → Result (ℕ × List ℕ)
file_out capacity heap fuel globals = write_object capacity heap fuel globals [] >>= λ (indir, out).
    ok (length indir, put_image_version 3 ++ out)
