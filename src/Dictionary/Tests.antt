-- ===== src/Dictionary/Tests.antt =====
-- Dictionaries on concrete entries.
use littlesmalltalk.Prelude.{ℕ, ◌≡◌, refl, [], ◌∷◌, none, some, inl, arith}
use littlesmalltalk.Prelude.Result.{ok, error}
use littlesmalltalk.Symbols.{Bytes}
use littlesmalltalk.Dictionary.{dict_lookup, dictionary_insert}
use littlesmalltalk.Dictionary.Entries.{Entries, keys_of, vals_of, entry, IsOrdered, bytes_eq}
use littlesmalltalk.Dictionary.Lookup.{dict_lookup-entry}
use littlesmalltalk.Dictionary.Insert.{
  Inserted, dictionary_insert-dict_lookup, dictionary_insert-duplicate,
}

abbrev add_name : Bytes
add_name = b'a' ∷ b'd' ∷ b'd' ∷ []

abbrev at_name : Bytes
at_name = b'a' ∷ b't' ∷ []

abbrev size_name : Bytes
size_name = b's' ∷ b'i' ∷ []

abbrev two_entries : Entries ℕ
two_entries = (add_name, 1) ∷ (size_name, 2) ∷ []

two_entries-IsOrdered : IsOrdered two_entries
two_entries-IsOrdered = ((inl (omega arith), tt), (tt, tt))

dict_lookup-entry_example :
    dict_lookup (keys_of two_entries) (vals_of two_entries) size_name ≡ ok (some 2)
unfolding entry bytes_eq
dict_lookup-entry_example = dict_lookup-entry two_entries size_name two_entries-IsOrdered

at_absent : entry at_name two_entries ≡ none
unfolding entry bytes_eq
at_absent = refl

dictionary_insert-dict_lookup_example : (es' : Entries ℕ) × Inserted two_entries at_name 5 es'
dictionary_insert-dict_lookup_example =
    dictionary_insert-dict_lookup two_entries at_name 5 two_entries-IsOrdered at_absent

add_there : entry add_name two_entries ≡ some 1
unfolding entry bytes_eq
add_there = refl

dictionary_insert-duplicate_example :
    dictionary_insert (keys_of two_entries) (vals_of two_entries) add_name 7 ≡ error
dictionary_insert-duplicate_example =
    dictionary_insert-duplicate two_entries add_name 7 1 two_entries-IsOrdered add_there
