-- ===== src/Methods/Tests.antt =====
-- A class with one method below a class with another.
use littlesmalltalk.Prelude.{
  ℕ, zero, suc, ◌≡◌, ◌≢◌, refl, ap, ◌∙◌, [], ◌∷◌, none, some, get_elem?, ◌==◌, if◌then◌else◌, arith,
}
use littlesmalltalk.Prelude.Result.{ok}
use littlesmalltalk.Symbols.{Bytes}
use littlesmalltalk.Dictionary.Entries.{Entries, bytes_eq, entry}
use littlesmalltalk.Methods.{Class, View, lookup_method, MethodCache}
use littlesmalltalk.Methods.Inherited.{Holds, Chain, up, top, inherited, lookup_method-inherited}
use littlesmalltalk.Methods.Cache.{IsCoherent, Looked, check_cache-lookup_method}

abbrev symbol_bytes : ℕ → Bytes
symbol_bytes a = if a == 10 then 1 ∷ [] else if a == 11 then 2 ∷ [] else 3 ∷ []

abbrev lower_class : Class
lower_class = record { parent = 6; method_keys = 10 ∷ []; method_vals = 100 ∷ [] }

abbrev upper_class : Class
upper_class = record { parent = 1; method_keys = 11 ∷ []; method_vals = 101 ∷ [] }

abbrev two_classes : View
two_classes = record {
  bytes_of = symbol_bytes;
  class_at = λ c. if c == 5 then some lower_class else if c == 6 then some upper_class else none;
  nil_object = 1;
}

abbrev lower_entries : Entries ℕ
lower_entries = (1 ∷ [], 100) ∷ []

abbrev upper_entries : Entries ℕ
upper_entries = (2 ∷ [], 101) ∷ []

-- Symbols with other bytes are never taken for the selector.
only_key :
    (k selector : ℕ)
    → symbol_bytes k ≢ symbol_bytes selector
    → (j key : ℕ) → get_elem? {A = ℕ} (k ∷ []) j ≡ some key
    → symbol_bytes key ≡ symbol_bytes selector
    → key ≡ selector
only_key k selector other zero key e same =
    (let k_key : k ≡ key = cc in absurd (other (ap symbol_bytes k_key ∙ same)))
only_key k selector other (suc j) key e same = cc

own_key :
    (j key : ℕ)
    → get_elem? {A = ℕ} (11 ∷ []) j ≡ some key
    → symbol_bytes key ≡ symbol_bytes 11
    → key ≡ 11
own_key zero key e same = ground arith
own_key (suc j) key e same = cc

module _ (selector : ℕ) where
  lower-Holds :
      symbol_bytes 10 ≢ symbol_bytes selector → Holds two_classes selector lower_class lower_entries
  lower-Holds other = record {
    key_bytes = refl;
    values = refl;
    ordered = (tt, tt);
    interned = only_key 10 selector other;
  }

upper-Holds : Holds two_classes 11 upper_class upper_entries
upper-Holds = record { key_bytes = refl; values = refl; ordered = (tt, tt); interned = own_key }

upper-Holds_other : Holds two_classes 12 upper_class upper_entries
upper-Holds_other = record {
  key_bytes = refl;
  values = refl;
  ordered = (tt, tt);
  interned = only_key 11 12 (λ e. cc);
}

two_classes-Chain : Chain two_classes 11 5 (lower_entries ∷ upper_entries ∷ [])
two_classes-Chain =
    up (λ e. omega arith) refl (lower-Holds 11 (λ e. cc))
      (up (λ e. omega arith) refl upper-Holds (top refl))

two_classes-Chain_other : Chain two_classes 12 5 (lower_entries ∷ upper_entries ∷ [])
two_classes-Chain_other =
    up (λ e. omega arith) refl (lower-Holds 12 (λ e. cc))
      (up (λ e. omega arith) refl upper-Holds_other (top refl))

-- The method of the upper class is found from the lower one.
lookup_method-inherited_example : lookup_method two_classes 3 11 5 ≡ ok (some 101)
unfolding inherited entry bytes_eq
lookup_method-inherited_example =
    lookup_method-inherited two_classes 3 11 (λ e. omega arith) (λ e. omega arith)
      (λ e. omega arith) two_classes-Chain (omega arith)

abbrev empty_cache : MethodCache
empty_cache = record {
  entries = λ i. record { name = 0; class_ = 0; method = 0 };
  cache_hit = 0;
  cache_miss = 0;
}

empty_cache-IsCoherent : IsCoherent two_classes 3 empty_cache
empty_cache-IsCoherent i used = absurd (used refl)

check_cache-lookup_method_example : Looked two_classes 3 empty_cache 11 5 (some 101)
check_cache-lookup_method_example =
    check_cache-lookup_method two_classes 3 empty_cache 11 5 (some 101) empty_cache-IsCoherent
      (λ e. omega arith) lookup_method-inherited_example
