-- ===== src/Bootstrap/Tests.antt =====
-- Scanning on concrete lines, and a table with one global.
use littlesmalltalk.Prelude.{
  ℕ, ◌<◌, ◌≡◌, ◌≢◌, ◌⊎◌, false, List, [], ◌∷◌, ◌++◌, none, some, length, arith,
}
use littlesmalltalk.Prelude.Result.{ok, fault}
use littlesmalltalk.Bootstrap.Globals.{
  Globals, max_globals, add_global_name, lookup_global_name, find_global, answer, first_added,
  add_global_name-lookup_global_name,
}
use littlesmalltalk.Bootstrap.ClassCommand.{
  padded, match_string, match_var_list, match_string-decides, match_var_list-drops_last,
}
use littlesmalltalk.Bootstrap.ClassCommand.Parse.{
  ClassNames, class_line, parse_class_command, parse_class_command-line,
}

abbrev one_global : Globals
one_global = (b'a' ∷ [], 8) ∷ []

add_global_name-lookup_global_name_example :
    (globals' : Globals) × (add_global_name (b'b' ∷ []) 16 one_global ≡ ok globals')
    × (length globals' < max_globals)
    × (lookup_global_name (b'b' ∷ []) false globals'
        ≡ answer false
            (first_added (b'b' ∷ []) 16 (b'b' ∷ []) (find_global (b'b' ∷ []) one_global)))
add_global_name-lookup_global_name_example =
    add_global_name-lookup_global_name (b'b' ∷ []) 16 (b'b' ∷ []) false one_global (omega arith)

abbrev ab : List ℕ
ab = b'a' ∷ b'b' ∷ []

match_string-decides_example :
    ((ab ≡ ab) × (match_string ab ab ≡ fault))
    ⊎ (((c : ℕ) × (rest : List ℕ) × (ab ≡ ab ++ c ∷ rest)
          × (match_string ab ab ≡ ok (some (c ∷ rest))))
        ⊎ (((rest : List ℕ) → ab ≢ ab ++ rest) × (match_string ab ab ≡ ok none)))
match_string-decides_example = match_string-decides ab ab

-- +A subclass: #B variables: #( x ) classVariables: #( )
abbrev names : ClassNames
names = record {
  superclass_name = b'A' ∷ [];
  inst_class_name = b'B' ∷ [];
  inst_vars = b'x' ∷ [];
  class_vars = [];
}

parse_class_command-line_example :
    parse_class_command (class_line (λ i. 0) names []) ≡ ok (some names)
parse_class_command-line_example =
    parse_class_command-line (λ i. 0) names [] ((λ e. omega arith), (λ e. omega arith), tt)
      ((λ e. omega arith), (λ e. omega arith), tt)
      ((λ e. omega arith), (λ e. omega arith), ((λ e. omega arith), tt)) tt

match_var_list-drops_last_example :
    match_var_list (padded 1 (b'#' ∷ (b'(' ∷ padded 1 ((b'a' ∷ ([] ++ b'b' ∷ [])) ++ b')' ∷ ab))))
    ≡ some (b'a' ∷ [], ab)
match_var_list-drops_last_example =
    match_var_list-drops_last 1 1 b'a' b'b' [] ab (λ e. omega arith) (λ e. omega arith)
      ((λ e. omega arith), tt)
