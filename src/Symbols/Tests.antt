-- ===== src/Symbols/Tests.antt =====
-- Symbols on concrete texts.
use littlesmalltalk.Prelude.{ℕ, ◌≡◌, ◌↔◌, List, [], ◌∷◌, some, get_elem?, arith}
use littlesmalltalk.Prelude.Result.{ok}
use littlesmalltalk.Symbols.{Bytes, symbolcomp, strsymcomp, symbol_cmp}
use littlesmalltalk.Symbols.Order.{Decides, comparisons-Decide}
use littlesmalltalk.Symbols.Intern.{new_symbol, new_symbol-same_text}
use littlesmalltalk.Symbols.Tree.{
  fix_symbols, InTree, InList, IsSearchTree, fix_symbols-IsSearchTree,
}

abbrev add_name : Bytes
add_name = b'a' ∷ b'd' ∷ b'd' ∷ []

abbrev at_name : Bytes
at_name = b'a' ∷ b't' ∷ []

comparisons-Decide_example :
    Decides (symbolcomp add_name at_name) add_name at_name
    × Decides (strsymcomp add_name at_name) add_name at_name
    × Decides (symbol_cmp add_name at_name) add_name at_name
comparisons-Decide_example = comparisons-Decide add_name at_name

new_symbol-same_text_example :
    (i j : ℕ) × (ss' ss'' : List Bytes) × (new_symbol at_name (add_name ∷ []) ≡ ok (i, ss'))
    × (new_symbol add_name ss' ≡ ok (j, ss''))
    × (get_elem? ss'' i ≡ some at_name)
    × (get_elem? ss'' j ≡ some add_name)
    × ((i ≡ j) ↔ (at_name ≡ add_name))
new_symbol-same_text_example = new_symbol-same_text at_name add_name (add_name ∷ []) (omega arith)

fix_symbols-IsSearchTree_example :
    IsSearchTree (fix_symbols (at_name ∷ add_name ∷ []))
    × (InTree add_name (fix_symbols (at_name ∷ add_name ∷ []))
        ↔ InList add_name (at_name ∷ add_name ∷ []))
fix_symbols-IsSearchTree_example = fix_symbols-IsSearchTree (at_name ∷ add_name ∷ []) add_name
