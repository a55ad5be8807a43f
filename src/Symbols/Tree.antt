-- ===== src/Symbols/Tree.antt =====
-- `symbolTreeInsert` and `fixSymbols` of bootstrap/bootstrap.c. A node has a symbol and two subtrees;
-- `nilObject` is the empty tree.
use littlesmalltalk.Prelude.{
  ◌≡◌, ◌↔◌, ◌⊎◌, inl, inr, List, [], ◌∷◌, if◌then◌else◌, Bool-cases, arith,
}
use littlesmalltalk.Prelude.Int.{is_neg}
use littlesmalltalk.Symbols.{Bytes, symbol_cmp}
use littlesmalltalk.Symbols.Order.{Before, symbol_cmp-Decides}

pub data SymbolTree : Type 0 where
  nil : SymbolTree
  node : (value : Bytes) (left right : SymbolTree) → SymbolTree

unfoldable pub symbol_tree_insert : SymbolTree → Bytes → SymbolTree
symbol_tree_insert nil symbol = node symbol nil nil
symbol_tree_insert (node value left right) symbol =
    let in_left = node value (symbol_tree_insert left symbol) right in
    let in_right = node value left (symbol_tree_insert right symbol) in
    if is_neg (symbol_cmp symbol value) then in_left else in_right

-- `for (i = 0; i < symbolTop; i++)`
insert_symbols : SymbolTree → List Bytes → SymbolTree
insert_symbols tree [] = tree
insert_symbols tree (s ∷ ss) = insert_symbols (symbol_tree_insert tree s) ss

unfoldable pub fix_symbols : List Bytes → SymbolTree
unfolding insert_symbols
fix_symbols old_symbols = insert_symbols nil old_symbols

-- A symbol is somewhere in a tree, or in a list.
abbrev pub InTree : Bytes → SymbolTree → Type 0
InTree s nil = ⊥
InTree s (node value left right) = (value ≡ s) ⊎ (InTree s left ⊎ InTree s right)

abbrev pub InList : Bytes → List Bytes → Type 0
InList s [] = ⊥
InList s (x ∷ xs) = (x ≡ s) ⊎ InList s xs

abbrev pub AllBefore : Bytes → SymbolTree → Type 0
AllBefore bound nil = Unit
AllBefore bound (node value left right) =
    Before value bound × AllBefore bound left × AllBefore bound right

-- None stands before the bound.
abbrev pub NoneBefore : Bytes → SymbolTree → Type 0
NoneBefore bound nil = Unit
NoneBefore bound (node value left right) =
    (¬ Before value bound) × NoneBefore bound left × NoneBefore bound right

-- To the left is what stands before the symbol of a node, to the right what does not.
abbrev pub IsSearchTree : SymbolTree → Type 0
IsSearchTree nil = Unit
IsSearchTree (node value left right) =
    AllBefore value left × NoneBefore value right × IsSearchTree left × IsSearchTree right

insert-AllBefore :
    (t : SymbolTree) (s bound : Bytes)
    → AllBefore bound t
    → Before s bound
    → AllBefore bound (symbol_tree_insert t s)
unfolding symbol_tree_insert
insert-AllBefore nil s bound h b = (b, tt, tt)
insert-AllBefore (node v l r) s bound (hv, hl, hr) b = elim (Bool-cases (is_neg (symbol_cmp s v))) [
  | inl less ↦ rw less (hv, insert-AllBefore l s bound hl b, hr)
  | inr more ↦ rw more (hv, hl, insert-AllBefore r s bound hr b)
]

insert-NoneBefore :
    (t : SymbolTree) (s bound : Bytes)
    → NoneBefore bound t
    → ¬ Before s bound
    → NoneBefore bound (symbol_tree_insert t s)
unfolding symbol_tree_insert
insert-NoneBefore nil s bound h b = (b, tt, tt)
insert-NoneBefore (node v l r) s bound (hv, hl, hr) b =
    elim (Bool-cases (is_neg (symbol_cmp s v))) [
      | inl less ↦ rw less (hv, insert-NoneBefore l s bound hl b, hr)
      | inr more ↦ rw more (hv, hl, insert-NoneBefore r s bound hr b)
    ]

-- An insertion keeps a search tree one.
pub symbol_tree_insert-IsSearchTree :
    (t : SymbolTree) (s : Bytes) → IsSearchTree t → IsSearchTree (symbol_tree_insert t s)
unfolding symbol_tree_insert
symbol_tree_insert-IsSearchTree nil s h = (tt, tt, tt, tt)
symbol_tree_insert-IsSearchTree (node v l r) s (hl, hr, tl, tr) =
    elim (Bool-cases (is_neg (symbol_cmp s v))) [
      | inl less ↦ rw less (
        insert-AllBefore l s v hl ((symbol_cmp-Decides s v).0.0 less),
        hr,
        symbol_tree_insert-IsSearchTree l s tl,
        tr,
      )
      | inr more ↦ rw more (
        hl,
        insert-NoneBefore r s v hr (λ b. let t = (symbol_cmp-Decides s v).0.1 b in cc),
        tl,
        symbol_tree_insert-IsSearchTree r s tr,
      )
    ]

-- It adds the symbol and nothing else.
insert-InTree :
    (t : SymbolTree) (s x : Bytes) → InTree x (symbol_tree_insert t s) ↔ ((s ≡ x) ⊎ InTree x t)
unfolding symbol_tree_insert
insert-InTree nil s x = ground arith
insert-InTree (node v l r) s x = elim (Bool-cases (is_neg (symbol_cmp s v))) [
  | inl less ↦ rw less (ground (arith, insert-InTree l s x))
  | inr more ↦ rw more (ground (arith, insert-InTree r s x))
]

insert_symbols-IsSearchTree :
    (ss : List Bytes) (t : SymbolTree) (x : Bytes)
    → IsSearchTree t
    → IsSearchTree (insert_symbols t ss)
      × (InTree x (insert_symbols t ss) ↔ (InTree x t ⊎ InList x ss))
unfolding insert_symbols
insert_symbols-IsSearchTree [] t x h = (h, ground arith)
insert_symbols-IsSearchTree (s ∷ ss) t x h =
    let (tree, members) =
      insert_symbols-IsSearchTree ss (symbol_tree_insert t s) x
        (symbol_tree_insert-IsSearchTree t s h) in
    (tree, ground (arith, members, insert-InTree t s x))

-- `fixSymbols` builds a search tree for the order of symbols, and it has exactly the symbols of the
-- bootstrap.
pub fix_symbols-IsSearchTree :
    (ss : List Bytes) (x : Bytes)
    → IsSearchTree (fix_symbols ss) × (InTree x (fix_symbols ss) ↔ InList x ss)
unfolding fix_symbols
fix_symbols-IsSearchTree ss x =
    let (tree, members) = insert_symbols-IsSearchTree ss nil x tt in (tree, ground (arith, members))
