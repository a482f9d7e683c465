-- ===== src/Tree/Bst.antt =====
-- DataStructure/CPP/tree/BST.cpp: the unbalanced search tree of `int` values. A `Node*` that owns its
-- subtree is a value; `nullptr` is `leaf`.
pub mod Order
pub mod Items
pub mod Run
mod Examples
use dsalib.Core.{Bool, true, false, Option, none, some, List, [], ◌∷◌, ◌++◌, ℤ, lt_ℤ, ◌==ℤ◌}

-- `Node*`
pub data Tree : Type 0 where
  leaf : Tree
  node : Tree → ℤ → Tree → Tree

-- `insertHelper`: an equal value goes to the right.
unfoldable pub insert_helper : Tree → ℤ → Tree
insert_helper leaf val = node leaf val leaf
insert_helper (node l d r) val = elim (lt_ℤ val d) [
  | true ↦ node (insert_helper l val) d r
  | false ↦ node l d (insert_helper r val)
]

-- `searchHelper`
unfoldable pub search_helper : Tree → ℤ → Bool
search_helper leaf val = false
search_helper (node l d r) val = elim (val ==ℤ d) [
  | true ↦ true
  | false ↦ elim (lt_ℤ val d) [ true ↦ search_helper l val | false ↦ search_helper r val ]
]

-- `inOrderHelper`: the values in the order in which they are printed.
unfoldable pub in_order_helper : Tree → List ℤ
in_order_helper leaf = []
in_order_helper (node l d r) = in_order_helper l ++ (d ∷ in_order_helper r)

-- `minValueNode`: the value of the node that the loop ends at, and `none` for a null pointer.
unfoldable pub min_value_node : Tree → Option ℤ
min_value_node leaf = none
min_value_node (node leaf d r) = some d
min_value_node (node (node ll ld lr) d r) = min_value_node (node ll ld lr)

-- The last branch of `deleteNodeHelper`, at a node whose value is found: `delete_right` is the
-- recursive call on `node->right`.
unfoldable pub delete_found : Tree → ℤ → Tree → (ℤ → Tree) → Tree
unfolding min_value_node
delete_found leaf d r delete_right = r
delete_found (node ll ld lr) d leaf delete_right = node ll ld lr
delete_found (node ll ld lr) d (node rl rd rr) delete_right =
    elim (min_value_node (node rl rd rr)) [
      | none ↦ node (node ll ld lr) d (node rl rd rr)
      | some m ↦ node (node ll ld lr) m (delete_right m)
    ]

-- `deleteNodeHelper`
unfoldable pub delete_node_helper : Tree → ℤ → Tree
unfolding delete_found
delete_node_helper leaf val = leaf
delete_node_helper (node l d r) val = elim (lt_ℤ val d) [
  | true ↦ node (delete_node_helper l val) d r
  | false ↦ elim (lt_ℤ d val) [
    | true ↦ node l d (delete_node_helper r val)
    | false ↦ delete_found l d r (delete_node_helper r)
  ]
]

-- `class BST`
pub record Bst : Type 0 where
  pub root : Tree

-- `BST()`
abbrev pub new : Bst
new = record { root = leaf }

unfoldable pub insert : Bst → ℤ → Bst
unfolding insert_helper
insert t val = record { root = insert_helper t.root val }

unfoldable pub search : Bst → ℤ → Bool
unfolding search_helper
search t val = search_helper t.root val

unfoldable pub in_order : Bst → List ℤ
unfolding in_order_helper
in_order t = in_order_helper t.root

unfoldable pub delete_node : Bst → ℤ → Bst
unfolding delete_node_helper
delete_node t val = record { root = delete_node_helper t.root val }
