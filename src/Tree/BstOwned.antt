-- ===== src/Tree/BstOwned.antt =====
-- DataStructure/CPP/tree/BST_smartptr.cpp: the search tree whose nodes are owned by `unique_ptr`. A
-- helper takes the owning pointer by reference; the model returns what the pointer owns afterwards.
pub mod Agrees
mod Examples
use dsalib.Core.{Bool, true, false, Option, none, some, List, [], ◌∷◌, ◌++◌, ℤ, lt_ℤ, ◌==ℤ◌}

-- `std::unique_ptr<Node>`
pub data Owned : Type 0 where
  null : Owned
  node : ℤ → Owned → Owned → Owned

-- `insertHelper`
unfoldable pub insert_helper : Owned → ℤ → Owned
insert_helper null val = node val null null
insert_helper (node d left right) val = elim (lt_ℤ val d) [
  | true ↦ node d (insert_helper left val) right
  | false ↦ node d left (insert_helper right val)
]

-- `searchHelper`
unfoldable pub search_helper : Owned → ℤ → Bool
search_helper null val = false
search_helper (node d left right) val = elim (val ==ℤ d) [
  | true ↦ true
  | false ↦ elim (lt_ℤ val d) [ true ↦ search_helper left val | false ↦ search_helper right val ]
]

-- `inOrderHelper`: the printed values.
unfoldable pub in_order_helper : Owned → List ℤ
in_order_helper null = []
in_order_helper (node d left right) = in_order_helper left ++ (d ∷ in_order_helper right)

-- `minValueNode`: the value at the raw pointer that it returns, `none` for a null pointer.
unfoldable pub min_value_node : Owned → Option ℤ
min_value_node null = none
min_value_node (node d null right) = some d
min_value_node (node d (node ld ll lr) right) = min_value_node (node ld ll lr)

-- The last branch of `deleteNodeHelper`; `delete_right` is the recursive call on `node->right`.
unfoldable pub delete_found : ℤ → Owned → Owned → (ℤ → Owned) → Owned
delete_found d null right delete_right = right
delete_found d (node ld ll lr) null delete_right = node ld ll lr
delete_found d (node ld ll lr) (node rd rl rr) delete_right =
    elim (min_value_node (node rd rl rr)) [
      | none ↦ node d (node ld ll lr) (node rd rl rr)
      | some m ↦ node m (node ld ll lr) (delete_right m)
    ]

-- `deleteNodeHelper`
unfoldable pub delete_node_helper : Owned → ℤ → Owned
delete_node_helper null val = null
delete_node_helper (node d left right) val = elim (lt_ℤ val d) [
  | true ↦ node d (delete_node_helper left val) right
  | false ↦ elim (lt_ℤ d val) [
    | true ↦ node d left (delete_node_helper right val)
    | false ↦ delete_found d left right (delete_node_helper right)
  ]
]

-- `class BST`
pub record BstOwned : Type 0 where
  pub root : Owned

-- `BST()`
abbrev pub new : BstOwned
new = record { root = null }

unfoldable pub insert : BstOwned → ℤ → BstOwned
insert t val = record { root = insert_helper t.root val }

unfoldable pub search : BstOwned → ℤ → Bool
search t val = search_helper t.root val

unfoldable pub in_order : BstOwned → List ℤ
in_order t = in_order_helper t.root

unfoldable pub delete_node : BstOwned → ℤ → BstOwned
delete_node t val = record { root = delete_node_helper t.root val }
