-- ===== src/Tree/BinaryTree.antt =====
-- DataStructure/CPP/tree/BST_smartptr2.cpp: the template `BinaryTree` at `int`. A helper takes the
-- owning pointer by reference; the model returns what the pointer owns afterwards.
pub mod Agrees
pub mod LevelOrder
mod Examples
use dsalib.Core.{Bool, true, false, Option, none, some, List, [], ◌∷◌, ◌++◌, ℤ, lt_ℤ, ◌==ℤ◌}

-- `std::unique_ptr<Node<T>>`
pub data Node : Type 0 where
  null : Node
  node : ℤ → Node → Node → Node

-- `insertHelper`
unfoldable pub insert_helper : Node → ℤ → Node
insert_helper null val = node val null null
insert_helper (node value left right) val = elim (lt_ℤ val value) [
  | true ↦ node value (insert_helper left val) right
  | false ↦ node value left (insert_helper right val)
]

-- The value of the node that `getMinNode` refers to, `none` for a null pointer.
unfoldable pub get_min_value : Node → Option ℤ
get_min_value null = none
get_min_value (node value null right) = some value
get_min_value (node value (node lv ll lr) right) = get_min_value (node lv ll lr)

-- The body of `removeHelper` at a node. Its recursive calls are parameters: on `node->left`, on
-- `node->right`, and on the node that `getMinNode(node->right)` refers to, which leaves the right
-- subtree with that node changed.
unfoldable pub remove_at :
    (value : ℤ) (left right : Node) (val : ℤ) (remove_left remove_right remove_min : ℤ → Node)
    → Node
remove_at value left right val remove_left remove_right remove_min = elim (lt_ℤ val value) [
  | true ↦ node value (remove_left val) right
  | false ↦ elim (lt_ℤ value val) [
    | true ↦ node value left (remove_right val)
    | false ↦ elim left [
      | null ↦ right
      | node lv ll lr ↦ elim right [
        | null ↦ node lv ll lr
        | node rv rl rr ↦ elim (get_min_value (node rv rl rr)) [
          | none ↦ node value (node lv ll lr) (node rv rl rr)
          | some m ↦ node m (node lv ll lr) (remove_min m)
        ]
      ]
    ]
  ]
]

unfoldable mutual
  -- `removeHelper`
  pub remove_helper : Node → ℤ → Node
  remove_helper null val = null
  remove_helper (node value left right) val =
      remove_at value left right val (remove_helper left) (remove_helper right)
        (remove_min_helper right)

  -- The subtree after `removeHelper(getMinNode(node), val)`.
  pub remove_min_helper : Node → ℤ → Node
  remove_min_helper null val = null
  remove_min_helper (node value null right) val =
      remove_at value null right val (remove_helper null) (remove_helper right)
        (remove_min_helper right)
  remove_min_helper (node value (node lv ll lr) right) val =
      node value (remove_min_helper (node lv ll lr) val) right

-- `printInOrderHelper`: the printed values.
unfoldable pub print_in_order_helper : Node → List ℤ
print_in_order_helper null = []
print_in_order_helper (node value left right) =
    print_in_order_helper left ++ (value ∷ print_in_order_helper right)

-- `postOrderHelper`
unfoldable pub post_order_helper : Node → List ℤ
post_order_helper null = []
post_order_helper (node value left right) =
    (post_order_helper left ++ post_order_helper right) ++ (value ∷ [])

-- The loop of `search` from the node that `current` points at.
unfoldable pub search_from : Node → ℤ → Bool
search_from null val = false
search_from (node value left right) val = elim (val ==ℤ value) [
  | true ↦ true
  | false ↦ elim (lt_ℤ val value) [ true ↦ search_from left val | false ↦ search_from right val ]
]

-- `class BinaryTree`
pub record BinaryTree : Type 0 where
  pub root : Node

-- `BinaryTree()`
abbrev pub new : BinaryTree
new = record { root = null }

unfoldable pub insert : BinaryTree → ℤ → BinaryTree
insert t val = record { root = insert_helper t.root val }

unfoldable pub search : BinaryTree → ℤ → Bool
search t val = search_from t.root val

unfoldable pub remove : BinaryTree → ℤ → BinaryTree
remove t val = record { root = remove_helper t.root val }

unfoldable pub print_in_order : BinaryTree → List ℤ
print_in_order t = print_in_order_helper t.root

unfoldable pub post_order : BinaryTree → List ℤ
post_order t = post_order_helper t.root
