-- ===== src/Tree/BinaryTree/Examples.antt =====
-- BST_smartptr2.cpp on concrete calls.
use dsalib.Core.{some, arith, ◌≡◌, refl, List, [], ◌∷◌, pos}
use dsalib.Tree.Bst
use dsalib.Tree.Bst.Run
use dsalib.Tree.Bst.Run.{Op, insertion, deletion}
use dsalib.Tree.BinaryTree.LevelOrder.{
  print_level_order, print_levels, print_level, push, levels, join, print_level_order-levels,
}
use dsalib.Tree.BinaryTree.{
  BinaryTree, new, insert, insert_helper, remove, remove_helper, remove_at, get_min_value,
  post_order, post_order_helper,
}
use dsalib.Tree.BinaryTree.Agrees.{run}

-- 38 has two children, and the least value to its right has a right child.
abbrev calls : List Op
calls =
    insertion (pos 5)
    ∷ insertion (pos 38)
    ∷ insertion (pos 30)
    ∷ insertion (pos 53)
    ∷ insertion (pos 40)
    ∷ insertion (pos 45)
    ∷ deletion (pos 38)
    ∷ []

post_order-run : post_order (run calls new) ≡ pos 30 ∷ pos 45 ∷ pos 53 ∷ pos 40 ∷ pos 5 ∷ []
unfolding post_order post_order_helper run insert insert_helper remove remove_helper remove_at
    get_min_value
post_order-run = refl

abbrev calls_tree : BinaryTree
calls_tree = run calls new

print_level_order-calls :
    print_level_order 4 calls_tree
    ≡ some ((pos 5 ∷ []) ∷ (pos 40 ∷ []) ∷ (pos 30 ∷ pos 53 ∷ []) ∷ (pos 45 ∷ []) ∷ [])
unfolding print_level_order print_levels print_level push run insert insert_helper remove
    remove_helper remove_at get_min_value
print_level_order-calls = refl

print_level_order-levels_example :
    print_level_order 2 (insert (insert new (pos 5)) (pos 3))
    ≡ some ((pos 5 ∷ []) ∷ (pos 3 ∷ []) ∷ [])
unfolding levels insert insert_helper join
print_level_order-levels_example =
    print_level_order-levels (insert (insert new (pos 5)) (pos 3)) 2 (omega arith)
