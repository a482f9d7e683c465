-- ===== src/Tree/Nary/Examples.antt =====
-- The tree that `main` builds.
use dsalib.Core.{◌≡◌, ◌+◌, ◌≤◌, refl, arith, [], ◌∷◌, pos, some, ℤ, ℕ, count, same, if◌then◌else◌}
use dsalib.Tree.Nary.{
  Node, node, no_child, child, Tree, new, size, push_back, search_node, push_node, has_room, insert,
  delete_helper, delete_node, traverse_dfs, print_tree,
}
use dsalib.Tree.Nary.Adds.{IsBounded, has_place, insert-Adds}
use dsalib.Tree.Nary.Removes.{Removed, delete_node-Removes}

abbrev leaf : ℕ → Node
leaf n = node (pos n) no_child

abbrev tree : Tree
tree = record {
  root = some (
      node (pos 1) (
        child (node (pos 2) (child (leaf 5) no_child))
          (child (node (pos 3) (child (leaf 6) no_child)) (child (leaf 4) no_child))));
  m = pos 3;
}

insert-tree :
    insert
      (insert
        (insert
          (insert (insert (insert (new (pos 3)) (pos 0) (pos 1)) (pos 1) (pos 2)) (pos 1) (pos 3))
          (pos 1)
          (pos 4))
        (pos 2)
        (pos 5))
      (pos 3)
      (pos 6)
    ≡ tree
unfolding insert search_node push_node push_back has_room size
insert-tree = refl

print_tree-delete_node : print_tree (delete_node tree (pos 3)) ≡ pos 1 ∷ pos 2 ∷ pos 5 ∷ pos 4 ∷ []
unfolding print_tree delete_node delete_helper traverse_dfs
print_tree-delete_node = refl

tree-IsBounded : IsBounded tree
unfolding size
tree-IsBounded = omega arith

insert-Adds_example :
    IsBounded (insert tree (pos 2) (pos 7))
    × ((x : ℤ)
        → count x (print_tree (insert tree (pos 2) (pos 7)))
          ≡ count x (print_tree tree)
            + (if has_place tree.root tree.m (pos 2) then same x (pos 7) else 0))
insert-Adds_example = insert-Adds tree (pos 2) (pos 7) tree-IsBounded

tree_once : count (pos 3) (print_tree tree) ≤ 1
unfolding print_tree traverse_dfs same
tree_once = omega arith

delete_node-Removes_example : Removed tree (delete_node tree (pos 3)) (pos 3)
delete_node-Removes_example = delete_node-Removes tree (pos 3) tree-IsBounded tree_once
