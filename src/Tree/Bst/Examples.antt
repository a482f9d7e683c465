-- ===== src/Tree/Bst/Examples.antt =====
-- BST.cpp on concrete calls.
use dsalib.Core.{◌≡◌, ◌↔◌, ◌<◌, true, List, [], ◌∷◌, pos, negsuc, refl, count, IsSorted}
use dsalib.Tree.Bst.{new, insert, search, in_order, delete_node}
use dsalib.Tree.Bst.Run.{Op, insertion, deletion, run, replay, run-new_refines}

-- The calls of `main`.
abbrev calls : List Op
calls =
    insertion (pos 5)
    ∷ insertion (pos 3)
    ∷ insertion (pos 7)
    ∷ insertion (negsuc 1)
    ∷ insertion (pos 4)
    ∷ deletion (pos 3)
    ∷ []

calls_print : in_order (run calls new) ≡ negsuc 1 ∷ pos 4 ∷ pos 5 ∷ pos 7 ∷ []
unfolding run insert delete_node in_order
calls_print = refl

run-new_refines_example :
    IsSorted (in_order (run calls new))
    × (count (pos 4) (in_order (run calls new)) ≡ replay calls (λ _. 0) (pos 4))
    × ((search (run calls new) (pos 4) ≡ true) ↔ (0 < replay calls (λ _. 0) (pos 4)))
run-new_refines_example = run-new_refines calls (pos 4)
