-- ===== src/Tree/BstOwned/Examples.antt =====
-- BST_smartptr.cpp on concrete calls.
use dsalib.Core.{◌≡◌, List, [], ◌∷◌, pos}
use dsalib.Tree.Bst
use dsalib.Tree.Bst.Run
use dsalib.Tree.Bst.Run.{Op, insertion, deletion}
use dsalib.Tree.BstOwned.{new, search, in_order}
use dsalib.Tree.BstOwned.Agrees.{run, run-agrees}

abbrev calls : List Op
calls = insertion (pos 5) ∷ insertion (pos 3) ∷ insertion (pos 7) ∷ deletion (pos 5) ∷ []

run-agrees_example :
    (in_order (run calls new) ≡ Bst.in_order (Run.run calls Bst.new))
    × (search (run calls new) (pos 7) ≡ Bst.search (Run.run calls Bst.new) (pos 7))
run-agrees_example = run-agrees calls (pos 7)
