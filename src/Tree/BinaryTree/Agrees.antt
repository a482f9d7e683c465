-- ===== src/Tree/BinaryTree/Agrees.antt =====
-- BST_smartptr2.cpp answers every call as BST.cpp does, though it removes the successor at the node
-- where it is found and not by a second search.
use dsalib.Core.{List, [], ◌∷◌}
use dsalib.Tree.Bst
use dsalib.Tree.Bst.{Tree, Bst}
use dsalib.Tree.Bst.Run
use dsalib.Tree.Bst.Run.{Op, insertion, deletion}
use dsalib.Tree.BinaryTree.{Node, null, node, BinaryTree, insert, remove}

-- The same tree with raw pointers.
view : Node → Tree
view null = Tree.leaf
view (node d left right) = Tree.node (view left) d (view right)

-- A client's calls.
unfoldable pub run : List Op → BinaryTree → BinaryTree
run [] t = t
run (insertion x ∷ ops) t = run ops (insert t x)
run (deletion x ∷ ops) t = run ops (remove t x)

raw : BinaryTree → Bst
raw t = record { root = view t.root }
