-- ===== src/Tree.antt =====
-- The trees of DataStructure/CPP/tree.
pub mod BinaryTree
pub mod Bst
pub mod Interval
pub mod IntervalReport
pub mod BstOwned
pub mod Segment
pub mod Trie
pub mod Hamt
pub mod Nary
