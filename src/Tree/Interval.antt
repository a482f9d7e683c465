-- ===== src/Tree/Interval.antt =====
-- DataStructure/CPP/tree/intervalTree.cpp: a search tree of intervals, ordered by their low ends, where
-- each node caches the largest high end below it. A `unique_ptr` is the value that it owns.
pub mod Order
pub mod Search
mod Examples
use dsalib.Core.{
  Bool, true, false, ◌&&◌, Option, none, some, List, [], ◌∷◌, ◌++◌, ℤ, lt_ℤ, le_ℤ, if◌then◌else◌,
}

-- `struct Interval`
pub record Interval : Type 0 where
  pub low : ℤ
  pub high : ℤ

-- `unique_ptr<TreeNode>`: the fields `i`, `maxHigh`, `left` and `right`.
pub data TreeNode : Type 0 where
  null : TreeNode
  node : Interval → ℤ → TreeNode → TreeNode → TreeNode

-- The last assignment of `insert`: raises `maxHigh` to the new high end.
unfoldable pub raise_max : ℤ → ℤ → ℤ
raise_max max_high high = if lt_ℤ max_high high then high else max_high

-- `insert`
unfoldable pub insert : TreeNode → Interval → TreeNode
unfolding raise_max
insert null i = node i i.high null null
insert (node k m left right) i = elim (lt_ℤ i.low k.low) [
  | true ↦ node k (raise_max m i.high) (insert left i) right
  | false ↦ node k (raise_max m i.high) left (insert right i)
]

-- `doOverlap`
unfoldable pub do_overlap : Interval → Interval → Bool
do_overlap i1 i2 = le_ℤ i1.low i2.high && le_ℤ i2.low i1.high

-- `root->left && root->left->maxHigh >= i.low`
unfoldable pub enters_left : TreeNode → Interval → Bool
enters_left null i = false
enters_left (node k m left right) i = le_ℤ i.low m

-- `overlapSearch`: the interval pointed at, `none` for a null pointer.
unfoldable pub overlap_search : TreeNode → Interval → Option Interval
overlap_search null i = none
overlap_search (node k m left right) i = elim (do_overlap k i) [
  | true ↦ some k
  | false ↦ elim (enters_left left i) [
    | true ↦ overlap_search left i
    | false ↦ overlap_search right i
  ]
]

-- `printTree`: the printed intervals with their `maxHigh`.
unfoldable pub print_tree : TreeNode → List (Interval × ℤ)
print_tree null = []
print_tree (node k m left right) = print_tree left ++ ((k, m) ∷ print_tree right)

-- The loop of `main`: inserts the intervals in turn.
unfoldable pub insert_all : List Interval → TreeNode → TreeNode
insert_all [] root = root
insert_all (i ∷ is) root = insert_all is (insert root i)
