-- ===== src/Tree/IntervalReport.antt =====
-- DataStructure/CPP/tree/intervalTree2.cpp: the interval tree that reports every overlapping interval. A
-- `TreeNode*` is the subtree that it owns.
pub mod Complete
mod Examples
use dsalib.Core.{Bool, true, false, ◌&&◌, List, [], ◌∷◌, ◌++◌, ℤ, lt_ℤ, le_ℤ, if◌then◌else◌}

-- `struct Interval`; the field `end` of the source is `finish`.
pub record Interval : Type 0 where
  pub start : ℤ
  pub finish : ℤ

-- `struct TreeNode`: `interval`, `maxEnd`, `left`, `right`, or `nullptr`.
pub data TreeNode : Type 0 where
  null : TreeNode
  node : Interval → ℤ → TreeNode → TreeNode → TreeNode

-- The last assignment of `insert`: raises `maxEnd` to the new end.
unfoldable pub raise_max : ℤ → ℤ → ℤ
raise_max max_end finish = if lt_ℤ max_end finish then finish else max_end

-- `insert` on a node.
unfoldable pub insert_node : TreeNode → Interval → TreeNode
insert_node null interval = node interval interval.finish null null
insert_node (node i max_end left right) interval =
    let raised = raise_max max_end interval.finish in
    elim (lt_ℤ interval.start i.start) [
      | true ↦ node i raised (insert_node left interval) right
      | false ↦ node i raised left (insert_node right interval)
    ]

-- `doOverlap`
unfoldable pub do_overlap : Interval → Interval → Bool
do_overlap i1 i2 = le_ℤ i1.start i2.finish && le_ℤ i2.start i1.finish

-- `node->left != nullptr && node->left->maxEnd >= query.start`
unfoldable pub enters_left : TreeNode → Interval → Bool
enters_left null query = false
enters_left (node i max_end left right) query = le_ℤ query.start max_end

-- `searchOverlappingIntervals` on a node: the intervals that are printed, in this order.
unfoldable pub search_node : TreeNode → Interval → List Interval
search_node null query = []
search_node (node i max_end left right) query =
    let below = search_node left query in
    (if do_overlap i query then i ∷ [] else [])
    ++ ((if enters_left left query then below else []) ++ search_node right query)

-- `class IntervalTree`
pub record IntervalTree : Type 0 where
  pub root : TreeNode

abbrev pub new : IntervalTree
new = record { root = null }

-- `insert`
unfoldable pub insert : IntervalTree → Interval → IntervalTree
insert t interval = record { root = insert_node t.root interval }

-- `searchOverlappingIntervals`
unfoldable pub search_overlapping_intervals : IntervalTree → Interval → List Interval
search_overlapping_intervals t query = search_node t.root query

-- The insertions of `main`, in turn.
unfoldable pub insert_all : List Interval → IntervalTree → IntervalTree
insert_all [] t = t
insert_all (i ∷ is) t = insert_all is (insert t i)
