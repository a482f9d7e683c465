-- ===== src/Tree/Segment.antt =====
-- DataStructure/CPP/tree/SegmentTree.cpp: a tree of range sums in an array. The sums are exact integers:
-- where one leaves the range of `int`, the program has no defined behaviour. An access of a vector out
-- of its bounds is `none`, and so is a recursion that goes deeper than the fuel.
pub mod Paths
pub mod Sums
pub mod Depth
pub mod Build
pub mod Update
pub mod Query
pub mod Client
mod Examples
use dsalib.Core.{
  ℕ, zero, suc, ◌+◌, ◌-◌, ◌*◌, ◌/◌, Bool, true, false, ◌&&◌, ◌||◌, Option, none, some, List, ℤ, pos,
  ◌+ℤ◌, length, get_elem?, set, replicate, ltb, leb, ◌==◌, if◌then◌else◌,
}

infixl 5 ◌>>=◌
abbrev pub ◌>>=◌ {ℓ κ} : {A : Type ℓ} {B : Type κ} → Option A → (A → Option B) → Option B
none >>= f = none
some a >>= f = f a

-- `tree[node] = value`
unfoldable pub write : List ℤ → ℕ → ℤ → Option (List ℤ)
write tree node value = if ltb node (length tree) then some (set tree node value) else none

-- `tree[node] = tree[2 * node] + tree[2 * node + 1]`
unfoldable pub pull : List ℤ → ℕ → Option (List ℤ)
unfolding write
pull tree node = do
  left ← get_elem? tree (2 * node)
  right ← get_elem? tree (2 * node + 1)
  write tree node (left +ℤ right)

-- `buildTree`: the array `tree` that is left.
unfoldable pub build_tree : ℕ → List ℤ → List ℤ → (node start end : ℕ) → Option (List ℤ)
unfolding write pull
build_tree zero nums tree node start end = none
build_tree (suc fuel) nums tree node start end = elim (start == end) [
  | true ↦ do value ← get_elem? nums start; write tree node value
  | false ↦
      let mid = (start + end) / 2 in
      do
        left_built ← build_tree fuel nums tree (2 * node) start mid
        right_built ← build_tree fuel nums left_built (2 * node + 1) (mid + 1) end
        pull right_built node
]

-- `updateTree`
unfoldable pub update_tree : ℕ → List ℤ → (node start end idx : ℕ) → ℤ → Option (List ℤ)
unfolding write pull
update_tree zero tree node start end idx val = none
update_tree (suc fuel) tree node start end idx val = elim (start == end) [
  | true ↦ write tree node val
  | false ↦
      let mid = (start + end) / 2 in
      do
        updated ← elim (leb idx mid) [
          | true ↦ update_tree fuel tree (2 * node) start mid idx val
          | false ↦ update_tree fuel tree (2 * node + 1) (mid + 1) end idx val
        ]
        pull updated node
]

-- `queryTree`
unfoldable pub query_tree : ℕ → List ℤ → (node start end l r : ℕ) → Option ℤ
query_tree zero tree node start end l r = none
query_tree (suc fuel) tree node start end l r = elim (ltb r start || ltb end l) [
  | true ↦ some (pos 0)
  | false ↦ elim (leb l start && leb end r) [
    | true ↦ get_elem? tree node
    | false ↦
        let mid = (start + end) / 2 in
        do
          p1 ← query_tree fuel tree (2 * node) start mid l r
          p2 ← query_tree fuel tree (2 * node + 1) (mid + 1) end l r
          some (p1 +ℤ p2)
  ]
]

-- `class SegmentTree`
pub record SegmentTree : Type 0 where
  pub tree : List ℤ
  pub n : ℕ

-- `SegmentTree(nums)`, with as much fuel as there are numbers. (`n - 1` at `n = 0` is not modelled: the
-- program then recurses on the range from 0 to -1 and reads `nums[0]`.)
unfoldable pub create : List ℤ → Option SegmentTree
create nums = do
  built ← build_tree (length nums) nums (replicate (4 * length nums) (pos 0)) 1 0 (length nums - 1)
  some (record { tree = built; n = length nums })

-- `update`
unfoldable pub update : SegmentTree → ℕ → ℤ → Option SegmentTree
update t idx val = do
  updated ← update_tree t.n t.tree 1 0 (t.n - 1) idx val
  some (record t { tree = updated })

-- `sumRange`
unfoldable pub sum_range : SegmentTree → ℕ → ℕ → Option ℤ
sum_range t l r = query_tree t.n t.tree 1 0 (t.n - 1) l r
