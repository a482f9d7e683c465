-- ===== src/Sort/Quick.antt =====
-- Algorithms/CPP/Sorting/Sequential/Quicksort.cpp. Indexes are naturals: `next` is the source's `i + 1`,
-- and `high` and `pi - 1` stop at 0 where the source has -1, which is the same range of no two elements
-- since `low` is 0 there.
pub mod Partition
pub mod Sorts
mod Examples
use dsalib.Core.{
  ℕ, zero, suc, ◌+◌, ◌-◌, ltb, true, false, Option, none, some, List, ℤ, lt_ℤ, length, get_elem?,
}
use dsalib.Sort.Array.{swap, ◌>>=◌}

-- The loop of `partition` from `j` on, with `rounds` rounds left: the array and `next`.
unfoldable pub partition_loop : (rounds j next : ℕ) → ℤ → List ℤ → Option (List ℤ × ℕ)
partition_loop zero j next pivot arr = some (arr, next)
partition_loop (suc rounds) j next pivot arr = do
  x ← get_elem? arr j
  elim (lt_ℤ x pivot) [
    | true ↦ do b ← swap arr next j; partition_loop rounds (suc j) (suc next) pivot b
    | false ↦ partition_loop rounds (suc j) next pivot arr
  ]

-- `partition`: the array as it is left, and the result.
unfoldable pub partition : List ℤ → (low high : ℕ) → Option (List ℤ × ℕ)
partition arr low high = do
  pivot ← get_elem? arr high
  r ← partition_loop (high - low) low low pivot arr
  b ← swap r.0 r.1 high
  some (b, r.1)

-- `quickSort`; `none` also stands for no fuel left.
unfoldable pub quick_sort : ℕ → List ℤ → (low high : ℕ) → Option (List ℤ)
quick_sort zero arr low high = none
quick_sort (suc fuel) arr low high = elim (ltb low high) [
  | false ↦ some arr
  | true ↦ do
    r ← partition arr low high
    b ← quick_sort fuel r.0 low (r.1 - 1)
    quick_sort fuel b (r.1 + 1) high
]

-- `quickSort(arr, 0, n - 1)` in `main`.
unfoldable pub sort_all : List ℤ → Option (List ℤ)
sort_all arr = quick_sort (length arr + 1) arr 0 (length arr - 1)
