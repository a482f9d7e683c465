-- ===== src/Sort/Bubble.antt =====
-- Algorithms/CPP/Sorting/Sequential/BubbleSort.cpp. The count `n - 1` stops at 0 where the source has
-- -1 for an empty array, and its loop does not run either way.
pub mod Sorts
mod Examples
use dsalib.Core.{
  ℕ, zero, suc, ◌+◌, ◌-◌, true, false, Option, none, some, List, ℤ, lt_ℤ, length, get_elem?,
}
use dsalib.Sort.Array.{swap, ◌>>=◌}

-- The inner loop from `j` on, with `rounds` rounds left.
unfoldable pub inner_loop : (rounds j : ℕ) → List ℤ → Option (List ℤ)
inner_loop zero j arr = some arr
inner_loop (suc rounds) j arr = do
  x ← get_elem? arr j
  y ← get_elem? arr (j + 1)
  elim (lt_ℤ y x) [
    | true ↦ do b ← swap arr j (j + 1); inner_loop rounds (suc j) b
    | false ↦ inner_loop rounds (suc j) arr
  ]

-- The outer loop from `i` on, with `rounds` rounds left.
unfoldable pub outer_loop : (rounds i n : ℕ) → List ℤ → Option (List ℤ)
outer_loop zero i n arr = some arr
outer_loop (suc rounds) i n arr = do b ← inner_loop (n - i - 1) 0 arr; outer_loop rounds (suc i) n b

-- `bubbleSort`
unfoldable pub bubble_sort : List ℤ → Option (List ℤ)
bubble_sort arr = outer_loop (length arr - 1) 0 (length arr) arr
