-- ===== src/Sort/Merge.antt =====
-- Algorithms/CPP/Sorting/Sequential/MergeSort.cpp. Indexes are naturals, and `arr_size - 1` stops at 0
-- where the source has -1, which is the same range of no two elements.
pub mod Lists
pub mod Sorts
mod Examples
use dsalib.Core.{
  cons_parts, ℕ, zero, suc, ◌+◌, ◌-◌, ◌*◌, ◌/◌, ◌%◌, ◌^◌, ◌≤◌, ◌<◌, ◌≡◌, refl, sym, ap, ◌∙◌, subst,
  ◌≢◌, ◌⊎◌, inl, inr, Bool, true, false, not, ◌&&◌, ◌||◌, Option, none, some, List, [], ◌∷◌, ◌++◌,
  arith, ltb, leb, ◌==◌, if◌then◌else◌, Bool-cases, Option-cases, length, get_elem?, set, get_or,
  length-append, length-set, get_or-set_self, get_or-set_ne, get_elem?-get_or, ℤ, pos, negsuc,
  pos_part, neg_part, lt_ℤ, le_ℤ, ◌==ℤ◌, ◌+ℤ◌, ◌-ℤ◌, ==ℤ_iff, eq_of_parts, replicate,
}
use dsalib.Sort.Array.{◌>>=◌}

-- The loops that copy a range to `L` and to `R`.
unfoldable pub copy_range : (rounds from : ℕ) → List ℤ → Option (List ℤ)
copy_range zero from arr = some []
copy_range (suc rounds) from arr = do
  x ← get_elem? arr from
  rest ← copy_range rounds (suc from) arr
  some (x ∷ rest)

-- `arr[k] = x`
unfoldable pub store : List ℤ → ℕ → ℤ → Option (List ℤ)
store arr k x = if ltb k (length arr) then some (set arr k x) else none

-- The loops that copy back what is left of `L` or of `R`.
unfoldable pub copy_back : List ℤ → (k : ℕ) → List ℤ → Option (List ℤ)
copy_back [] k arr = some arr
copy_back (x ∷ xs) k arr = do b ← store arr k x; copy_back xs (suc k) b

-- The loop that merges `L` from `i` on and `R` from `j` on, which are the two lists here, and the two
-- loops behind it.
unfoldable pub merge_loop : (left right : List ℤ) → (k : ℕ) → List ℤ → Option (List ℤ)
merge_loop [] right k arr = copy_back right k arr
merge_loop (x ∷ left) [] k arr = copy_back (x ∷ left) k arr
merge_loop (x ∷ left) (y ∷ right) k arr = elim (le_ℤ x y) [
  | true ↦ do b ← store arr k x; merge_loop left (y ∷ right) (suc k) b
  | false ↦ do b ← store arr k y; merge_loop (x ∷ left) right (suc k) b
]

-- `merge`
unfoldable pub merge : List ℤ → (l m r : ℕ) → Option (List ℤ)
merge arr l m r = do
  left ← copy_range (m - l + 1) l arr
  right ← copy_range (r - m) (m + 1) arr
  merge_loop left right l arr

-- `mergeSort`; `none` also stands for no fuel left.
unfoldable pub merge_sort : ℕ → List ℤ → (l r : ℕ) → Option (List ℤ)
merge_sort zero arr l r = none
merge_sort (suc fuel) arr l r = elim (ltb l r) [
  | false ↦ some arr
  | true ↦
      let m = l + (r - l) / 2 in
      do b ← merge_sort fuel arr l m; c ← merge_sort fuel b (m + 1) r; merge c l m r
]

-- `mergeSort(arr, 0, arr_size - 1)` in `main`.
unfoldable pub merge_sort_all : List ℤ → Option (List ℤ)
merge_sort_all arr = merge_sort (length arr + 1) arr 0 (length arr - 1)
