-- ===== src/Sort/Merge/Examples.antt =====
-- The array of `main`, and an array with equal elements.
use dsalib.Core.{◌≡◌, refl, some, List, [], ◌∷◌, ℤ, pos, negsuc}
use dsalib.Sort.Merge.{copy_range, store, copy_back, merge_loop, merge, merge_sort, merge_sort_all}
use dsalib.Sort.Range.{IsSortOf}
use dsalib.Sort.Merge.Sorts.{merge_sort_all-IsSortOf}

abbrev numbers : List ℤ
numbers = pos 12 ∷ pos 11 ∷ pos 13 ∷ pos 5 ∷ pos 6 ∷ pos 7 ∷ []

abbrev with_equals : List ℤ
with_equals = pos 3 ∷ negsuc 1 ∷ pos 3 ∷ negsuc 1 ∷ []

merge-halves :
    merge (pos 2 ∷ pos 9 ∷ pos 4 ∷ pos 1 ∷ []) 0 1 2 ≡ some (pos 2 ∷ pos 4 ∷ pos 9 ∷ pos 1 ∷ [])
unfolding merge merge_loop copy_back store copy_range
merge-halves = refl

merge_sort_all-numbers :
    merge_sort_all numbers ≡ some (pos 5 ∷ pos 6 ∷ pos 7 ∷ pos 11 ∷ pos 12 ∷ pos 13 ∷ [])
unfolding merge_sort_all merge_sort merge merge_loop copy_back store copy_range
merge_sort_all-numbers = refl

merge_sort_all-with_equals :
    merge_sort_all with_equals ≡ some (negsuc 1 ∷ negsuc 1 ∷ pos 3 ∷ pos 3 ∷ [])
unfolding merge_sort_all merge_sort merge merge_loop copy_back store copy_range
merge_sort_all-with_equals = refl

merge_sort_all-IsSortOf_example : IsSortOf numbers (merge_sort_all numbers)
merge_sort_all-IsSortOf_example = merge_sort_all-IsSortOf numbers
