-- ===== src/Sort/Quick/Examples.antt =====
-- The array of `main`, and an array with equal elements.
use dsalib.Core.{◌≡◌, refl, some, List, [], ◌∷◌, ℤ, pos, negsuc}
use dsalib.Sort.Array.{swap}
use dsalib.Sort.Quick.{partition_loop, partition, quick_sort, sort_all}
use dsalib.Sort.Range.{IsSortOf}
use dsalib.Sort.Quick.Sorts.{sort_all-IsSortOf}

abbrev numbers : List ℤ
numbers = pos 10 ∷ pos 7 ∷ pos 8 ∷ pos 9 ∷ pos 1 ∷ pos 5 ∷ []

abbrev with_equals : List ℤ
with_equals = pos 3 ∷ negsuc 1 ∷ pos 3 ∷ negsuc 1 ∷ []

partition-numbers :
    partition numbers 0 5 ≡ some (pos 1 ∷ pos 5 ∷ pos 8 ∷ pos 9 ∷ pos 10 ∷ pos 7 ∷ [], 1)
unfolding partition partition_loop swap
partition-numbers = refl

sort_all-numbers : sort_all numbers ≡ some (pos 1 ∷ pos 5 ∷ pos 7 ∷ pos 8 ∷ pos 9 ∷ pos 10 ∷ [])
unfolding sort_all quick_sort partition partition_loop swap
sort_all-numbers = refl

sort_all-with_equals : sort_all with_equals ≡ some (negsuc 1 ∷ negsuc 1 ∷ pos 3 ∷ pos 3 ∷ [])
unfolding sort_all quick_sort partition partition_loop swap
sort_all-with_equals = refl

sort_all-IsSortOf_example : IsSortOf numbers (sort_all numbers)
sort_all-IsSortOf_example = sort_all-IsSortOf numbers
