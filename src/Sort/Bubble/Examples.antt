-- ===== src/Sort/Bubble/Examples.antt =====
-- Arrays with a run of equal elements, and with no element.
use dsalib.Core.{◌≡◌, refl, some, List, [], ◌∷◌, ℤ, pos, negsuc}
use dsalib.Sort.Array.{swap}
use dsalib.Sort.Range.{IsSortOf}
use dsalib.Sort.Bubble.{inner_loop, outer_loop, bubble_sort}
use dsalib.Sort.Bubble.Sorts.{bubble_sort-IsSortOf}

abbrev numbers : List ℤ
numbers = pos 4 ∷ negsuc 0 ∷ pos 4 ∷ pos 2 ∷ []

bubble_sort-numbers : bubble_sort numbers ≡ some (negsuc 0 ∷ pos 2 ∷ pos 4 ∷ pos 4 ∷ [])
unfolding bubble_sort outer_loop inner_loop swap
bubble_sort-numbers = refl

bubble_sort_empty : bubble_sort [] ≡ some []
unfolding bubble_sort outer_loop
bubble_sort_empty = refl

bubble_sort-IsSortOf_example : IsSortOf numbers (bubble_sort numbers)
bubble_sort-IsSortOf_example = bubble_sort-IsSortOf numbers
