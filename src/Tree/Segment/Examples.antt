-- ===== src/Tree/Segment/Examples.antt =====
-- SegmentTree.cpp on the calls of its `main`.
use dsalib.Core.{ℕ, ◌≡◌, ◌-◌, List, [], ◌∷◌, ℤ, pos, some, refl, arith, ◌+ℤ◌, length}
use dsalib.Tree.Segment.{
  create, sum_range, update, build_tree, update_tree, query_tree, write, pull, ◌>>=◌,
}
use dsalib.Tree.Segment.Sums.{range}
use dsalib.Tree.Segment.Build.{value}
use dsalib.Tree.Segment.Query.{within}
use dsalib.Tree.Segment.Client.{updates, set_all, sum_range-updates}

abbrev nums : List ℤ
nums = pos 1 ∷ pos 3 ∷ pos 5 ∷ pos 7 ∷ pos 9 ∷ pos 11 ∷ []

abbrev change : List (ℕ × ℤ)
change = (2, pos 10) ∷ []

sum_of_main : (create nums >>= λ t. updates change t >>= λ u. sum_range u 1 3) ≡ some (pos 20)
unfolding create updates update sum_range build_tree update_tree query_tree write pull ◌+ℤ◌
sum_of_main = refl

sum_range-updates_example :
    (create nums >>= λ t. updates change t >>= λ u. sum_range u 1 3)
    ≡ some (range (within (value (set_all change nums)) 1 3) 0 (length nums - 1))
sum_range-updates_example = sum_range-updates nums change 1 3 (omega arith) (omega arith)
