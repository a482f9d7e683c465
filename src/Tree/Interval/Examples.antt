-- ===== src/Tree/Interval/Examples.antt =====
-- intervalTree.cpp on the intervals of its `main`.
use dsalib.Core.{ℕ, ◌≡◌, List, [], ◌∷◌, pos, refl, some, none}
use dsalib.Tree.Interval.{
  Interval, null, insert, insert_all, overlap_search, do_overlap, enters_left,
}
use dsalib.Tree.Interval.Search.{Answers, overlap_search-Answers}

abbrev interval : ℕ → ℕ → Interval
interval a b = record { low = pos a; high = pos b }

abbrev intervals : List Interval
intervals =
    interval 11 21
    ∷ interval 9 33
    ∷ interval 17 19
    ∷ interval 5 29
    ∷ interval 11 18
    ∷ interval 30 48
    ∷ interval 60 88
    ∷ []

search_hit : overlap_search (insert_all intervals null) (interval 6 7) ≡ some (interval 5 29)
unfolding insert_all insert overlap_search do_overlap enters_left
search_hit = refl

search_miss : overlap_search (insert_all intervals null) (interval 49 59) ≡ none
unfolding insert_all insert overlap_search do_overlap enters_left
search_miss = refl

overlap_search-Answers_example :
    Answers intervals (interval 6 7) (overlap_search (insert_all intervals null) (interval 6 7))
overlap_search-Answers_example = overlap_search-Answers intervals (interval 6 7)
