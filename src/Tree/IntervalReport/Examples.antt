-- ===== src/Tree/IntervalReport/Examples.antt =====
-- intervalTree2.cpp on the intervals of its `main`.
use dsalib.Core.{ℕ, ◌≡◌, List, [], ◌∷◌, pos, refl}
use dsalib.Tree.IntervalReport.{
  Interval, new, insert, insert_node, raise_max, insert_all, search_overlapping_intervals,
  search_node, do_overlap, enters_left,
}
use dsalib.Tree.IntervalReport.Complete.{
  overlapping, preorder, search_overlapping_intervals-overlapping,
}

abbrev interval : ℕ → ℕ → Interval
interval a b = record { start = pos a; finish = pos b }

abbrev intervals : List Interval
intervals =
    interval 0 20
    ∷ interval 10 30
    ∷ interval 27 49
    ∷ interval 5 20
    ∷ interval 12 18
    ∷ interval 30 40
    ∷ []

prints :
    search_overlapping_intervals (insert_all intervals new) (interval 6 7)
    ≡ interval 0 20 ∷ interval 5 20 ∷ []
unfolding search_overlapping_intervals search_node insert_all insert insert_node raise_max
    do_overlap enters_left
prints = refl

search_overlapping_intervals-overlapping_example :
    search_overlapping_intervals (insert_all intervals new) (interval 6 7)
    ≡ overlapping (interval 6 7) (preorder (insert_all intervals new).root)
search_overlapping_intervals-overlapping_example =
    search_overlapping_intervals-overlapping intervals (interval 6 7)
