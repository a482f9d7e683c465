-- ===== src/Tree/Interval/Search.antt =====
-- `overlapSearch` of intervalTree.cpp: what it returns overlaps, and it misses nothing.
use dsalib.Core.{
  refl, Any, Option, Bool-cases, ◌≡◌, ◌⊎◌, inl, inr, true, false, some, none, List, [], ◌∷◌, ℤ,
  ◌<ℤ◌, ◌≤ℤ◌, arith, All,
}
use dsalib.Tree.Interval.{
  Interval, TreeNode, null, node, insert, insert_all, do_overlap, enters_left, overlap_search,
}
use dsalib.Tree.Interval.Order.{AllIn, AnyIn, AllIn-imp, IsValid, insert_all-IsValid}

-- What is returned is an interval of the tree that overlaps the given one.
found_overlaps :
    (t : TreeNode) (i : Interval) {j : Interval}
    → overlap_search t i ≡ some j
    → (do_overlap j i ≡ true) × AnyIn (λ x. x ≡ j) t
unfolding overlap_search
found_overlaps null i e = absurd (ground arith)
found_overlaps (node k m l r) i {j} e =
    ground (arith, found_overlaps l i {j = j}, found_overlaps r i {j = j})

-- Where the query lies between misses on the left, it ends below the subtree's bound.
below_bound :
    (t : TreeNode) (i : Interval) (high bound : ℤ)
    → AnyIn (λ x. x.high ≡ high) t
    → i.low ≤ℤ high
    → AllIn (λ x. do_overlap x i ≡ false) t
    → AllIn (λ x. x.low <ℤ bound) t
    → i.high <ℤ bound
unfolding do_overlap
below_bound null i high bound a le miss low = absurd a
below_bound (node k m l r) i high bound (inl p) le miss low = ground arith
below_bound (node k m l r) i high bound (inr (inl p)) le miss low =
    below_bound l i high bound p le miss.1 low.1
below_bound (node k m l r) i high bound (inr (inr p)) le miss low =
    below_bound r i high bound p le miss.2 low.2

miss_after : (x i : Interval) → i.high <ℤ x.low → do_overlap x i ≡ false
unfolding do_overlap
miss_after x i h = ground arith

miss_before : (x i : Interval) → x.high <ℤ i.low → do_overlap x i ≡ false
unfolding do_overlap
miss_before x i h = ground arith

-- Where the search enters the left subtree and all of it misses, the right one misses too.
misses_right :
    (l r : TreeNode) (k i : Interval)
    → IsValid l
    → AllIn (λ x. x.low <ℤ k.low) l
    → AllIn (λ x. k.low ≤ℤ x.low) r
    → enters_left l i ≡ true
    → AllIn (λ x. do_overlap x i ≡ false) l
    → AllIn (λ x. do_overlap x i ≡ false) r
unfolding enters_left
misses_right null r k i v low high e miss = absurd (ground arith)
misses_right (node lk lm ll lr) r k i v low high e miss =
    let le : i.low ≤ℤ lm = ground arith in
    let bound = below_bound (node lk lm ll lr) i lm k.low (v.2).attained le miss low in
    AllIn-imp r (λ x (p : k.low ≤ℤ x.low). miss_after x i (omega arith)) high

-- Where it does not, the left subtree misses.
misses_left :
    (l : TreeNode) (i : Interval)
    → IsValid l
    → enters_left l i ≡ false
    → AllIn (λ x. do_overlap x i ≡ false) l
unfolding enters_left
misses_left null i v e = tt
misses_left (node k m l r) i v e =
    let lt : m <ℤ i.low = ground arith in
    let miss = λ (x : Interval) (p : x.high ≤ℤ m). miss_before x i (omega arith) in
    let max = v.2 in (miss k max.own, AllIn-imp l miss max.left, AllIn-imp r miss max.right)

-- `overlapSearch` returns a null pointer only if no interval of the tree overlaps.
none_missed :
    (t : TreeNode) (i : Interval)
    → IsValid t
    → overlap_search t i ≡ none
    → AllIn (λ x. do_overlap x i ≡ false) t
unfolding overlap_search
none_missed null i h e = tt
none_missed (node k m l r) i h e = elim (Bool-cases (enters_left l i)) [
  | inl enter ↦
      let missed : AllIn (λ x. do_overlap x i ≡ false) l =
        none_missed l i h.3 (ground (arith, enter)) in
      (ground (arith, enter), missed, misses_right l r k i h.3 h.0 h.1 enter missed)
  | inr skip ↦
      let missed : AllIn (λ x. do_overlap x i ≡ false) r =
        none_missed r i h.4 (ground (arith, skip)) in
      (ground (arith, skip), misses_left l i h.3 skip, missed)
]

-- What is in a tree that was built by `insert_all`.
AnyIn-insert :
    (P : Interval → Type 0) (t : TreeNode) (i : Interval) → AnyIn P (insert t i) → P i ⊎ AnyIn P t
unfolding insert
AnyIn-insert P null i (inl p) = inl p
AnyIn-insert P null i (inr (inl p)) = absurd p
AnyIn-insert P null i (inr (inr p)) = absurd p
AnyIn-insert P (node k m l r) i h = ground (arith, AnyIn-insert P l i, AnyIn-insert P r i)

AllIn-of_insert :
    (P : Interval → Type 0) (t : TreeNode) (i : Interval) → AllIn P (insert t i) → P i × AllIn P t
unfolding insert
AllIn-of_insert P null i h = (h.0, tt)
AllIn-of_insert P (node k m l r) i h = ground (arith, AllIn-of_insert P l i, AllIn-of_insert P r i)

AnyIn-insert_all :
    (P : Interval → Type 0) (is : List Interval) (t : TreeNode)
    → AnyIn P (insert_all is t)
    → Any P is ⊎ AnyIn P t
unfolding insert_all
AnyIn-insert_all P [] t h = inr h
AnyIn-insert_all P (i ∷ is) t h = elim (AnyIn-insert_all P is (insert t i) h) [
  | inl p ↦ inl (inr p)
  | inr p ↦ elim (AnyIn-insert P t i p) [ inl q ↦ inl (inl q) | inr q ↦ inr q ]
]

AllIn-of_insert_all :
    (P : Interval → Type 0) (is : List Interval) (t : TreeNode)
    → AllIn P (insert_all is t)
    → All P is × AllIn P t
unfolding insert_all
AllIn-of_insert_all P [] t h = (tt, h)
AllIn-of_insert_all P (i ∷ is) t h =
    let (rest, now) = AllIn-of_insert_all P is (insert t i) h in
    let (here, old) = AllIn-of_insert P t i now in ((here, rest), old)

-- What the search may answer: an overlapping interval that was inserted, or nothing if none was.
pub Answers : List Interval → Interval → Option Interval → Type 0
Answers is i none = All (λ x. do_overlap x i ≡ false) is
Answers is i (some j) = (do_overlap j i ≡ true) × Any (λ x. x ≡ j) is

answer :
    (is : List Interval) (i : Interval) (result : Option Interval)
    → overlap_search (insert_all is null) i ≡ result
    → Answers is i result
unfolding Answers
answer is i none e =
    (AllIn-of_insert_all (λ x. do_overlap x i ≡ false) is null
      (none_missed (insert_all is null) i (insert_all-IsValid is null tt) e)).0
answer is i (some j) e =
    let (overlap, among) = found_overlaps (insert_all is null) i e in
    (overlap, elim (AnyIn-insert_all (λ x. x ≡ j) is null among) [ inl p ↦ p | inr p ↦ absurd p ])

-- After any intervals were inserted into the empty tree, `overlapSearch` returns one of them that
-- overlaps the given interval, and returns a null pointer only if none of them overlaps it.
pub overlap_search-Answers :
    (is : List Interval) (i : Interval) → Answers is i (overlap_search (insert_all is null) i)
overlap_search-Answers is i = answer is i (overlap_search (insert_all is null) i) refl
