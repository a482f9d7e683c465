-- ===== src/Tree/IntervalReport/Complete.antt =====
-- The pruned search of intervalTree2.cpp reports what a search of the whole tree reports.
use dsalib.Core.{
  sym, ◌≡◌, refl, ap, ◌∙◌, false, List, [], ◌∷◌, ◌++◌, ℤ, ◌≤ℤ◌, ◌<ℤ◌, arith, if◌then◌else◌,
  Bool-cases, inl, inr,
}
use dsalib.Tree.IntervalReport.{
  Interval, TreeNode, null, node, insert_node, raise_max, do_overlap, enters_left, search_node,
  IntervalTree, new, insert, search_overlapping_intervals, insert_all,
}

-- Every interval of the tree satisfies `P`.
abbrev AllIn : (Interval → Type 0) → TreeNode → Type 0
AllIn P null = Unit
AllIn P (node i m l r) = P i × AllIn P l × AllIn P r

-- Every `maxEnd` bounds the ends below it.
abbrev pub IsBounded : TreeNode → Type 0
IsBounded null = Unit
IsBounded (node i m l r) =
    (i.finish ≤ℤ m)
    × AllIn (λ x. x.finish ≤ℤ m) l
    × AllIn (λ x. x.finish ≤ℤ m) r
    × IsBounded l
    × IsBounded r

AllIn-imp :
    {P Q : Interval → Type 0} (t : TreeNode) → ((x : Interval) → P x → Q x) → AllIn P t → AllIn Q t
AllIn-imp null f h = tt
AllIn-imp (node i m l r) f h = (f i h.0, AllIn-imp l f h.1, AllIn-imp r f h.2)

AllIn-insert_node :
    (P : Interval → Type 0) (t : TreeNode) (i : Interval)
    → P i
    → AllIn P t
    → AllIn P (insert_node t i)
unfolding insert_node
AllIn-insert_node P null i p h = (p, tt, tt)
AllIn-insert_node P (node k m l r) i p h =
    ground (arith, AllIn-insert_node P l i, AllIn-insert_node P r i)

raise_max_bounds : (m f : ℤ) → (m ≤ℤ raise_max m f) × (f ≤ℤ raise_max m f)
unfolding raise_max
raise_max_bounds m f = ground arith

-- The ends stay below a raised maximum.
raised :
    (t : TreeNode) (m f : ℤ)
    → AllIn (λ x. x.finish ≤ℤ m) t
    → AllIn (λ x. x.finish ≤ℤ raise_max m f) t
raised t m f h = AllIn-imp t (λ x (p : x.finish ≤ℤ m). omega (arith, (raise_max_bounds m f).0)) h

insert_node-IsBounded : (t : TreeNode) (i : Interval) → IsBounded t → IsBounded (insert_node t i)
unfolding insert_node
insert_node-IsBounded null i h = (omega arith, tt, tt, tt, tt)
insert_node-IsBounded (node k m l r) i h =
    let top = raise_max m i.finish in
    ground (
      arith,
      raise_max_bounds m i.finish,
      insert_node-IsBounded l i h.3,
      insert_node-IsBounded r i h.4,
      raised l m i.finish h.1,
      raised r m i.finish h.2,
      AllIn-insert_node (λ x. x.finish ≤ℤ top) l i,
      AllIn-insert_node (λ x. x.finish ≤ℤ top) r i,
    )

-- The intervals of the tree, each node before its subtrees.
unfoldable pub preorder : TreeNode → List Interval
preorder null = []
preorder (node i m l r) = (i ∷ []) ++ (preorder l ++ preorder r)

-- Those of a list that overlap the query.
unfoldable pub overlapping : Interval → List Interval → List Interval
overlapping query [] = []
overlapping query (i ∷ is) =
    let rest = overlapping query is in if do_overlap i query then i ∷ rest else rest

overlapping-append :
    (q : Interval) (xs ys : List Interval)
    → overlapping q (xs ++ ys) ≡ overlapping q xs ++ overlapping q ys
unfolding overlapping
overlapping-append q [] ys = refl
overlapping-append q (x ∷ xs) ys = elim (Bool-cases (do_overlap x q)) [
  | inl h ↦ rw (h, overlapping) (ap (◌∷◌ x) (overlapping-append q xs ys))
  | inr h ↦ rw (h, overlapping) (overlapping-append q xs ys)
]

overlapping_head :
    (q i : Interval) (is : List Interval)
    → overlapping q ((i ∷ []) ++ is) ≡ (if do_overlap i q then i ∷ [] else []) ++ overlapping q is
unfolding overlapping
overlapping_head q i is = elim (Bool-cases (do_overlap i q)) [
  | inl h ↦ rw (h, overlapping)
  | inr h ↦ rw (h, overlapping)
]

-- A subtree that ends before the query begins has none.
skipped :
    (q : Interval) (t : TreeNode)
    → AllIn (λ x. x.finish <ℤ q.start) t
    → overlapping q (preorder t) ≡ []
unfolding overlapping preorder
skipped q null h = refl
skipped q (node i m l r) h =
    let none_here : do_overlap i q ≡ false = unfold do_overlap in ground arith in
    rw (none_here, overlapping)
      (overlapping-append q (preorder l) (preorder r) ∙ rw (skipped q l h.1, skipped q r h.2))

skipped_left :
    (q : Interval) (l : TreeNode)
    → IsBounded l
    → enters_left l q ≡ false
    → overlapping q (preorder l) ≡ []
unfolding enters_left
skipped_left q null b h = unfold preorder overlapping in refl
skipped_left q (node i m l r) b h =
    let lt : m <ℤ q.start = ground arith in
    let before =
      λ (x : Interval) (p : x.finish ≤ℤ m). let goal : x.finish <ℤ q.start = omega arith in goal in
    skipped q (node i m l r) (before i b.0, AllIn-imp l before b.1, AllIn-imp r before b.2)

search_node-overlapping :
    (q : Interval) (t : TreeNode) → IsBounded t → search_node t q ≡ overlapping q (preorder t)
unfolding search_node preorder
search_node-overlapping q null b = unfold overlapping in refl
search_node-overlapping q (node i m l r) b =
    let ends = overlapping-append q (preorder l) (preorder r) in
    let left : (if enters_left l q then search_node l q else []) ≡ overlapping q (preorder l) =
      elim (Bool-cases (enters_left l q)) [
        | inl h ↦ rw h (search_node-overlapping q l b.3)
        | inr h ↦ rw h (sym (skipped_left q l b.3 h))
      ] in
    rw (left, search_node-overlapping q r b.4, overlapping_head, ends) refl

insert_all-IsBounded :
    (is : List Interval) (t : IntervalTree) → IsBounded t.root → IsBounded (insert_all is t).root
unfolding insert_all insert
insert_all-IsBounded [] t h = h
insert_all-IsBounded (i ∷ is) t h =
    insert_all-IsBounded is (insert t i) (insert_node-IsBounded t.root i h)

-- After any intervals were inserted into a new tree, `searchOverlappingIntervals` prints exactly the
-- intervals of the tree that overlap the query, each once for each time that it is in the tree, in the
-- order of the tree's preorder: skipping left subtrees by `maxEnd` loses none of them.
pub search_overlapping_intervals-overlapping :
    (is : List Interval) (query : Interval)
    → search_overlapping_intervals (insert_all is new) query
      ≡ overlapping query (preorder (insert_all is new).root)
unfolding search_overlapping_intervals
search_overlapping_intervals-overlapping is query =
    search_node-overlapping query (insert_all is new).root (insert_all-IsBounded is new tt)
