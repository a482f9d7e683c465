-- ===== src/Tree/Bst/Items.antt =====
-- The values that BST.cpp holds, with their multiplicity, under search, insertion and deletion.
use dsalib.Core.{
  ℕ, ◌≡◌, ◌<◌, ◌+◌, true, false, some, if◌then◌else◌, ◌∷◌, ℤ, ◌<ℤ◌, ◌≤ℤ◌, eq_of_parts, arith, same,
  same_refl, count, count-append, refl,
}
use dsalib.Tree.Bst.{
  Tree, leaf, node, insert_helper, search_helper, in_order_helper, min_value_node, delete_found,
  delete_node_helper,
}
use dsalib.Tree.Bst.Order.{AllIn, AllIn-imp, IsOrdered, min_value_node-some, AllIn-min_value_node}

-- How often the value stands in the tree.
abbrev pub occurrences : ℤ → Tree → ℕ
occurrences v t = count v (in_order_helper t)

occurrences-node :
    (v : ℤ) (l : Tree) (d : ℤ) (r : Tree)
    → occurrences v (node l d r) ≡ occurrences v l + same v d + occurrences v r
unfolding in_order_helper
occurrences-node v l d r = omega (arith, count-append v (in_order_helper l) (d ∷ in_order_helper r))

pub occurrences-insert_helper :
    (v : ℤ) (t : Tree) (val : ℤ)
    → occurrences v (insert_helper t val) ≡ occurrences v t + same v val
unfolding insert_helper in_order_helper
occurrences-insert_helper v leaf val = omega arith
occurrences-insert_helper v (node l d r) val = ground (
  arith,
  occurrences-insert_helper v l val,
  occurrences-insert_helper v r val,
  count-append v (in_order_helper l) (d ∷ in_order_helper r),
  count-append v (in_order_helper l) (d ∷ in_order_helper (insert_helper r val)),
  count-append v (in_order_helper (insert_helper l val)) (d ∷ in_order_helper r),
)

-- A value that differs from all of a tree does not occur in it.
occurrences_absent : (v : ℤ) (t : Tree) → AllIn (λ x. same v x ≡ 0) t → occurrences v t ≡ 0
unfolding in_order_helper
occurrences_absent v leaf h = refl
occurrences_absent v (node l d r) h =
    omega (arith, occurrences-node v l d r, occurrences_absent v l h.0, occurrences_absent v r h.2)

same_lt : (v x : ℤ) → v <ℤ x → same v x ≡ 0
unfolding same
same_lt v x h = ground arith

same_gt : (v x : ℤ) → x <ℤ v → same v x ≡ 0
unfolding same
same_gt v x h = ground arith

-- A search finds a value only if it occurs.
pub occurs_of_search : (t : Tree) (v : ℤ) → search_helper t v ≡ true → 0 < occurrences v t
unfolding search_helper
occurs_of_search leaf v h = absurd (ground arith)
occurs_of_search (node l d r) v h = ground (
  arith,
  occurs_of_search l v,
  occurs_of_search r v,
  occurrences-node v l d r,
  eq_of_parts v d,
  same_refl v,
)

-- In an ordered tree a search misses a value only if it does not occur.
pub absent_of_search :
    (t : Tree) (v : ℤ) → IsOrdered t → search_helper t v ≡ false → occurrences v t ≡ 0
unfolding search_helper in_order_helper
absent_of_search leaf v o h = refl
absent_of_search (node l d r) v o h =
    let right = λ (p : v <ℤ d).
      occurrences_absent v r (AllIn-imp r (λ x (q : d ≤ℤ x). same_lt v x (omega arith)) o.1) in
    let left = λ (p : d <ℤ v).
      occurrences_absent v l (AllIn-imp l (λ x (q : x <ℤ d). same_gt v x (omega arith)) o.0) in
    ground (
      arith,
      absent_of_search l v o.2,
      absent_of_search r v o.3,
      occurrences-node v l d r,
      same_lt v d,
      same_gt v d,
      left,
      right,
    )

-- The least value of an ordered tree is found.
search-min_value_node :
    (t : Tree) (m : ℤ) → IsOrdered t → min_value_node t ≡ some m → search_helper t m ≡ true
unfolding search_helper min_value_node
search-min_value_node leaf m o e = absurd (ground arith)
search-min_value_node (node leaf d r) m o e = ground arith
search-min_value_node (node (node ll ld lr) d r) m o e =
    let found = search-min_value_node (node ll ld lr) m o.2 e in
    let below = AllIn-min_value_node (λ x. x <ℤ d) (node ll ld lr) m e o.0 in ground (arith, found)

occurrences-delete_found :
    (v : ℤ) (l : Tree) (d : ℤ) (r : Tree) (delete_right : ℤ → Tree)
    → ((m : ℤ)
        → min_value_node r ≡ some m
        → occurrences v (delete_right m) + same v m ≡ occurrences v r)
    → occurrences v (delete_found l d r delete_right) + same v d ≡ occurrences v (node l d r)
unfolding delete_found in_order_helper
occurrences-delete_found v leaf d r del h = omega arith
occurrences-delete_found v (node ll ld lr) d leaf del h =
    omega (arith, occurrences-node v (node ll ld lr) d leaf)
occurrences-delete_found v (node ll ld lr) d (node rl rd rr) del h =
    let (m, e) = min_value_node-some rl rd rr in
    rw (e, delete_found)
      (omega (
        arith,
        h m e,
        occurrences-node v (node ll ld lr) d (node rl rd rr),
        occurrences-node v (node ll ld lr) m (del m),
      ))

-- Deletion takes away one occurrence of the value, if there is one, and nothing else.
pub occurrences-delete_node_helper :
    (v : ℤ) (t : Tree) (val : ℤ)
    → IsOrdered t
    → occurrences v (delete_node_helper t val) + (if search_helper t val then same v val else 0)
      ≡ occurrences v t
unfolding delete_node_helper search_helper
occurrences-delete_node_helper v leaf val o = omega arith
occurrences-delete_node_helper v (node l d r) val o =
    let least = λ (m : ℤ) (e : min_value_node r ≡ some m).
      rw (search-min_value_node r m o.3 e) at (occurrences-delete_node_helper v r m o.3) in
    ground (
      arith,
      occurrences-delete_node_helper v l val o.2,
      occurrences-delete_node_helper v r val o.3,
      occurrences-delete_found v l d r (delete_node_helper r) least,
      occurrences-node v l d r,
      occurrences-node v (delete_node_helper l val) d r,
      occurrences-node v l d (delete_node_helper r val),
      eq_of_parts val d,
    )
