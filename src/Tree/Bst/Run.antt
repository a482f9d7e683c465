-- ===== src/Tree/Bst/Run.antt =====
-- What a client of BST.cpp's `BST` observes over any sequence of calls: a bag of values.
use dsalib.Core.{
  eq_of_parts, ap, fun_ext, ◌⊎◌, ℕ, ◌≡◌, ◌↔◌, ◌<◌, ◌+◌, ◌-◌, true, List, [], ◌∷◌, ℤ, arith, same,
  count, IsSorted, refl, inl, inr,
}
use dsalib.Tree.Bst.{in_order_helper, Bst, new, insert, search, in_order, delete_node}
use dsalib.Tree.Bst.Order.{
  IsOrdered, insert_helper-IsOrdered, delete_node_helper-IsOrdered, in_order_helper-IsSorted,
}
use dsalib.Tree.Bst.Items.{
  occurrences-insert_helper, occurrences-delete_node_helper, occurs_of_search, absent_of_search,
}

pub data Op : Type 0 where
  insertion : ℤ → Op
  deletion : ℤ → Op

unfoldable pub run : List Op → Bst → Bst
run [] t = t
run (insertion x ∷ ops) t = run ops (insert t x)
run (deletion x ∷ ops) t = run ops (delete_node t x)

-- A bag of values: how often each is in it.
abbrev pub Bag : Type 0
Bag = ℤ → ℕ

abbrev pub put_one : ℤ → Bag → Bag
put_one x f v = f v + same v x

abbrev pub take_one : ℤ → Bag → Bag
take_one x f v = f v - same v x

-- What a tree prints, as a bag.
bag : Bst → Bag
bag t v = count v (in_order t)

-- The same calls on a bag.
unfoldable pub replay : List Op → Bag → Bag
replay [] f = f
replay (insertion x ∷ ops) f = replay ops (put_one x f)
replay (deletion x ∷ ops) f = replay ops (take_one x f)

same-cases : (v x : ℤ) → (v ≡ x) ⊎ (same v x ≡ 0)
unfolding same
same-cases v x = ground (arith, eq_of_parts v x)

bag-delete_node : (t : Bst) (x : ℤ) → IsOrdered t.root → bag (delete_node t x) ≡ take_one x (bag t)
unfolding bag in_order delete_node
bag-delete_node t x o = fun_ext λ v. elim (same-cases v x) [
  | inl e ↦
      ground (arith, e, occurrences-delete_node_helper v t.root x o, absent_of_search t.root x o)
  | inr n ↦ ground (arith, occurrences-delete_node_helper v t.root x o)
]

bag-insert : (t : Bst) (x : ℤ) → bag (insert t x) ≡ put_one x (bag t)
unfolding bag in_order insert
bag-insert t x = fun_ext λ v. occurrences-insert_helper v t.root x

bag-new : bag new ≡ (λ v. 0)
unfolding bag in_order in_order_helper
bag-new = refl

run_refines :
    (ops : List Op) (t : Bst)
    → IsOrdered t.root
    → IsOrdered (run ops t).root × (bag (run ops t) ≡ replay ops (bag t))
unfolding run replay
run_refines [] t o = (o, refl)
run_refines (insertion x ∷ ops) t o =
    rw (bag-insert t x) at
      (run_refines ops (insert t x) (unfold insert in insert_helper-IsOrdered t.root x o))
run_refines (deletion x ∷ ops) t o = rw (bag-delete_node t x o) at (
    run_refines ops (delete_node t x)
      (unfold delete_node in delete_node_helper-IsOrdered t.root x o))

search_iff : (t : Bst) (v : ℤ) → IsOrdered t.root → (search t v ≡ true) ↔ (0 < count v (in_order t))
unfolding search in_order
search_iff t v o = (occurs_of_search t.root v, λ h. ground (arith, absent_of_search t.root v o))

-- After any calls of `insert` and `deleteNode` on a new tree, `inOrder` prints the values of the bag
-- that the same calls make, each as often as it is in the bag and in ascending order, and `search`
-- answers `true` exactly for the values in the bag.
pub run-new_refines :
    (ops : List Op) (v : ℤ)
    → IsSorted (in_order (run ops new))
      × (count v (in_order (run ops new)) ≡ replay ops (λ _. 0) v)
      × ((search (run ops new) v ≡ true) ↔ (0 < replay ops (λ _. 0) v))
run-new_refines ops v =
    let (ordered, counts) = run_refines ops new tt in
    let values : count v (in_order (run ops new)) ≡ replay ops (λ _. 0) v =
      unfold bag in rw bag-new at (ap (λ (f : Bag). f v) counts) in
    (
      unfold in_order in in_order_helper-IsSorted (run ops new).root ordered,
      values,
      rw values at (search_iff (run ops new) v ordered),
    )
