-- ===== src/Tree/BstOwned/Agrees.antt =====
-- BST_smartptr.cpp answers every call as BST.cpp does.
use dsalib.Core.{
  sym, ◌≡◌, refl, ap, ◌∙◌, none, some, List, [], ◌∷◌, ℤ, arith, Option-cases, inl, inr,
}
use dsalib.Tree.Bst
use dsalib.Tree.Bst.{Tree, Bst}
use dsalib.Tree.Bst.Run
use dsalib.Tree.Bst.Run.{Op, insertion, deletion}
use dsalib.Tree.BstOwned.{
  Owned, null, node, insert_helper, search_helper, in_order_helper, min_value_node, delete_found,
  delete_node_helper, BstOwned, new, insert, search, in_order, delete_node,
}

-- The same tree with raw pointers.
view : Owned → Tree
view null = Tree.leaf
view (node d left right) = Tree.node (view left) d (view right)

view-insert_helper : (t : Owned) (x : ℤ) → view (insert_helper t x) ≡ Bst.insert_helper (view t) x
unfolding view insert_helper Bst.insert_helper
view-insert_helper null x = refl
view-insert_helper (node d l r) x = ground (arith, view-insert_helper l x, view-insert_helper r x)

search_helper-view : (t : Owned) (x : ℤ) → search_helper t x ≡ Bst.search_helper (view t) x
unfolding view search_helper Bst.search_helper
search_helper-view null x = refl
search_helper-view (node d l r) x = ground (arith, search_helper-view l x, search_helper-view r x)

in_order_helper-view : (t : Owned) → in_order_helper t ≡ Bst.in_order_helper (view t)
unfolding view in_order_helper Bst.in_order_helper
in_order_helper-view null = refl
in_order_helper-view (node d l r) = rw (in_order_helper-view l, in_order_helper-view r)

min_value_node-view : (t : Owned) → min_value_node t ≡ Bst.min_value_node (view t)
unfolding view min_value_node Bst.min_value_node
min_value_node-view null = refl
min_value_node-view (node d null r) = refl
min_value_node-view (node d (node ld ll lr) r) = min_value_node-view (node ld ll lr)

view-delete_found :
    (d : ℤ) (l r : Owned) (f : ℤ → Owned) (g : ℤ → Tree)
    → ((m : ℤ) → view (f m) ≡ g m)
    → view (delete_found d l r f) ≡ Bst.delete_found (view l) d (view r) g
unfolding view delete_found Bst.delete_found
view-delete_found d null r f g h = refl
view-delete_found d (node ld ll lr) null f g h = refl
view-delete_found d (node ld ll lr) (node rd rl rr) f g h =
    let right = Tree.node (view rl) rd (view rr) in
    let same : Bst.min_value_node right ≡ min_value_node (node rd rl rr) =
      sym (min_value_node-view (node rd rl rr)) in
    elim (Option-cases (min_value_node (node rd rl rr))) [
      | inl missing ↦
          let there : Bst.min_value_node right ≡ none = same ∙ missing in
          rw (missing, there, view, Bst.delete_found) refl
      | inr (m, found) ↦
          let there : Bst.min_value_node right ≡ some m = same ∙ found in
          rw (found, there, view, Bst.delete_found)
            (ap (Tree.node (Tree.node (view ll) ld (view lr)) m) (h m))
    ]

view-delete_node_helper :
    (t : Owned) (x : ℤ) → view (delete_node_helper t x) ≡ Bst.delete_node_helper (view t) x
unfolding view delete_node_helper Bst.delete_node_helper
view-delete_node_helper null x = refl
view-delete_node_helper (node d l r) x = ground (
  arith,
  view-delete_node_helper l x,
  view-delete_node_helper r x,
  view-delete_found d l r (delete_node_helper r) (Bst.delete_node_helper (view r))
      (λ m. view-delete_node_helper r m),
)

-- A client's calls.
unfoldable pub run : List Op → BstOwned → BstOwned
run [] t = t
run (insertion x ∷ ops) t = run ops (insert t x)
run (deletion x ∷ ops) t = run ops (delete_node t x)

raw : BstOwned → Bst
raw t = record { root = view t.root }

raw-insert : (t : BstOwned) (x : ℤ) → raw (insert t x) ≡ Bst.insert (raw t) x
unfolding raw insert Bst.insert
raw-insert t x = ap (λ r. record { root = r }) (view-insert_helper t.root x)

raw-delete_node : (t : BstOwned) (x : ℤ) → raw (delete_node t x) ≡ Bst.delete_node (raw t) x
unfolding raw delete_node Bst.delete_node
raw-delete_node t x = ap (λ r. record { root = r }) (view-delete_node_helper t.root x)

in_order-raw : (t : BstOwned) → in_order t ≡ Bst.in_order (raw t)
unfolding raw in_order Bst.in_order
in_order-raw t = in_order_helper-view t.root

search-raw : (t : BstOwned) (x : ℤ) → search t x ≡ Bst.search (raw t) x
unfolding raw search Bst.search
search-raw t x = search_helper-view t.root x

raw-run : (ops : List Op) (t : BstOwned) → raw (run ops t) ≡ Run.run ops (raw t)
unfolding run Run.run
raw-run [] t = refl
raw-run (insertion x ∷ ops) t = raw-run ops (insert t x) ∙ ap (Run.run ops) (raw-insert t x)
raw-run (deletion x ∷ ops) t =
    raw-run ops (delete_node t x) ∙ ap (Run.run ops) (raw-delete_node t x)

-- After the same calls of `insert` and `deleteNode` on new trees, the tree of BST_smartptr.cpp prints
-- what the tree of BST.cpp prints, and finds the same values.
pub run-agrees :
    (ops : List Op) (x : ℤ)
    → (in_order (run ops new) ≡ Bst.in_order (Run.run ops Bst.new))
      × (search (run ops new) x ≡ Bst.search (Run.run ops Bst.new) x)
run-agrees ops x =
    let same = raw-run ops new in
    let start : raw new ≡ Bst.new = unfold raw view in refl in
    let both = same ∙ ap (Run.run ops) start in
    (
      in_order-raw (run ops new) ∙ ap Bst.in_order both,
      search-raw (run ops new) x ∙ ap (λ t. Bst.search t x) both,
    )
