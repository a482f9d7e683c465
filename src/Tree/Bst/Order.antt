-- ===== src/Tree/Bst/Order.antt =====
-- The search order of BST.cpp: smaller values to the left, equal and larger ones to the right.
use dsalib.Core.{◌≡◌, some, ◌∷◌, ℤ, ◌<ℤ◌, ◌≤ℤ◌, arith, All, All-append}
use dsalib.Core.{IsSorted, IsSorted-append}
use dsalib.Tree.Bst.{
  Tree, leaf, node, insert_helper, in_order_helper, min_value_node, delete_found,
  delete_node_helper,
}

-- Every value of the tree satisfies `P`.
abbrev pub AllIn : (ℤ → Type 0) → Tree → Type 0
AllIn P leaf = Unit
AllIn P (node l d r) = AllIn P l × P d × AllIn P r

abbrev pub IsOrdered : Tree → Type 0
IsOrdered leaf = Unit
IsOrdered (node l d r) = AllIn (λ x. x <ℤ d) l × AllIn (λ x. d ≤ℤ x) r × IsOrdered l × IsOrdered r

pub AllIn-imp : {P Q : ℤ → Type 0} (t : Tree) → ((x : ℤ) → P x → Q x) → AllIn P t → AllIn Q t
AllIn-imp leaf f h = tt
AllIn-imp (node l d r) f h = (AllIn-imp l f h.0, f d h.1, AllIn-imp r f h.2)

AllIn-insert_helper :
    (P : ℤ → Type 0) (t : Tree) (val : ℤ) → P val → AllIn P t → AllIn P (insert_helper t val)
unfolding insert_helper
AllIn-insert_helper P leaf val p h = (tt, p, tt)
AllIn-insert_helper P (node l d r) val p h =
    ground (arith, AllIn-insert_helper P l val, AllIn-insert_helper P r val)

pub insert_helper-IsOrdered : (t : Tree) (val : ℤ) → IsOrdered t → IsOrdered (insert_helper t val)
unfolding insert_helper
insert_helper-IsOrdered leaf val h = (tt, tt, tt, tt)
insert_helper-IsOrdered (node l d r) val h = ground (
  arith,
  insert_helper-IsOrdered l val,
  insert_helper-IsOrdered r val,
  AllIn-insert_helper (λ x. x <ℤ d) l val,
  AllIn-insert_helper (λ x. d ≤ℤ x) r val,
)

-- A tree with a root has a least value.
pub min_value_node-some :
    (l : Tree) (d : ℤ) (r : Tree) → (m : ℤ) × (min_value_node (node l d r) ≡ some m)
unfolding min_value_node
min_value_node-some leaf d r = (d, ground arith)
min_value_node-some (node ll ld lr) d r = min_value_node-some ll ld lr

pub AllIn-min_value_node :
    (P : ℤ → Type 0) (t : Tree) (m : ℤ) → min_value_node t ≡ some m → AllIn P t → P m
unfolding min_value_node
AllIn-min_value_node P leaf m e h = absurd (ground arith)
AllIn-min_value_node P (node leaf d r) m e h = ground arith
AllIn-min_value_node P (node (node ll ld lr) d r) m e h =
    AllIn-min_value_node P (node ll ld lr) m e h.0

-- The value that `minValueNode` finds is least in an ordered tree.
pub min_value_node_least :
    (t : Tree) (m : ℤ) → IsOrdered t → min_value_node t ≡ some m → AllIn (λ x. m ≤ℤ x) t
unfolding min_value_node
min_value_node_least leaf m h e = tt
min_value_node_least (node leaf d r) m h e = ground arith
min_value_node_least (node (node ll ld lr) d r) m h e =
    let low = min_value_node_least (node ll ld lr) m h.2 e in
    let below = AllIn-min_value_node (λ x. x <ℤ d) (node ll ld lr) m e h.0 in
    (low, omega arith, AllIn-imp r (λ x (k : d ≤ℤ x). omega arith) h.1)

AllIn-delete_found :
    (P : ℤ → Type 0) (l : Tree) (d : ℤ) (r : Tree) (delete_right : ℤ → Tree)
    → AllIn P (node l d r)
    → ((m : ℤ) → AllIn P (delete_right m))
    → AllIn P (delete_found l d r delete_right)
unfolding delete_found
AllIn-delete_found P leaf d r del h k = h.2
AllIn-delete_found P (node ll ld lr) d leaf del h k = h.0
AllIn-delete_found P (node ll ld lr) d (node rl rd rr) del h k =
    let (m, e) = min_value_node-some rl rd rr in
    rw (e, delete_found) (h.0, AllIn-min_value_node P (node rl rd rr) m e h.2, k m)

pub AllIn-delete_node_helper :
    (P : ℤ → Type 0) (t : Tree) (val : ℤ) → AllIn P t → AllIn P (delete_node_helper t val)
unfolding delete_node_helper
AllIn-delete_node_helper P leaf val h = tt
AllIn-delete_node_helper P (node l d r) val h = ground (
  arith,
  AllIn-delete_node_helper P l val h.0,
  AllIn-delete_node_helper P r val h.2,
  AllIn-delete_found P l d r (delete_node_helper r) h (λ m. AllIn-delete_node_helper P r m h.2),
)

delete_found-IsOrdered :
    (l : Tree) (d : ℤ) (r : Tree)
    → IsOrdered (node l d r)
    → ((m : ℤ) → IsOrdered (delete_node_helper r m))
    → IsOrdered (delete_found l d r (delete_node_helper r))
unfolding delete_found
delete_found-IsOrdered leaf d r h k = h.3
delete_found-IsOrdered (node ll ld lr) d leaf h k = h.2
delete_found-IsOrdered (node ll ld lr) d (node rl rd rr) h k =
    let (m, e) = min_value_node-some rl rd rr in
    let right = node rl rd rr in
    let above : d ≤ℤ m = AllIn-min_value_node (λ x. d ≤ℤ x) right m e h.1 in
    let least = min_value_node_least right m h.3 e in
    rw (e, delete_found)
      (
        AllIn-imp (node ll ld lr) (λ x (p : x <ℤ d). omega arith) h.0,
        AllIn-delete_node_helper (λ x. m ≤ℤ x) right m least,
        h.2,
        k m,
      )

pub delete_node_helper-IsOrdered :
    (t : Tree) (val : ℤ) → IsOrdered t → IsOrdered (delete_node_helper t val)
unfolding delete_node_helper
delete_node_helper-IsOrdered leaf val h = tt
delete_node_helper-IsOrdered (node l d r) val h = ground (
  arith,
  delete_node_helper-IsOrdered l val h.2,
  delete_node_helper-IsOrdered r val h.3,
  AllIn-delete_node_helper (λ x. x <ℤ d) l val h.0,
  AllIn-delete_node_helper (λ x. d ≤ℤ x) r val h.1,
  delete_found-IsOrdered l d r h (λ m. delete_node_helper-IsOrdered r m h.3),
)

pub All-in_order_helper : (P : ℤ → Type 0) (t : Tree) → AllIn P t → All P (in_order_helper t)
unfolding in_order_helper
All-in_order_helper P leaf h = tt
All-in_order_helper P (node l d r) h =
    All-append P (in_order_helper l) (d ∷ in_order_helper r) (All-in_order_helper P l h.0)
      (h.1, All-in_order_helper P r h.2)

pub in_order_helper-IsSorted : (t : Tree) → IsOrdered t → IsSorted (in_order_helper t)
unfolding in_order_helper IsSorted
in_order_helper-IsSorted leaf h = tt
in_order_helper-IsSorted (node l d r) h =
    let high = All-in_order_helper (λ x. d ≤ℤ x) r h.1 in
    let low =
      All-in_order_helper (λ x. x ≤ℤ d) l (AllIn-imp l (λ x (p : x <ℤ d). omega arith) h.0) in
    IsSorted-append (in_order_helper l) (d ∷ in_order_helper r) d (in_order_helper-IsSorted l h.2)
      (high, in_order_helper-IsSorted r h.3) low (omega arith, high)
