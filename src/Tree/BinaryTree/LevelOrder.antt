-- ===== src/Tree/BinaryTree/LevelOrder.antt =====
-- `printLevelOrder` of BST_smartptr2.cpp: a queue of pointers to nodes, emptied level by level. A pointer
-- in the queue is the node's value and its two children; each line printed is a list.
use dsalib.Core.{
  ℕ, zero, suc, ◌≤◌, ◌≡◌, refl, ap, sym, ◌∙◌, arith, Option, none, some, List, [], ◌∷◌, ◌++◌, ℤ,
  length,
}
use mathlib.Core.List.{append_assoc, append-nil}
use dsalib.Tree.BinaryTree.{Node, null, node, BinaryTree}

-- `const Node<T> *`, not null.
pub record Pointer : Type 0 where
  pub value : ℤ
  pub left : Node
  pub right : Node

-- `if (child) q.push(child.get())`
unfoldable pub push : List Pointer → Node → List Pointer
push q null = q
push q (node value left right) = q ++ (record { value = value; left = left; right = right } ∷ [])

-- The inner loop for `size` rounds: the printed line and the queue that is left.
unfoldable pub print_level : ℕ → List Pointer → List ℤ × List Pointer
print_level zero q = ([], q)
print_level (suc size) [] = ([], [])
print_level (suc size) (current ∷ q) =
    let (line, rest) = print_level size (push (push q current.left) current.right) in
    (current.value ∷ line, rest)

-- A line printed before the lines of a loop that ends.
abbrev pub print_line : List ℤ → Option (List (List ℤ)) → Option (List (List ℤ))
print_line line none = none
print_line line (some lines) = some (line ∷ lines)

-- The outer loop, `none` when the fuel runs out.
unfoldable pub print_levels : ℕ → List Pointer → Option (List (List ℤ))
print_levels fuel [] = some []
print_levels zero (current ∷ q) = none
print_levels (suc fuel) (current ∷ q) =
    let (line, rest) = print_level (length (current ∷ q)) (current ∷ q) in
    print_line line (print_levels fuel rest)

-- `printLevelOrder`
unfoldable pub print_level_order : ℕ → BinaryTree → Option (List (List ℤ))
print_level_order fuel t = print_levels fuel (push [] t.root)

-- The values of a tree by their depth.
unfoldable pub join : List (List ℤ) → List (List ℤ) → List (List ℤ)
join [] ys = ys
join (x ∷ xs) [] = x ∷ xs
join (x ∷ xs) (y ∷ ys) = (x ++ y) ∷ join xs ys

unfoldable pub levels : Node → List (List ℤ)
levels null = []
levels (node value left right) = (value ∷ []) ∷ join (levels left) (levels right)

join_nil : (xs : List (List ℤ)) → join xs [] ≡ xs
unfolding join
join_nil [] = refl
join_nil (x ∷ xs) = refl

join_assoc : (xs ys zs : List (List ℤ)) → join (join xs ys) zs ≡ join xs (join ys zs)
unfolding join
join_assoc [] ys zs = refl
join_assoc (x ∷ xs) [] zs = refl
join_assoc (x ∷ xs) (y ∷ ys) [] = refl
join_assoc (x ∷ xs) (y ∷ ys) (z ∷ zs) = rw (join_assoc xs ys zs, append_assoc x y z) refl

-- The levels of the trees in a queue.
forest : List Pointer → List (List ℤ)
forest [] = []
forest (p ∷ q) = join ((p.value ∷ []) ∷ join (levels p.left) (levels p.right)) (forest q)

-- The children of the nodes in a queue.
children : List Pointer → List Pointer
unfolding push
children [] = []
children (p ∷ q) = push (push [] p.left) p.right ++ children q

values : List Pointer → List ℤ
values [] = []
values (p ∷ q) = p.value ∷ values q

push-append : (q : List Pointer) (t : Node) → push q t ≡ q ++ push [] t
unfolding push
push-append q null = sym (append-nil q)
push-append q (node v l r) = refl

forest-append : (q r : List Pointer) → forest (q ++ r) ≡ join (forest q) (forest r)
unfolding forest
forest-append [] r = unfold join in refl
forest-append (p ∷ q) r = rw (forest-append q r) (
    sym (join_assoc ((p.value ∷ []) ∷ join (levels p.left) (levels p.right)) (forest q) (forest r)))

forest-push : (t : Node) → forest (push [] t) ≡ levels t
unfolding forest push levels
forest-push null = refl
forest-push (node v l r) = join_nil ((v ∷ []) ∷ join (levels l) (levels r))

forest-children_of :
    (p : Pointer) → forest (push (push [] p.left) p.right) ≡ join (levels p.left) (levels p.right)
forest-children_of p =
    ap forest (push-append (push [] p.left) p.right)
    ∙ forest-append (push [] p.left) (push [] p.right)
    ∙ rw (forest-push p.left, forest-push p.right) refl

-- The first level of a queue is its own values, the others are the levels of its children.
forest-step :
    (p : Pointer) (q : List Pointer) → forest (p ∷ q) ≡ values (p ∷ q) ∷ forest (children (p ∷ q))
unfolding join forest children values
forest-step p [] =
    ap (λ xs. (p.value ∷ []) ∷ xs)
      (sym (ap forest (append-nil (push (push [] p.left) p.right)) ∙ forest-children_of p))
forest-step p (p2 ∷ q) =
    let first = (p.value ∷ []) ∷ join (levels p.left) (levels p.right) in
    let rest = children (p2 ∷ q) in
    let behind =
      forest-append (push (push [] p.left) p.right) rest
      ∙ ap (λ xs. join xs (forest rest)) (forest-children_of p) in
    ap (join first) (forest-step p2 q) ∙ ap (λ xs. values (p ∷ p2 ∷ q) ∷ xs) (sym behind)

push-push : (q : List Pointer) (l r : Node) → push (push q l) r ≡ q ++ push (push [] l) r
push-push q l r =
    push-append (push q l) r
    ∙ ap (λ xs. xs ++ push [] r) (push-append q l)
    ∙ append_assoc q (push [] l) (push [] r)
    ∙ ap (λ xs. q ++ xs) (sym (push-append (push [] l) r))

print_level-children :
    (q r : List Pointer) → print_level (length q) (q ++ r) ≡ (values q, r ++ children q)
unfolding print_level values children
print_level-children [] r = ap (λ s. ([], s)) (sym (append-nil r))
print_level-children (p ∷ q) r =
    let kids = push (push [] p.left) p.right in
    let queue : push (push (q ++ r) p.left) p.right ≡ q ++ (r ++ kids) =
      push-push (q ++ r) p.left p.right ∙ append_assoc q r kids in
    rw (queue, print_level-children q (r ++ kids), append_assoc r kids (children q)) refl

print_levels-forest :
    (fuel : ℕ) (q : List Pointer) → length (forest q) ≤ fuel → print_levels fuel q ≡ some (forest q)
unfolding print_levels
print_levels-forest fuel [] h = unfold forest in ground arith
print_levels-forest zero (p ∷ q) h = absurd (omega (arith, ap length (forest-step p q)))
print_levels-forest (suc fuel) (p ∷ q) h =
    let level =
      ap (print_level (length (p ∷ q))) (sym (append-nil (p ∷ q)))
      ∙ print_level-children (p ∷ q) [] in
    let size = ap length (forest-step p q) in
    let below = print_levels-forest fuel (children (p ∷ q)) (omega (arith, size)) in
    rw level (rw below (ap some (sym (forest-step p q))))

-- `printLevelOrder` ends for every tree, in as many rounds as the tree has levels at most, and the
-- lines that it prints are the levels of the tree from the root down, each from left to right.
pub print_level_order-levels :
    (t : BinaryTree) (fuel : ℕ)
    → length (levels t.root) ≤ fuel
    → print_level_order fuel t ≡ some (levels t.root)
unfolding print_level_order
print_level_order-levels t fuel h =
    let same = forest-push t.root in
    print_levels-forest fuel (push [] t.root) (omega (arith, ap length same)) ∙ ap some same
