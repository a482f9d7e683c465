-- ===== src/Tree/Nary/Adds.antt =====
-- What `insert` adds, and where it has no room.
use dsalib.Core.{
  ltb→lt, ℕ, suc, ◌+◌, ◌≤◌, ◌≡◌, refl, ap, ◌∙◌, inl, inr, Bool, true, false, Option, none, some, [],
  arith, if◌then◌else◌, Bool-cases, Option-cases, ℤ, ◌==ℤ◌,
}
use dsalib.Core.{count, count-append, same}
use dsalib.Tree.Nary.{
  Node, node, Children, no_child, child, Tree, size, push_back, to_size, search_node,
  search_children, push_node, push_children, has_room, insert, traverse_dfs, traverse_children,
  print_tree,
}

-- Every node has at most so many children.
abbrev mutual
  pub BoundedNode : ℕ → Node → Type 0
  BoundedNode bound (node d cs) = (size cs ≤ bound) × BoundedChildren bound cs

  pub BoundedChildren : ℕ → Children → Type 0
  BoundedChildren bound no_child = Unit
  BoundedChildren bound (child n cs) = BoundedNode bound n × BoundedChildren bound cs

size-push_back : (cs : Children) (n : Node) → size (push_back cs n) ≡ suc (size cs)
unfolding size push_back
size-push_back no_child n = refl
size-push_back (child n' cs) n = ap suc (size-push_back cs n)

push_back-BoundedChildren :
    (bound : ℕ) (cs : Children) (n : Node)
    → BoundedChildren bound cs
    → BoundedNode bound n
    → BoundedChildren bound (push_back cs n)
unfolding push_back
push_back-BoundedChildren bound no_child n h b = (b, tt)
push_back-BoundedChildren bound (child n' cs) n (h, hs) b =
    (h, push_back-BoundedChildren bound cs n hs b)

count-push_back :
    (x : ℤ) (cs : Children) (n : Node)
    → count x (traverse_children (push_back cs n))
      ≡ count x (traverse_children cs) + count x (traverse_dfs n)
unfolding push_back traverse_dfs
count-push_back x no_child n = count-append x (traverse_dfs n) [] ∙ omega arith
count-push_back x (child n' cs) n =
    count-append x (traverse_dfs n') (traverse_children (push_back cs n))
    ∙ omega (arith, count-append x (traverse_dfs n') (traverse_children cs), count-push_back x cs n)

module _ (m : ℤ) (parent : ℤ) (n : Node) (small : BoundedNode (to_size m) n) where
  -- The node is put below one of the tree, which stays bounded.
  abbrev Pushed : Node → Type 0
  Pushed t =
      (t' : Node) × (push_node t parent n ≡ some t')
      × ((x : ℤ) → count x (traverse_dfs t') ≡ count x (traverse_dfs t) + count x (traverse_dfs n))
      × BoundedNode (to_size m) t'

  abbrev PushedIn : Children → Type 0
  PushedIn cs =
      (cs' : Children) × (push_children cs parent n ≡ some cs')
      × ((x : ℤ)
          → count x (traverse_children cs')
            ≡ count x (traverse_children cs) + count x (traverse_dfs n))
      × (size cs' ≡ size cs)
      × BoundedChildren (to_size m) cs'

  mutual
    unfolding search_node push_node traverse_dfs has_room size

    pub push_node-Pushed :
        (t found : Node)
        → search_node t parent ≡ some found
        → has_room found m ≡ true
        → BoundedNode (to_size m) t
        → Pushed t
    push_node-Pushed (node d cs) found s room (few, b) = elim (Bool-cases (d ==ℤ parent)) [
      | inl here ↦
          let e : node d cs ≡ found = ground (arith, s, here) in
          let fits : has_room (node d cs) m ≡ true = ap (λ (t : Node). has_room t m) e ∙ room in
          (
            node d (push_back cs n),
            ground (arith, here),
            (λ x. omega (arith, count-push_back x cs n)),
            (
              omega (arith, size-push_back cs n, ltb→lt (size cs) (to_size m) fits),
              push_back-BoundedChildren (to_size m) cs n b small,
            ),
          )
      | inr below ↦
          let (cs', pushed, counts, sized, b') =
            push_children-PushedIn cs found (ground (arith, s, below)) room b in
          (
            node d cs',
            ground (arith, below, pushed),
            (λ x. omega (arith, counts x)),
            (omega arith, b'),
          )
    ]

    push_children-PushedIn :
        (cs : Children) (found : Node)
        → search_children cs parent ≡ some found
        → has_room found m ≡ true
        → BoundedChildren (to_size m) cs
        → PushedIn cs
    push_children-PushedIn no_child found s room b = absurd (ground (arith, s))
    push_children-PushedIn (child t cs) found s room (b, bs) =
        elim (Option-cases (search_node t parent)) [
          | inr (there, h) ↦
              let e : there ≡ found = ground (arith, s, h) in
              let (t', pushed, counts, b') =
                push_node-Pushed t there h (ap (λ (t : Node). has_room t m) e ∙ room) b in
              (
                child t' cs,
                ground (arith, pushed),
                (λ x.
                    count-append x (traverse_dfs t') (traverse_children cs)
                    ∙ omega
                        (arith, counts x, count-append x (traverse_dfs t) (traverse_children cs))),
                refl,
                (b', bs),
              )
          | inl h ↦
              let (cs', pushed, counts, sized, bs') =
                push_children-PushedIn cs found (ground (arith, s, h)) room bs in
              let passed = push_node-none t h in
              (
                child t cs',
                ground (arith, passed, pushed),
                (λ x.
                    count-append x (traverse_dfs t) (traverse_children cs')
                    ∙ omega
                        (arith, counts x, count-append x (traverse_dfs t) (traverse_children cs))),
                ap suc sized,
                (b, bs'),
              )
        ]

    push_node-none : (t : Node) → search_node t parent ≡ none → push_node t parent n ≡ none
    push_node-none (node d cs) s = elim (Bool-cases (d ==ℤ parent)) [
      | inl here ↦ absurd (ground (arith, s, here))
      | inr below ↦
          let none_below = push_children-none cs (ground (arith, s, below)) in
          ground (arith, below, none_below)
    ]

    push_children-none :
        (cs : Children) → search_children cs parent ≡ none → push_children cs parent n ≡ none
    push_children-none no_child s = refl
    push_children-none (child t cs) s = elim (Option-cases (search_node t parent)) [
      | inr (there, h) ↦ absurd (ground (arith, s, h))
      | inl h ↦
          let passed = push_node-none t h in
          let none_behind = push_children-none cs (ground (arith, s, h)) in
          ground (arith, passed, none_behind)
    ]

abbrev pub BoundedRoot : ℤ → Option Node → Type 0
BoundedRoot m none = Unit
BoundedRoot m (some r) = BoundedNode (to_size m) r

abbrev pub IsBounded : Tree → Type 0
IsBounded t = BoundedRoot t.m t.root

-- Whether the tree is empty, or has the parent and room below the first one.
abbrev pub has_place : Option Node → (m parent : ℤ) → Bool
has_place none m parent = true
has_place (some r) m parent = elim (search_node r parent) [
  | none ↦ false
  | some found ↦ has_room found m
]

abbrev Added : (before after : Tree) → (accepted : Bool) → ℤ → Type 0
Added t t' accepted value =
    IsBounded t'
    × ((x : ℤ)
        → count x (print_tree t') ≡ count x (print_tree t) + (if accepted then same x value else 0))

insert_root-Added :
    (root : Option Node) (m parent value : ℤ)
    → BoundedRoot m root
    → Added
        (record { root = root; m = m })
        (insert (record { root = root; m = m }) parent value)
        (has_place root m parent)
        value
unfolding insert print_tree traverse_dfs size
insert_root-Added none m parent value b = ((omega arith, tt), λ x. omega arith)
insert_root-Added (some r) m parent value b = elim (Option-cases (search_node r parent)) [
  | inl missing ↦
      let place : has_place (some r) m parent ≡ false = ground (arith, missing) in
      rw (place, insert, missing) (b, λ x. omega arith)
  | inr (found, h) ↦ elim (Bool-cases (has_room found m)) [
    | inr full ↦
        let place : has_place (some r) m parent ≡ false = ground (arith, h, full) in
        rw (place, insert, h, full) (b, λ x. omega arith)
    | inl room ↦
        let place : has_place (some r) m parent ≡ true = ground (arith, h, room) in
        let (r', pushed, counts, b') =
          push_node-Pushed m parent (node value no_child) (omega arith, tt) r found h room b in
        rw (place, insert, h, room, pushed) (b', λ x. omega (arith, counts x))
  ]
]

-- In a tree whose nodes have at most `m` children, `insert` keeps that bound, and adds the value once
-- to those that `printTree` prints exactly if the tree is empty, or has the parent and the first parent
-- that `search` finds has fewer than `m` children; otherwise it adds nothing.
pub insert-Adds :
    (t : Tree) (parent value : ℤ)
    → IsBounded t
    → Added t (insert t parent value) (has_place t.root t.m parent) value
insert-Adds t parent value b = insert_root-Added t.root t.m parent value b
