-- ===== src/Tree/Nary/Removes.antt =====
-- What `deleteNode` removes.
use dsalib.Core.{
  sym, ap, [], ◌∷◌, ℕ, ◌≤◌, ◌<◌, ◌≡◌, refl, inl, inr, true, false, Option, none, some, arith,
  Bool-cases, Option-cases, ℤ, eq_of_parts,
}
use dsalib.Core.{count, count-append, same}
use mathlib.Core.List.{append-nil}
use dsalib.Tree.Nary.Cut.{Cut, Cut-behind, Cut-before}
use dsalib.Tree.Nary.Adds.{BoundedNode, BoundedChildren, BoundedRoot, IsBounded}
use dsalib.Tree.Nary.{
  size, to_size, Node, node, Children, no_child, child, Tree, search_node, search_children,
  delete_helper, delete_children, holds, delete_node, traverse_dfs, traverse_children, print_tree,
}

module _ (value : ℤ) where
  mutual
    unfolding search_node traverse_dfs same

    -- What `search` does not find is not printed.
    search_node-absent : (t : Node) → search_node t value ≡ none → count value (traverse_dfs t) ≡ 0
    search_node-absent (node d cs) h =
        ground (arith, h, search_children-absent cs, eq_of_parts d value)

    search_children-absent :
        (cs : Children) → search_children cs value ≡ none → count value (traverse_children cs) ≡ 0
    search_children-absent no_child h = refl
    search_children-absent (child t cs) h = ground (
      arith,
      h,
      search_node-absent t,
      search_children-absent cs,
      count-append value (traverse_dfs t) (traverse_children cs),
    )

  mutual
    unfolding search_node traverse_dfs same

    search_node-present :
        (t found : Node) → search_node t value ≡ some found → 0 < count value (traverse_dfs t)
    search_node-present (node d cs) found h =
        ground (arith, h, search_children-present cs found, eq_of_parts d value)

    search_children-present :
        (cs : Children) (found : Node)
        → search_children cs value ≡ some found
        → 0 < count value (traverse_children cs)
    search_children-present no_child found h = absurd (ground (arith, h))
    search_children-present (child t cs) found h = ground (
      arith,
      h,
      search_node-present t found,
      search_children-present cs found,
      count-append value (traverse_dfs t) (traverse_children cs),
    )

  mutual
    unfolding delete_helper search_node

    delete_helper-absent : (t : Node) → search_node t value ≡ none → delete_helper t value ≡ t
    delete_helper-absent (node d cs) h = ground (arith, h, delete_children-absent cs)

    delete_children-absent :
        (cs : Children) → search_children cs value ≡ none → delete_children cs value ≡ cs
    delete_children-absent no_child h = refl
    delete_children-absent (child (node d below) cs) h =
        ground (arith, h, delete_helper-absent (node d below), delete_children-absent cs)

  holds-search_node : (t : Node) → holds t value ≡ true → search_node t value ≡ some t
  unfolding search_node delete_helper
  holds-search_node (node d cs) h = ground (arith, h)

  delete_children-here :
      (t : Node) (cs : Children) → holds t value ≡ true → delete_children (child t cs) value ≡ cs
  unfolding delete_helper
  delete_children-here t cs h = ground (arith, h)

  delete_children-apart :
      (t : Node) (cs : Children)
      → holds t value ≡ false
      → delete_children (child t cs) value
        ≡ child (delete_helper t value) (delete_children cs value)
  unfolding delete_helper
  delete_children-apart t cs h = ground (arith, h)

  not_found :
      (cs : Children) → count value (traverse_children cs) ≡ 0 → search_children cs value ≡ none
  not_found cs h = elim (Option-cases (search_children cs value)) [
    | inl missing ↦ missing
    | inr (there, s) ↦ absurd (omega (arith, search_children-present cs there s))
  ]

  mutual
    unfolding delete_helper search_node traverse_dfs

    -- Below a node that does not hold the value, what is printed less is what the first one prints.
    delete_helper-Cut :
        (t found : Node)
        → holds t value ≡ false
        → search_node t value ≡ some found
        → count value (traverse_dfs t) ≤ 1
        → Cut (traverse_dfs t) (traverse_dfs found) (traverse_dfs (delete_helper t value))
    delete_helper-Cut (node d cs) found h s once =
        Cut-behind (d ∷ []) (delete_children-Cut cs found (ground (arith, h, s)) (omega arith))

    delete_children-Cut :
        (cs : Children) (found : Node)
        → search_children cs value ≡ some found
        → count value (traverse_children cs) ≤ 1
        → Cut
            (traverse_children cs)
            (traverse_dfs found)
            (traverse_children (delete_children cs value))
    delete_children-Cut no_child found s once = absurd (ground (arith, s))
    delete_children-Cut (child t cs) found s once =
        let split = count-append value (traverse_dfs t) (traverse_children cs) in
        elim (Bool-cases (holds t value)) [
          | inl here ↦
              let first = holds-search_node t here in
              let e : found ≡ t = ground (arith, s, first) in
              rw (delete_children-here t cs here, e)
                (record { front = []; back = traverse_children cs; whole = refl; left = refl })
          | inr apart ↦ elim (Option-cases (search_node t value)) [
            | inr (there, h) ↦
                let e : found ≡ there = ground (arith, s, h) in
                let rest : delete_children cs value ≡ cs =
                  delete_children-absent cs
                    (not_found cs (omega (arith, split, search_node-present t there h))) in
                rw (delete_children-apart t cs apart, e, rest)
                  (Cut-before (traverse_children cs)
                    (delete_helper-Cut t there apart h (omega (arith, split))))
            | inl h ↦
                let whole = delete_helper-absent t h in
                let found_behind : search_children cs value ≡ some found = ground (arith, s, h) in
                rw (delete_children-apart t cs apart, whole)
                  (Cut-behind (traverse_dfs t)
                    (delete_children-Cut cs found found_behind (omega (arith, split))))
          ]
        ]

  mutual
    unfolding delete_helper size

    delete_helper-BoundedNode :
        (bound : ℕ) (t : Node) → BoundedNode bound t → BoundedNode bound (delete_helper t value)
    delete_helper-BoundedNode bound (node d cs) (few, b) =
        let (fewer, b') = delete_children-BoundedChildren bound cs b in (omega arith, b')

    delete_children-BoundedChildren :
        (bound : ℕ) (cs : Children)
        → BoundedChildren bound cs
        → (size (delete_children cs value) ≤ size cs)
          × BoundedChildren bound (delete_children cs value)
    delete_children-BoundedChildren bound no_child b = (omega arith, tt)
    delete_children-BoundedChildren bound (child t cs) (b, bs) =
        let (fewer, bs') = delete_children-BoundedChildren bound cs bs in
        let b' = delete_helper-BoundedNode bound t b in
        elim (Bool-cases (holds t value)) [
          | inl here ↦ rw (delete_children-here t cs here) (omega arith, bs)
          | inr apart ↦ rw (delete_children-apart t cs apart) (omega arith, (b', bs'))
        ]

-- The tree is left as it is if it has no such node; if it has, what it prints has lost the stretch that
-- the subtree at the node that `search` finds prints.
abbrev pub CutAt : (before : Option Node) → (value : ℤ) → Tree → Tree → Type 0
CutAt none value t t' = t' ≡ t
CutAt (some r) value t t' = elim (search_node r value) [
  | none ↦ t' ≡ t
  | some found ↦ Cut (print_tree t) (traverse_dfs found) (print_tree t')
]

abbrev pub Removed : (before after : Tree) → ℤ → Type 0
Removed t t' value = IsBounded t' × CutAt t.root value t t'

CutAt-absent :
    (r : Node) (value : ℤ) (t t' : Tree)
    → search_node r value ≡ none
    → t' ≡ t
    → CutAt (some r) value t t'
CutAt-absent r value t t' h e = rw (h, CutAt) e

CutAt-found :
    (r found : Node) (value : ℤ) (t t' : Tree)
    → search_node r value ≡ some found
    → Cut (print_tree t) (traverse_dfs found) (print_tree t')
    → CutAt (some r) value t t'
CutAt-found r found value t t' h c = rw (h, CutAt) c

delete_root-Removed :
    (root : Option Node) (m value : ℤ)
    → BoundedRoot m root
    → count value (print_tree (record { root = root; m = m })) ≤ 1
    → Removed
        (record { root = root; m = m })
        (delete_node (record { root = root; m = m }) value)
        value
unfolding delete_node print_tree
delete_root-Removed none m value b once = (tt, refl)
delete_root-Removed (some r) m value b once =
    let t : Tree = record { root = some r; m = m } in
    elim (Bool-cases (holds r value)) [
      | inl here ↦
          let gone : Tree = record { root = none; m = m } in
          let first = holds-search_node value r here in
          let cut : Cut (traverse_dfs r) (traverse_dfs r) [] = record {
            front = [];
            back = [];
            whole = sym (append-nil (traverse_dfs r));
            left = refl;
          } in
          rw (delete_node, here) (tt, CutAt-found r r value t gone first cut)
      | inr apart ↦
          let below : Tree = record { root = some (delete_helper r value); m = m } in
          let bounded = delete_helper-BoundedNode value (to_size m) r b in
          elim (Option-cases (search_node r value)) [
            | inl missing ↦
                let same : below ≡ t =
                  ap (λ (n : Node). record { root = some n; m = m })
                    (delete_helper-absent value r missing) in
                rw (delete_node, apart) (bounded, CutAt-absent r value t below missing same)
            | inr (found, h) ↦
                let cut = delete_helper-Cut value r found apart h once in
                rw (delete_node, apart) (bounded, CutAt-found r found value t below h cut)
          ]
    ]

-- In a tree whose nodes have at most `m` children and that prints the value at most once, `deleteNode`
-- changes nothing if `search` does not find the value; if it does, `printTree` prints afterwards what it
-- printed before, in the same order, without the stretch that the subtree at the found node prints. The
-- nodes still have at most `m` children.
pub delete_node-Removes :
    (t : Tree) (value : ℤ)
    → IsBounded t
    → count value (print_tree t) ≤ 1
    → Removed t (delete_node t value) value
delete_node-Removes t value b once = delete_root-Removed t.root t.m value b once
