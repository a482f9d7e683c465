-- ===== src/Tree/Nary.antt =====
-- DataStructure/CPP/tree/NaryTree.cpp: a tree whose nodes have at most `m` children. A `Node*` that is
-- not shared is the node that it points to.
pub mod Adds
pub mod Cut
pub mod Removes
mod Examples
use dsalib.Core.{
  cons_parts, ℕ, zero, suc, ◌+◌, ◌-◌, ◌*◌, ◌/◌, ◌%◌, ◌^◌, ◌≤◌, ◌<◌, ◌≡◌, refl, sym, ap, ◌∙◌, subst,
  ◌≢◌, ◌⊎◌, inl, inr, Bool, true, false, not, ◌&&◌, ◌||◌, Option, none, some, List, [], ◌∷◌, ◌++◌,
  arith, ltb, leb, ◌==◌, if◌then◌else◌, Bool-cases, Option-cases, length, get_elem?, set, get_or,
  length-append, length-set, get_or-set_self, get_or-set_ne, get_elem?-get_or, ℤ, pos, negsuc,
  pos_part, neg_part, lt_ℤ, le_ℤ, ◌==ℤ◌, ◌+ℤ◌, ◌-ℤ◌, ==ℤ_iff, eq_of_parts, replicate,
}

-- `Node` and its `children`.
mutual
  pub data Node : Type 0 where
    node : ℤ → Children → Node

  pub data Children : Type 0 where
    no_child : Children
    child : Node → Children → Children

-- `class M_aryTree`
pub record Tree : Type 0 where
  pub root : Option Node
  pub m : ℤ

-- The constructor.
abbrev pub new : ℤ → Tree
new m = record { root = none; m = m }

-- `children.size()`
unfoldable pub size : Children → ℕ
size no_child = 0
size (child n cs) = suc (size cs)

-- `children.push_back(n)`
unfoldable pub push_back : Children → Node → Children
push_back no_child n = child n no_child
push_back (child n' cs) n = child n' (push_back cs n)

-- An `int` that is compared with a `size_t`.
abbrev pub to_size : ℤ → ℕ
to_size (pos n) = n
to_size (negsuc n) = 2 ^ 64 - suc n

-- `search`: the first such node, a parent before its children.
unfoldable mutual
  pub search_node : Node → ℤ → Option Node
  search_node (node d cs) value = elim (d ==ℤ value) [
    | true ↦ some (node d cs)
    | false ↦ search_children cs value
  ]

  pub search_children : Children → ℤ → Option Node
  search_children no_child value = none
  search_children (child n cs) value = elim (search_node n value) [
    | some found ↦ some found
    | none ↦ search_children cs value
  ]

-- `parentNode->children.push_back(n)` through the pointer that `search` returns; `none` if it is null.
unfoldable mutual
  pub push_node : Node → (parent : ℤ) → Node → Option Node
  push_node (node d cs) parent n = elim (d ==ℤ parent) [
    | true ↦ some (node d (push_back cs n))
    | false ↦ elim (push_children cs parent n) [ none ↦ none | some cs' ↦ some (node d cs') ]
  ]

  pub push_children : Children → (parent : ℤ) → Node → Option Children
  push_children no_child parent n = none
  push_children (child n' cs) parent n = elim (push_node n' parent n) [
    | some changed ↦ some (child changed cs)
    | none ↦ elim (push_children cs parent n) [ none ↦ none | some cs' ↦ some (child n' cs') ]
  ]

-- The children of the node that `search` returned, counted, are fewer than `m`.
unfoldable pub has_room : Node → ℤ → Bool
has_room (node d cs) m = ltb (size cs) (to_size m)

-- `insert`
unfoldable pub insert : Tree → (parent value : ℤ) → Tree
insert t parent value = elim t.root [
  | none ↦ record t { root = some (node value no_child) }
  | some r ↦ elim (search_node r parent) [
    | none ↦ t
    | some found ↦ elim (has_room found t.m) [
      | true ↦ record t { root = push_node r parent (node value no_child) }
      | false ↦ t
    ]
  ]
]

-- `deleteNodeHelper`
unfoldable mutual
  pub delete_helper : Node → ℤ → Node
  delete_helper (node d cs) value = node d (delete_children cs value)

  -- Its loop over the children.
  pub delete_children : Children → ℤ → Children
  delete_children no_child value = no_child
  delete_children (child n cs) value = elim (holds n value) [
    | true ↦ cs
    | false ↦ child (delete_helper n value) (delete_children cs value)
  ]

  -- `child->data == data`
  pub holds : Node → ℤ → Bool
  holds (node d cs) value = d ==ℤ value

-- `deleteNode`
unfoldable pub delete_node : Tree → ℤ → Tree
delete_node t value = elim t.root [
  | none ↦ t
  | some r ↦ elim (holds r value) [
    | true ↦ record t { root = none }
    | false ↦ record t { root = some (delete_helper r value) }
  ]
]

-- `traverseDFS`: the values that it prints.
unfoldable mutual
  pub traverse_dfs : Node → List ℤ
  traverse_dfs (node d cs) = d ∷ traverse_children cs

  pub traverse_children : Children → List ℤ
  traverse_children no_child = []
  traverse_children (child n cs) = traverse_dfs n ++ traverse_children cs

-- `printTree`
unfoldable pub print_tree : Tree → List ℤ
print_tree t = elim t.root [ none ↦ [] | some r ↦ traverse_dfs r ]
