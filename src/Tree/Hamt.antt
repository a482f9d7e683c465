-- ===== src/Tree/Hamt.antt =====
-- DataStructure/CPP/tree/hamt.cpp: a hash array mapped trie. A `shared_ptr<Node>` is the node that it
-- owns, a map of children a list of entries that is read by its keys alone. `hash` is
-- `std::hash<std::string>`, a parameter; keys and values are of any types, with equality of keys.
pub mod Entries
pub mod Lookup
pub mod Removing
pub mod Depth
pub mod Kept
pub mod Digits
pub mod Run
pub mod Collision
mod Examples
use dsalib.Core.{
  ℕ, zero, suc, ◌+◌, ◌*◌, ◌/◌, ◌%◌, ◌^◌, Bool, true, false, if◌then◌else◌, ◌==◌, Option, none, some,
  Eq,
}

-- `LeafNode`, `InternalNode` and its `children`.
mutual
  pub data Node {ℓ κ} (K : Type ℓ) (V : Type κ) : Type (ℓ ⊔ κ) where
    leaf : K → V → Node K V
    internal : Children K V → Node K V

  pub data Children {ℓ κ} (K : Type ℓ) (V : Type κ) : Type (ℓ ⊔ κ) where
    no_children : Children K V
    child : ℕ → Node K V → Children K V → Children K V

module _ {ℓ κ} {K : Type ℓ} {V : Type κ} where
  -- `children.find(index)`
  unfoldable pub find : ℕ → Children K V → Option (Node K V)
  find i no_children = none
  find i (child d n cs) = if i == d then some n else find i cs

  -- `children[index] = n`
  unfoldable pub put : ℕ → Node K V → Children K V → Children K V
  put i n no_children = child i n no_children
  put i n (child d m cs) = if i == d then child d n cs else child d m (put i n cs)

  -- `children.erase(index)`
  unfoldable pub erase : ℕ → Children K V → Children K V
  erase i no_children = no_children
  erase i (child d n cs) = let rest = erase i cs in if i == d then rest else child d n rest

  -- `children.empty()`
  unfoldable pub is_empty : Children K V → Bool
  is_empty no_children = true
  is_empty (child d n cs) = false

-- `(hash >> (level * 5)) & 31`
unfoldable pub index : ℕ → ℕ → ℕ
index hash level = hash / 2 ^ (level * 5) % 32

-- What is to be done with the entry of a node after `removeHelper` looked at it: nothing, as the key is
-- not below it; erase it, as it is the key's leaf or is left with no children; or keep it, changed.
pub data Removal {ℓ κ} (K : Type ℓ) (V : Type κ) : Type (ℓ ⊔ κ) where
  not_found : Removal K V
  gone : Removal K V
  kept : Node K V → Removal K V

module _ {ℓ κ} {K : Type ℓ} {V : Type κ} ⦃e : Eq K⦄ (hash : K → ℕ) where
  -- The body of `insertHelper` for the entry that it finds at the index; `rec` is the recursive call.
  unfoldable pub insert_entry :
      (rec : Children K V → ℕ → K → V → Option (Children K V))
      → Option (Node K V)
      → Children K V
      → (level : ℕ) → K
      → V
      → Option (Children K V)
  insert_entry rec none cs level key value = some (put (index (hash key) level) (leaf key value) cs)
  insert_entry rec (some (leaf k v)) cs level key value = elim (e.beq k key) [
    | true ↦ some (put (index (hash key) level) (leaf k value) cs)
    | false ↦ elim (rec no_children (suc level) k v) [
      | none ↦ none
      | some one ↦ elim (rec one (suc level) key value) [
        | none ↦ none
        | some both ↦ some (put (index (hash key) level) (internal both) cs)
      ]
    ]
  ]
  insert_entry rec (some (internal below)) cs level key value =
      elim (rec below (suc level) key value) [
        | none ↦ none
        | some changed ↦ some (put (index (hash key) level) (internal changed) cs)
      ]

  -- `insertHelper` on the children of a node; `none` when the fuel runs out.
  unfoldable pub insert_helper :
      (fuel : ℕ) → Children K V → (level : ℕ) → K → V → Option (Children K V)
  insert_helper zero cs level key value = none
  insert_helper (suc fuel) cs level key value =
      insert_entry (insert_helper fuel) (find (index (hash key) level) cs) cs level key value

  -- The loop of `lookup` at a node on this level.
  unfoldable mutual
    pub lookup_node : Node K V → (level : ℕ) → K → Option V
    lookup_node (leaf k v) level key = if e.beq k key then some v else none
    lookup_node (internal cs) level key = lookup_child cs (index (hash key) level) (suc level) key

    pub lookup_child : Children K V → (i level : ℕ) → K → Option V
    lookup_child no_children i level key = none
    lookup_child (child d n cs) i level key = elim (i == d) [
      | true ↦ lookup_node n level key
      | false ↦ lookup_child cs i level key
    ]

  -- What `removeHelper` does to the children of a node, given what is to be done with the child.
  unfoldable pub apply_removal : ℕ → Children K V → Removal K V → Children K V
  apply_removal i cs not_found = cs
  apply_removal i cs gone = erase i cs
  apply_removal i cs (kept n) = put i n cs

  -- What the parent of the node is to do.
  unfoldable pub removal : ℕ → Children K V → Removal K V → Removal K V
  removal i cs not_found = not_found
  removal i cs gone = let rest = erase i cs in if is_empty rest then gone else kept (internal rest)
  removal i cs (kept n) = kept (internal (put i n cs))

  -- `removeHelper` below a node.
  unfoldable mutual
    pub remove_node : Node K V → (level : ℕ) → K → Removal K V
    remove_node (leaf k v) level key = if e.beq k key then gone else not_found
    remove_node (internal cs) level key =
        removal (index (hash key) level) cs
          (remove_child cs (index (hash key) level) (suc level) key)

    pub remove_child : Children K V → (i level : ℕ) → K → Removal K V
    remove_child no_children i level key = not_found
    remove_child (child d n cs) i level key = elim (i == d) [
      | true ↦ remove_node n level key
      | false ↦ remove_child cs i level key
    ]

-- `class HAMT`: the children of the root.
pub record Hamt {ℓ κ} (K : Type ℓ) (V : Type κ) : Type (ℓ ⊔ κ) where
  pub root : Children K V

abbrev pub new {ℓ κ} : {K : Type ℓ} {V : Type κ} → Hamt K V
new = record { root = no_children }

module _ {ℓ κ} {K : Type ℓ} {V : Type κ} ⦃e : Eq K⦄ (hash : K → ℕ) where
  unfoldable pub insert : (fuel : ℕ) → Hamt K V → K → V → Option (Hamt K V)
  insert fuel t key value = elim (insert_helper hash fuel t.root 0 key value) [
    | none ↦ none
    | some cs ↦ some (record { root = cs })
  ]

  -- `lookup`, where `none` is "Key not found".
  unfoldable pub lookup : Hamt K V → K → Option V
  lookup t key = lookup_node hash (internal t.root) 0 key

  unfoldable pub remove : Hamt K V → K → Hamt K V
  remove t key =
      let i = index (hash key) 0 in
      record { root = apply_removal hash i t.root (remove_child hash t.root i 1 key) }
