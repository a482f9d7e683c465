-- ===== src/Tree/Trie.antt =====
-- DataStructure/CPP/tree/trie.cpp: a trie of words. A `TrieNode*` is the subtrie that it owns, a `char`
-- its code, and `unordered_map<char, TrieNode*>` a list of entries that is read by its keys alone.
pub mod Find
pub mod Words
pub mod Pruned
mod Examples
use dsalib.Core.{
  ℕ, Bool, true, false, not, ◌&&◌, ◌==◌, if◌then◌else◌, Option, none, some, List, [], ◌∷◌,
}

-- `struct TrieNode`: `isEndOfWord` and `children`.
mutual
  pub data TrieNode : Type 0 where
    trie_node : Bool → Children → TrieNode

  pub data Children : Type 0 where
    no_children : Children
    child : ℕ → TrieNode → Children → Children

-- `TrieNode()`
abbrev pub new : TrieNode
new = trie_node false no_children

-- `children.find(c)`, `children.count(c)`
unfoldable pub find : ℕ → Children → Option TrieNode
find c no_children = none
find c (child d n cs) = if c == d then some n else find c cs

-- `children[c] = n`
unfoldable pub put : ℕ → TrieNode → Children → Children
put c n no_children = child c n no_children
put c n (child d m cs) = if c == d then child d n cs else child d m (put c n cs)

-- `children.erase(c)`
unfoldable pub erase : ℕ → Children → Children
erase c no_children = no_children
erase c (child d n cs) = let rest = erase c cs in if c == d then rest else child d n rest

-- `children.empty()`
unfoldable pub is_empty : Children → Bool
is_empty no_children = true
is_empty (child c n cs) = false

-- `children[c]` after a missing entry was made.
unfoldable pub child_or_new : ℕ → Children → TrieNode
child_or_new c cs = elim (find c cs) [ none ↦ new | some n ↦ n ]

-- `insert`: the loop goes down by one character of the key.
unfoldable pub insert : TrieNode → List ℕ → TrieNode
insert (trie_node e cs) [] = trie_node true cs
insert (trie_node e cs) (c ∷ key) = trie_node e (put c (insert (child_or_new c cs) key) cs)

-- `search`
unfoldable pub search : TrieNode → List ℕ → Bool
search (trie_node e cs) [] = e
search (trie_node e cs) (c ∷ key) = elim (find c cs) [ none ↦ false | some n ↦ search n key ]

-- The end of `deleteHelper`, after the recursive call on the child at `c` gave the new child and
-- `shouldDeleteCurrentNode`.
unfoldable pub after_delete : Bool → Children → ℕ → TrieNode × Bool → TrieNode × Bool
after_delete e cs c (n, true) = let rest = erase c cs in (trie_node e rest, not e && is_empty rest)
after_delete e cs c (n, false) = (trie_node e (put c n cs), false)

-- `deleteHelper`: the node as it is left, and the result. The key is the part from `depth` on.
unfoldable pub delete_helper : TrieNode → List ℕ → TrieNode × Bool
unfolding after_delete
delete_helper (trie_node true cs) [] = (trie_node false cs, is_empty cs)
delete_helper (trie_node false cs) [] = (trie_node false cs, false)
delete_helper (trie_node e cs) (c ∷ key) = elim (find c cs) [
  | none ↦ (trie_node e cs, false)
  | some n ↦ after_delete e cs c (delete_helper n key)
]

-- `deleteKey`
unfoldable pub delete_key : TrieNode → List ℕ → TrieNode
delete_key root key = (delete_helper root key).0
