-- ===== src/Tree/Trie/Find.antt =====
-- The laws of the map of children in trie.cpp.
use dsalib.Core.{ℕ, ◌≡◌, refl, true, false, ◌==◌, if◌then◌else◌, none, some, arith}
use dsalib.Tree.Trie.{TrieNode, Children, no_children, child, find, put, erase, is_empty}

pub find-put :
    (d c : ℕ) (n : TrieNode) (cs : Children)
    → find d (put c n cs) ≡ (if d == c then some n else find d cs)
unfolding find put
find-put d c n no_children = refl
find-put d c n (child b m cs) = ground (arith, find-put d c n cs)

pub find-erase :
    (d c : ℕ) (cs : Children) → find d (erase c cs) ≡ (if d == c then none else find d cs)
unfolding find erase
find-erase d c no_children = ground arith
find-erase d c (child b m cs) = ground (arith, find-erase d c cs)

pub find-is_empty : (d : ℕ) (cs : Children) → is_empty cs ≡ true → find d cs ≡ none
unfolding find is_empty
find-is_empty d no_children h = refl
find-is_empty d (child b m cs) h = absurd (ground arith)

pub put-is_empty : (c : ℕ) (n : TrieNode) (cs : Children) → is_empty (put c n cs) ≡ false
unfolding put is_empty
put-is_empty c n no_children = refl
put-is_empty c n (child b m cs) = ground arith
