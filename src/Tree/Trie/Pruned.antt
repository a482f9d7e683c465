-- ===== src/Tree/Trie/Pruned.antt =====
-- No dead branches: `deleteKey` of trie.cpp frees every node that no word goes through.
use dsalib.Core.{
  ℕ, ◌≡◌, ◌⊎◌, inl, inr, refl, Bool, true, false, some, List, [], ◌∷◌, arith, Option-cases,
}
use dsalib.Tree.Trie.{
  TrieNode, Children, trie_node, no_children, child, new, find, put, erase, is_empty, child_or_new,
  insert, after_delete, delete_helper, delete_key,
}
use dsalib.Tree.Trie.Words.{Op, insertion, deletion, run}
use dsalib.Tree.Trie.Find.{put-is_empty}

-- A node that ends a word or has a child.
abbrev pub IsLive : TrieNode → Type 0
IsLive (trie_node e cs) = (e ≡ true) ⊎ (is_empty cs ≡ false)

-- Every node below the root is live, so that every leaf below the root ends a word.
abbrev mutual
  pub IsPruned : TrieNode → Type 0
  IsPruned (trie_node e cs) = AllPruned cs

  pub AllPruned : Children → Type 0
  AllPruned no_children = Unit
  AllPruned (child c n cs) = IsLive n × IsPruned n × AllPruned cs

AllPruned-put :
    (c : ℕ) (n : TrieNode) (cs : Children)
    → IsLive n
    → IsPruned n
    → AllPruned cs
    → AllPruned (put c n cs)
unfolding put
AllPruned-put c n no_children live pruned h = (live, pruned, tt)
AllPruned-put c n (child d m cs) live pruned h =
    ground (arith, AllPruned-put c n cs live pruned h.2)

AllPruned-erase : (c : ℕ) (cs : Children) → AllPruned cs → AllPruned (erase c cs)
unfolding erase
AllPruned-erase c no_children h = tt
AllPruned-erase c (child d m cs) h = ground (arith, AllPruned-erase c cs h.2)

AllPruned-find :
    (c : ℕ) (cs : Children) {n : TrieNode}
    → AllPruned cs
    → find c cs ≡ some n
    → IsLive n × IsPruned n
unfolding find
AllPruned-find c no_children h e = absurd (ground arith)
AllPruned-find c (child d m cs) {n} h e = ground (arith, AllPruned-find c cs {n = n} h.2)

IsPruned-child_or_new : (c : ℕ) (cs : Children) → AllPruned cs → IsPruned (child_or_new c cs)
unfolding child_or_new
IsPruned-child_or_new c cs h = elim (Option-cases (find c cs)) [
  | inl missing ↦ rw (missing, child_or_new) tt
  | inr (n, found) ↦ rw (found, child_or_new) (AllPruned-find c cs h found).1
]

insert-IsLive : (t : TrieNode) (k : List ℕ) → IsLive (insert t k)
unfolding insert
insert-IsLive (trie_node e cs) [] = inl refl
insert-IsLive (trie_node e cs) (c ∷ k) = inr (put-is_empty c (insert (child_or_new c cs) k) cs)

-- `insert` makes no dead branch.
pub insert-IsPruned : (t : TrieNode) (k : List ℕ) → IsPruned t → IsPruned (insert t k)
unfolding insert
insert-IsPruned (trie_node e cs) [] h = h
insert-IsPruned (trie_node e cs) (c ∷ k) h =
    AllPruned-put c (insert (child_or_new c cs) k) cs (insert-IsLive (child_or_new c cs) k)
      (insert-IsPruned (child_or_new c cs) k (IsPruned-child_or_new c cs h)) h

after_delete-IsLive :
    (e : Bool) (cs : Children) (c : ℕ) (p : TrieNode × Bool)
    → (after_delete e cs c p).1 ≡ false
    → IsLive (after_delete e cs c p).0
unfolding after_delete
after_delete-IsLive true cs c (n, true) h = inl refl
after_delete-IsLive false cs c (n, true) h = inr h
after_delete-IsLive e cs c (n, false) h = inr (put-is_empty c n cs)

-- A node that `deleteHelper` does not report as deletable stays live.
delete_helper-IsLive :
    (t : TrieNode) (k : List ℕ)
    → IsLive t
    → (delete_helper t k).1 ≡ false
    → IsLive (delete_helper t k).0
unfolding delete_helper
delete_helper-IsLive (trie_node true cs) [] live h = inr h
delete_helper-IsLive (trie_node false cs) [] live h = live
delete_helper-IsLive (trie_node e cs) (c ∷ k) live h = elim (Option-cases (find c cs)) [
  | inl missing ↦ rw (missing, delete_helper) live
  | inr (n, found) ↦
      rw (found, delete_helper)
        (after_delete-IsLive e cs c (delete_helper n k) (ground (arith, found)))
]

after_delete-IsPruned :
    (e : Bool) (cs : Children) (c : ℕ) (p : TrieNode × Bool)
    → AllPruned cs
    → IsPruned p.0
    → (p.1 ≡ false → IsLive p.0)
    → IsPruned (after_delete e cs c p).0
unfolding after_delete
after_delete-IsPruned e cs c (n, true) h pruned live = AllPruned-erase c cs h
after_delete-IsPruned e cs c (n, false) h pruned live = AllPruned-put c n cs (live refl) pruned h

-- `deleteKey` leaves no dead branch.
pub delete_helper-IsPruned :
    (t : TrieNode) (k : List ℕ) → IsPruned t → IsPruned (delete_helper t k).0
unfolding delete_helper
delete_helper-IsPruned (trie_node true cs) [] h = h
delete_helper-IsPruned (trie_node false cs) [] h = h
delete_helper-IsPruned (trie_node e cs) (c ∷ k) h = elim (Option-cases (find c cs)) [
  | inl missing ↦ rw (missing, delete_helper) h
  | inr (n, found) ↦
      let below = AllPruned-find c cs h found in
      rw (found, delete_helper)
        (after_delete-IsPruned e cs c (delete_helper n k) h (delete_helper-IsPruned n k below.1)
          (delete_helper-IsLive n k below.0))
]

-- After any calls of `insert` and `deleteKey` on a new trie, every node below the root ends a word or
-- has children: no node is kept that no word needs.
pub run-IsPruned : (ops : List Op) → IsPruned (run ops new)
unfolding run delete_key
run-IsPruned ops = run_keeps ops new tt
  where
    run_keeps : (ops : List Op) (t : TrieNode) → IsPruned t → IsPruned (run ops t)
    run_keeps [] t h = h
    run_keeps (insertion k ∷ ops) t h = run_keeps ops (insert t k) (insert-IsPruned t k h)
    run_keeps (deletion k ∷ ops) t h = run_keeps ops (delete_key t k) (delete_helper-IsPruned t k h)
