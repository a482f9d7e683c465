-- ===== src/Tree/Trie/Words.antt =====
-- The words of the trie of trie.cpp: a set that `insert` and `deleteKey` change at one key.
use dsalib.Core.{
  inr, inl, Option-cases, ap, ◌∙◌, ℕ, ◌≡◌, refl, Bool, true, false, ◌==◌, ◌&&◌, if◌then◌else◌, List,
  [], ◌∷◌, arith, fun_ext,
}
use dsalib.Tree.Trie.{
  TrieNode, Children, trie_node, new, find, is_empty, child_or_new, insert, search, after_delete,
  delete_helper, delete_key,
}
use dsalib.Tree.Trie.Find.{find-put, find-erase, find-is_empty}

-- `==` of two strings.
abbrev pub eq_key : List ℕ → List ℕ → Bool
eq_key [] [] = true
eq_key [] (b ∷ w) = false
eq_key (a ∷ u) [] = false
eq_key (a ∷ u) (b ∷ w) = (a == b) && eq_key u w

search-new : (j : List ℕ) → search new j ≡ false
unfolding search find
search-new [] = refl
search-new (c ∷ j) = refl

pub search-insert :
    (t : TrieNode) (k j : List ℕ)
    → search (insert t k) j ≡ (if eq_key k j then true else search t j)
unfolding search insert child_or_new
search-insert (trie_node e cs) [] [] = refl
search-insert (trie_node e cs) [] (d ∷ j) = refl
search-insert (trie_node e cs) (c ∷ k) [] = refl
search-insert (trie_node e cs) (c ∷ k) (d ∷ j) = ground (
  arith,
  find-put d c (insert (child_or_new c cs) k) cs,
  search-insert (child_or_new c cs) k j,
  search-new j,
)

-- A node that `deleteHelper` reports as deletable holds no word.
IsDead : TrieNode → Type 0
IsDead (trie_node e cs) = (e ≡ false) × (is_empty cs ≡ true)

delete_helper-IsDead :
    (t : TrieNode) (k : List ℕ) → (delete_helper t k).1 ≡ true → IsDead (delete_helper t k).0
unfolding delete_helper IsDead
delete_helper-IsDead (trie_node true cs) [] h = ground arith
delete_helper-IsDead (trie_node false cs) [] h = ground arith
delete_helper-IsDead (trie_node e cs) (c ∷ k) h = ground arith

search-IsDead : (t : TrieNode) (j : List ℕ) → IsDead t → search t j ≡ false
unfolding search IsDead
search-IsDead (trie_node e cs) [] h = h.0
search-IsDead (trie_node e cs) (d ∷ j) h = ground (arith, find-is_empty d cs h.1)

search-after_delete :
    (e : Bool) (cs : Children) (c : ℕ) (p : TrieNode × Bool) (d : ℕ) (j : List ℕ)
    → (p.1 ≡ true → IsDead p.0)
    → search (after_delete e cs c p).0 (d ∷ j)
      ≡ (if d == c then search p.0 j else search (trie_node e cs) (d ∷ j))
unfolding search after_delete
search-after_delete e cs c (n, true) d j h =
    ground (arith, find-erase d c cs, search-IsDead n j (h refl))
search-after_delete e cs c (n, false) d j h = ground (arith, find-put d c n cs)

pub search-delete_helper :
    (t : TrieNode) (k j : List ℕ)
    → search (delete_helper t k).0 j ≡ (if eq_key k j then false else search t j)
unfolding search delete_helper
search-delete_helper (trie_node true cs) [] [] = refl
search-delete_helper (trie_node false cs) [] [] = refl
search-delete_helper (trie_node true cs) [] (d ∷ j) = refl
search-delete_helper (trie_node false cs) [] (d ∷ j) = refl
search-delete_helper (trie_node e cs) (c ∷ k) [] = ground arith
search-delete_helper (trie_node e cs) (c ∷ k) (d ∷ j) = elim (Option-cases (find c cs)) [
  | inl missing ↦ ground (arith, missing)
  | inr (n, found) ↦ ground (
    arith,
    found,
    search-after_delete e cs c (delete_helper n k) d j (delete_helper-IsDead n k),
    search-delete_helper n k j,
  )
]

-- A client's calls.
pub data Op : Type 0 where
  insertion : List ℕ → Op
  deletion : List ℕ → Op

unfoldable pub run : List Op → TrieNode → TrieNode
run [] t = t
run (insertion k ∷ ops) t = run ops (insert t k)
run (deletion k ∷ ops) t = run ops (delete_key t k)

-- A set of words, changed at one word.
abbrev pub update : List ℕ → Bool → (List ℕ → Bool) → List ℕ → Bool
update k b f j = if eq_key k j then b else f j

-- The same calls on a set of words.
unfoldable pub replay : List Op → (List ℕ → Bool) → List ℕ → Bool
replay [] f = f
replay (insertion k ∷ ops) f = replay ops (update k true f)
replay (deletion k ∷ ops) f = replay ops (update k false f)

run_refines : (ops : List Op) (t : TrieNode) → search (run ops t) ≡ replay ops (search t)
unfolding run replay
run_refines [] t = refl
run_refines (insertion k ∷ ops) t =
    run_refines ops (insert t k) ∙ ap (replay ops) (fun_ext (search-insert t k))
run_refines (deletion k ∷ ops) t =
    run_refines ops (delete_key t k)
    ∙ ap (replay ops) (fun_ext (unfold delete_key in search-delete_helper t k))

-- After any calls of `insert` and `deleteKey` on a new trie, `search` answers for every word as the set
-- of words does on which the same calls were made.
pub search-run : (ops : List Op) (j : List ℕ) → search (run ops new) j ≡ replay ops (λ _. false) j
search-run ops j =
    ap (λ (f : List ℕ → Bool). f j) (run_refines ops new)
    ∙ ap (λ (f : List ℕ → Bool). replay ops f j) (fun_ext search-new)
