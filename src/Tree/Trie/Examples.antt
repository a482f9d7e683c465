-- ===== src/Tree/Trie/Examples.antt =====
-- trie.cpp on concrete words.
use dsalib.Core.{◌≡◌, List, [], ◌∷◌, refl, true, false}
use dsalib.Tree.Trie.{
  new, insert, search, find, put, erase, child_or_new, delete_key, delete_helper, is_empty,
}
use dsalib.Tree.Trie.Words.{Op, insertion, deletion, run, replay, search-run}
use dsalib.Tree.Trie.Pruned.{IsPruned, run-IsPruned}

-- "he", "hello" and "hi", of which "hello" is taken out again.
abbrev calls : List Op
calls =
    insertion (b'h' ∷ b'e' ∷ [])
    ∷ insertion (b'h' ∷ b'e' ∷ b'l' ∷ b'l' ∷ b'o' ∷ [])
    ∷ insertion (b'h' ∷ b'i' ∷ [])
    ∷ deletion (b'h' ∷ b'e' ∷ b'l' ∷ b'l' ∷ b'o' ∷ [])
    ∷ []

he_stays : search (run calls new) (b'h' ∷ b'e' ∷ []) ≡ true
unfolding run insert search find put erase child_or_new delete_key delete_helper is_empty
he_stays = refl

search-run_example :
    search (run calls new) (b'h' ∷ b'e' ∷ []) ≡ replay calls (λ _. false) (b'h' ∷ b'e' ∷ [])
search-run_example = search-run calls (b'h' ∷ b'e' ∷ [])

run-IsPruned_example : IsPruned (run calls new)
run-IsPruned_example = run-IsPruned calls
