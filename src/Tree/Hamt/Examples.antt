-- ===== src/Tree/Hamt/Examples.antt =====
-- Tries of numbers, the hash of a number being itself, and a hash that is always 7.
use dsalib.Core.{
  ℕ, ◌≡◌, ◌≢◌, ◌<◌, ◌^◌, refl, arith, none, some, List, [], ◌∷◌, if◌then◌else◌, ◌==◌, nat_eq,
}
use dsalib.Tree.Hamt.{
  leaf, internal, no_children, child, Hamt, new, insert, lookup, remove, find, put, erase, is_empty,
  index, insert_entry, insert_helper, lookup_node, apply_removal, removal, remove_node,
}
use dsalib.Tree.Hamt.Digits.{NoCollision}
use dsalib.Tree.Hamt.Run.{
  Operation, insertion, deletion, run, updated, Valid, insert-Answers, run-Answers,
}
use dsalib.Tree.Hamt.Collision.{insert-Diverges}

abbrev itself : ℕ → ℕ
itself k = k

abbrev seven : ℕ → ℕ
seven k = 7

-- The keys that are their own hash of 64 bits.
abbrev Word : ℕ → Type 0
Word k = k < 2 ^ 64

Word-NoCollision : NoCollision itself Word
Word-NoCollision = (λ k h. h, λ k key h1 h2 same. same)

-- 1 and 33 share the index 1 on the first level.
abbrev shared_path : Hamt ℕ ℕ
shared_path = record {
  root = child 1 (internal (child 0 (leaf 1 10) (child 1 (leaf 33 20) no_children))) no_children;
}

abbrev calls : List (Operation ℕ ℕ)
calls = insertion 1 10 ∷ insertion 33 20 ∷ insertion 1 11 ∷ deletion 33 ∷ deletion 5 ∷ []

shared_path-Valid : Valid itself Word shared_path
unfolding index
shared_path-Valid = (
  (((refl, (refl, tt)), (omega arith, ((refl, tt), ((refl, tt), tt)))), tt),
  ((omega arith, (omega arith, tt)), tt),
)

run-calls :
    run itself 14 new calls
    ≡ some (record { root = child 1 (internal (child 0 (leaf 1 11) no_children)) no_children })
unfolding run insert remove insert_helper insert_entry find put erase is_empty index lookup_node
    apply_removal removal remove_node
run-calls = refl

run-Answers_example :
    (t : Hamt ℕ ℕ) × (run itself 14 new calls ≡ some t)
    × ((other : ℕ) → lookup itself t other ≡ updated (λ k. none) calls other)
run-Answers_example =
    run-Answers itself Word 14 calls Word-NoCollision (omega arith)
      (omega arith, (omega arith, (omega arith, tt)))

insert-Answers_example :
    (t : Hamt ℕ ℕ) × (insert itself 14 shared_path 65 30 ≡ some t)
    × Valid itself Word t
    × ((other : ℕ)
        → lookup itself t other
          ≡ (if 65 == other then some 30 else lookup itself shared_path other))
insert-Answers_example =
    insert-Answers itself Word 14 shared_path 65 30 Word-NoCollision (omega arith) (omega arith)
      shared_path-Valid

insert-Diverges_example :
    (t : Hamt ℕ ℕ) × (insert seven 1 new 1 10 ≡ some t) × (insert seven 100 t 2 20 ≡ none)
insert-Diverges_example = insert-Diverges seven 0 100 1 2 10 20 differ refl
  where
    differ : ◌≢◌ {A = ℕ} 1 2
    differ h = omega arith
