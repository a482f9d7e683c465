-- ===== src/Tree/Hamt/Run.antt =====
-- The trie as a map of its keys.
use dsalib.Core.{
  [], ℕ, ◌≡◌, ◌<◌, arith, refl, ap, ◌∙◌, if◌then◌else◌, Option, none, some, Eq, List, ◌∷◌,
}
use dsalib.Tree.Hamt.{lookup_node, remove_child, index, Hamt, new, insert, lookup, remove}
use dsalib.Tree.Hamt.Entries.{AllKeysIn-both, AllKeysIn, insert_helper-AllKeysIn}
use dsalib.Tree.Hamt.Lookup.{insert_helper-IsUpdate}
use dsalib.Tree.Hamt.Removing.{remove_child-IsUpdate}
use dsalib.Tree.Hamt.Depth.{Near, Placed, insert_helper-Returns}
use dsalib.Tree.Hamt.Digits.{NoCollision, NoCollision-Separates}
use dsalib.Tree.Hamt.Kept.{apply_removal-AllKeysIn, remove_child-AllKeysOf, remove_child-Placed}

-- The calls of `insert` and `remove`.
pub data Operation {ℓ κ} (K : Type ℓ) (V : Type κ) : Type (ℓ ⊔ κ) where
  insertion : K → V → Operation K V
  deletion : K → Operation K V

module _ {ℓ κ} {K : Type ℓ} {V : Type κ} ⦃e : Eq K⦄ (hash : K → ℕ) where
  -- One call after the other; `none` when an insertion does not return.
  unfoldable pub run : (fuel : ℕ) → Hamt K V → List (Operation K V) → Option (Hamt K V)
  run fuel t [] = some t
  run fuel t (insertion key value ∷ ops) = elim (insert hash fuel t key value) [
    | none ↦ none
    | some t' ↦ run fuel t' ops
  ]
  run fuel t (deletion key ∷ ops) = run fuel (remove hash t key) ops

module _ {ℓ κ} {K : Type ℓ} {V : Type κ} ⦃e : Eq K⦄ where
  -- The same calls on a function from keys to values.
  unfoldable pub updated : (K → Option V) → List (Operation K V) → K → Option V
  updated f [] other = f other
  updated f (insertion key value ∷ ops) other =
      updated (λ k. if e.beq key k then some value else f k) ops other
  updated f (deletion key ∷ ops) other = updated (λ k. if e.beq key k then none else f k) ops other

module _ {ℓ κ} {K : Type ℓ} {V : Type κ} (InUse : K → Type 0) where
  abbrev pub AllInUse : List (Operation K V) → Type 0
  AllInUse [] = Unit
  AllInUse (insertion key value ∷ ops) = InUse key × AllInUse ops
  AllInUse (deletion key ∷ ops) = AllInUse ops

module _ {ℓ κ} {K : Type ℓ} {V : Type κ} ⦃e : Eq K⦄ (hash : K → ℕ) (InUse : K → Type 0) where
  -- Every key of the trie is in use, and is where its hash says, not below level 13.
  abbrev pub Valid : Hamt K V → Type 0
  Valid t = Placed hash 13 0 t.root × AllKeysIn InUse t.root

  -- Where the keys in use have different hashes of 64 bits, 14 levels are enough for `insert`: it
  -- returns a valid trie, in which `lookup` finds the value at the key and all else as before.
  pub insert-Answers :
      (fuel : ℕ) (t : Hamt K V) (key : K) (value : V)
      → NoCollision hash InUse
      → 13 < fuel
      → InUse key
      → Valid t
      → (t' : Hamt K V) × (insert hash fuel t key value ≡ some t')
        × Valid t'
        × ((other : K)
            → lookup hash t' other ≡ (if e.beq key other then some value else lookup hash t other))
  unfolding insert lookup lookup_node
  insert-Answers fuel t key value no_collision enough used (placed, in_use) =
      let near =
        AllKeysIn-both InUse InUse
          (Near V hash InUse 13 (NoCollision-Separates hash InUse no_collision) 0 key)
          (λ k used same. (used, λ l below. absurd (omega arith))) t.root in_use in_use in
      let (cs, found, placed') =
        insert_helper-Returns V hash InUse 13 (NoCollision-Separates hash InUse no_collision) fuel
          t.root 0 key value (omega arith) (omega arith) placed used near in
      (
        record { root = cs },
        rw (insert, found) refl,
        (placed', insert_helper-AllKeysIn hash InUse fuel t.root 0 key value cs used in_use found),
        insert_helper-IsUpdate hash fuel t.root 0 key value cs found,
      )

  -- `remove` leaves a valid trie, in which `lookup` does not find the key and finds all else as before.
  remove-Answers :
      (t : Hamt K V) (key : K)
      → Valid t
      → Valid (remove hash t key)
        × ((other : K)
            → lookup hash (remove hash t key) other
              ≡ (if e.beq key other then none else lookup hash t other))
  unfolding remove lookup lookup_node
  remove-Answers t key (placed, in_use) = (
    (
      remove_child-Placed hash 13 t.root 0 key placed,
      apply_removal-AllKeysIn hash InUse (remove_child hash t.root (index (hash key) 0) 1 key)
          (index (hash key) 0) t.root
          (remove_child-AllKeysOf hash InUse t.root (index (hash key) 0) 1 key in_use) in_use,
    ),
    remove_child-IsUpdate hash t.root 0 key,
  )

  -- The calls one after the other, on any trie that answers as a function does.
  run-Follows :
      (fuel : ℕ) (ops : List (Operation K V)) (t : Hamt K V) (f : K → Option V)
      → NoCollision hash InUse
      → 13 < fuel
      → AllInUse InUse ops
      → Valid t
      → ((other : K) → lookup hash t other ≡ f other)
      → (t' : Hamt K V) × (run hash fuel t ops ≡ some t')
        × ((other : K) → lookup hash t' other ≡ updated f ops other)
  unfolding run updated
  run-Follows fuel [] t f no_collision enough used valid same = (t, refl, same)
  run-Follows fuel (insertion key value ∷ ops) t f no_collision enough (u, used) valid same =
      let (t', found, valid', answers) =
        insert-Answers fuel t key value no_collision enough u valid in
      let (t'', ran, followed) =
        run-Follows fuel ops t' (λ k. if e.beq key k then some value else f k) no_collision enough
          used valid'
          (λ other.
            answers other
            ∙ ap (λ (r : Option V). if e.beq key other then some value else r) (same other)) in
      (t'', rw (run, found) ran, followed)
  run-Follows fuel (deletion key ∷ ops) t f no_collision enough used valid same =
      let (valid', answers) = remove-Answers t key valid in
      run-Follows fuel ops (remove hash t key) (λ k. if e.beq key k then none else f k) no_collision
        enough used valid'
        (λ other.
          answers other ∙ ap (λ (r : Option V). if e.beq key other then none else r) (same other))

  -- Where the keys in use have different hashes of 64 bits, every sequence of insertions of such keys
  -- and of removals returns from the empty trie with 14 levels of recursion, and `lookup` then answers
  -- each key as the function does that the same sequence updates from one that finds nothing.
  pub run-Answers :
      (fuel : ℕ) (ops : List (Operation K V))
      → NoCollision hash InUse
      → 13 < fuel
      → AllInUse InUse ops
      → (t : Hamt K V) × (run hash fuel new ops ≡ some t)
        × ((other : K) → lookup hash t other ≡ updated (λ k. none) ops other)
  unfolding lookup lookup_node
  run-Answers fuel ops no_collision enough used =
      run-Follows fuel ops new (λ k. none) no_collision enough used (tt, tt) (λ other. refl)
