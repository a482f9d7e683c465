-- ===== src/Tree/Hamt/Collision.antt =====
-- Two keys with the same hash.
use dsalib.Core.{
  ℕ, zero, suc, ◌≡◌, ◌≢◌, refl, ap, sym, arith, false, Bool-cases, inl, inr, none, some, Eq,
}
use dsalib.Tree.Hamt.{
  Node, leaf, Children, no_children, child, find, put, index, insert_entry, insert_helper, Hamt,
  new, insert,
}

module _ {ℓ κ} {K : Type ℓ} {V : Type κ} where
  find-alone : (i j : ℕ) (n : Node K V) → i ≡ j → find i (child j n no_children) ≡ some n
  unfolding find
  find-alone i j n h = ground (arith, h)

module _ {ℓ} {K : Type ℓ} ⦃e : Eq K⦄ where
  beq-differ : (k key : K) → k ≢ key → e.beq k key ≡ false
  beq-differ k key differ = elim (Bool-cases (e.beq k key)) [
    | inl equal ↦ absurd (differ ((e.beq_iff k key).0 equal))
    | inr apart ↦ apart
  ]

module _ {ℓ κ} {K : Type ℓ} {V : Type κ} ⦃e : Eq K⦄ (hash : K → ℕ) where
  insert_helper-alone :
      (fuel level : ℕ) (k : K) (v : V)
      → insert_helper hash (suc fuel) no_children level k v
        ≡ some (child (index (hash k) level) (leaf k v) no_children)
  unfolding insert_helper insert_entry put find
  insert_helper-alone fuel level k v = refl

  -- Insertion into a node in which another key with the same hash has the entry.
  insert_helper-Diverges :
      (fuel : ℕ) (cs : Children K V) (level : ℕ) (k key : K) (v value : V)
      → k ≢ key
      → hash k ≡ hash key
      → find (index (hash key) level) cs ≡ some (leaf k v)
      → insert_helper hash fuel cs level key value ≡ none
  unfolding insert_helper insert_entry
  insert_helper-Diverges zero cs level k key v value differ same f = refl
  insert_helper-Diverges (suc zero) cs level k key v value differ same f =
      let apart = beq-differ k key differ in ground (arith, f, apart)
  insert_helper-Diverges (suc (suc fuel)) cs level k key v value differ same f =
      let apart = beq-differ k key differ in
      let one = child (index (hash k) (suc level)) (leaf k v) no_children in
      let found = insert_helper-alone fuel (suc level) k v in
      let stuck = insert_helper-Diverges (suc fuel) one (suc level) k key v value differ same (
        find-alone (index (hash key) (suc level)) (index (hash k) (suc level)) (leaf k v)
          (ap (λ (h : ℕ). index h (suc level)) (sym same))) in
      ground (arith, f, apart, found, stuck)

  -- Where two different keys have the same hash, `insert` of the first into the empty trie returns with
  -- any fuel but none, and `insert` of the second into the trie that it returns does not with any.
  pub insert-Diverges :
      (fuel more : ℕ) (k key : K) (v value : V)
      → k ≢ key
      → hash k ≡ hash key
      → (t : Hamt K V) × (insert hash (suc fuel) new k v ≡ some t)
        × (insert hash more t key value ≡ none)
  unfolding insert
  insert-Diverges fuel more k key v value differ same =
      let one = child (index (hash k) 0) (leaf k v) no_children in
      let stuck = insert_helper-Diverges more one 0 k key v value differ same (
        find-alone (index (hash key) 0) (index (hash k) 0) (leaf k v)
          (ap (λ (h : ℕ). index h 0) (sym same))) in
      (
        record { root = one },
        rw (insert, insert_helper-alone fuel 0 k v) refl,
        rw (insert, stuck) refl,
      )
