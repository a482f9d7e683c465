-- ===== src/Tree/Hamt/Lookup.antt =====
-- What `lookup` answers after `insert`.
use dsalib.Core.{
  ℕ, zero, suc, ◌≡◌, refl, ap, sym, subst, ◌∙◌, arith, Bool-cases, inl, inr, if◌then◌else◌, ◌==◌,
  Option, none, some, Eq, Option-cases,
}
use dsalib.Tree.Hamt.{
  Node, leaf, internal, Children, no_children, child, find, put, erase, index, insert_entry,
  insert_helper, lookup_node, lookup_child,
}

module _ {ℓ κ} {K : Type ℓ} {V : Type κ} ⦃e : Eq K⦄ (hash : K → ℕ) where
  -- The answer at an entry, if it is there.
  abbrev pub answer : Option (Node K V) → (level : ℕ) → K → Option V
  answer none level key = none
  answer (some n) level key = lookup_node hash n level key

  pub lookup_child-find :
      (cs : Children K V) (i level : ℕ) (key : K)
      → lookup_child hash cs i level key ≡ answer (find i cs) level key
  unfolding lookup_node find
  lookup_child-find no_children i level key = refl
  lookup_child-find (child d n cs) i level key = ground (arith, lookup_child-find cs i level key)

  pub lookup_child-put :
      (cs : Children K V) (n : Node K V) (i j level : ℕ) (key : K)
      → lookup_child hash (put i n cs) j level key
        ≡ (if i == j then lookup_node hash n level key else lookup_child hash cs j level key)
  unfolding lookup_node put
  lookup_child-put no_children n i j level key = ground arith
  lookup_child-put (child d m cs) n i j level key =
      ground (arith, lookup_child-put cs n i j level key)

  pub lookup_child-erase :
      (cs : Children K V) (i j level : ℕ) (key : K)
      → lookup_child hash (erase i cs) j level key
        ≡ (if i == j then none else lookup_child hash cs j level key)
  unfolding lookup_node erase
  lookup_child-erase no_children i j level key = ground arith
  lookup_child-erase (child d m cs) i j level key =
      ground (arith, lookup_child-erase cs i j level key)

  -- `lookup` from a node with the children `cs` on this level.
  abbrev pub lookup_from : Children K V → (level : ℕ) → K → Option V
  lookup_from cs level key = lookup_child hash cs (index (hash key) level) (suc level) key

  -- What it is to hold the same as `cs`, but for `key`.
  abbrev pub IsUpdate : (level : ℕ) → Children K V → Children K V → K → Option V → Type (ℓ ⊔ κ)
  IsUpdate level cs cs' key r =
      (other : K)
      → lookup_from cs' level other ≡ (if e.beq key other then r else lookup_from cs level other)

  -- A change of the entry at which the search for `key` goes on.
  pub put-IsUpdate :
      (level : ℕ) (cs : Children K V) (n : Node K V) (key : K) (r : Option V)
      → ((other : K)
          → index (hash key) level ≡ index (hash other) level
          → lookup_node hash n (suc level) other
            ≡ (if e.beq key other then r else lookup_from cs level other))
      → IsUpdate level cs (put (index (hash key) level) n cs) key r
  put-IsUpdate level cs n key r h other =
      lookup_child-put cs n (index (hash key) level) (index (hash other) level) (suc level) other
      ∙ elim (Bool-cases (index (hash key) level == index (hash other) level)) [
        | inl same ↦ rw same (h other (ground (arith, same)))
        | inr apart ↦ rw apart (elim (Bool-cases (e.beq key other)) [
          | inl equal ↦
              let ke : key ≡ other = (e.beq_iff key other).0 equal in
              let ie : index (hash key) level ≡ index (hash other) level =
                ap (λ (k : K). index (hash k) level) ke in
              absurd (ground (arith, apart, ie))
          | inr differ ↦ rw differ refl
        ])
      ]

  -- The search for a key on the way to an entry answers as the entry does.
  pub lookup_from-entry :
      (level : ℕ) (cs : Children K V) (key other : K) (found : Option (Node K V))
      → find (index (hash key) level) cs ≡ found
      → index (hash key) level ≡ index (hash other) level
      → lookup_from cs level other ≡ answer found (suc level) other
  lookup_from-entry level cs key other found h same =
      lookup_child-find cs (index (hash other) level) (suc level) other
      ∙ ap (λ (i : ℕ). answer (find i cs) (suc level) other) (sym same)
      ∙ ap (λ (n : Option (Node K V)). answer n (suc level) other) h

  same_key :
      (k key other : K) (value v : V)
      → k ≡ key
      → (if e.beq k other then some value else none)
        ≡ (if e.beq key other then some value else (if e.beq k other then some v else none))
  same_key k key other value v h =
      rw h (elim (Bool-cases (e.beq key other)) [
        | inl same ↦ rw same refl
        | inr apart ↦ rw apart refl
      ])

  module _ (rec : Children K V → ℕ → K → V → Option (Children K V))
      (ih : (cs : Children K V) (level : ℕ) (key : K) (value : V) (cs' : Children K V)
        → rec cs level key value ≡ some cs'
        → IsUpdate level cs cs' key (some value)) where
    insert_entry-IsUpdate :
        (entry : Option (Node K V)) (cs : Children K V) (level : ℕ) (key : K) (value : V)
        (cs' : Children K V)
        → find (index (hash key) level) cs ≡ entry
        → insert_entry hash rec entry cs level key value ≡ some cs'
        → IsUpdate level cs cs' key (some value)
    unfolding insert_entry lookup_node
    insert_entry-IsUpdate none cs level key value cs' f h =
        subst (λ (c : Children K V). IsUpdate level cs c key (some value)) (ground (arith, h))
          (put-IsUpdate level cs (leaf key value) key (some value)
            (λ other same. rw (lookup_from-entry level cs key other none f same) refl))
    insert_entry-IsUpdate (some (leaf k v)) cs level key value cs' f h =
        elim (Bool-cases (e.beq k key)) [
          | inl equal ↦
              let ke : k ≡ key = (e.beq_iff k key).0 equal in
              subst (λ (c : Children K V). IsUpdate level cs c key (some value))
                (ground (arith, equal, h))
                (put-IsUpdate level cs (leaf k value) key (some value) (λ other same.
                  rw (lookup_from-entry level cs key other (some (leaf k v)) f same, lookup_node)
                    (same_key k key other value v ke)))
          | inr differ ↦ elim (Option-cases (rec no_children (suc level) k v)) [
            | inl missing ↦ absurd (ground (arith, differ, missing, h))
            | inr (one, found) ↦ elim (Option-cases (rec one (suc level) key value)) [
              | inl missing ↦ absurd (ground (arith, differ, found, missing, h))
              | inr (both, found2) ↦
                  subst (λ (c : Children K V). IsUpdate level cs c key (some value))
                    (ground (arith, differ, found, found2, h))
                    (put-IsUpdate level cs (internal both) key (some value) (λ other same.
                      rw (lookup_from-entry level cs key other (some (leaf k v)) f same) (
                        ih one (suc level) key value both found2 other
                        ∙ ap (λ (r : Option V). if e.beq key other then some value else r)
                            (ih no_children (suc level) k v one found other))))
            ]
          ]
        ]
    insert_entry-IsUpdate (some (internal below)) cs level key value cs' f h =
        elim (Option-cases (rec below (suc level) key value)) [
          | inl missing ↦ absurd (ground (arith, missing, h))
          | inr (changed, found) ↦
              subst (λ (c : Children K V). IsUpdate level cs c key (some value))
                (ground (arith, found, h))
                (put-IsUpdate level cs (internal changed) key (some value) (λ other same.
                  rw (lookup_from-entry level cs key other (some (internal below)) f same)
                    (ih below (suc level) key value changed found other)))
        ]

  pub insert_helper-IsUpdate :
      (fuel : ℕ) (cs : Children K V) (level : ℕ) (key : K) (value : V) (cs' : Children K V)
      → insert_helper hash fuel cs level key value ≡ some cs'
      → IsUpdate level cs cs' key (some value)
  unfolding insert_helper
  insert_helper-IsUpdate zero cs level key value cs' h = absurd (ground (arith, h))
  insert_helper-IsUpdate (suc fuel) cs level key value cs' h =
      insert_entry-IsUpdate (insert_helper hash fuel) (insert_helper-IsUpdate fuel)
        (find (index (hash key) level) cs) cs level key value cs' refl h
