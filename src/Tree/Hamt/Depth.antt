-- ===== src/Tree/Hamt/Depth.antt =====
-- Where the entries of a trie are, and that `insertHelper` returns.
use dsalib.Core.{
  ◌==◌, leb, leb, ℕ, zero, suc, ◌≡◌, ◌+◌, ◌<◌, ◌≤◌, refl, sym, subst, ◌∙◌, arith, false, Bool-cases,
  inl, inr, Option, none, some, Eq,
}
use dsalib.Tree.Hamt.{
  Node, leaf, internal, Children, no_children, child, find, put, erase, index, insert_entry,
  insert_helper,
}
use dsalib.Tree.Hamt.Entries.{
  AllKeys, AllKeysIn, AllKeysIn-both, Each, Each-find, Each-put, Each-erase, AllKeysIn-find,
  insert_helper-AllKeysIn,
}

module _ {ℓ κ} {K : Type ℓ} {V : Type κ} (hash : K → ℕ) (depth : ℕ) where
  -- The keys below an entry of this level have its index on the level, and no node is below the depth.
  abbrev mutual
    pub PlacedNode : (level : ℕ) → Node K V → Type 0
    PlacedNode level (leaf k v) = Unit
    PlacedNode level (internal cs) = (level ≤ depth) × Placed level cs

    pub Placed : (level : ℕ) → Children K V → Type 0
    Placed level no_children = Unit
    Placed level (child d n cs) =
        (AllKeys (λ k. index (hash k) level ≡ d) n × PlacedNode (suc level) n) × Placed level cs

  -- What is true of one entry.
  abbrev pub PlacedEntry : (level : ℕ) → ℕ → Node K V → Type 0
  PlacedEntry level d n = AllKeys (λ k. index (hash k) level ≡ d) n × PlacedNode (suc level) n

  pub Placed-Each : (level : ℕ) (cs : Children K V) → Placed level cs → Each (PlacedEntry level) cs
  Placed-Each level no_children h = tt
  Placed-Each level (child d n cs) (p, ps) = (p, Placed-Each level cs ps)

  pub Each-Placed : (level : ℕ) (cs : Children K V) → Each (PlacedEntry level) cs → Placed level cs
  Each-Placed level no_children h = tt
  Each-Placed level (child d n cs) (p, ps) = (p, Each-Placed level cs ps)

  pub Placed-find :
      (level i : ℕ) (cs : Children K V) (n : Node K V)
      → Placed level cs
      → find i cs ≡ some n
      → PlacedEntry level i n
  Placed-find level i cs n h f = Each-find (PlacedEntry level) i cs n (Placed-Each level cs h) f

  pub Placed-put :
      (level i : ℕ) (n : Node K V) (cs : Children K V)
      → PlacedEntry level i n
      → Placed level cs
      → Placed level (put i n cs)
  Placed-put level i n cs p h =
      Each-Placed level (put i n cs)
        (Each-put (PlacedEntry level) i n cs p (Placed-Each level cs h))

  pub Placed-erase : (level i : ℕ) (cs : Children K V) → Placed level cs → Placed level (erase i cs)
  Placed-erase level i cs h =
      Each-Placed level (erase i cs) (Each-erase (PlacedEntry level) i cs (Placed-Each level cs h))

module _ {ℓ} {K : Type ℓ} (hash : K → ℕ) where
  -- Two keys whose paths are the same on the levels above this one.
  abbrev pub Agree : (level : ℕ) → K → K → Type 0
  Agree level k key = (l : ℕ) → l < level → index (hash k) l ≡ index (hash key) l

  -- The levels above the depth tell the keys with this property apart.
  abbrev pub Separates : (K → Type 0) → (depth : ℕ) → Type ℓ
  Separates P depth = (k key : K) → P k → P key → Agree depth k key → k ≡ key

  Agree-suc :
      (level i : ℕ) (key k : K)
      → index (hash key) level ≡ i
      → Agree level k key
      → index (hash k) level ≡ i
      → Agree (suc level) k key
  Agree-suc level i key k h agree here l below = elim (Bool-cases (l == level)) [
    | inl same ↦
        let e : l ≡ level = ground (arith, same) in
        subst (λ (x : ℕ). index (hash k) x ≡ index (hash key) x) (sym e) (here ∙ sym h)
    | inr apart ↦ agree l (ground (arith, apart, below))
  ]

  Agree-le : (level depth : ℕ) (k key : K) → depth ≤ level → Agree level k key → Agree depth k key
  Agree-le level depth k key h agree l below = agree l (omega arith)

module _ {ℓ} {K : Type ℓ} ⦃e : Eq K⦄ (hash : K → ℕ) (P : K → Type 0) (depth : ℕ)
    (apart : Separates hash P depth) where
  -- A leaf with another key that has the same path as far as this level lies above the depth.
  leaf-above :
      (level : ℕ) (k key : K)
      → P key
      → e.beq k key ≡ false
      → P k × Agree hash level k key
      → index (hash k) level ≡ index (hash key) level
      → (suc level ≤ depth) × Agree hash (suc level) k key
  leaf-above level k key pkey differ (pk, agree) here =
      let below = Agree-suc hash level (index (hash key) level) key k refl agree here in
      elim (Bool-cases (leb (suc level) depth)) [
        | inl h ↦ (ground (arith, h), below)
        | inr deep ↦
            let same : k ≡ key =
              apart k key pk pkey
                (Agree-le hash (suc level) depth k key (ground (arith, deep)) below) in
            absurd (ground (arith, differ, (e.beq_iff k key).1 same))
      ]

module _ {ℓ κ} {K : Type ℓ} (V : Type κ) ⦃e : Eq K⦄ (hash : K → ℕ) (P : K → Type 0) (depth : ℕ)
    (apart : Separates hash P depth) where
  -- A call on this level returns, with the entries where they belong.
  abbrev pub Returns : (level : ℕ) → Option (Children K V) → Type (ℓ ⊔ κ)
  Returns level r = (cs' : Children K V) × (r ≡ some cs') × Placed hash depth level cs'

  -- A key of the property whose path is the same on the levels above this one.
  abbrev pub Near : (level : ℕ) → K → K → Type 0
  Near level key k = P k × Agree hash level k key

  -- `insertHelper` with this fuel returns wherever the fuel reaches the depth.
  abbrev Reaches : (fuel : ℕ) → Type (ℓ ⊔ κ)
  Reaches fuel =
      (cs : Children K V) (level : ℕ) (key : K) (value : V)
      → level ≤ depth
      → depth < level + fuel
      → Placed hash depth level cs
      → P key
      → AllKeysIn (Near level key) cs
      → Returns level (insert_helper hash fuel cs level key value)

  insert_entry-Returns :
      (fuel : ℕ)
      → Reaches fuel
      → (entry : Option (Node K V)) (cs : Children K V) (level : ℕ) (key : K) (value : V)
      → level ≤ depth
      → depth < level + suc fuel
      → Placed hash depth level cs
      → P key
      → AllKeysIn (Near level key) cs
      → find (index (hash key) level) cs ≡ entry
      → Returns level (insert_entry hash (insert_helper hash fuel) entry cs level key value)
  unfolding insert_entry
  insert_entry-Returns fuel ih none cs level key value l0 l1 p pkey a f = (
    put (index (hash key) level) (leaf key value) cs,
    refl,
    Placed-put hash depth level (index (hash key) level) (leaf key value) cs (refl, tt) p,
  )
  insert_entry-Returns fuel ih (some (leaf k v)) cs level key value l0 l1 p pkey a f =
      let i = index (hash key) level in
      let here = (Placed-find hash depth level i cs (leaf k v) p f).0 in
      elim (Bool-cases (e.beq k key)) [
        | inl equal ↦ (
          put i (leaf k value) cs,
          rw (insert_entry, equal) refl,
          Placed-put hash depth level i (leaf k value) cs (here, tt) p,
        )
        | inr differ ↦
            let agree = AllKeysIn-find (Near level key) i cs (leaf k v) a f in
            let (deep, same) = leaf-above hash P depth apart level k key pkey differ agree here in
            let (one, found, p1) =
              ih no_children (suc level) k v deep (omega arith) tt agree.0 tt in
            let a1 =
              insert_helper-AllKeysIn hash (Near (suc level) key) fuel no_children (suc level) k v
                one (agree.0, same) tt found in
            let (both, found2, p2) = ih one (suc level) key value deep (omega arith) p1 pkey a1 in
            let h1 =
              insert_helper-AllKeysIn hash (λ x. index (hash x) level ≡ i) fuel no_children
                (suc level) k v one here tt found in
            let h2 =
              insert_helper-AllKeysIn hash (λ x. index (hash x) level ≡ i) fuel one (suc level) key
                value both refl h1 found2 in
            (
              put i (internal both) cs,
              ground (arith, differ, found, found2),
              Placed-put hash depth level i (internal both) cs (h2, (deep, p2)) p,
            )
      ]
  insert_entry-Returns fuel ih (some (internal below)) cs level key value l0 l1 p pkey a f =
      let i = index (hash key) level in
      let (here, (deep, p0)) = Placed-find hash depth level i cs (internal below) p f in
      let agree = AllKeysIn-find (Near level key) i cs (internal below) a f in
      let a1 =
        AllKeysIn-both (Near level key) (λ x. index (hash x) level ≡ i) (Near (suc level) key)
          (λ x near h. (near.0, Agree-suc hash level i key x refl near.1 h)) below agree here in
      let (changed, found, p1) = ih below (suc level) key value deep (omega arith) p0 pkey a1 in
      let h1 =
        insert_helper-AllKeysIn hash (λ x. index (hash x) level ≡ i) fuel below (suc level) key
          value changed refl here found in
      (
        put i (internal changed) cs,
        rw (insert_entry, found) refl,
        Placed-put hash depth level i (internal changed) cs (h1, (deep, p1)) p,
      )

  pub insert_helper-Returns : (fuel : ℕ) → Reaches fuel
  unfolding insert_helper
  insert_helper-Returns zero cs level key value l0 l1 p pkey a = absurd (omega arith)
  insert_helper-Returns (suc fuel) cs level key value l0 l1 p pkey a =
      insert_entry-Returns fuel (insert_helper-Returns fuel) (find (index (hash key) level) cs) cs
        level key value l0 l1 p pkey a refl
