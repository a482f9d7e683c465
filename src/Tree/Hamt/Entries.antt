-- ===== src/Tree/Hamt/Entries.antt =====
-- A property of every key below a node, and the operations on children that keep it.
use dsalib.Core.{
  subst, ℕ, zero, suc, ◌≡◌, refl, arith, Bool-cases, inl, inr, ◌==◌, Option, none, some, Eq,
  Option-cases,
}
use dsalib.Tree.Hamt.{
  Node, leaf, internal, Children, no_children, child, find, put, erase, index, insert_entry,
  insert_helper,
}

module _ {ℓ κ} {K : Type ℓ} {V : Type κ} where
  abbrev mutual
    pub AllKeys : (K → Type 0) → Node K V → Type 0
    AllKeys P (leaf k v) = P k
    AllKeys P (internal cs) = AllKeysIn P cs

    pub AllKeysIn : (K → Type 0) → Children K V → Type 0
    AllKeysIn P no_children = Unit
    AllKeysIn P (child d n cs) = AllKeys P n × AllKeysIn P cs

  module _ (P Q R : K → Type 0) (both : (k : K) → P k → Q k → R k) where
    mutual
      pub AllKeys-both : (n : Node K V) → AllKeys P n → AllKeys Q n → AllKeys R n
      AllKeys-both (leaf k v) p q = both k p q
      AllKeys-both (internal cs) p q = AllKeysIn-both cs p q

      pub AllKeysIn-both : (cs : Children K V) → AllKeysIn P cs → AllKeysIn Q cs → AllKeysIn R cs
      AllKeysIn-both no_children p q = tt
      AllKeysIn-both (child d n cs) (p, ps) (q, qs) = (AllKeys-both n p q, AllKeysIn-both cs ps qs)

  module _ (P : K → Type 0) (all : (k : K) → P k) where
    mutual
      pub AllKeys-always : (n : Node K V) → AllKeys P n
      AllKeys-always (leaf k v) = all k
      AllKeys-always (internal cs) = AllKeysIn-always cs

      pub AllKeysIn-always : (cs : Children K V) → AllKeysIn P cs
      AllKeysIn-always no_children = tt
      AllKeysIn-always (child d n cs) = (AllKeys-always n, AllKeysIn-always cs)

  -- A property of the entries of children, each with its index.
  abbrev pub Each : (ℕ → Node K V → Type 0) → Children K V → Type 0
  Each P no_children = Unit
  Each P (child d n cs) = P d n × Each P cs

  module _ (P : ℕ → Node K V → Type 0) where
    pub Each-find :
        (i : ℕ) (cs : Children K V) (n : Node K V) → Each P cs → find i cs ≡ some n → P i n
    unfolding find
    Each-find i no_children n h f = absurd (ground (arith, f))
    Each-find i (child d m cs) n (p, ps) f = elim (Bool-cases (i == d)) [
      | inl here ↦
          let id : d ≡ i = ground (arith, here) in
          let mn : m ≡ n = ground (arith, here, f) in
          subst (λ (x : Node K V). P i x) mn (subst (λ (x : ℕ). P x m) id p)
      | inr there ↦ Each-find i cs n ps (ground (arith, there, f))
    ]

    pub Each-put :
        (i : ℕ) (n : Node K V) (cs : Children K V) → P i n → Each P cs → Each P (put i n cs)
    unfolding put
    Each-put i n no_children p h = (p, tt)
    Each-put i n (child d m cs) p (q, qs) = elim (Bool-cases (i == d)) [
      | inl here ↦
          let id : i ≡ d = ground (arith, here) in rw here (subst (λ (x : ℕ). P x n) id p, qs)
      | inr there ↦ rw there (q, Each-put i n cs p qs)
    ]

    pub Each-erase : (i : ℕ) (cs : Children K V) → Each P cs → Each P (erase i cs)
    unfolding erase
    Each-erase i no_children h = tt
    Each-erase i (child d m cs) (q, qs) = elim (Bool-cases (i == d)) [
      | inl here ↦ rw here (Each-erase i cs qs)
      | inr there ↦ rw there (q, Each-erase i cs qs)
    ]

  module _ (P : K → Type 0) where
    pub AllKeysIn-Each : (cs : Children K V) → AllKeysIn P cs → Each (λ i n. AllKeys P n) cs
    AllKeysIn-Each no_children h = tt
    AllKeysIn-Each (child d n cs) (p, ps) = (p, AllKeysIn-Each cs ps)

    pub Each-AllKeysIn : (cs : Children K V) → Each (λ i n. AllKeys P n) cs → AllKeysIn P cs
    Each-AllKeysIn no_children h = tt
    Each-AllKeysIn (child d n cs) (p, ps) = (p, Each-AllKeysIn cs ps)

    pub AllKeysIn-find :
        (i : ℕ) (cs : Children K V) (n : Node K V)
        → AllKeysIn P cs
        → find i cs ≡ some n
        → AllKeys P n
    AllKeysIn-find i cs n h f = Each-find (λ i n. AllKeys P n) i cs n (AllKeysIn-Each cs h) f

    pub AllKeysIn-put :
        (i : ℕ) (n : Node K V) (cs : Children K V)
        → AllKeys P n
        → AllKeysIn P cs
        → AllKeysIn P (put i n cs)
    AllKeysIn-put i n cs p h =
        Each-AllKeysIn (put i n cs) (Each-put (λ i n. AllKeys P n) i n cs p (AllKeysIn-Each cs h))

    pub AllKeysIn-erase : (i : ℕ) (cs : Children K V) → AllKeysIn P cs → AllKeysIn P (erase i cs)
    AllKeysIn-erase i cs h =
        Each-AllKeysIn (erase i cs) (Each-erase (λ i n. AllKeys P n) i cs (AllKeysIn-Each cs h))

module _ {ℓ κ} {K : Type ℓ} {V : Type κ} ⦃e : Eq K⦄ (hash : K → ℕ) (P : K → Type 0) where
  module _ (rec : Children K V → ℕ → K → V → Option (Children K V))
      (ih : (cs : Children K V) (level : ℕ) (key : K) (value : V) (cs' : Children K V)
        → P key
        → AllKeysIn P cs
        → rec cs level key value ≡ some cs'
        → AllKeysIn P cs') where
    insert_entry-AllKeysIn :
        (entry : Option (Node K V)) (cs : Children K V) (level : ℕ) (key : K) (value : V)
        (cs' : Children K V)
        → P key
        → AllKeysIn P cs
        → find (index (hash key) level) cs ≡ entry
        → insert_entry hash rec entry cs level key value ≡ some cs'
        → AllKeysIn P cs'
    unfolding insert_entry
    insert_entry-AllKeysIn none cs level key value cs' p ps f h =
        subst (λ (c : Children K V). AllKeysIn P c) (ground (arith, h))
          (AllKeysIn-put P (index (hash key) level) (leaf key value) cs p ps)
    insert_entry-AllKeysIn (some (leaf k v)) cs level key value cs' p ps f h =
        let i = index (hash key) level in
        let pk : P k = AllKeysIn-find P i cs (leaf k v) ps f in
        elim (Bool-cases (e.beq k key)) [
          | inl equal ↦
              subst (λ (c : Children K V). AllKeysIn P c) (ground (arith, equal, h))
                (AllKeysIn-put P i (leaf k value) cs pk ps)
          | inr differ ↦ elim (Option-cases (rec no_children (suc level) k v)) [
            | inl missing ↦ absurd (ground (arith, differ, missing, h))
            | inr (one, found) ↦ elim (Option-cases (rec one (suc level) key value)) [
              | inl missing ↦ absurd (ground (arith, differ, found, missing, h))
              | inr (both, found2) ↦
                  subst (λ (c : Children K V). AllKeysIn P c)
                    (ground (arith, differ, found, found2, h))
                    (AllKeysIn-put P i (internal both) cs
                      (ih one (suc level) key value both p
                        (ih no_children (suc level) k v one pk tt found) found2)
                      ps)
            ]
          ]
        ]
    insert_entry-AllKeysIn (some (internal below)) cs level key value cs' p ps f h =
        let i = index (hash key) level in
        elim (Option-cases (rec below (suc level) key value)) [
          | inl missing ↦ absurd (ground (arith, missing, h))
          | inr (changed, found) ↦
              subst (λ (c : Children K V). AllKeysIn P c) (ground (arith, found, h))
                (AllKeysIn-put P i (internal changed) cs
                  (ih below (suc level) key value changed p
                    (AllKeysIn-find P i cs (internal below) ps f) found)
                  ps)
        ]

  pub insert_helper-AllKeysIn :
      (fuel : ℕ) (cs : Children K V) (level : ℕ) (key : K) (value : V) (cs' : Children K V)
      → P key
      → AllKeysIn P cs
      → insert_helper hash fuel cs level key value ≡ some cs'
      → AllKeysIn P cs'
  unfolding insert_helper
  insert_helper-AllKeysIn zero cs level key value cs' p ps h = absurd (ground (arith, h))
  insert_helper-AllKeysIn (suc fuel) cs level key value cs' p ps h =
      insert_entry-AllKeysIn (insert_helper hash fuel) (insert_helper-AllKeysIn fuel)
        (find (index (hash key) level) cs) cs level key value cs' p ps refl h
