-- ===== src/Tree/Hamt/Kept.antt =====
-- `removeHelper` leaves the entries where they belong.
use dsalib.Core.{ℕ, suc, ◌≡◌, subst, sym, arith, Bool-cases, inl, inr, ◌==◌, Eq}
use dsalib.Tree.Hamt.{
  Node, leaf, internal, Children, no_children, child, erase, is_empty, index, Removal, not_found,
  gone, kept, apply_removal, removal, remove_node, remove_child,
}
use dsalib.Tree.Hamt.Entries.{AllKeys, AllKeysIn, AllKeysIn-put, AllKeysIn-erase}
use dsalib.Tree.Hamt.Depth.{PlacedEntry, Placed, Placed-put, Placed-erase}
use dsalib.Tree.Hamt.Removing.{remove_child-here, remove_child-there}

module _ {ℓ κ} {K : Type ℓ} {V : Type κ} ⦃e : Eq K⦄ (hash : K → ℕ) (P : K → Type 0) where
  abbrev pub AllKeysOf : Removal K V → Type 0
  AllKeysOf not_found = Unit
  AllKeysOf gone = Unit
  AllKeysOf (kept n) = AllKeys P n

  pub apply_removal-AllKeysIn :
      (r : Removal K V) (i : ℕ) (cs : Children K V)
      → AllKeysOf r
      → AllKeysIn P cs
      → AllKeysIn P (apply_removal hash i cs r)
  unfolding apply_removal
  apply_removal-AllKeysIn not_found i cs p h = h
  apply_removal-AllKeysIn gone i cs p h = AllKeysIn-erase P i cs h
  apply_removal-AllKeysIn (kept n) i cs p h = AllKeysIn-put P i n cs p h

  removal-AllKeysOf :
      (r : Removal K V) (i : ℕ) (cs : Children K V)
      → AllKeysOf r
      → AllKeysIn P cs
      → AllKeysOf (removal hash i cs r)
  unfolding removal
  removal-AllKeysOf not_found i cs p h = tt
  removal-AllKeysOf gone i cs p h = elim (Bool-cases (is_empty (erase i cs))) [
    | inl empty ↦ rw empty tt
    | inr some_left ↦ rw some_left (AllKeysIn-erase P i cs h)
  ]
  removal-AllKeysOf (kept n) i cs p h = AllKeysIn-put P i n cs p h

  mutual
    unfolding remove_node

    pub remove_node-AllKeysOf :
        (n : Node K V) (level : ℕ) (key : K)
        → AllKeys P n
        → AllKeysOf (remove_node hash n level key)
    remove_node-AllKeysOf (leaf k v) level key p = elim (Bool-cases (e.beq k key)) [
      | inl equal ↦ rw equal tt
      | inr differ ↦ rw differ tt
    ]
    remove_node-AllKeysOf (internal cs) level key p =
        let i = index (hash key) level in
        removal-AllKeysOf (remove_child hash cs i (suc level) key) i cs
          (remove_child-AllKeysOf cs i (suc level) key p) p

    pub remove_child-AllKeysOf :
        (cs : Children K V) (i level : ℕ) (key : K)
        → AllKeysIn P cs
        → AllKeysOf (remove_child hash cs i level key)
    remove_child-AllKeysOf no_children i level key p = tt
    remove_child-AllKeysOf (child d n cs) i level key (p, ps) = elim (Bool-cases (i == d)) [
      | inl here ↦
          subst (λ (r : Removal K V). AllKeysOf r)
            (sym (remove_child-here hash cs n d i level key here))
            (remove_node-AllKeysOf n level key p)
      | inr there ↦
          subst (λ (r : Removal K V). AllKeysOf r)
            (sym (remove_child-there hash cs n d i level key there))
            (remove_child-AllKeysOf cs i level key ps)
    ]

module _ {ℓ κ} {K : Type ℓ} {V : Type κ} ⦃e : Eq K⦄ (hash : K → ℕ) (depth : ℕ) where
  abbrev PlacedOf : (level : ℕ) → ℕ → Removal K V → Type 0
  PlacedOf level i not_found = Unit
  PlacedOf level i gone = Unit
  PlacedOf level i (kept n) = PlacedEntry hash depth level i n

  apply_removal-Placed :
      (r : Removal K V) (level i : ℕ) (cs : Children K V)
      → PlacedOf level i r
      → Placed hash depth level cs
      → Placed hash depth level (apply_removal hash i cs r)
  unfolding apply_removal
  apply_removal-Placed not_found level i cs p h = h
  apply_removal-Placed gone level i cs p h = Placed-erase hash depth level i cs h
  apply_removal-Placed (kept n) level i cs p h = Placed-put hash depth level i n cs p h

  removal-PlacedOf :
      (r : Removal K V) (level d i : ℕ) (cs : Children K V)
      → PlacedOf (suc level) i r
      → AllKeysOf hash (λ k. index (hash k) level ≡ d) r
      → PlacedEntry hash depth level d (internal cs)
      → PlacedOf level d (removal hash i cs r)
  unfolding removal
  removal-PlacedOf not_found level d i cs p a h = tt
  removal-PlacedOf gone level d i cs p a (h, (deep, q)) =
      elim (Bool-cases (is_empty (erase i cs))) [
        | inl empty ↦ rw empty tt
        | inr some_left ↦ rw some_left (
          AllKeysIn-erase (λ k. index (hash k) level ≡ d) i cs h,
          (deep, Placed-erase hash depth (suc level) i cs q),
        )
      ]
  removal-PlacedOf (kept n) level d i cs p a (h, (deep, q)) = (
    AllKeysIn-put (λ k. index (hash k) level ≡ d) i n cs a h,
    (deep, Placed-put hash depth (suc level) i n cs p q),
  )

  mutual
    unfolding remove_node

    remove_node-PlacedOf :
        (n : Node K V) (level d : ℕ) (key : K)
        → PlacedEntry hash depth level d n
        → PlacedOf level d (remove_node hash n (suc level) key)
    remove_node-PlacedOf (leaf k v) level d key p = elim (Bool-cases (e.beq k key)) [
      | inl equal ↦ rw equal tt
      | inr differ ↦ rw differ tt
    ]
    remove_node-PlacedOf (internal cs) level d key p =
        let i = index (hash key) (suc level) in
        removal-PlacedOf (remove_child hash cs i (suc (suc level)) key) level d i cs
          (remove_child-PlacedOf cs (suc level) i key p.1.1)
          (remove_child-AllKeysOf hash (λ k. index (hash k) level ≡ d) cs i (suc (suc level)) key
            p.0)
          p

    pub remove_child-PlacedOf :
        (cs : Children K V) (level i : ℕ) (key : K)
        → Placed hash depth level cs
        → PlacedOf level i (remove_child hash cs i (suc level) key)
    remove_child-PlacedOf no_children level i key p = tt
    remove_child-PlacedOf (child d n cs) level i key (p, ps) = elim (Bool-cases (i == d)) [
      | inl here ↦
          let id : d ≡ i = ground (arith, here) in
          subst (λ (r : Removal K V). PlacedOf level i r)
            (sym (remove_child-here hash cs n d i (suc level) key here))
            (subst (λ (x : ℕ). PlacedOf level x (remove_node hash n (suc level) key)) id
              (remove_node-PlacedOf n level d key p))
      | inr there ↦
          subst (λ (r : Removal K V). PlacedOf level i r)
            (sym (remove_child-there hash cs n d i (suc level) key there))
            (remove_child-PlacedOf cs level i key ps)
    ]

  pub remove_child-Placed :
      (cs : Children K V) (level : ℕ) (key : K)
      → Placed hash depth level cs
      → Placed hash depth level (
          apply_removal hash
            (index (hash key) level)
            cs
            (remove_child hash cs (index (hash key) level) (suc level) key))
  remove_child-Placed cs level key p =
      let i = index (hash key) level in
      apply_removal-Placed (remove_child hash cs i (suc level) key) level i cs
        (remove_child-PlacedOf cs level i key p) p
