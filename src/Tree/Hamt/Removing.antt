-- ===== src/Tree/Hamt/Removing.antt =====
-- What `lookup` answers after `remove`.
use dsalib.Core.{
  ℕ, suc, ◌≡◌, refl, ap, sym, subst, ◌∙◌, arith, true, false, Bool-cases, inl, inr, if◌then◌else◌,
  ◌==◌, Option, none, some, Eq,
}
use dsalib.Tree.Hamt.{
  Node, leaf, internal, Children, no_children, child, find, erase, is_empty, index, Removal,
  not_found, gone, kept, lookup_node, apply_removal, removal, remove_node, remove_child,
}
use dsalib.Tree.Hamt.Lookup.{
  answer, lookup_child-erase, lookup_from, IsUpdate, put-IsUpdate, lookup_from-entry,
}

is_empty-no_children {ℓ κ} :
    {K : Type ℓ} {V : Type κ} {cs : Children K V} → is_empty cs ≡ true → cs ≡ no_children
unfolding is_empty
is_empty-no_children {cs = no_children} h = refl
is_empty-no_children {cs = child d n cs} h = cc

module _ {ℓ κ} {K : Type ℓ} {V : Type κ} ⦃e : Eq K⦄ (hash : K → ℕ) where
  -- The answer hash at an entry after what `removeHelper` says is done.
  abbrev after : Removal K V → Option (Node K V) → (level : ℕ) → K → Option V
  after not_found entry level other = answer hash entry level other
  after gone entry level other = none
  after (kept n) entry level other = lookup_node hash n level other

  -- The removal at the entry of the key's index empties the answer hash for the key alone.
  abbrev Removes : Removal K V → Option (Node K V) → (level : ℕ) → K → Type (ℓ ⊔ κ)
  Removes r entry level key =
      (other : K)
      → after r entry level other
        ≡ (if e.beq key other then none else answer hash entry level other)

  apply_removal-IsUpdate :
      (r : Removal K V) (cs : Children K V) (level : ℕ) (key : K)
      → Removes r (find (index (hash key) level) cs) (suc level) key
      → IsUpdate hash level cs (apply_removal hash (index (hash key) level) cs r) key none
  unfolding apply_removal
  apply_removal-IsUpdate not_found cs level key h other =
      elim (Bool-cases (index (hash key) level == index (hash other) level)) [
        | inl same ↦
            let e1 =
              lookup_from-entry hash level cs key other (find (index (hash key) level) cs) refl
                (ground (arith, same)) in
            e1 ∙ h other ∙ ap (λ (r : Option V). if e.beq key other then none else r) (sym e1)
        | inr apart ↦ elim (Bool-cases (e.beq key other)) [
          | inl equal ↦
              let ie : index (hash key) level ≡ index (hash other) level =
                ap (λ (k : K). index (hash k) level) ((e.beq_iff key other).0 equal) in
              absurd (ground (arith, apart, ie))
          | inr differ ↦ rw differ refl
        ]
      ]
  apply_removal-IsUpdate gone cs level key h other =
      lookup_child-erase hash cs (index (hash key) level) (index (hash other) level) (suc level)
        other
      ∙ elim (Bool-cases (index (hash key) level == index (hash other) level)) [
        | inl same ↦
            let e1 =
              lookup_from-entry hash level cs key other (find (index (hash key) level) cs) refl
                (ground (arith, same)) in
            rw same (h other ∙ ap (λ (r : Option V). if e.beq key other then none else r) (sym e1))
        | inr apart ↦ rw apart (elim (Bool-cases (e.beq key other)) [
          | inl equal ↦
              let ie : index (hash key) level ≡ index (hash other) level =
                ap (λ (k : K). index (hash k) level) ((e.beq_iff key other).0 equal) in
              absurd (ground (arith, apart, ie))
          | inr differ ↦ rw differ refl
        ])
      ]
  apply_removal-IsUpdate (kept n) cs level key h other =
      put-IsUpdate hash level cs n key none
        (λ o same.
          h o
          ∙ ap (λ (r : Option V). if e.beq key o then none else r)
              (sym (
                lookup_from-entry hash level cs key o (find (index (hash key) level) cs) refl
                  same)))
        other

  -- Passing the changed children on to the parent.
  removal-Removes :
      (r : Removal K V) (cs : Children K V) (level : ℕ) (key : K)
      → IsUpdate hash level cs (apply_removal hash (index (hash key) level) cs r) key none
      → Removes (removal hash (index (hash key) level) cs r) (some (internal cs)) level key
  unfolding apply_removal removal lookup_node
  removal-Removes not_found cs level key h other = h other
  removal-Removes (kept n) cs level key h other = h other
  removal-Removes gone cs level key h other =
      elim (Bool-cases (is_empty (erase (index (hash key) level) cs))) [
        | inr some_left ↦ rw some_left (h other)
        | inl empty ↦
            let nothing : erase (index (hash key) level) cs ≡ no_children =
              is_empty-no_children empty in
            rw empty
              (sym (ap (λ (c : Children K V). lookup_from hash c level other) nothing) ∙ h other)
      ]

  pub remove_child-here :
      (cs : Children K V) (n : Node K V) (d i level : ℕ) (key : K)
      → (i == d) ≡ true
      → remove_child hash (child d n cs) i level key ≡ remove_node hash n level key
  unfolding remove_node
  remove_child-here cs n d i level key h = ground (arith, h)

  pub remove_child-there :
      (cs : Children K V) (n : Node K V) (d i level : ℕ) (key : K)
      → (i == d) ≡ false
      → remove_child hash (child d n cs) i level key ≡ remove_child hash cs i level key
  unfolding remove_node
  remove_child-there cs n d i level key h = ground (arith, h)

  find-here :
      (cs : Children K V) (n : Node K V) (d i : ℕ)
      → (i == d) ≡ true
      → find i (child d n cs) ≡ some n
  unfolding find
  find-here cs n d i h = rw h refl

  find-there :
      (cs : Children K V) (n : Node K V) (d i : ℕ)
      → (i == d) ≡ false
      → find i (child d n cs) ≡ find i cs
  unfolding find
  find-there cs n d i h = rw h refl

  Removes-eq :
      {r r' : Removal K V} {entry entry' : Option (Node K V)} (level : ℕ) (key : K)
      → r ≡ r'
      → entry ≡ entry'
      → Removes r' entry' level key
      → Removes r entry level key
  Removes-eq {r} {r'} {entry} {entry'} level key e1 e2 h =
      subst (λ (x : Removal K V). Removes x entry level key) (sym e1)
        (subst (λ (x : Option (Node K V)). Removes r' x level key) (sym e2) h)

  mutual
    unfolding remove_node lookup_node find

    remove_node-Removes :
        (n : Node K V) (level : ℕ) (key : K)
        → Removes (remove_node hash n level key) (some n) level key
    remove_node-Removes (leaf k v) level key other = elim (Bool-cases (e.beq k key)) [
      | inl equal ↦
          let ke : k ≡ key = (e.beq_iff k key).0 equal in
          rw equal (
            rw ke (elim (Bool-cases (e.beq key other)) [
              | inl same ↦ rw same refl
              | inr apart ↦ rw apart refl
            ]))
      | inr differ ↦ rw differ (elim (Bool-cases (e.beq key other)) [
        | inl same ↦
            let ko : key ≡ other = (e.beq_iff key other).0 same in rw (same, ← ko, differ) refl
        | inr apart ↦ rw apart refl
      ])
    ]
    remove_node-Removes (internal cs) level key other =
        let r = remove_child hash cs (index (hash key) level) (suc level) key in
        removal-Removes r cs level key
          (apply_removal-IsUpdate r cs level key
            (remove_child-Removes cs (index (hash key) level) (suc level) key))
          other

    remove_child-Removes :
        (cs : Children K V) (i level : ℕ) (key : K)
        → Removes (remove_child hash cs i level key) (find i cs) level key
    remove_child-Removes no_children i level key other = elim (Bool-cases (e.beq key other)) [
      | inl same ↦ rw same refl
      | inr apart ↦ rw apart refl
    ]
    remove_child-Removes (child d n cs) i level key other = elim (Bool-cases (i == d)) [
      | inl here ↦
          Removes-eq level key (remove_child-here cs n d i level key here) (find-here cs n d i here)
            (remove_node-Removes n level key) other
      | inr there ↦
          Removes-eq level key (remove_child-there cs n d i level key there)
            (find-there cs n d i there) (remove_child-Removes cs i level key) other
    ]

  pub remove_child-IsUpdate :
      (cs : Children K V) (level : ℕ) (key : K)
      → IsUpdate hash level cs
          (apply_removal hash
            (index (hash key) level)
            cs
            (remove_child hash cs (index (hash key) level) (suc level) key))
          key
          none
  remove_child-IsUpdate cs level key =
      let i = index (hash key) level in
      apply_removal-IsUpdate (remove_child hash cs i (suc level) key) cs level key
        (remove_child-Removes cs i (suc level) key)
