-- ===== src/Hash/Probing/Insert.antt =====
-- `insert` and `search` of hashtable_cache.hpp, as a map, while nothing is removed.
use dsalib.Core.{
  ℕ, ◌<◌, ◌≡◌, ◌≢◌, refl, Bool, true, false, ◌&&◌, some, Eq, arith, Bool-cases, inl, inr,
  if◌then◌else◌, sym, ◌∙◌, ap, ltb, subst,
}
use dsalib.Hash.Probing.{Table, size, is_occupied, insert, search}
use dsalib.Hash.Probing.Probes.{insert_end}
use dsalib.Hash.Probing.Invariant.{round, slot, IsProbed, insert-round}
use dsalib.Hash.Probing.Overwrite
use dsalib.Hash.Probing.Fill

module _ {ℓ κ} {K : Type ℓ} {V : Type κ} ⦃e : Eq K⦄ (hash : K → ℕ) (blank : K × V) where
  -- What is known of the result of an `insert`.
  record Inserted (t : Table K V) (key : K) (value : V) (r : Table K V × Bool) : Type (ℓ ⊔ κ) where
    valid : IsProbed hash blank r.0
    other : (j : K) → key ≢ j → search hash blank r.0 j ≡ search hash blank t j
    stored : r.1 ≡ true → search hash blank r.0 key ≡ some value
    refused : r.1 ≡ false → r.0 ≡ t

  insert-Inserted :
      (t : Table K V) (key : K) (value : V)
      → IsProbed hash blank t
      → Inserted t key value (insert hash blank t key value)
  insert-Inserted t key value h =
      subst (Inserted t key value) (sym (insert-round hash blank t key value))
        (elim (Bool-cases (ltb (round hash blank t key) (size t))) [
          | inr full ↦
              unfold insert_end in
              rw full
                (record { valid = h; other = λ j ne. refl; stored = λ h. cc; refused = λ h. refl })
          | inl less ↦
              let lt : round hash blank t key < size t = ground (arith, less) in
              elim (Bool-cases (is_occupied t (slot hash blank t key))) [
                | inl taken ↦
                    unfold insert_end Overwrite.after in
                    rw (less, taken)
                      (record {
                        valid = Overwrite.after-IsProbed hash blank t key value lt taken h;
                        other = Overwrite.search-after_ne hash blank t key value lt taken;
                        stored = λ _. Overwrite.search-after_self hash blank t key value lt taken;
                        refused = λ h. cc;
                      })
                | inr free ↦
                    unfold insert_end Fill.after in
                    rw (less, free)
                      (record {
                        valid = Fill.after-IsProbed hash blank t key value h lt free;
                        other = Fill.search-after_ne hash blank t key value h lt free;
                        stored = λ _. Fill.search-after_self hash blank t key value h lt free;
                        refused = λ h. cc;
                      })
              ]
        ])

  -- `insert` keeps every key where the loops for it stop, so that the invariant of a table without
  -- removals is kept.
  pub insert-IsProbed :
      (t : Table K V) (key : K) (value : V)
      → IsProbed hash blank t
      → IsProbed hash blank (insert hash blank t key value).0
  insert-IsProbed t key value h = (insert-Inserted t key value h).valid

  -- In a table where every key stands where its loop stops, `search` after `insert` finds the inserted
  -- value at the key if `insert` returned true, and answers as before at every other key, and at every
  -- key if `insert` returned false.
  pub search-insert :
      (t : Table K V) (key : K) (value : V) (j : K)
      → IsProbed hash blank t
      → search hash blank (insert hash blank t key value).0 j ≡ (
          if (insert hash blank t key value).1 && e.beq key j
          then some value
          else search hash blank t j)
  search-insert t key value j h =
      let r = insert-Inserted t key value h in
      elim (Bool-cases (insert hash blank t key value).1) [
        | inr refused ↦ rw refused (ap (λ u. search hash blank u j) (r.refused refused))
        | inl stored ↦ elim (Bool-cases (e.beq key j)) [
          | inl same ↦
              rw (stored, same)
                (ap (search hash blank (insert hash blank t key value).0)
                    (sym ((e.beq_iff key j).0 same))
                  ∙ r.stored stored)
          | inr differs ↦
              rw (stored, differs) (r.other j λ same. cc (sym differs ∙ (e.beq_iff key j).1 same))
        ]
      ]
