-- ===== src/Hash/Probing/Overwrite.antt =====
-- `insert` of hashtable_cache.hpp where the key is in the table: its value is replaced.
use dsalib.Core.{
  subst, subst, ℕ, ◌<◌, ◌≡◌, ◌≢◌, refl, true, some, Eq, arith, Bool-cases, inl, inr, length-set,
  get_or-set_self, get_or-set_ne, sym, ◌∙◌, ap, ◌==◌,
}
use dsalib.Hash.Probing.{Table, size, is_occupied, cell, overwrite, current_index, search}
use dsalib.Hash.Probing.Probes.{stops_at, current_index-lt}
use dsalib.Hash.Probing.Invariant.{
  slot-agree, IsPlaced, IsPlaced-agree, round, slot, IsProbed, passes-agree, round-agree,
  key_at_stop, search_found, search-agree,
}

module _ {ℓ κ} {K : Type ℓ} {V : Type κ} ⦃e : Eq K⦄ (hash : K → ℕ) (blank : K × V) where
  module _ (t : Table K V) (key : K) (value : V) (lt : round hash blank t key < size t)
      (occupied : is_occupied t (slot hash blank t key) ≡ true) where
    unfoldable pub after : Table K V
    after = overwrite blank t (slot hash blank t key) value

    size-after : size after ≡ size t
    unfolding after overwrite
    size-after = length-set t.table _ _

    is_occupied-after : (c : ℕ) → is_occupied after c ≡ is_occupied t c
    unfolding after overwrite is_occupied
    is_occupied-after c = refl

    slot-lt : slot hash blank t key < size t
    slot-lt = current_index-lt hash blank t key (round hash blank t key) (omega arith)

    cell-after_self :
        cell blank after (slot hash blank t key) ≡ ((cell blank t (slot hash blank t key)).0, value)
    unfolding after overwrite cell
    cell-after_self = get_or-set_self t.table _ _ blank slot-lt

    cell-after_ne : (c : ℕ) → slot hash blank t key ≢ c → cell blank after c ≡ cell blank t c
    unfolding after overwrite cell
    cell-after_ne c ne = get_or-set_ne t.table _ c _ blank ne

    key-after : (c : ℕ) → (cell blank after c).0 ≡ (cell blank t c).0
    key-after c = elim (Bool-cases (slot hash blank t key == c)) [
      | inl same ↦
          let at : slot hash blank t key ≡ c = ground (arith, same) in
          subst (λ d. (cell blank after d).0 ≡ (cell blank t d).0) at
            (ap (λ p. p.0) cell-after_self)
      | inr other ↦ ap (λ p. p.0) (cell-after_ne c (ground (arith, other)))
    ]

    round-after : (j : K) → round hash blank after j ≡ round hash blank t j
    round-after j =
        let agree = λ (i : ℕ).
          let at = current_index hash blank t j i in
          passes-agree hash blank t after j i size-after (is_occupied-after at) (key-after at) in
        round-agree hash blank t after j size-after (λ i _. agree i)
          (λ less. agree _ ∙ stops_at hash blank (size t) 0 t j (omega arith))

    pub search-after_self : search hash blank after key ≡ some value
    search-after_self =
        let slots = slot-agree hash blank t after key size-after (round-after key) in
        search_found hash blank after key (omega (arith, round-after key, size-after))
          (is_occupied-after _ ∙ ap (is_occupied t) slots ∙ occupied)
        ∙ ap some (ap (λ c. (cell blank after c).1) slots ∙ ap (λ p. p.1) cell-after_self)

    pub search-after_ne : (j : K) → key ≢ j → search hash blank after j ≡ search hash blank t j
    search-after_ne j ne =
        search-agree hash blank t after j size-after (round-after j) (λ _. is_occupied-after _)
          λ less here.
            ap (λ p. p.1)
              (cell-after_ne (slot hash blank t j) (λ same. ne (
                sym (key_at_stop hash blank t key lt occupied)
                ∙ ap (λ c. (cell blank t c).0) same
                ∙ key_at_stop hash blank t j less here)))

    pub after-IsProbed : IsProbed hash blank t → IsProbed hash blank after
    after-IsProbed h = record {
      same_size = unfold after overwrite in (h.same_size ∙ sym size-after);
      placed = λ c less taken.
          subst (λ q. IsPlaced hash blank after q c) (sym (key-after c))
            (IsPlaced-agree hash blank t after (cell blank t c).0 c size-after
              (round-after (cell blank t c).0)
              (h.placed c (omega (arith, size-after)) (sym (is_occupied-after c) ∙ taken)));
    }
