-- ===== src/Hash/Probing/Fill.antt =====
-- `insert` of hashtable_cache.hpp where the key is not in the table: a free cell is filled.
use dsalib.Core.{
  ltb, ℕ, ◌<◌, ◌≡◌, ◌≢◌, refl, true, false, some, none, Eq, arith, Bool-cases, inl, inr, length-set,
  get_or-set_self, get_or-set_ne, sym, ◌∙◌, ap, ◌==◌, subst,
}
use dsalib.Hash.Probing.{Table, size, is_occupied, cell, fill, current_index, search}
use dsalib.Hash.Probing.Probes.{passes, passes_at, stop-le, stops_at, current_index-lt}
use dsalib.Hash.Probing.Invariant.{
  current_index-agree, round, slot, slot-agree, IsPlaced, IsPlaced-agree, IsProbed, passes-agree,
  round-agree, key_at_stop, search_found, search_free, search_full, search-agree, occupied_before,
}

module _ {ℓ κ} {K : Type ℓ} {V : Type κ} ⦃e : Eq K⦄ (hash : K → ℕ) (blank : K × V) where
  module _ (t : Table K V) (key : K) (value : V) (h : IsProbed hash blank t)
      (lt : round hash blank t key < size t)
      (free : is_occupied t (slot hash blank t key) ≡ false) where
    unfoldable pub after : Table K V
    after = fill t (slot hash blank t key) key value

    size-after : size after ≡ size t
    unfolding after fill
    size-after = length-set t.table _ _

    slot-lt : slot hash blank t key < size t
    slot-lt = current_index-lt hash blank t key (round hash blank t key) (omega arith)

    is_occupied-after_self : is_occupied after (slot hash blank t key) ≡ true
    unfolding after fill is_occupied
    is_occupied-after_self =
        get_or-set_self t.occupied _ true false (omega (arith, slot-lt, h.same_size))

    is_occupied-after_ne :
        (c : ℕ) → slot hash blank t key ≢ c → is_occupied after c ≡ is_occupied t c
    unfolding after fill is_occupied
    is_occupied-after_ne c ne = get_or-set_ne t.occupied _ c true false ne

    cell-after_self : cell blank after (slot hash blank t key) ≡ (key, value)
    unfolding after fill cell
    cell-after_self = get_or-set_self t.table _ _ blank slot-lt

    cell-after_ne : (c : ℕ) → slot hash blank t key ≢ c → cell blank after c ≡ cell blank t c
    unfolding after fill cell
    cell-after_ne c ne = get_or-set_ne t.table _ c _ blank ne

    -- An occupied cell of the old table is not the one that is filled.
    occupied_ne : (c : ℕ) → is_occupied t c ≡ true → slot hash blank t key ≢ c
    occupied_ne c taken same = cc (ap (is_occupied t) same)

    passes-after :
        (j : K) (i : ℕ)
        → is_occupied t (current_index hash blank t j i) ≡ true
        → passes hash blank after j i ≡ passes hash blank t j i
    passes-after j i taken =
        let ne = occupied_ne (current_index hash blank t j i) taken in
        passes-agree hash blank t after j i size-after (is_occupied-after_ne _ ne)
          (ap (λ p. p.0) (cell-after_ne _ ne))

    round-after :
        (j : K)
        → (round hash blank t j < size t → passes hash blank after j (round hash blank t j) ≡ false)
        → round hash blank after j ≡ round hash blank t j
    round-after j at =
        round-agree hash blank t after j size-after
          (λ i less. passes-after j i (occupied_before hash blank t j i less)) at

    round-after_taken :
        (j : K)
        → is_occupied t (slot hash blank t j) ≡ true
        → round hash blank after j ≡ round hash blank t j
    round-after_taken j taken = round-after j λ less.
        passes-after j (round hash blank t j) taken
        ∙ stops_at hash blank (size t) 0 t j (omega arith)

    round-after_self : round hash blank after key ≡ round hash blank t key
    unfolding passes
    round-after_self = round-after key λ less.
        let at = slot hash blank t key in
        let same_at =
          current_index-agree hash blank t after key (round hash blank t key) size-after in
        ap (passes_at hash blank after key) same_at
        ∙ unfold passes_at in
          rw (is_occupied-after_self, cell-after_self, (e.beq_iff key key).1 refl)

    pub search-after_self : search hash blank after key ≡ some value
    search-after_self =
        let slots = slot-agree hash blank t after key size-after round-after_self in
        search_found hash blank after key (omega (arith, round-after_self, size-after))
          (ap (is_occupied after) slots ∙ is_occupied-after_self)
        ∙ ap some (ap (λ c. (cell blank after c).1) slots ∙ ap (λ p. p.1) cell-after_self)

    -- A key other than the new one that was missed is missed in the new table.
    not_found :
        (j : K)
        → key ≢ j
        → is_occupied t (slot hash blank t j) ≡ false
        → round hash blank after j < size after
        → is_occupied after (slot hash blank after j) ≡ true
        → ⊥
    not_found j ne vacant less taken =
        let c = slot hash blank after j in
        let has_key : (cell blank after c).0 ≡ j = key_at_stop hash blank after j less taken in
        let other : slot hash blank t key ≢ c = λ same.
          ne (
            ap (λ p. p.0) (sym cell-after_self)
            ∙ ap (λ d. (cell blank after d).0) same
            ∙ has_key) in
        let was : is_occupied t c ≡ true = sym (is_occupied-after_ne c other) ∙ taken in
        let in_range : c < size after =
          current_index-lt hash blank after j (round hash blank after j) (omega arith) in
        let old = h.placed c (omega (arith, size-after)) was in
        let keys : (cell blank t c).0 ≡ j = ap (λ p. p.0) (sym (cell-after_ne c other)) ∙ has_key in
        let at : slot hash blank t j ≡ c = ap (slot hash blank t) (sym keys) ∙ old.1 in
        cc (sym vacant ∙ ap (is_occupied t) at ∙ was)

    missing :
        (j : K)
        → key ≢ j
        → is_occupied t (slot hash blank t j) ≡ false
        → search hash blank after j ≡ none
    missing j ne vacant = elim (Bool-cases (ltb (round hash blank after j) (size after))) [
      | inr full ↦
          search_full hash blank after j
            (ground (arith, full, stop-le hash blank (size after) 0 after j))
      | inl less ↦ elim (Bool-cases (is_occupied after (slot hash blank after j))) [
        | inr empty ↦ search_free hash blank after j empty
        | inl taken ↦ absurd (not_found j ne vacant (ground (arith, less)) taken)
      ]
    ]

    pub search-after_ne : (j : K) → key ≢ j → search hash blank after j ≡ search hash blank t j
    search-after_ne j ne = elim (Bool-cases (ltb (round hash blank t j) (size t))) [
      | inr full ↦
          let at : round hash blank t j ≡ size t =
            ground (arith, full, stop-le hash blank (size t) 0 t j) in
          search_full hash blank after j
            (round-after j (λ less. absurd (omega arith)) ∙ at ∙ sym size-after)
          ∙ sym (search_full hash blank t j at)
      | inl less ↦ elim (Bool-cases (is_occupied t (slot hash blank t j))) [
        | inl here ↦
            let other = occupied_ne (slot hash blank t j) here in
            search-agree hash blank t after j size-after (round-after_taken j here)
              (λ _. is_occupied-after_ne _ other) (λ _ _. ap (λ p. p.1) (cell-after_ne _ other))
        | inr vacant ↦ missing j ne vacant ∙ sym (search_free hash blank t j vacant)
      ]
    ]

    pub after-IsProbed : IsProbed hash blank after
    after-IsProbed = record {
      same_size =
          unfold after fill in (length-set t.occupied _ true ∙ h.same_size ∙ sym size-after);
      placed = λ c less taken. elim (Bool-cases (slot hash blank t key == c)) [
        | inl same ↦
            subst (λ d. IsPlaced hash blank after (cell blank after d).0 d) (ground (arith, same))
              (subst (λ q. IsPlaced hash blank after q (slot hash blank t key))
                (ap (λ p. p.0) (sym cell-after_self))
                (
                  omega (arith, round-after_self, size-after),
                  slot-agree hash blank t after key size-after round-after_self,
                ))
        | inr other ↦
            let ne : slot hash blank t key ≢ c = ground (arith, other) in
            let was = sym (is_occupied-after_ne c ne) ∙ taken in
            let old = h.placed c (omega (arith, size-after)) was in
            subst (λ q. IsPlaced hash blank after q c) (ap (λ p. p.0) (sym (cell-after_ne c ne)))
              (IsPlaced-agree hash blank t after (cell blank t c).0 c size-after
                (round-after_taken (cell blank t c).0 (ap (is_occupied t) old.1 ∙ was)) old)
      ];
    }
