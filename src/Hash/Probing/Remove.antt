-- ===== src/Hash/Probing/Remove.antt =====
-- `remove` of hashtable_cache.hpp: it frees the cell of the key, and cuts the probes that run over it.
use dsalib.Core.{
  get_or-set_default, ◌≤◌, ℕ, ◌<◌, ◌≡◌, ◌≢◌, refl, true, false, none, Eq, arith, sym, ◌∙◌, ap,
  get_or-set_ne,
}
use dsalib.Hash.Probing.{Table, size, is_occupied, cell, release, current_index, remove, search}
use dsalib.Hash.Probing.Probes.{
  ltb-eq_true, passes, stop-le, stop_unique, passes_before, remove_end, remove_from-stop,
  current_index-injective,
}
use dsalib.Hash.Probing.Invariant.{round, slot, passes-agree, search_free, current_index-agree}

module _ {ℓ κ} {K : Type ℓ} {V : Type κ} ⦃e : Eq K⦄ (hash : K → ℕ) (blank : K × V) where
  remove-round :
      (t : Table K V) (key : K)
      → remove hash blank t key ≡ remove_end hash blank (size t) t key (round hash blank t key)
  unfolding remove
  remove-round t key = remove_from-stop hash blank (size t) 0 (size t) t key (omega arith)

  remove_found :
      (t : Table K V) (key : K)
      → round hash blank t key < size t
      → is_occupied t (slot hash blank t key) ≡ true
      → (remove hash blank t key).0 ≡ release t (slot hash blank t key)
  remove_found t key lt occupied =
      ap (λ r. r.0) (remove-round t key)
      ∙ unfold remove_end in rw (ltb-eq_true (round hash blank t key) (size t) lt, occupied)

  is_occupied-release_self : (t : Table K V) (c : ℕ) → is_occupied (release t c) c ≡ false
  unfolding is_occupied release
  is_occupied-release_self t c = get_or-set_default t.occupied c false

  is_occupied-release_ne :
      (t : Table K V) (c d : ℕ) → c ≢ d → is_occupied (release t c) d ≡ is_occupied t d
  unfolding is_occupied release
  is_occupied-release_ne t c d ne = get_or-set_ne t.occupied c d false false ne

  -- A key whose probe runs over a freed cell is cut off there.
  search-release :
      (t : Table K V) (b : K) (i : ℕ)
      → i < round hash blank t b
      → search hash blank (release t (current_index hash blank t b i)) b ≡ none
  search-release t b i less =
      let c = current_index hash blank t b i in
      let u = release t c in
      let bound = stop-le hash blank (size t) 0 t b in
      let sizes : size u ≡ size t = unfold release in refl in
      let before = λ (j : ℕ) (p : 0 ≤ j) (q : j < i).
        let other : c ≢ current_index hash blank t b j = λ same. absurd (
          omega
            (arith, current_index-injective hash blank t b i j (omega arith) (omega arith) same)) in
        passes-agree hash blank t u b j sizes (is_occupied-release_ne t c _ other)
          (unfold release cell in refl)
        ∙ passes_before hash blank (size t) 0 t b j (omega arith) (omega arith) in
      let free : is_occupied u (current_index hash blank u b i) ≡ false =
        ap (is_occupied u) (current_index-agree hash blank t u b i sizes)
        ∙ is_occupied-release_self t c in
      let rounds : round hash blank u b ≡ i =
        stop_unique hash blank (size u) 0 u b i (omega arith) (omega arith) before
          (λ _. unfold passes in rw free) in
      search_free hash blank u b
        (ap (λ m. is_occupied u (current_index hash blank u b m)) rounds ∙ free)

  -- Removing a key that the table has hides every other key whose probe ran over the removed key's
  -- cell: `search` for it answers that it is not there, whatever was stored under it.
  pub search-remove_cut :
      (t : Table K V) (a b : K) (i : ℕ)
      → round hash blank t a < size t
      → is_occupied t (slot hash blank t a) ≡ true
      → i < round hash blank t b
      → current_index hash blank t b i ≡ slot hash blank t a
      → search hash blank (remove hash blank t a).0 b ≡ none
  search-remove_cut t a b i lt occupied less at =
      ap (λ u. search hash blank u b) (remove_found t a lt occupied ∙ ap (release t) (sym at))
      ∙ search-release t b i less
