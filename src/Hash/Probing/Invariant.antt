-- ===== src/Hash/Probing/Invariant.antt =====
-- The invariant of hashtable_cache.hpp while nothing is removed: every key stands where its loop stops.
use dsalib.Core.{
  inl, inr, ltb, Bool-cases, ap, none, some, sym, ◌∙◌, ℕ, ◌<◌, ◌≡◌, true, false, Eq, arith, length,
  length-replicate, get_or-replicate,
}
use dsalib.Hash.Probing.{Table, size, is_occupied, cell, create, current_index, insert, search}
use dsalib.Hash.Probing.Probes.{
  ltb-eq_false, ltb-eq_true, passes_at, passes, stop, stop-le, passes_before, stops_at, stop_unique,
  search_end, insert_end, search_from-stop, insert_from-stop,
}

module _ {ℓ κ} {K : Type ℓ} {V : Type κ} ⦃e : Eq K⦄ (hash : K → ℕ) (blank : K × V) where
  -- The round at which a loop for the key stops.
  abbrev pub round : Table K V → K → ℕ
  round t key = stop hash blank (size t) 0 t key

  -- The cell at which the loops for a key stop.
  abbrev pub slot : Table K V → K → ℕ
  slot t key = current_index hash blank t key (round t key)

  abbrev pub IsPlaced : Table K V → K → ℕ → Type 0
  IsPlaced t key c = (round t key < size t) × (slot t key ≡ c)

  pub record IsProbed (t : Table K V) : Type 0 where
    pub same_size : length t.occupied ≡ size t
    pub placed : (c : ℕ) → c < size t → is_occupied t c ≡ true → IsPlaced t (cell blank t c).0 c

  pub create-IsProbed : (n : ℕ) → IsProbed (create blank n)
  unfolding create is_occupied
  create-IsProbed n = record {
    same_size = length-replicate n false ∙ sym (length-replicate n blank);
    placed = λ c lt occupied. absurd (ground (arith, get_or-replicate n c false));
  }

  pub current_index-agree :
      (t u : Table K V) (key : K) (i : ℕ)
      → size u ≡ size t
      → current_index hash blank u key i ≡ current_index hash blank t key i
  unfolding current_index
  current_index-agree t u key i sizes = rw sizes

  pub passes-agree :
      (t u : Table K V) (key : K) (i : ℕ)
      → size u ≡ size t
      → is_occupied u (current_index hash blank t key i)
        ≡ is_occupied t (current_index hash blank t key i)
      → (cell blank u (current_index hash blank t key i)).0
        ≡ (cell blank t (current_index hash blank t key i)).0
      → passes hash blank u key i ≡ passes hash blank t key i
  unfolding passes
  passes-agree t u key i sizes occupied keys =
      rw (current_index-agree t u key i sizes, passes_at, occupied, keys)

  -- A table whose cells agree with another's along the way of a key stops at the same round.
  pub round-agree :
      (t u : Table K V) (key : K)
      → size u ≡ size t
      → ((i : ℕ) → i < round t key → passes hash blank u key i ≡ passes hash blank t key i)
      → (round t key < size t → passes hash blank u key (round t key) ≡ false)
      → round u key ≡ round t key
  round-agree t u key sizes before at =
      let bound = stop-le hash blank (size t) 0 t key in
      stop_unique hash blank (size u) 0 u key (round t key) (omega arith) (omega arith)
        (λ j p q. before j q ∙ passes_before hash blank (size t) 0 t key j p q)
        (λ q. at (omega arith))

  -- Where a loop stops at an occupied cell, the cell has the key.
  pub key_at_stop :
      (t : Table K V) (key : K)
      → round t key < size t
      → is_occupied t (current_index hash blank t key (round t key)) ≡ true
      → (cell blank t (current_index hash blank t key (round t key))).0 ≡ key
  key_at_stop t key lt occupied =
      let stays : passes hash blank t key (round t key) ≡ false =
        stops_at hash blank (size t) 0 t key (omega arith) in
      let at = current_index hash blank t key (round t key) in
      unfold passes in ground (arith, stays, occupied, (e.beq_iff (cell blank t at).0 key).0)

  -- The cells before that are occupied.
  pub occupied_before :
      (t : Table K V) (key : K) (i : ℕ)
      → i < round t key
      → is_occupied t (current_index hash blank t key i) ≡ true
  occupied_before t key i lt =
      let pass = passes_before hash blank (size t) 0 t key i (omega arith) lt in
      unfold passes in ground (arith, pass)

  pub search-round :
      (t : Table K V) (key : K)
      → search hash blank t key ≡ search_end hash blank (size t) t key (round t key)
  unfolding search
  search-round t key = search_from-stop hash blank (size t) 0 (size t) t key (omega arith)

  pub insert-round :
      (t : Table K V) (key : K) (value : V)
      → insert hash blank t key value ≡ insert_end hash blank (size t) t key value (round t key)
  unfolding insert
  insert-round t key value =
      insert_from-stop hash blank (size t) 0 (size t) t key value (omega arith)

  pub slot-agree :
      (t u : Table K V) (key : K)
      → size u ≡ size t
      → round u key ≡ round t key
      → slot u key ≡ slot t key
  slot-agree t u key sizes rounds =
      current_index-agree t u key (round u key) sizes ∙ ap (current_index hash blank t key) rounds

  pub IsPlaced-agree :
      (t u : Table K V) (key : K) (c : ℕ)
      → size u ≡ size t
      → round u key ≡ round t key
      → IsPlaced t key c
      → IsPlaced u key c
  IsPlaced-agree t u key c sizes rounds h = (omega arith, slot-agree t u key sizes rounds ∙ h.1)

  pub search_found :
      (t : Table K V) (key : K)
      → round t key < size t
      → is_occupied t (slot t key) ≡ true
      → search hash blank t key ≡ some (cell blank t (slot t key)).1
  search_found t key lt occupied =
      search-round t key ∙ unfold search_end in rw (ltb-eq_true (round t key) (size t) lt, occupied)

  pub search_free :
      (t : Table K V) (key : K)
      → is_occupied t (slot t key) ≡ false
      → search hash blank t key ≡ none
  search_free t key free = search-round t key ∙ unfold search_end in rw free (ground arith)

  pub search_full :
      (t : Table K V) (key : K) → round t key ≡ size t → search hash blank t key ≡ none
  search_full t key full =
      search-round t key
      ∙ unfold search_end in rw (ltb-eq_false (round t key) (size t) (omega arith))

  pub search-agree :
      (t u : Table K V) (key : K)
      → size u ≡ size t
      → round u key ≡ round t key
      → (round t key < size t → is_occupied u (slot t key) ≡ is_occupied t (slot t key))
      → (round t key < size t
          → is_occupied t (slot t key) ≡ true
          → (cell blank u (slot t key)).1 ≡ (cell blank t (slot t key)).1)
      → search hash blank u key ≡ search hash blank t key
  search-agree t u key sizes rounds occupied values =
      let bound = stop-le hash blank (size t) 0 t key in
      let slots = slot-agree t u key sizes rounds in
      elim (Bool-cases (ltb (round t key) (size t))) [
        | inr full ↦
            search_full u key (ground (arith, full, rounds, sizes))
            ∙ sym (search_full t key (ground (arith, full)))
        | inl less ↦
            let lt : round t key < size t = ground (arith, less) in
            elim (Bool-cases (is_occupied t (slot t key))) [
              | inl here ↦
                  search_found u key (omega arith) (ap (is_occupied u) slots ∙ occupied lt ∙ here)
                  ∙ ap some (ap (λ c. (cell blank u c).1) slots ∙ values lt here)
                  ∙ sym (search_found t key lt here)
              | inr free ↦
                  search_free u key (ap (is_occupied u) slots ∙ occupied lt ∙ free)
                  ∙ sym (search_free t key free)
            ]
      ]
