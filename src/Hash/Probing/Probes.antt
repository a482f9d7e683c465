-- ===== src/Hash/Probing/Probes.antt =====
-- The probe sequence of hashtable_cache.hpp: the three loops stop at the same round.
use dsalib.Core.{
  not, ◌&&◌, ap, ℕ, zero, suc, ◌+◌, ◌-◌, ◌%◌, ◌≤◌, ◌<◌, ◌≡◌, inl, inr, Bool, true, false, Option,
  none, some, Eq, arith, Bool-cases, if◌then◌else◌, ltb,
}
use native.Mathlib.Nat.{mod-lt, mod-eq_of_lt, mod-eq-sub-mod}
use dsalib.Hash.Probing.{
  release, remove_from, Table, size, is_occupied, cell, fill, overwrite, current_index, insert_from,
  search_from,
}

pub ltb-eq_true : (a b : ℕ) → a < b → ltb a b ≡ true
ltb-eq_true a b h = ground arith

pub ltb-eq_false : (a b : ℕ) → b ≤ a → ltb a b ≡ false
ltb-eq_false a b h = ground arith

wrap_lem : (n r i : ℕ) → r < n → i < n → (r + i) % n ≡ (if ltb (r + i) n then r + i else r + i - n)
wrap_lem n r i hr hi = grind (arith, mod-eq_of_lt, mod-eq-sub-mod)

wrap_injective : (n r i j : ℕ) → r < n → i < n → j < n → (r + i) % n ≡ (r + j) % n → i ≡ j
wrap_injective n r i j hr hi hj h = ground (arith, wrap_lem n r i hr hi, wrap_lem n r j hr hj)

module _ {ℓ κ} {K : Type ℓ} {V : Type κ} ⦃e : Eq K⦄ (hash : K → ℕ) (blank : K × V) where
  pub current_index-lt :
      (t : Table K V) (key : K) (i : ℕ) → 0 < size t → current_index hash blank t key i < size t
  unfolding current_index
  current_index-lt t key i h = mod-lt _ h

  pub current_index-injective :
      (t : Table K V) (key : K) (i j : ℕ)
      → i < size t
      → j < size t
      → current_index hash blank t key i ≡ current_index hash blank t key j
      → i ≡ j
  unfolding current_index
  current_index-injective t key i j hi hj h =
      wrap_injective (size t) (hash key % size t) i j (mod-lt _ (omega arith)) hi hj h

  -- Whether the cell is occupied by another key, so that a loop for `key` goes on.
  unfoldable pub passes_at : Table K V → K → ℕ → Bool
  passes_at t key at = is_occupied t at && not (e.beq (cell blank t at).0 key)

  -- The same for the cell of a round.
  unfoldable pub passes : Table K V → K → ℕ → Bool
  unfolding passes_at
  passes t key i = passes_at t key (current_index hash blank t key i)

  -- The round at which a loop for `key` stops.
  unfoldable pub stop : (rounds i : ℕ) → Table K V → K → ℕ
  stop zero i t key = i
  stop (suc rounds) i t key = elim (passes t key i) [ true ↦ stop rounds (suc i) t key | false ↦ i ]

  -- What each loop does at the round where it stops; `limit` is the size of the table.
  unfoldable pub search_end : ℕ → Table K V → K → ℕ → Option V
  search_end limit t key s =
      let at = current_index hash blank t key s in
      if ltb s limit then (if is_occupied t at then some (cell blank t at).1 else none) else none

  unfoldable pub insert_end : ℕ → Table K V → K → V → ℕ → Table K V × Bool
  insert_end limit t key value s =
      let at = current_index hash blank t key s in
      if ltb s limit
      then (if is_occupied t at
          then (overwrite blank t at value, true)
          else (fill t at key value, true))
      else (t, false)

  pub search_from-stop :
      (rounds i limit : ℕ) (t : Table K V) (key : K)
      → i + rounds ≡ limit
      → search_from hash blank rounds i t key ≡ search_end limit t key (stop rounds i t key)
  unfolding search_from stop passes search_end
  search_from-stop zero i limit t key h = ground arith
  search_from-stop (suc rounds) i limit t key h =
      ground (arith, search_from-stop rounds (suc i) limit t key (omega arith))

  pub insert_from-stop :
      (rounds i limit : ℕ) (t : Table K V) (key : K) (value : V)
      → i + rounds ≡ limit
      → insert_from hash blank rounds i t key value
        ≡ insert_end limit t key value (stop rounds i t key)
  unfolding insert_from stop passes insert_end
  insert_from-stop zero i limit t key value h = rw (ltb-eq_false i limit (omega arith))
  insert_from-stop (suc rounds) i limit t key value h =
      let here = ltb-eq_true i limit (omega arith) in
      let at = current_index hash blank t key i in
      elim (Bool-cases (is_occupied t at)) [
        | inr free ↦ rw (free, insert_from, stop, passes, here, free)
        | inl taken ↦ elim (Bool-cases (e.beq (cell blank t at).0 key)) [
          | inl match ↦ rw (taken, match, insert_from, stop, passes, here, taken)
          | inr other ↦
              rw (taken, other, insert_from, stop, passes)
                (insert_from-stop rounds (suc i) limit t key value (omega arith))
        ]
      ]

  unfoldable pub remove_end : ℕ → Table K V → K → ℕ → Table K V × Bool
  remove_end limit t key s =
      let at = current_index hash blank t key s in
      if ltb s limit
      then (if is_occupied t at then (release t at, true) else (t, false))
      else (t, false)

  pub remove_from-stop :
      (rounds i limit : ℕ) (t : Table K V) (key : K)
      → i + rounds ≡ limit
      → remove_from hash blank rounds i t key ≡ remove_end limit t key (stop rounds i t key)
  unfolding remove_from stop passes remove_end
  remove_from-stop zero i limit t key h = rw (ltb-eq_false i limit (omega arith))
  remove_from-stop (suc rounds) i limit t key h =
      let here = ltb-eq_true i limit (omega arith) in
      let at = current_index hash blank t key i in
      elim (Bool-cases (is_occupied t at)) [
        | inr free ↦ rw (free, remove_from, stop, passes, here, free)
        | inl taken ↦ elim (Bool-cases (e.beq (cell blank t at).0 key)) [
          | inl match ↦ rw (taken, match, remove_from, stop, passes, here, taken)
          | inr other ↦
              rw (taken, other, remove_from, stop, passes)
                (remove_from-stop rounds (suc i) limit t key (omega arith))
        ]
      ]

  -- A loop stops within the table's size, passes all before, and does not pass where it stops.
  pub stop-le :
      (rounds i : ℕ) (t : Table K V) (key : K)
      → (i ≤ stop rounds i t key) × (stop rounds i t key ≤ i + rounds)
  unfolding stop
  stop-le zero i t key = omega arith
  stop-le (suc rounds) i t key = ground (arith, stop-le rounds (suc i) t key)

  pub passes_before :
      (rounds i : ℕ) (t : Table K V) (key : K) (j : ℕ)
      → i ≤ j
      → j < stop rounds i t key
      → passes t key j ≡ true
  unfolding stop
  passes_before zero i t key j h k = absurd (omega arith)
  passes_before (suc rounds) i t key j h k =
      ground (arith, passes_before rounds (suc i) t key j, ap (λ (m : ℕ). passes t key m))

  pub stops_at :
      (rounds i : ℕ) (t : Table K V) (key : K)
      → stop rounds i t key < i + rounds
      → passes t key (stop rounds i t key) ≡ false
  unfolding stop
  stops_at zero i t key h = absurd (omega arith)
  stops_at (suc rounds) i t key h = ground (arith, stops_at rounds (suc i) t key)

  -- The round is determined by that.
  pub stop_unique :
      (rounds i : ℕ) (t : Table K V) (key : K) (m : ℕ)
      → i ≤ m
      → m ≤ i + rounds
      → ((j : ℕ) → i ≤ j → j < m → passes t key j ≡ true)
      → (m < i + rounds → passes t key m ≡ false)
      → stop rounds i t key ≡ m
  unfolding stop
  stop_unique zero i t key m h k before at = omega arith
  stop_unique (suc rounds) i t key m h k before at = elim (Bool-cases (passes t key i)) [
    | inl pass ↦
        let later : i < m = ground (arith, at, ap {A = ℕ} (passes t key) {x = i} {y = m}) in
        rw (pass, stop)
          (stop_unique rounds (suc i) t key m later (omega arith)
            (λ j p q. before j (omega arith) q) (λ q. at (omega arith)))
    | inr stay ↦ rw (stay, stop) (ground (arith, before i, stay))
  ]
