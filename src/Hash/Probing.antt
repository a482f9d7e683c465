-- ===== src/Hash/Probing.antt =====
-- DataStructure/CPP/hash_table/hashtable_cache.hpp: a fixed array with linear probing. `hash` is
-- `std::hash<KeyType>`, a parameter, and `blank` the pair that the vector is filled with. The program
-- divides by `table.size()`, which is undefined at size 0.
pub mod Probes
pub mod Invariant
pub mod Overwrite
pub mod Fill
pub mod Insert
pub mod Remove
mod Examples
use dsalib.Core.{
  ℕ, zero, suc, ◌+◌, ◌%◌, Bool, true, false, Option, none, some, List, length, get_or, set,
  replicate, Eq,
}

-- `CacheFriendlyHashTable`: the vectors `table` and `occupied`.
pub record Table {ℓ κ} (K : Type ℓ) (V : Type κ) : Type (ℓ ⊔ κ) where
  pub table : List (K × V)
  pub occupied : List Bool

module _ {ℓ κ} {K : Type ℓ} {V : Type κ} where
  -- The constructor.
  unfoldable pub create : K × V → ℕ → Table K V
  create blank size = record { table = replicate size blank; occupied = replicate size false }

  -- `table.size()`
  abbrev pub size : Table K V → ℕ
  size t = length t.table

  -- `occupied[i]`
  unfoldable pub is_occupied : Table K V → ℕ → Bool
  is_occupied t i = get_or t.occupied i false

  -- `table[i]`
  unfoldable pub cell : K × V → Table K V → ℕ → K × V
  cell blank t i = get_or t.table i blank

  -- `table[i] = std::make_pair(key, value); occupied[i] = true`
  unfoldable pub fill : Table K V → ℕ → K → V → Table K V
  fill t i key value = record {
    table = set t.table i (key, value);
    occupied = set t.occupied i true;
  }

  -- `table[i].second = value`
  unfoldable pub overwrite : K × V → Table K V → ℕ → V → Table K V
  unfolding cell
  overwrite blank t i value = record t { table = set t.table i ((cell blank t i).0, value) }

  -- `occupied[i] = false`
  unfoldable pub release : Table K V → ℕ → Table K V
  release t i = record t { occupied = set t.occupied i false }

module _ {ℓ κ} {K : Type ℓ} {V : Type κ} ⦃e : Eq K⦄ (hash : K → ℕ) (blank : K × V) where
  -- `currentIndex` in round `i` of a loop.
  unfoldable pub current_index : Table K V → K → ℕ → ℕ
  current_index t key i = (hash key % size t + i) % size t

  -- The loop of `insert` from round `i` on, with `rounds` rounds left.
  unfoldable pub insert_from : (rounds i : ℕ) → Table K V → K → V → Table K V × Bool
  insert_from zero i t key value = (t, false)
  insert_from (suc rounds) i t key value =
      let at = current_index t key i in
      elim (is_occupied t at) [
        | false ↦ (fill t at key value, true)
        | true ↦ elim (e.beq (cell blank t at).0 key) [
          | true ↦ (overwrite blank t at value, true)
          | false ↦ insert_from rounds (suc i) t key value
        ]
      ]

  -- `insert`
  unfoldable pub insert : Table K V → K → V → Table K V × Bool
  insert t key value = insert_from (size t) 0 t key value

  -- The loop of `search`.
  unfoldable pub search_from : (rounds i : ℕ) → Table K V → K → Option V
  search_from zero i t key = none
  search_from (suc rounds) i t key =
      let at = current_index t key i in
      elim (is_occupied t at) [
        | false ↦ none
        | true ↦ elim (e.beq (cell blank t at).0 key) [
          | true ↦ some (cell blank t at).1
          | false ↦ search_from rounds (suc i) t key
        ]
      ]

  -- `search`
  unfoldable pub search : Table K V → K → Option V
  search t key = search_from (size t) 0 t key

  -- The loop of `remove`.
  unfoldable pub remove_from : (rounds i : ℕ) → Table K V → K → Table K V × Bool
  remove_from zero i t key = (t, false)
  remove_from (suc rounds) i t key =
      let at = current_index t key i in
      elim (is_occupied t at) [
        | false ↦ (t, false)
        | true ↦ elim (e.beq (cell blank t at).0 key) [
          | true ↦ (release t at, true)
          | false ↦ remove_from rounds (suc i) t key
        ]
      ]

  -- `remove`
  unfoldable pub remove : Table K V → K → Table K V × Bool
  remove t key = remove_from (size t) 0 t key
