-- ===== src/Sort/Array.antt =====
-- `std::vector<int>` as the sorts use it: reads, and `std::swap` of two elements. An index out of bounds
-- is `none`.
use dsalib.Core.{
  ℕ, suc, ◌<◌, ◌≤◌, ◌≡◌, ◌≢◌, refl, ap, ◌∙◌, arith, Option, none, some, List, [], ◌∷◌, ℤ, pos,
  get_elem?, get_or, set, length, length-set, get_or-set_self, get_or-set_ne, get_elem?-get_or,
  count-set, same, SameItems, All, IsSorted, ◌≤ℤ◌, ◌==◌, Bool-cases, inl, inr,
}

infixl 5 ◌>>=◌
abbrev pub ◌>>=◌ {ℓ κ} : {A : Type ℓ} {B : Type κ} → Option A → (A → Option B) → Option B
none >>= f = none
some a >>= f = f a

-- The element at an index of the array.
abbrev pub at : List ℤ → ℕ → ℤ
at xs i = get_or xs i (pos 0)

pub read : (xs : List ℤ) (i : ℕ) → i < length xs → get_elem? xs i ≡ some (at xs i)
read xs i h = get_elem?-get_or xs i (pos 0) h

-- `std::swap(arr[i], arr[j])`
unfoldable pub swap : List ℤ → ℕ → ℕ → Option (List ℤ)
swap xs i j = do a ← get_elem? xs i; b ← get_elem? xs j; some (set (set xs i b) j a)

-- The array after a swap within its bounds.
unfoldable pub swapped : List ℤ → ℕ → ℕ → List ℤ
swapped xs i j = set (set xs i (at xs j)) j (at xs i)

pub swap-swapped :
    (xs : List ℤ) (i j : ℕ) → i < length xs → j < length xs → swap xs i j ≡ some (swapped xs i j)
unfolding swap swapped
swap-swapped xs i j p q = rw (read xs i p) (rw (read xs j q) refl)

pub length-swapped : (xs : List ℤ) (i j : ℕ) → length (swapped xs i j) ≡ length xs
unfolding swapped
length-swapped xs i j = length-set (set xs i (at xs j)) j (at xs i) ∙ length-set xs i (at xs j)

pub at-swapped_second : (xs : List ℤ) (i j : ℕ) → j < length xs → at (swapped xs i j) j ≡ at xs i
unfolding swapped
at-swapped_second xs i j q =
    get_or-set_self (set xs i (at xs j)) j (at xs i) (pos 0)
      (omega (arith, length-set xs i (at xs j)))

pub at-swapped_first :
    (xs : List ℤ) (i j : ℕ) → i < length xs → j < length xs → at (swapped xs i j) i ≡ at xs j
unfolding swapped
at-swapped_first xs i j p q = elim (Bool-cases (i == j)) [
  | inl same ↦
      let e : i ≡ j = ground (arith, same) in
      ap (λ (m : ℕ). at (swapped xs i j) m) e ∙ at-swapped_second xs i j q ∙ ap (at xs) e
  | inr other ↦
      get_or-set_ne (set xs i (at xs j)) j i (at xs i) (pos 0) (ground (arith, other))
      ∙ get_or-set_self xs i (at xs j) (pos 0) p
]

pub at-swapped_other : (xs : List ℤ) (i j k : ℕ) → i ≢ k → j ≢ k → at (swapped xs i j) k ≡ at xs k
unfolding swapped
at-swapped_other xs i j k p q =
    get_or-set_ne (set xs i (at xs j)) j k (at xs i) (pos 0) q
    ∙ get_or-set_ne xs i k (at xs j) (pos 0) p

-- The second element is still there after the first is overwritten by it.
at-set_same : (xs : List ℤ) (i j : ℕ) → j < length xs → at (set xs i (at xs j)) j ≡ at xs j
at-set_same xs i j q = elim (Bool-cases (i == j)) [
  | inl same ↦
      ap (λ (m : ℕ). at (set xs m (at xs j)) j) {x = i} {y = j} (ground (arith, same))
      ∙ get_or-set_self xs j (at xs j) (pos 0) q
  | inr other ↦ get_or-set_ne xs i j (at xs j) (pos 0) (ground (arith, other))
]

pub count-swapped :
    (xs : List ℤ) (i j : ℕ) → i < length xs → j < length xs → SameItems (swapped xs i j) xs
unfolding swapped
count-swapped xs i j p q v =
    let inside = length-set xs i (at xs j) in
    omega (
      arith,
      count-set v xs i (at xs j) (pos 0) p,
      count-set v (set xs i (at xs j)) j (at xs i) (pos 0) (omega arith),
      ap (same v) (at-set_same xs i j q),
    )

All-of_at : (x : ℤ) (xs : List ℤ) → ((j : ℕ) → j < length xs → x ≤ℤ at xs j) → All (λ y. x ≤ℤ y) xs
All-of_at x [] h = tt
All-of_at x (y ∷ ys) h = (h 0 (omega arith), All-of_at x ys (λ j q. h (suc j) (omega arith)))

-- An array whose elements ascend by index is an ascending list.
pub IsSorted-of_at :
    (xs : List ℤ) → ((i j : ℕ) → i ≤ j → j < length xs → at xs i ≤ℤ at xs j) → IsSorted xs
unfolding IsSorted
IsSorted-of_at [] h = tt
IsSorted-of_at (x ∷ xs) h = (
  All-of_at x xs (λ j q. h 0 (suc j) (omega arith) (omega arith)),
  IsSorted-of_at xs (λ i j p q. h (suc i) (suc j) (omega arith) (omega arith)),
)
