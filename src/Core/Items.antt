-- ===== src/Core/Items.antt =====
-- How often an integer occurs in a list, and ascending lists: the abstract views of the containers
-- and of the sorts.
use Prim.Native.Nat.{zero, suc, ◌<◌, ℕ, ◌+◌, ◌<◌}
use mathlib.Core.Path.{◌≡◌}
use mathlib.Core.Bool.{Bool}
use mathlib.Core.Logic.{◌⊎◌, ◌≢◌}
use mathlib.Core.List.{List, [], ◌∷◌, ◌++◌}
use native.Mathlib.Omega.{arith}
use dsalib.Core.Lists.{length, set, get_or}
use dsalib.Core.Tests.{ltb, if◌then◌else◌}
use dsalib.Core.Int.{ℤ, ◌==ℤ◌, ◌≤ℤ◌, eq_of_parts}

-- 1 if the two are equal, and 0 if not.
unfoldable pub same : ℤ → ℤ → ℕ
same v x = if v ==ℤ x then 1 else 0

pub same_refl : (v : ℤ) → same v v ≡ 1
unfolding same
same_refl v = ground arith

pub same_ne : (v x : ℤ) → v ≢ x → same v x ≡ 0
unfolding same
same_ne v x n = ground (arith, eq_of_parts v x)

pub eq_of_same : (v x : ℤ) → 0 < same v x → v ≡ x
unfolding same
eq_of_same v x n = ground (arith, eq_of_parts v x)

abbrev pub count : ℤ → List ℤ → ℕ
count v [] = 0
count v (x ∷ xs) = same v x + count v xs

pub count-append : (v : ℤ) (xs ys : List ℤ) → count v (xs ++ ys) ≡ count v xs + count v ys
count-append v [] ys = omega arith
count-append v (x ∷ xs) ys = omega (arith, count-append v xs ys)

-- Two lists hold the same values, each as often.
abbrev pub SameItems : List ℤ → List ℤ → Type 0
SameItems xs ys = (v : ℤ) → count v xs ≡ count v ys

-- Every element satisfies `P`.
abbrev pub All {ℓ κ} : {A : Type ℓ} → (A → Type κ) → List A → Type κ
All P [] = Unit
All P (x ∷ xs) = P x × All P xs

-- Some element satisfies `P`.
abbrev pub Any {ℓ} : {A : Type ℓ} → (A → Type 0) → List A → Type 0
Any P [] = ⊥
Any P (x ∷ xs) = P x ⊎ Any P xs

pub All-append {ℓ κ} :
    {A : Type ℓ} (P : A → Type κ) (xs ys : List A) → All P xs → All P ys → All P (xs ++ ys)
All-append P [] ys h k = k
All-append P (x ∷ xs) ys h k = (h.0, All-append P xs ys h.1 k)

pub All-imp {ℓ κ μ} :
    {A : Type ℓ} {P : A → Type κ} {Q : A → Type μ} (xs : List A)
    → ((x : A) → P x → Q x)
    → All P xs
    → All Q xs
All-imp [] f h = tt
All-imp (x ∷ xs) f h = (f x h.0, All-imp xs f h.1)

unfoldable pub IsSorted : List ℤ → Type 0
IsSorted [] = Unit
IsSorted (x ∷ xs) = All (λ y. x ≤ℤ y) xs × IsSorted xs

pub IsSorted-append :
    (xs ys : List ℤ) (m : ℤ)
    → IsSorted xs
    → IsSorted ys
    → All (λ x. x ≤ℤ m) xs
    → All (λ y. m ≤ℤ y) ys
    → IsSorted (xs ++ ys)
unfolding IsSorted
IsSorted-append [] ys m sx sy ax ay = sy
IsSorted-append (x ∷ xs) ys m sx sy ax ay =
    let above = All-imp ys (λ y (h : m ≤ℤ y). omega arith) ay in
    (All-append (λ y. x ≤ℤ y) xs ys sx.0 above, IsSorted-append xs ys m sx.1 sy ax.1 ay)

-- A value that is written in place of another.
pub count-set :
    (v : ℤ) (xs : List ℤ) (i : ℕ) (w d : ℤ)
    → i < length xs
    → count v (set xs i w) + same v (get_or xs i d) ≡ count v xs + same v w
count-set v [] i w d h = absurd (omega arith)
count-set v (x ∷ xs) zero w d h = omega arith
count-set v (x ∷ xs) (suc i) w d h = omega (arith, count-set v xs i w d (omega arith))

-- The list without the first such value.
unfoldable pub remove_one : ℤ → List ℤ → List ℤ
remove_one item [] = []
remove_one item (x ∷ q) = let rest = remove_one item q in if x ==ℤ item then q else x ∷ rest

abbrev pub is_member : ℤ → List ℤ → Bool
is_member item q = ltb 0 (count item q)
