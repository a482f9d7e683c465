-- ===== src/Matrix/Tabulate.antt =====
-- The matrix with given numbers in its cells, and what the loops that fill a matrix return.
use dsalib.Core.{
  ℕ, zero, suc, ◌+◌, ◌≤◌, ◌<◌, ◌≡◌, refl, sym, ap, ◌∙◌, List, [], ◌∷◌, arith, length, get_or, ℤ,
  pos,
}
use mathlib.Core.Path.{ap₂}
use dsalib.Matrix.{Matrix, Outcome, value, entry, read, zeros}
use dsalib.Matrix.Cells.{HasShape, zeros-HasShape, read-value}
use dsalib.Matrix.Assign.{assign_all, assign_all-Acts, quarter}

listed {ℓ} : {A : Type ℓ} → ℕ → (ℕ → A) → List A
listed zero f = []
listed (suc n) f = f 0 ∷ listed n (λ i. f (suc i))

length-listed {ℓ} : {A : Type ℓ} (n : ℕ) (f : ℕ → A) → length (listed n f) ≡ n
unfolding listed
length-listed zero f = refl
length-listed (suc n) f = ap suc (length-listed n (λ i. f (suc i)))

get_or-listed {ℓ} :
    {A : Type ℓ} (n : ℕ) (f : ℕ → A) (i : ℕ) (d : A) → i < n → get_or (listed n f) i d ≡ f i
unfolding listed
get_or-listed zero f i d h = absurd (omega arith)
get_or-listed (suc n) f zero d h = refl
get_or-listed (suc n) f (suc i) d h = get_or-listed n (λ i. f (suc i)) i d (omega arith)

-- Lists with the same elements.
list_ext {ℓ} :
    {A : Type ℓ} (d : A) (xs ys : List A)
    → length xs ≡ length ys
    → ((i : ℕ) → i < length xs → get_or xs i d ≡ get_or ys i d)
    → xs ≡ ys
list_ext d [] [] e h = refl
list_ext d [] (y ∷ ys) e h = absurd (omega arith)
list_ext d (x ∷ xs) [] e h = absurd (omega arith)
list_ext d (x ∷ xs) (y ∷ ys) e h =
    ap₂ (λ z zs. z ∷ zs) (h 0 (omega arith))
      (list_ext d xs ys (omega arith) (λ i p. h (suc i) (omega arith)))

matrix_ext :
    {rows cols : ℕ} {a b : Matrix}
    → HasShape rows cols a
    → HasShape rows cols b
    → ((i j : ℕ) → i < rows → j < cols → entry a i j ≡ entry b i j)
    → a ≡ b
unfolding entry
matrix_ext {rows} {cols} {a} {b} s t h = list_ext [] a b (s.row_count ∙ sym t.row_count) (λ i p.
    let inside : i < rows = omega (arith, s.row_count) in
    let same_columns = s.col_count i inside in
    list_ext (pos 0) (get_or a i []) (get_or b i []) (same_columns ∙ sym (t.col_count i inside))
      (λ j q. h i j inside (omega (arith, same_columns))))

pub tabulate : (rows cols : ℕ) → (ℕ → ℕ → ℤ) → Matrix
tabulate rows cols g = listed rows (λ i. listed cols (g i))

pub tabulate-HasShape : (rows cols : ℕ) (g : ℕ → ℕ → ℤ) → HasShape rows cols (tabulate rows cols g)
unfolding tabulate
tabulate-HasShape rows cols g = record {
  row_count = length-listed rows (λ i. listed cols (g i));
  col_count = λ i h.
      ap length (get_or-listed rows (λ i. listed cols (g i)) i [] h) ∙ length-listed cols (g i);
}

pub entry-tabulate :
    (rows cols : ℕ) (g : ℕ → ℕ → ℤ) (i j : ℕ)
    → i < rows
    → j < cols
    → entry (tabulate rows cols g) i j ≡ g i j
unfolding entry tabulate
entry-tabulate rows cols g i j p q =
    ap (λ (row : List ℤ). get_or row j (pos 0)) (get_or-listed rows (λ i. listed cols (g i)) i [] p)
    ∙ get_or-listed cols (g i) j (pos 0) q

-- Loops that assign to every cell of a new matrix.
pub assign_all-tabulate :
    (rows cols : ℕ) (g : ℕ → ℕ → Outcome ℤ) (h : ℕ → ℕ → ℤ)
    → ((i j : ℕ) → i < rows → j < cols → g i j ≡ value (h i j))
    → assign_all rows cols g (zeros rows cols) ≡ value (tabulate rows cols h)
assign_all-tabulate rows cols g h e =
    let act = assign_all-Acts rows cols g h e in
    let z = zeros-HasShape rows cols in
    act.returns (zeros rows cols) z
    ∙ ap value (
        matrix_ext (act.keeps (zeros rows cols) z) (tabulate-HasShape rows cols h) (λ i j p q.
          act.acts (zeros rows cols) z i j p q ∙ sym (entry-tabulate rows cols h i j p q)))

-- The square of side `k` of `a` whose first cell is in row `r0` and column `c0`.
abbrev pub block : Matrix → (r0 c0 k : ℕ) → Matrix
block a r0 c0 k = tabulate k k (λ i j. entry a (i + r0) (j + c0))

pub block-HasShape : (a : Matrix) (r0 c0 k : ℕ) → HasShape k k (block a r0 c0 k)
block-HasShape a r0 c0 k = tabulate-HasShape k k (λ i j. entry a (i + r0) (j + c0))

pub entry-block :
    (a : Matrix) (r0 c0 k i j : ℕ)
    → i < k
    → j < k
    → entry (block a r0 c0 k) i j ≡ entry a (i + r0) (j + c0)
entry-block a r0 c0 k i j p q = entry-tabulate k k (λ i j. entry a (i + r0) (j + c0)) i j p q

pub quarter-block :
    {n : ℕ} {a : Matrix}
    → HasShape n n a
    → (r0 c0 k : ℕ) → r0 + k ≤ n
    → c0 + k ≤ n
    → quarter a r0 c0 k ≡ value (block a r0 c0 k)
unfolding quarter
quarter-block {n} {a} s r0 c0 k p q =
    assign_all-tabulate k k (λ i j. read a (i + r0) (j + c0)) (λ i j. entry a (i + r0) (j + c0))
      (λ i j b d. read-value s (i + r0) (j + c0) (omega arith) (omega arith))
