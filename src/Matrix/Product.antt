-- ===== src/Matrix/Product.antt =====
-- The product of two matrices, as the sum over the inner index.
use dsalib.Core.{
  ℕ, zero, suc, ◌+◌, ◌-◌, ◌<◌, ◌≡◌, refl, ap, sym, ◌∙◌, arith, Bool-cases, inl, inr, if◌then◌else◌,
  ◌==◌, ℤ, pos, ◌+ℤ◌, ◌*ℤ◌, int_laws, eq_of_parts, +ℤ_parts,
}
use mathlib.Core.Path.{ap₂}
use dsalib.Matrix.{Matrix, Outcome, value, entry, read, write, zeros, ◌>>=◌}
use dsalib.Matrix.Loops.{for_by, for}
use dsalib.Matrix.Loops.{for_by-append, for_by-done, for_by-step, for_by-fuel}
use dsalib.Matrix.Cells.{
  HasShape, zeros-HasShape, entry-zeros, Acts, Acts-same, read-value, write-Acts,
}

-- f 0 + ... + f (n - 1)
unfoldable pub sum : ℕ → (ℕ → ℤ) → ℤ
sum zero f = pos 0
sum (suc n) f = sum n f +ℤ f n

-- The cell in row `i` and column `j` of the product, with `n` columns of `a` and rows of `b`.
abbrev pub product : ℕ → Matrix → Matrix → ℕ → ℕ → ℤ
product n a b i j = sum n (λ k. entry a i k *ℤ entry b k j)

pub record IsProduct (rows n cols : ℕ) (a b c : Matrix) : Type 0 where
  pub shape : HasShape rows cols c
  pub cells : (i j : ℕ) → i < rows → j < cols → entry c i j ≡ product n a b i j

pub +ℤ_zero : (x : ℤ) → pos 0 +ℤ x ≡ x
+ℤ_zero x = eq_of_parts (pos 0 +ℤ x) x (omega (arith, +ℤ_parts (pos 0) x))

-- A loop that adds.
for_by-sum : (n : ℕ) (f : ℕ → ℤ) (v : ℤ) → for_by n 0 n 1 (λ k t. t +ℤ f k) v ≡ v +ℤ sum n f
unfolding sum for_by
for_by-sum zero f v = eq_of_parts v (v +ℤ pos 0) (omega (arith, +ℤ_parts v (pos 0)))
for_by-sum (suc n) f v =
    let add = λ (k : ℕ) (t : ℤ). t +ℤ f k in
    let start = for_by-fuel (suc n) n 0 n 1 add v (omega arith) (omega arith) (omega arith) in
    sym (for_by-append (suc n) 0 n (suc n) add v (omega arith) (omega arith) (omega arith))
    ∙ ap (for_by (suc n) n (suc n) 1 add) (start ∙ for_by-sum n f v)
    ∙ for_by-step n n (suc n) 1 add (v +ℤ sum n f) (omega arith)
    ∙ for_by-done n (n + 1) (suc n) 1 add (add n (v +ℤ sum n f)) (omega arith)
    ∙ eq_of_parts (add n (v +ℤ sum n f)) (v +ℤ (sum n f +ℤ f n)) (omega int_laws)

for-sum : (n : ℕ) (f : ℕ → ℤ) (v : ℤ) → for 0 n 1 (λ k t. t +ℤ f k) v ≡ v +ℤ sum n f
for-sum n f v =
    for_by-fuel (n - 0) n 0 n 1 (λ k t. t +ℤ f k) v (omega arith) (omega arith) (omega arith)
    ∙ for_by-sum n f v

-- `result[i][j] += a[i][k] * b[k][j]`
unfoldable pub add_product : Matrix → Matrix → (i j k : ℕ) → Matrix → Outcome Matrix
add_product a b i j k m = do
  v ← read m i j
  x ← read a i k
  y ← read b k j
  write m i j (v +ℤ x *ℤ y)

-- One round of the loop over `k`, for the cell in row `i` and column `j`.
abbrev pub term : Matrix → Matrix → (i j k : ℕ) → ℤ → ℤ
term a b i j k v = v +ℤ entry a i k *ℤ entry b k j

-- What `add_product` does to the value of the cell in row `i'` and column `j'`.
abbrev pub added : Matrix → Matrix → (i' j' i j k : ℕ) → ℤ → ℤ
added a b i' j' i j k v = if i == i' then (if j == j' then term a b i' j' k v else v) else v

added_lem :
    (a b : Matrix) (i' j' i j k : ℕ) (v : ℤ)
    → (if i == i' then (if j == j' then term a b i j k v else v) else v) ≡ added a b i' j' i j k v
added_lem a b i' j' i j k v = elim (Bool-cases (i == i')) [
  | inr other ↦ rw other refl
  | inl same ↦ rw same (elim (Bool-cases (j == j')) [
    | inr other_col ↦ rw other_col refl
    | inl same_col ↦
        let e : i ≡ i' = ground (arith, same) in
        let f : j ≡ j' = ground (arith, same_col) in
        rw same_col (ap₂ (λ (x y : ℕ). term a b x y k v) e f)
  ])
]

pub add_product-Acts :
    {rows n cols : ℕ} {a b : Matrix}
    → HasShape rows n a
    → HasShape n cols b
    → (i j k : ℕ) → i < rows
    → j < cols
    → k < n
    → Acts rows cols (add_product a b i j k) (λ i' j'. added a b i' j' i j k)
unfolding add_product
add_product-Acts {rows} {n} {cols} {a} {b} s t i j k p q r =
    Acts-same (add_product a b i j k) (add_product a b i j k)
      (λ i' j' v. if i == i' then (if j == j' then term a b i j k v else v) else v)
      (λ i' j'. added a b i' j' i j k) (λ m. refl) (λ i' j' v. added_lem a b i' j' i j k v)
      (write-Acts i j (add_product a b i j k) (term a b i j k) p q (λ m u.
        rw (add_product, read-value u i j p q, read-value s i k p r, read-value t k j r q) refl))

-- A call that returns the product.
pub record ReturnsProduct (rows n cols : ℕ) (a b : Matrix) (r : Outcome Matrix) : Type 0 where
  pub result : Matrix
  pub returns : r ≡ value result
  pub correct : IsProduct rows n cols a b result

-- A nest of loops that reaches the product in each cell, from a matrix of zeros.
pub ReturnsProduct-of_Acts :
    (rows n cols : ℕ) (a b : Matrix) (body : Matrix → Outcome Matrix) (f : ℕ → ℕ → ℤ → ℤ)
    → Acts rows cols body f
    → ((i j : ℕ) → i < rows → j < cols → (v : ℤ) → f i j v ≡ for 0 n 1 (term a b i j) v)
    → ReturnsProduct rows n cols a b (body (zeros rows cols))
ReturnsProduct-of_Acts rows n cols a b body f s h =
    let z = zeros-HasShape rows cols in
    record {
      result = s.after (zeros rows cols) z;
      returns = s.returns (zeros rows cols) z;
      correct = record {
        shape = s.keeps (zeros rows cols) z;
        cells = λ i j p q.
            s.acts (zeros rows cols) z i j p q
            ∙ ap (f i j) (entry-zeros rows cols i j p)
            ∙ h i j p q (pos 0)
            ∙ for-sum n (λ k. entry a i k *ℤ entry b k j) (pos 0)
            ∙ +ℤ_zero (product n a b i j);
      };
    }
