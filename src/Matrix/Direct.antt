-- ===== src/Matrix/Direct.antt =====
-- `multiplyMatrices` and `parallelMatrixMultiply`. The iterations of the parallel loop update cells by
-- atomic additions; they are taken in program order.
use dsalib.Core.{
  subst, sym, ℕ, zero, suc, ◌<◌, ◌≡◌, ◌≢◌, ◌⊎◌, refl, arith, false, Bool, Bool-cases, inl, inr,
  if◌then◌else◌, ◌==◌, [], length, get_or, ◌||◌, not,
}
use dsalib.Matrix.{
  Matrix, Outcome, value, invalid_argument, out_of_bounds, out_of_fuel, zeros, loop,
}
use dsalib.Matrix.Loops.{for}
use dsalib.Matrix.Cells.{HasShape, range-Acts}
use dsalib.Matrix.Product.{
  IsProduct, ReturnsProduct, ReturnsProduct-of_Acts, add_product, added, add_product-Acts,
}
use dsalib.Matrix.Orders.{rows-columns-terms, rows-terms-columns}

-- `m.empty()`
unfoldable pub is_empty : Matrix → Bool
is_empty m = length m == 0

-- `m[0].size()`
unfoldable pub column_count : Matrix → ℕ
column_count m = length (get_or m 0 [])

-- The tests before the loops, which get `rows1`, `cols2`, `cols1` and the result of zeros.
unfoldable pub checked :
    Matrix → Matrix → ((rows cols n : ℕ) → Matrix → Outcome Matrix) → Outcome Matrix
unfolding is_empty column_count
checked matrix1 matrix2 loops =
    if is_empty matrix1 || is_empty matrix2
    then value []
    else if not (column_count matrix1 == length matrix2)
    then invalid_argument
    else loops (length matrix1) (column_count matrix2) (column_count matrix1)
        (zeros (length matrix1) (column_count matrix2))

-- The loops of `multiplyMatrices`.
unfoldable pub multiply_loops : Matrix → Matrix → (rows cols n : ℕ) → Matrix → Outcome Matrix
multiply_loops a b rows cols n =
    loop 0 rows 1 (λ i. loop 0 cols 1 (λ j. loop 0 n 1 (λ k. add_product a b i j k)))

unfoldable pub multiply_matrices : Matrix → Matrix → Outcome Matrix
multiply_matrices matrix1 matrix2 = checked matrix1 matrix2 (multiply_loops matrix1 matrix2)

-- The loops of `parallelMatrixMultiply`.
unfoldable pub parallel_loops : Matrix → Matrix → (rows cols n : ℕ) → Matrix → Outcome Matrix
parallel_loops a b rows cols n =
    loop 0 rows 1 (λ i. loop 0 n 1 (λ k. loop 0 cols 1 (λ j. add_product a b i j k)))

unfoldable pub parallel_matrix_multiply : Matrix → Matrix → Outcome Matrix
parallel_matrix_multiply matrix1 matrix2 = checked matrix1 matrix2 (parallel_loops matrix1 matrix2)

-- The outcome for a `rows1` times `cols1` and a `rows2` times `cols2` matrix: the empty matrix if one
-- has no rows, the exception if the inner sizes differ, and the product otherwise.
abbrev pub Answers : (rows1 cols1 rows2 cols2 : ℕ) → Matrix → Matrix → Outcome Matrix → Type 0
Answers rows1 cols1 rows2 cols2 a b (value c) =
    (((rows1 ≡ 0) ⊎ (rows2 ≡ 0)) × (c ≡ []))
    ⊎ ((0 < rows1) × (cols1 ≡ rows2) × IsProduct rows1 cols1 cols2 a b c)
Answers rows1 cols1 rows2 cols2 a b invalid_argument = (0 < rows1) × (0 < rows2) × (cols1 ≢ rows2)
Answers rows1 cols1 rows2 cols2 a b out_of_bounds = ⊥
Answers rows1 cols1 rows2 cols2 a b out_of_fuel = ⊥

pub checked-Answers :
    (rows1 cols1 rows2 cols2 : ℕ) (a b : Matrix)
    (loops : (rows cols n : ℕ) → Matrix → Outcome Matrix)
    → HasShape rows1 cols1 a
    → HasShape rows2 cols2 b
    → (cols1 ≡ rows2
        → ReturnsProduct rows1 cols1 cols2 a b (loops rows1 cols2 cols1 (zeros rows1 cols2)))
    → Answers rows1 cols1 rows2 cols2 a b (checked a b loops)
unfolding checked
checked-Answers zero cols1 rows2 cols2 a b loops s t h = rw s.row_count (inl (inl refl, refl))
checked-Answers (suc rows1) cols1 zero cols2 a b loops s t h =
    let some_rows : (suc rows1 == 0) ≡ false = ground arith in
    rw (s.row_count, t.row_count, some_rows) (inl (inr refl, refl))
checked-Answers (suc rows1) cols1 (suc rows2) cols2 a b loops s t h =
    let some_rows : (suc rows1 == 0) ≡ false = ground arith in
    let more_rows : (suc rows2 == 0) ≡ false = ground arith in
    rw
      (
        s.row_count,
        t.row_count,
        some_rows,
        more_rows,
        s.col_count 0 (omega arith),
        t.col_count 0 (omega arith),
      )
      (elim (Bool-cases (cols1 == suc rows2)) [
        | inl same ↦
            let equal : cols1 ≡ suc rows2 = ground (arith, same) in
            let product = h equal in
            rw (same, product.returns) (inr (omega arith, equal, product.correct))
        | inr other ↦ rw other (omega arith, omega arith, ground (arith, other))
      ])

module _ (rows n cols : ℕ) (a b : Matrix) (s : HasShape rows n a) (t : HasShape n cols b) where
  multiply_loops-ReturnsProduct :
      ReturnsProduct rows n cols a b (multiply_loops a b rows cols n (zeros rows cols))
  unfolding multiply_loops
  multiply_loops-ReturnsProduct =
      ReturnsProduct-of_Acts rows n cols a b (multiply_loops a b rows cols n)
        (λ i' j'. for 0 rows 1 (λ i. for 0 cols 1 (λ j. for 0 n 1 (λ k. added a b i' j' i j k))))
        (range-Acts rows cols rows _ _ (λ i p.
          range-Acts rows cols cols _ _
            (λ j q. range-Acts rows cols n _ _ (λ k r. add_product-Acts s t i j k p q r))))
        (λ i' j' p q v. rows-columns-terms a b i' j' rows cols n v p q)

  parallel_loops-ReturnsProduct :
      ReturnsProduct rows n cols a b (parallel_loops a b rows cols n (zeros rows cols))
  unfolding parallel_loops
  parallel_loops-ReturnsProduct =
      ReturnsProduct-of_Acts rows n cols a b (parallel_loops a b rows cols n)
        (λ i' j'. for 0 rows 1 (λ i. for 0 n 1 (λ k. for 0 cols 1 (λ j. added a b i' j' i j k))))
        (range-Acts rows cols rows _ _ (λ i p.
          range-Acts rows cols n _ _
            (λ k r. range-Acts rows cols cols _ _ (λ j q. add_product-Acts s t i j k p q r))))
        (λ i' j' p q v. rows-terms-columns a b i' j' rows cols n v p q)

-- `multiplyMatrices` and `parallelMatrixMultiply`, taken in program order, return on any two matrices
-- of regular shape, with every access inside the matrices: the product if the inner sizes agree, the empty matrix if one has no rows, and
-- `invalid_argument` exactly if both have rows and the inner sizes differ.
pub multiply_matrices-Answers :
    (rows1 cols1 rows2 cols2 : ℕ) (a b : Matrix)
    → HasShape rows1 cols1 a
    → HasShape rows2 cols2 b
    → Answers rows1 cols1 rows2 cols2 a b (multiply_matrices a b)
      × Answers rows1 cols1 rows2 cols2 a b (parallel_matrix_multiply a b)
unfolding multiply_matrices parallel_matrix_multiply
multiply_matrices-Answers rows1 cols1 rows2 cols2 a b s t = (
  checked-Answers rows1 cols1 rows2 cols2 a b (multiply_loops a b) s t (λ e.
      multiply_loops-ReturnsProduct rows1 cols1 cols2 a b s
        (subst (λ (n : ℕ). HasShape n cols2 b) (sym e) t)),
  checked-Answers rows1 cols1 rows2 cols2 a b (parallel_loops a b) s t (λ e.
      parallel_loops-ReturnsProduct rows1 cols1 cols2 a b s
        (subst (λ (n : ℕ). HasShape n cols2 b) (sym e) t)),
)
