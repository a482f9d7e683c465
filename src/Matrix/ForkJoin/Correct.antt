-- ===== src/Matrix/ForkJoin/Correct.antt =====
-- The fork-join recursion gives the product.
use dsalib.Core.{ℕ, zero, suc, ◌+◌, ◌/◌, ◌≤◌, ◌<◌, ◌≡◌, refl, ap, ◌∙◌, false, arith, ◌==◌, ◌+ℤ◌}
use mathlib.Core.Path.{ap₂}
use native.Mathlib.Nat.{add_comm}
use dsalib.Matrix.{Matrix, Outcome, value, entry, read, zeros, ◌>>=◌}
use dsalib.Matrix.Cells.{HasShape, zeros-HasShape, Acts, read-value}
use dsalib.Matrix.Product.{product}
use dsalib.Matrix.Assign.{update_all-Acts}
use dsalib.Matrix.Tabulate.{assign_all-tabulate, block, block-HasShape}
use dsalib.Matrix.Quarters.{combine-ReturnsProduct}
use dsalib.Matrix.Strassen.Parts.{Returns}
use dsalib.Matrix.Strassen.Correct.{side, side_pos, one-ReturnsProduct}
use dsalib.Matrix.ForkJoin.{
  get_submatrix, add_cell, add_matrices, section, multiply_parts, multiply_body, multiply_recursive,
  shared_memory_multiply,
}

get_submatrix-block :
    {n : ℕ} {m : Matrix}
    → HasShape n n m
    → (r c k : ℕ) → r + k ≤ n
    → c + k ≤ n
    → get_submatrix m r c k ≡ value (block m r c k)
unfolding get_submatrix
get_submatrix-block {n} {m} s r c k p q =
    assign_all-tabulate k k (λ i j. read m (r + i) (c + j)) (λ i j. entry m (i + r) (j + c))
      (λ i j b d.
        read-value s (r + i) (c + j) (omega arith) (omega arith)
        ∙ ap value (ap₂ (entry m) (add_comm r i) (add_comm c j)))

add_matrices-Acts :
    {k : ℕ} {b : Matrix}
    → HasShape k k b
    → Acts k k (λ c. add_matrices c b k) (λ i j v. v +ℤ entry b i j)
unfolding add_matrices add_cell
add_matrices-Acts {k} {b} s =
    update_all-Acts k k (λ i j. add_cell b i j) (λ i j v. v +ℤ entry b i j)
      (λ i j p q m t. rw (add_cell, read-value t i j p q, read-value s i j p q) refl)

-- What a section returns.
record SectionReturns (k : ℕ) (a1 b1 a2 b2 : Matrix) (r : Outcome (Matrix × Matrix)) : Type 0 where
  sums : Matrix
  temp : Matrix
  returns : r ≡ value (sums, temp)
  sums_shape : HasShape k k sums
  temp_shape : HasShape k k temp
  cells : (i j : ℕ) → i < k → j < k → entry sums i j ≡ product k a1 b1 i j +ℤ product k a2 b2 i j

module _ (k : ℕ) (multiply : Matrix → Matrix → Matrix → Outcome Matrix)
    (ih : (x y z : Matrix)
      → HasShape k k x
      → HasShape k k y
      → HasShape k k z
      → Returns k x y (multiply x y z)) where
  section-SectionReturns :
      {a1 b1 a2 b2 c temp : Matrix}
      → HasShape k k a1
      → HasShape k k b1
      → HasShape k k a2
      → HasShape k k b2
      → HasShape k k c
      → HasShape k k temp
      → SectionReturns k a1 b1 a2 b2 (section multiply k a1 b1 a2 b2 c temp)
  unfolding section
  section-SectionReturns {a1} {b1} {a2} {b2} {c} {temp} sa1 sb1 sa2 sb2 s t =
      let first = ih a1 b1 c sa1 sb1 s in
      let second = ih a2 b2 temp sa2 sb2 t in
      let act = add_matrices-Acts second.correct.shape in
      let shape = first.correct.shape in
      record {
        sums = act.after first.result shape;
        temp = second.result;
        returns = rw (section, first.returns, second.returns, act.returns first.result shape) refl;
        sums_shape = act.keeps first.result shape;
        temp_shape = second.correct.shape;
        cells = λ i j p q.
            act.acts first.result shape i j p q
            ∙ ap₂ ◌+ℤ◌ (first.correct.cells i j p q) (second.correct.cells i j p q);
      }

  multiply_parts-Returns :
      (a b c : Matrix)
      → HasShape (k + k) (k + k) a
      → HasShape (k + k) (k + k) b
      → HasShape (k + k) (k + k) c
      → Returns (k + k) a b (multiply_parts multiply k a b c)
  unfolding multiply_parts
  multiply_parts-Returns a b c sa sb s =
      let z = zeros-HasShape k k in
      let a11 = block-HasShape a 0 0 k in
      let a12 = block-HasShape a 0 k k in
      let a21 = block-HasShape a k 0 k in
      let a22 = block-HasShape a k k k in
      let b11 = block-HasShape b 0 0 k in
      let b12 = block-HasShape b 0 k k in
      let b21 = block-HasShape b k 0 k in
      let b22 = block-HasShape b k k k in
      let s1 = section-SectionReturns a11 b11 a12 b21 z z in
      let s2 = section-SectionReturns a11 b12 a12 b22 z z in
      let s3 = section-SectionReturns a21 b11 a22 b21 z s1.temp_shape in
      let s4 = section-SectionReturns a21 b12 a22 b22 z s2.temp_shape in
      let whole =
        combine-ReturnsProduct k a b s1.sums s2.sums s3.sums s4.sums c s s1.cells s2.cells s3.cells
          s4.cells s1.sums_shape s2.sums_shape s3.sums_shape s4.sums_shape in
      record {
        result = whole.result;
        returns = simp (
          get_submatrix-block sa 0 0 k (omega arith) (omega arith),
          get_submatrix-block sa 0 k k (omega arith) (omega arith),
          get_submatrix-block sa k 0 k (omega arith) (omega arith),
          get_submatrix-block sa k k k (omega arith) (omega arith),
          get_submatrix-block sb 0 0 k (omega arith) (omega arith),
          get_submatrix-block sb 0 k k (omega arith) (omega arith),
          get_submatrix-block sb k 0 k (omega arith) (omega arith),
          get_submatrix-block sb k k k (omega arith) (omega arith),
          s1.returns,
          s2.returns,
          s3.returns,
          s4.returns,
          whole.returns,
          ◌>>=◌,
        );
        correct = whole.correct;
      }

multiply_body_above :
    (k : ℕ) (multiply : Matrix → Matrix → Matrix → Outcome Matrix) (a b c : Matrix)
    → (k + k == 1) ≡ false
    → (k + k) / 2 ≡ k
    → multiply_body multiply (k + k) a b c ≡ multiply_parts multiply k a b c
unfolding multiply_body
multiply_body_above k multiply a b c m e = rw (multiply_body, m, e) refl

multiply_recursive-Returns :
    (p fuel : ℕ) (a b c : Matrix)
    → p < fuel
    → HasShape (side p) (side p) a
    → HasShape (side p) (side p) b
    → HasShape (side p) (side p) c
    → Returns (side p) a b (multiply_recursive fuel a b c (side p))
unfolding side multiply_recursive
multiply_recursive-Returns p zero a b c h sa sb s = absurd (omega arith)
multiply_recursive-Returns zero (suc fuel) a b c h sa sb s =
    unfold multiply_body in one-ReturnsProduct a b c sa sb s
multiply_recursive-Returns (suc p) (suc fuel) a b c h sa sb s =
    let k = side p in
    let more : (k + k == 1) ≡ false = ground (arith, side_pos p) in
    let half : (k + k) / 2 ≡ k = omega arith in
    let multiply = λ (x y z : Matrix). multiply_recursive fuel x y z ((k + k) / 2) in
    let whole =
      multiply_parts-Returns k multiply
        (λ x y z sx sy t. rw half (multiply_recursive-Returns p fuel x y z (omega arith) sx sy t)) a
        b c sa sb s in
    record {
      result = whole.result;
      returns = multiply_body_above k multiply a b c more half ∙ whole.returns;
      correct = whole.correct;
    }

-- `sharedMemoryMultiply`, with its sections run in program order, returns the product of two squares
-- whose side is a power of two, at any depth of recursion that is larger than its exponent, and
-- accesses no cell that is not there.
pub shared_memory_multiply-Returns :
    (p fuel : ℕ) (a b : Matrix)
    → p < fuel
    → HasShape (side p) (side p) a
    → HasShape (side p) (side p) b
    → Returns (side p) a b (shared_memory_multiply fuel a b)
unfolding shared_memory_multiply
shared_memory_multiply-Returns p fuel a b h s t = rw s.row_count (
    multiply_recursive-Returns p fuel a b (zeros (side p) (side p)) h s t
      (zeros-HasShape (side p) (side p)))
