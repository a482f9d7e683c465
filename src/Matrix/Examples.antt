-- ===== src/Matrix/Examples.antt =====
-- Products of small matrices.
use dsalib.Core.{
  ◌≡◌, refl, arith, ◌<◌, ℕ, zero, suc, length, get_or, ℤ, List, [], ◌∷◌, pos, negsuc, ◌+ℤ◌, ◌-ℤ◌,
  ◌*ℤ◌, replicate,
}
use dsalib.Matrix.{
  Matrix, value, invalid_argument, out_of_fuel, has_cell, entry, read, store, write, zeros, loop_by,
}
use dsalib.Matrix.Cells.{HasShape}
use dsalib.Matrix.Product.{add_product, ReturnsProduct}
use dsalib.Matrix.Assign.{assign_all, quarter, combine, copy_cell, store_four}
use dsalib.Matrix.Direct.{
  checked, multiply_loops, multiply_matrices, parallel_matrix_multiply, Answers,
  multiply_matrices-Answers,
}
use dsalib.Matrix.Tiled.{
  multiply_matrices_cache_friendly, block_wise_multiply, multiply_matrices_cache_friendly-Answers,
  block_wise_multiply-ReturnsProduct,
}
use dsalib.Matrix.Strassen.{add, subtract, strassen_parts, strassen_body, strassen_multiply}
use dsalib.Matrix.Strassen.Parts.{Returns}
use dsalib.Matrix.Strassen.Correct.{side, strassen_multiply-Returns, strassen_multiply_empty}
use dsalib.Matrix.ForkJoin.{
  get_submatrix, add_cell, add_matrices, section, multiply_parts, multiply_body, multiply_recursive,
  shared_memory_multiply,
}
use dsalib.Matrix.ForkJoin.Correct.{shared_memory_multiply-Returns}

abbrev wide : Matrix
wide = (pos 1 ∷ pos 2 ∷ pos 3 ∷ []) ∷ (pos 4 ∷ pos 5 ∷ negsuc 5 ∷ []) ∷ []

abbrev tall : Matrix
tall = (pos 7 ∷ pos 8 ∷ []) ∷ (pos 9 ∷ pos 10 ∷ []) ∷ (pos 11 ∷ pos 12 ∷ []) ∷ []

abbrev square : Matrix
square = (pos 1 ∷ pos 2 ∷ []) ∷ (pos 3 ∷ negsuc 3 ∷ []) ∷ []

rows-HasShape :
    (m : Matrix) (a b : List ℤ) (n : ℕ)
    → m ≡ a ∷ b ∷ []
    → length a ≡ n
    → length b ≡ n
    → HasShape 2 n m
rows-HasShape m a b n e f g = rw e (record { row_count = refl; col_count = two a b n f g })
  where
    two :
        (a b : List ℤ) (n : ℕ)
        → length a ≡ n
        → length b ≡ n
        → (i : ℕ) → i < 2
        → length (get_or (a ∷ b ∷ []) i []) ≡ n
    two a b n f g zero h = f
    two a b n f g (suc zero) h = g
    two a b n f g (suc (suc i)) h = absurd (omega arith)

wide-HasShape : HasShape 2 3 wide
wide-HasShape =
    rows-HasShape wide (pos 1 ∷ pos 2 ∷ pos 3 ∷ []) (pos 4 ∷ pos 5 ∷ negsuc 5 ∷ []) 3 refl refl refl

square-HasShape : HasShape 2 2 square
square-HasShape = rows-HasShape square (pos 1 ∷ pos 2 ∷ []) (pos 3 ∷ negsuc 3 ∷ []) 2 refl refl refl

tall_rows : (i : ℕ) → i < 3 → length (get_or tall i []) ≡ 2
tall_rows zero h = refl
tall_rows (suc zero) h = refl
tall_rows (suc (suc zero)) h = refl
tall_rows (suc (suc (suc i))) h = absurd (omega arith)

tall-HasShape : HasShape 3 2 tall
tall-HasShape = record { row_count = refl; col_count = tall_rows }

multiply_matrices-wide :
    multiply_matrices wide tall ≡ value ((pos 58 ∷ pos 64 ∷ []) ∷ (pos 7 ∷ pos 10 ∷ []) ∷ [])
unfolding multiply_matrices checked multiply_loops add_product loop_by write store read entry
    has_cell zeros ◌+ℤ◌ ◌-ℤ◌ ◌*ℤ◌
multiply_matrices-wide = refl

multiply_matrices_mismatch : multiply_matrices wide wide ≡ invalid_argument
unfolding multiply_matrices checked multiply_loops add_product loop_by write store read entry
    has_cell zeros ◌+ℤ◌ ◌-ℤ◌ ◌*ℤ◌
multiply_matrices_mismatch = refl

strassen_multiply-square :
    strassen_multiply 2 square square
    ≡ value ((pos 7 ∷ negsuc 5 ∷ []) ∷ (negsuc 8 ∷ pos 22 ∷ []) ∷ [])
unfolding strassen_multiply strassen_body strassen_parts add subtract quarter combine store_four
    copy_cell assign_all loop_by write store read entry has_cell zeros ◌+ℤ◌ ◌-ℤ◌ ◌*ℤ◌
strassen_multiply-square = refl

-- The program's result for a side that is no power of two: every cell of the product is 3.
strassen_multiply_three :
    strassen_multiply 2 (replicate 3 (replicate 3 (pos 1))) (replicate 3 (replicate 3 (pos 1)))
    ≡ value (
        (pos 2 ∷ pos 2 ∷ pos 0 ∷ [])
        ∷ (pos 2 ∷ pos 2 ∷ pos 0 ∷ [])
        ∷ (pos 0 ∷ pos 0 ∷ pos 0 ∷ [])
        ∷ [])
unfolding strassen_multiply strassen_body strassen_parts add subtract quarter combine store_four
    copy_cell assign_all loop_by write store read entry has_cell zeros ◌+ℤ◌ ◌-ℤ◌ ◌*ℤ◌
strassen_multiply_three = refl

shared_memory_multiply-square :
    shared_memory_multiply 2 square square ≡ strassen_multiply 2 square square
unfolding shared_memory_multiply multiply_recursive multiply_body multiply_parts section
    add_matrices add_cell get_submatrix strassen_multiply strassen_body strassen_parts add subtract
    quarter combine store_four copy_cell assign_all loop_by write store read entry has_cell zeros
    ◌+ℤ◌ ◌-ℤ◌ ◌*ℤ◌
shared_memory_multiply-square = refl

multiply_matrices-Answers_example :
    Answers 2 3 3 2 wide tall (multiply_matrices wide tall)
    × Answers 2 3 3 2 wide tall (parallel_matrix_multiply wide tall)
multiply_matrices-Answers_example =
    multiply_matrices-Answers 2 3 3 2 wide tall wide-HasShape tall-HasShape

multiply_matrices_cache_friendly-Answers_example :
    Answers 2 3 3 2 wide tall (multiply_matrices_cache_friendly wide tall)
multiply_matrices_cache_friendly-Answers_example =
    multiply_matrices_cache_friendly-Answers 2 3 3 2 wide tall wide-HasShape tall-HasShape

block_wise_multiply-ReturnsProduct_example :
    ReturnsProduct 2 2 2 square square (block_wise_multiply square square)
block_wise_multiply-ReturnsProduct_example =
    block_wise_multiply-ReturnsProduct 2 square square square-HasShape square-HasShape

strassen_multiply-Returns_example : Returns 2 square square (strassen_multiply 2 square square)
unfolding side
strassen_multiply-Returns_example =
    strassen_multiply-Returns 1 2 square square (omega arith) square-HasShape square-HasShape

strassen_multiply_empty_example : strassen_multiply 100 [] [] ≡ out_of_fuel
strassen_multiply_empty_example = strassen_multiply_empty 100 []

shared_memory_multiply-Returns_example :
    Returns 2 square square (shared_memory_multiply 2 square square)
unfolding side
shared_memory_multiply-Returns_example =
    shared_memory_multiply-Returns 1 2 square square (omega arith) square-HasShape square-HasShape
