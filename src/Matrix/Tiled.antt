-- ===== src/Matrix/Tiled.antt =====
-- `multiplyMatricesCacheFriendly` and `blockWiseMultiply`: the loops run over square tiles. The two
-- outer loops of `blockWiseMultiply` are parallel in the source, and are taken in program order: tiles
-- that differ in `k0` add to the same cells.
use dsalib.Core.{subst, sym, ℕ, ◌+◌, ◌-◌, ◌<◌, arith, ℤ, length}
use Prim.Native.Nat.{min}
use dsalib.Matrix.{Matrix, Outcome, zeros, loop}
use dsalib.Matrix.Loops.{for}
use dsalib.Matrix.Cells.{HasShape, Acts, loop_by-Acts}
use dsalib.Matrix.Product.{
  ReturnsProduct, ReturnsProduct-of_Acts, add_product, added, add_product-Acts,
}
use dsalib.Matrix.Orders.{tiles-terms-rows-columns, tiles-rows-terms-columns}
use dsalib.Matrix.Direct.{checked, Answers, checked-Answers}

-- The six loops of `multiplyMatricesCacheFriendly` with tiles of side `size`.
unfoldable pub tiled_loops :
    (size : ℕ) → Matrix → Matrix → (rows cols n : ℕ) → Matrix → Outcome Matrix
tiled_loops size a b rows cols n = loop 0 n size (λ k0. loop 0 rows size (λ i0.
    loop 0 cols size (λ j0. loop k0 (min (k0 + size) n) 1 (λ k.
      loop i0 (min (i0 + size) rows) 1
        (λ i. loop j0 (min (j0 + size) cols) 1 (λ j. add_product a b i j k))))))

-- `multiplyMatricesCacheFriendly`, where `BLOCK_SIZE` is 128.
unfoldable pub multiply_matrices_cache_friendly : Matrix → Matrix → Outcome Matrix
multiply_matrices_cache_friendly matrix1 matrix2 =
    checked matrix1 matrix2 (tiled_loops 128 matrix1 matrix2)

-- The six loops of `blockWiseMultiply`.
unfoldable pub block_loops : (size : ℕ) → Matrix → Matrix → (n : ℕ) → Matrix → Outcome Matrix
block_loops size a b n = loop 0 n size (λ k0. loop 0 n size (λ i0. loop 0 n size (λ j0.
    loop i0 (min (i0 + size) n) 1 (λ i.
      loop k0 (min (k0 + size) n) 1
        (λ k. loop j0 (min (j0 + size) n) 1 (λ j. add_product a b i j k))))))

-- `blockWiseMultiply`, where `BLOCK_SIZE` is 64.
unfoldable pub block_wise_multiply : Matrix → Matrix → Outcome Matrix
block_wise_multiply a b = block_loops 64 a b (length a) (zeros (length a) (length a))

-- A loop over the numbers of one tile, which lie in the matrix.
tile-Acts :
    (rows cols from to size : ℕ) (body : ℕ → Matrix → Outcome Matrix) (f : ℕ → ℕ → ℕ → ℤ → ℤ)
    → ((x : ℕ) → x < to → Acts rows cols (body x) (f x))
    → Acts rows cols
        (loop from (min (from + size) to) 1 body)
        (λ i j. for from (min (from + size) to) 1 (λ x. f x i j))
tile-Acts rows cols from to size body f h =
    loop_by-Acts (min (from + size) to - from) from (min (from + size) to) 1 body f (omega arith)
      (omega arith) (λ x _ p. h x (omega arith))

-- A loop over tiles.
tiles-Acts :
    (rows cols to size : ℕ) (body : ℕ → Matrix → Outcome Matrix) (f : ℕ → ℕ → ℕ → ℤ → ℤ)
    → 0 < size
    → ((x : ℕ) → Acts rows cols (body x) (f x))
    → Acts rows cols (loop 0 to size body) (λ i j. for 0 to size (λ x. f x i j))
tiles-Acts rows cols to size body f positive h =
    loop_by-Acts (to - 0) 0 to size body f positive (omega arith) (λ x _ _. h x)

module _ (size rows n cols : ℕ) (a b : Matrix) (s : HasShape rows n a) (t : HasShape n cols b) where
  abbrev row_end : ℕ → ℕ
  row_end i0 = min (i0 + size) rows

  abbrev col_end : ℕ → ℕ
  col_end j0 = min (j0 + size) cols

  abbrev inner_end : ℕ → ℕ
  inner_end k0 = min (k0 + size) n

  tiled_loops-ReturnsProduct :
      0 < size → ReturnsProduct rows n cols a b (tiled_loops size a b rows cols n (zeros rows cols))
  unfolding tiled_loops
  tiled_loops-ReturnsProduct positive =
      ReturnsProduct-of_Acts rows n cols a b (tiled_loops size a b rows cols n)
        (λ i' j'. for 0 n size (λ k0. for 0 rows size (λ i0. for 0 cols size (λ j0.
          for k0 (inner_end k0) 1 (λ k.
            for i0 (row_end i0) 1 (λ i. for j0 (col_end j0) 1 (λ j. added a b i' j' i j k)))))))
        (tiles-Acts rows cols n size _ _ positive (λ k0.
          tiles-Acts rows cols rows size _ _ positive (λ i0.
            tiles-Acts rows cols cols size _ _ positive (λ j0.
              tile-Acts rows cols k0 n size _ _ (λ k r. tile-Acts rows cols i0 rows size _ _ (λ i p.
                tile-Acts rows cols j0 cols size _ _ (λ j q. add_product-Acts s t i j k p q r)))))))
        (λ i' j' p q v. tiles-terms-rows-columns a b i' j' rows cols n size v positive p q)

block_loops-ReturnsProduct :
    (size n : ℕ) (a b : Matrix)
    → HasShape n n a
    → HasShape n n b
    → 0 < size
    → ReturnsProduct n n n a b (block_loops size a b n (zeros n n))
unfolding block_loops
block_loops-ReturnsProduct size n a b s t positive =
    ReturnsProduct-of_Acts n n n a b (block_loops size a b n)
      (λ i' j'. for 0 n size (λ k0. for 0 n size (λ i0. for 0 n size (λ j0.
        for i0 (min (i0 + size) n) 1 (λ i.
          for k0 (min (k0 + size) n) 1
            (λ k. for j0 (min (j0 + size) n) 1 (λ j. added a b i' j' i j k)))))))
      (tiles-Acts n n n size _ _ positive (λ k0. tiles-Acts n n n size _ _ positive (λ i0.
        tiles-Acts n n n size _ _ positive (λ j0. tile-Acts n n i0 n size _ _ (λ i p.
          tile-Acts n n k0 n size _ _
            (λ k r. tile-Acts n n j0 n size _ _ (λ j q. add_product-Acts s t i j k p q r)))))))
      (λ i' j' p q v. tiles-rows-terms-columns a b i' j' n n n size v positive p q)

-- The loops over tiles of `multiplyMatricesCacheFriendly` give what `multiplyMatrices` does on any two
-- matrices of regular shape, the exception included, and access no cell that is not there.
pub multiply_matrices_cache_friendly-Answers :
    (rows1 cols1 rows2 cols2 : ℕ) (a b : Matrix)
    → HasShape rows1 cols1 a
    → HasShape rows2 cols2 b
    → Answers rows1 cols1 rows2 cols2 a b (multiply_matrices_cache_friendly a b)
unfolding multiply_matrices_cache_friendly
multiply_matrices_cache_friendly-Answers rows1 cols1 rows2 cols2 a b s t =
    checked-Answers rows1 cols1 rows2 cols2 a b (tiled_loops 128 a b) s t (λ e.
      tiled_loops-ReturnsProduct 128 rows1 cols1 cols2 a b s
        (subst (λ (n : ℕ). HasShape n cols2 b) (sym e) t) (omega arith))

-- `blockWiseMultiply`, taken in program order, returns the product of two square matrices of any size,
-- and accesses no cell that is not there.
pub block_wise_multiply-ReturnsProduct :
    (n : ℕ) (a b : Matrix)
    → HasShape n n a
    → HasShape n n b
    → ReturnsProduct n n n a b (block_wise_multiply a b)
unfolding block_wise_multiply
block_wise_multiply-ReturnsProduct n a b s t =
    rw s.row_count (block_loops-ReturnsProduct 64 n a b s t (omega arith))
