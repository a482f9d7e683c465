-- ===== src/Matrix/Strassen/Parts.antt =====
-- One level of the recursion.
use dsalib.Core.{ℕ, ◌+◌, ◌≡◌, ◌∙◌, arith}
use dsalib.Matrix.{Matrix, Outcome, ◌>>=◌}
use dsalib.Matrix.Cells.{HasShape}
use dsalib.Matrix.Product.{ReturnsProduct}
use dsalib.Matrix.Assign.{combine}
use dsalib.Matrix.Tabulate.{block, block-HasShape, quarter-block}
use dsalib.Matrix.Quarters.{combine-ReturnsProduct}
use dsalib.Matrix.Strassen.{strassen_parts}
use dsalib.Matrix.Strassen.Sums.{
  plus, minus, plus-HasShape, minus-HasShape, add-plus, subtract-minus,
}
use dsalib.Matrix.Strassen.Products.{Quarters}
use dsalib.Matrix.Strassen.Results.{
  SevenProducts, c11, c12, c21, c22, c11_partial, c22_partial, c11-HasShape, c12-HasShape,
  c21-HasShape, c22-HasShape, c11-cell, c12-cell, c21-cell, c22-cell,
}

-- A call that returns the product of two squares of side `k`.
abbrev pub Returns : (k : ℕ) → Matrix → Matrix → Outcome Matrix → Type 0
Returns k a b r = ReturnsProduct k k k a b r

-- Above the base case, if the recursive calls return products.
module _ (k : ℕ) (multiply : Matrix → Matrix → Outcome Matrix)
    (ih : (x y : Matrix) → HasShape k k x → HasShape k k y → Returns k x y (multiply x y))
    (a b c : Matrix) (sa : HasShape (k + k) (k + k) a) (sb : HasShape (k + k) (k + k) b)
    (s : HasShape (k + k) (k + k) c) where
  abbrev w : Quarters k
  w = record {
    a11 = block a 0 0 k;
    a12 = block a 0 k k;
    a21 = block a k 0 k;
    a22 = block a k k k;
    b11 = block b 0 0 k;
    b12 = block b 0 k k;
    b21 = block b k 0 k;
    b22 = block b k k k;
    a11_shape = block-HasShape a 0 0 k;
    a12_shape = block-HasShape a 0 k k;
    a21_shape = block-HasShape a k 0 k;
    a22_shape = block-HasShape a k k k;
    b11_shape = block-HasShape b 0 0 k;
    b12_shape = block-HasShape b 0 k k;
    b21_shape = block-HasShape b k 0 k;
    b22_shape = block-HasShape b k k k;
  }

  abbrev r1 : Returns k w.a11 (minus w.b12 w.b22) (multiply w.a11 (minus w.b12 w.b22))
  r1 = ih w.a11 (minus w.b12 w.b22) w.a11_shape (minus-HasShape w.b12_shape w.b22)

  abbrev r2 : Returns k (plus w.a11 w.a12) w.b22 (multiply (plus w.a11 w.a12) w.b22)
  r2 = ih (plus w.a11 w.a12) w.b22 (plus-HasShape w.a11_shape w.a12) w.b22_shape

  abbrev r3 : Returns k (plus w.a21 w.a22) w.b11 (multiply (plus w.a21 w.a22) w.b11)
  r3 = ih (plus w.a21 w.a22) w.b11 (plus-HasShape w.a21_shape w.a22) w.b11_shape

  abbrev r4 : Returns k w.a22 (minus w.b21 w.b11) (multiply w.a22 (minus w.b21 w.b11))
  r4 = ih w.a22 (minus w.b21 w.b11) w.a22_shape (minus-HasShape w.b21_shape w.b11)

  abbrev r5 :
      Returns k
        (plus w.a11 w.a22)
        (plus w.b11 w.b22)
        (multiply (plus w.a11 w.a22) (plus w.b11 w.b22))
  r5 =
      ih (plus w.a11 w.a22) (plus w.b11 w.b22) (plus-HasShape w.a11_shape w.a22)
        (plus-HasShape w.b11_shape w.b22)

  abbrev r6 :
      Returns k
        (minus w.a12 w.a22)
        (plus w.b21 w.b22)
        (multiply (minus w.a12 w.a22) (plus w.b21 w.b22))
  r6 =
      ih (minus w.a12 w.a22) (plus w.b21 w.b22) (minus-HasShape w.a12_shape w.a22)
        (plus-HasShape w.b21_shape w.b22)

  abbrev r7 :
      Returns k
        (minus w.a11 w.a21)
        (plus w.b11 w.b12)
        (multiply (minus w.a11 w.a21) (plus w.b11 w.b12))
  r7 =
      ih (minus w.a11 w.a21) (plus w.b11 w.b12) (minus-HasShape w.a11_shape w.a21)
        (plus-HasShape w.b11_shape w.b12)

  abbrev seven : SevenProducts w
  seven = record {
    p1 = r1.result;
    p2 = r2.result;
    p3 = r3.result;
    p4 = r4.result;
    p5 = r5.result;
    p6 = r6.result;
    p7 = r7.result;
    h1 = r1.correct;
    h2 = r2.correct;
    h3 = r3.correct;
    h4 = r4.correct;
    h5 = r5.correct;
    h6 = r6.correct;
    h7 = r7.correct;
  }

  -- The code does what the calls, sums and differences return.
  strassen_parts-combine :
      strassen_parts multiply k a b c
      ≡ combine k (c11 w seven) (c12 w seven) (c21 w seven) (c22 w seven) c
  unfolding strassen_parts c11 c12 c21 c22
  strassen_parts-combine =
      let s1 = r1.correct.shape in
      let s2 = r2.correct.shape in
      let s3 = r3.correct.shape in
      let s4 = r4.correct.shape in
      let s5 = r5.correct.shape in
      simp (
        quarter-block sa 0 0 k (omega arith) (omega arith),
        quarter-block sa 0 k k (omega arith) (omega arith),
        quarter-block sa k 0 k (omega arith) (omega arith),
        quarter-block sa k k k (omega arith) (omega arith),
        quarter-block sb 0 0 k (omega arith) (omega arith),
        quarter-block sb 0 k k (omega arith) (omega arith),
        quarter-block sb k 0 k (omega arith) (omega arith),
        quarter-block sb k k k (omega arith) (omega arith),
        subtract-minus w.b12_shape w.b22 w.b22_shape,
        add-plus w.a11_shape w.a12 w.a12_shape,
        add-plus w.a21_shape w.a22 w.a22_shape,
        subtract-minus w.b21_shape w.b11 w.b11_shape,
        add-plus w.a11_shape w.a22 w.a22_shape,
        add-plus w.b11_shape w.b22 w.b22_shape,
        subtract-minus w.a12_shape w.a22 w.a22_shape,
        add-plus w.b21_shape w.b22 w.b22_shape,
        subtract-minus w.a11_shape w.a21 w.a21_shape,
        add-plus w.b11_shape w.b12 w.b12_shape,
        r1.returns,
        r2.returns,
        r3.returns,
        r4.returns,
        r5.returns,
        r6.returns,
        r7.returns,
        add-plus s5 r4.result s4,
        subtract-minus (plus-HasShape s5 r4.result) r2.result s2,
        add-plus (c11_partial w seven) r6.result r6.correct.shape,
        add-plus s1 r2.result s2,
        add-plus s3 r4.result s4,
        add-plus s1 r5.result s5,
        subtract-minus (plus-HasShape s1 r5.result) r3.result s3,
        subtract-minus (c22_partial w seven) r7.result r7.correct.shape,
        ◌>>=◌,
      )

  pub strassen_parts-Returns : Returns (k + k) a b (strassen_parts multiply k a b c)
  strassen_parts-Returns =
      let whole =
        combine-ReturnsProduct k a b (c11 w seven) (c12 w seven) (c21 w seven) (c22 w seven) c s
          (c11-cell w seven) (c12-cell w seven) (c21-cell w seven) (c22-cell w seven)
          (c11-HasShape w seven) (c12-HasShape w seven) (c21-HasShape w seven)
          (c22-HasShape w seven) in
      record {
        result = whole.result;
        returns = strassen_parts-combine ∙ whole.returns;
        correct = whole.correct;
      }
