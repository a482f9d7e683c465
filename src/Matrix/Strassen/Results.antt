-- ===== src/Matrix/Strassen/Results.antt =====
-- The quarters of the result, from the seven products.
use dsalib.Core.{ℕ, ◌<◌, ◌≡◌, ◌∙◌, ℤ, ◌+ℤ◌, ◌-ℤ◌}
use mathlib.Core.Path.{ap₂}
use dsalib.Matrix.{Matrix, entry}
use dsalib.Matrix.Cells.{HasShape}
use dsalib.Matrix.Product.{product, IsProduct}
use dsalib.Matrix.Strassen.Sums.{
  plus, minus, plus-HasShape, plus-IsSum, minus-HasShape, minus-IsDifference,
}
use dsalib.Matrix.Strassen.Identities.{upper_left, upper_right, lower_left, lower_right}
use dsalib.Matrix.Strassen.Products.{
  Quarters, cell_1, cell_2, cell_3, cell_4, cell_5, cell_6, cell_7,
}

-- Seven products of sums and differences of quarters.
pub record SevenProducts {k : ℕ} (w : Quarters k) : Type 0 where
  pub p1 : Matrix
  pub p2 : Matrix
  pub p3 : Matrix
  pub p4 : Matrix
  pub p5 : Matrix
  pub p6 : Matrix
  pub p7 : Matrix
  pub h1 : IsProduct k k k w.a11 (minus w.b12 w.b22) p1
  pub h2 : IsProduct k k k (plus w.a11 w.a12) w.b22 p2
  pub h3 : IsProduct k k k (plus w.a21 w.a22) w.b11 p3
  pub h4 : IsProduct k k k w.a22 (minus w.b21 w.b11) p4
  pub h5 : IsProduct k k k (plus w.a11 w.a22) (plus w.b11 w.b22) p5
  pub h6 : IsProduct k k k (minus w.a12 w.a22) (plus w.b21 w.b22) p6
  pub h7 : IsProduct k k k (minus w.a11 w.a21) (plus w.b11 w.b12) p7

-- The quarters of the result, their shapes and their cells.
module _ {k : ℕ} (w : Quarters k) (v : SevenProducts w) where
  open v use {p1, p2, p3, p4, p5, p6, p7, h1, h2, h3, h4, h5, h6, h7}

  unfoldable pub c11 : Matrix
  c11 = plus (minus (plus p5 p4) p2) p6

  unfoldable pub c12 : Matrix
  c12 = plus p1 p2

  unfoldable pub c21 : Matrix
  c21 = plus p3 p4

  unfoldable pub c22 : Matrix
  c22 = minus (minus (plus p1 p5) p3) p7

  pub c11_partial : HasShape k k (minus (plus p5 p4) p2)
  c11_partial = minus-HasShape (plus-HasShape h5.shape p4) p2

  pub c22_partial : HasShape k k (minus (plus p1 p5) p3)
  c22_partial = minus-HasShape (plus-HasShape h1.shape p5) p3

  pub c11-HasShape : HasShape k k c11
  unfolding c11
  c11-HasShape = plus-HasShape c11_partial p6

  pub c12-HasShape : HasShape k k c12
  unfolding c12
  c12-HasShape = plus-HasShape h1.shape p2

  pub c21-HasShape : HasShape k k c21
  unfolding c21
  c21-HasShape = plus-HasShape h3.shape p4

  pub c22-HasShape : HasShape k k c22
  unfolding c22
  c22-HasShape = minus-HasShape c22_partial p7

  module _ (i j : ℕ) (p : i < k) (q : j < k) where
    abbrev x : Matrix → Matrix → ℤ
    x a b = product k a b i j

    pub c11-cell : entry c11 i j ≡ x w.a11 w.b11 +ℤ x w.a12 w.b21
    unfolding c11
    c11-cell =
        plus-IsSum c11_partial p6 i j p q
        ∙ ap₂ ◌+ℤ◌
            (minus-IsDifference (plus-HasShape h5.shape p4) p2 i j p q
              ∙ ap₂ ◌-ℤ◌
                  (plus-IsSum h5.shape p4 i j p q
                    ∙ ap₂ ◌+ℤ◌ (cell_5 w i j p q p5 h5) (cell_4 w i j p q p4 h4))
                  (cell_2 w i j p q p2 h2))
            (cell_6 w i j p q p6 h6)
        ∙ upper_left (x w.a11 w.b11) (x w.a11 w.b22) (x w.a12 w.b21) (x w.a12 w.b22) (x w.a22 w.b11)
            (x w.a22 w.b21) (x w.a22 w.b22)

    pub c12-cell : entry c12 i j ≡ x w.a11 w.b12 +ℤ x w.a12 w.b22
    unfolding c12
    c12-cell =
        plus-IsSum h1.shape p2 i j p q
        ∙ ap₂ ◌+ℤ◌ (cell_1 w i j p q p1 h1) (cell_2 w i j p q p2 h2)
        ∙ upper_right (x w.a11 w.b12) (x w.a11 w.b22) (x w.a12 w.b22)

    pub c21-cell : entry c21 i j ≡ x w.a21 w.b11 +ℤ x w.a22 w.b21
    unfolding c21
    c21-cell =
        plus-IsSum h3.shape p4 i j p q
        ∙ ap₂ ◌+ℤ◌ (cell_3 w i j p q p3 h3) (cell_4 w i j p q p4 h4)
        ∙ lower_left (x w.a21 w.b11) (x w.a22 w.b11) (x w.a22 w.b21)

    pub c22-cell : entry c22 i j ≡ x w.a21 w.b12 +ℤ x w.a22 w.b22
    unfolding c22
    c22-cell =
        minus-IsDifference c22_partial p7 i j p q
        ∙ ap₂ ◌-ℤ◌
            (minus-IsDifference (plus-HasShape h1.shape p5) p3 i j p q
              ∙ ap₂ ◌-ℤ◌
                  (plus-IsSum h1.shape p5 i j p q
                    ∙ ap₂ ◌+ℤ◌ (cell_1 w i j p q p1 h1) (cell_5 w i j p q p5 h5))
                  (cell_3 w i j p q p3 h3))
            (cell_7 w i j p q p7 h7)
        ∙ lower_right (x w.a11 w.b11) (x w.a11 w.b12) (x w.a11 w.b22) (x w.a21 w.b11)
            (x w.a21 w.b12) (x w.a22 w.b11) (x w.a22 w.b22)
