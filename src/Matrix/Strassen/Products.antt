-- ===== src/Matrix/Strassen/Products.antt =====
-- A cell of each of the seven products.
use dsalib.Core.{ℕ, ◌<◌, ◌≡◌, ◌∙◌, ℤ, ◌+ℤ◌, ◌-ℤ◌}
use mathlib.Core.Path.{ap₂}
use dsalib.Matrix.{Matrix, entry}
use dsalib.Matrix.Cells.{HasShape}
use dsalib.Matrix.Product.{product, IsProduct}
use dsalib.Matrix.Quarters.{
  product-sum_left, product-sum_right, product-difference_left, product-difference_right,
}
use dsalib.Matrix.Strassen.Sums.{plus, minus, plus-IsSum, minus-IsDifference}

-- The quarters of two squares.
pub record Quarters (k : ℕ) : Type 0 where
  pub a11 : Matrix
  pub a12 : Matrix
  pub a21 : Matrix
  pub a22 : Matrix
  pub b11 : Matrix
  pub b12 : Matrix
  pub b21 : Matrix
  pub b22 : Matrix
  pub a11_shape : HasShape k k a11
  pub a12_shape : HasShape k k a12
  pub a21_shape : HasShape k k a21
  pub a22_shape : HasShape k k a22
  pub b11_shape : HasShape k k b11
  pub b12_shape : HasShape k k b12
  pub b21_shape : HasShape k k b21
  pub b22_shape : HasShape k k b22

-- A cell of each of the seven products, in terms of the products of quarters.
module _ {k : ℕ} (w : Quarters k) (i j : ℕ) (p : i < k) (q : j < k) (m : Matrix) where
  open w use {
    a11, a12, a21, a22, b11, b12, b21, b22, a11_shape, a12_shape, a21_shape, a22_shape, b11_shape,
    b12_shape, b21_shape,
  }

  abbrev x : Matrix → Matrix → ℤ
  x a b = product k a b i j

  pub cell_1 : IsProduct k k k a11 (minus b12 b22) m → entry m i j ≡ x a11 b12 -ℤ x a11 b22
  cell_1 h =
      h.cells i j p q
      ∙ product-difference_right k i j p q b12 b22 (minus b12 b22) a11
          (minus-IsDifference b12_shape b22)

  pub cell_2 : IsProduct k k k (plus a11 a12) b22 m → entry m i j ≡ x a11 b22 +ℤ x a12 b22
  cell_2 h =
      h.cells i j p q
      ∙ product-sum_left k i j p q a11 a12 (plus a11 a12) b22 (plus-IsSum a11_shape a12)

  pub cell_3 : IsProduct k k k (plus a21 a22) b11 m → entry m i j ≡ x a21 b11 +ℤ x a22 b11
  cell_3 h =
      h.cells i j p q
      ∙ product-sum_left k i j p q a21 a22 (plus a21 a22) b11 (plus-IsSum a21_shape a22)

  pub cell_4 : IsProduct k k k a22 (minus b21 b11) m → entry m i j ≡ x a22 b21 -ℤ x a22 b11
  cell_4 h =
      h.cells i j p q
      ∙ product-difference_right k i j p q b21 b11 (minus b21 b11) a22
          (minus-IsDifference b21_shape b11)

  pub cell_5 :
      IsProduct k k k (plus a11 a22) (plus b11 b22) m
      → entry m i j ≡ (x a11 b11 +ℤ x a11 b22) +ℤ (x a22 b11 +ℤ x a22 b22)
  cell_5 h =
      h.cells i j p q
      ∙ product-sum_left k i j p q a11 a22 (plus a11 a22) (plus b11 b22) (plus-IsSum a11_shape a22)
      ∙ ap₂ ◌+ℤ◌ (product-sum_right k i j p q b11 b22 (plus b11 b22) a11 (plus-IsSum b11_shape b22))
          (product-sum_right k i j p q b11 b22 (plus b11 b22) a22 (plus-IsSum b11_shape b22))

  pub cell_6 :
      IsProduct k k k (minus a12 a22) (plus b21 b22) m
      → entry m i j ≡ (x a12 b21 +ℤ x a12 b22) -ℤ (x a22 b21 +ℤ x a22 b22)
  cell_6 h =
      h.cells i j p q
      ∙ product-difference_left k i j p q a12 a22 (minus a12 a22) (plus b21 b22)
          (minus-IsDifference a12_shape a22)
      ∙ ap₂ ◌-ℤ◌ (product-sum_right k i j p q b21 b22 (plus b21 b22) a12 (plus-IsSum b21_shape b22))
          (product-sum_right k i j p q b21 b22 (plus b21 b22) a22 (plus-IsSum b21_shape b22))

  pub cell_7 :
      IsProduct k k k (minus a11 a21) (plus b11 b12) m
      → entry m i j ≡ (x a11 b11 +ℤ x a11 b12) -ℤ (x a21 b11 +ℤ x a21 b12)
  cell_7 h =
      h.cells i j p q
      ∙ product-difference_left k i j p q a11 a21 (minus a11 a21) (plus b11 b12)
          (minus-IsDifference a11_shape a21)
      ∙ ap₂ ◌-ℤ◌ (product-sum_right k i j p q b11 b12 (plus b11 b12) a11 (plus-IsSum b11_shape b12))
          (product-sum_right k i j p q b11 b12 (plus b11 b12) a21 (plus-IsSum b11_shape b12))
