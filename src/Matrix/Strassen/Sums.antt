-- ===== src/Matrix/Strassen/Sums.antt =====
-- What `add` and `subtract` return.
use dsalib.Core.{ℕ, ◌<◌, ◌≡◌, refl, length, ℤ, ◌+ℤ◌, ◌-ℤ◌}
use dsalib.Matrix.{Matrix, value, entry, read, ◌>>=◌}
use dsalib.Matrix.Cells.{HasShape, read-value}
use dsalib.Matrix.Tabulate.{tabulate, tabulate-HasShape, entry-tabulate, assign_all-tabulate}
use dsalib.Matrix.Quarters.{IsSum, IsDifference}
use dsalib.Matrix.Strassen.{add, subtract}

-- The matrices that `add` and `subtract` return.
pub plus : Matrix → Matrix → Matrix
plus a b = tabulate (length a) (length a) (λ i j. entry a i j +ℤ entry b i j)

pub minus : Matrix → Matrix → Matrix
minus a b = tabulate (length a) (length a) (λ i j. entry a i j -ℤ entry b i j)

module _ {k : ℕ} {a : Matrix} (s : HasShape k k a) (b : Matrix) where
  pub plus-HasShape : HasShape k k (plus a b)
  unfolding plus
  plus-HasShape = rw s.row_count (tabulate-HasShape k k (λ i j. entry a i j +ℤ entry b i j))

  pub plus-IsSum : IsSum k a b (plus a b)
  unfolding plus
  plus-IsSum i j p q =
      rw s.row_count (entry-tabulate k k (λ i j. entry a i j +ℤ entry b i j) i j p q)

  pub minus-HasShape : HasShape k k (minus a b)
  unfolding minus
  minus-HasShape = rw s.row_count (tabulate-HasShape k k (λ i j. entry a i j -ℤ entry b i j))

  pub minus-IsDifference : IsDifference k a b (minus a b)
  unfolding minus
  minus-IsDifference i j p q =
      rw s.row_count (entry-tabulate k k (λ i j. entry a i j -ℤ entry b i j) i j p q)

  module _ (t : HasShape k k b) where
    both_cells :
        (f : ℤ → ℤ → ℤ) (i j : ℕ)
        → i < k
        → j < k
        → (read a i j >>= λ x. read b i j >>= λ y. value (f x y))
          ≡ value (f (entry a i j) (entry b i j))
    both_cells f i j p q = rw (read-value s i j p q, read-value t i j p q) refl

    pub add-plus : add a b ≡ value (plus a b)
    unfolding add plus
    add-plus = rw s.row_count (assign_all-tabulate k k _ _ (both_cells ◌+ℤ◌))

    pub subtract-minus : subtract a b ≡ value (minus a b)
    unfolding subtract minus
    subtract-minus = rw s.row_count (assign_all-tabulate k k _ _ (both_cells ◌-ℤ◌))
