-- ===== src/Matrix/Quarters.antt =====
-- The product of two matrices by the products of their quarters.
use dsalib.Core.{
  ℕ, zero, suc, ◌+◌, ◌-◌, ◌<◌, ◌≤◌, ◌≡◌, refl, ap, sym, ◌∙◌, arith, ℤ, pos, ◌+ℤ◌, ◌-ℤ◌, ◌*ℤ◌,
  int_laws, eq_of_parts, add-mul, sub-mul, mul-add, mul-sub,
}
use mathlib.Core.Path.{ap₂}
use native.Mathlib.Decide.{dec_lt}
use dsalib.Matrix.{Matrix, entry}
use dsalib.Matrix.Cells.{HasShape}
use dsalib.Matrix.Product.{sum, product, ReturnsProduct}
use dsalib.Matrix.Assign.{combine, combine-Acts}
use dsalib.Matrix.Tabulate.{block, entry-block}

sum-congr : (n : ℕ) (f g : ℕ → ℤ) → ((t : ℕ) → t < n → f t ≡ g t) → sum n f ≡ sum n g
unfolding sum
sum-congr zero f g h = refl
sum-congr (suc n) f g h = ap₂ ◌+ℤ◌ (sum-congr n f g (λ t p. h t (omega arith))) (h n (omega arith))

sum-add : (n : ℕ) (f g : ℕ → ℤ) → sum n (λ t. f t +ℤ g t) ≡ sum n f +ℤ sum n g
unfolding sum
sum-add zero f g = eq_of_parts (pos 0) (pos 0 +ℤ pos 0) (omega int_laws)
sum-add (suc n) f g = rw (sum-add n f g) (
    eq_of_parts (sum n f +ℤ sum n g +ℤ (f n +ℤ g n)) (sum n f +ℤ f n +ℤ (sum n g +ℤ g n))
      (omega int_laws))

sum-sub : (n : ℕ) (f g : ℕ → ℤ) → sum n (λ t. f t -ℤ g t) ≡ sum n f -ℤ sum n g
unfolding sum
sum-sub zero f g = eq_of_parts (pos 0) (pos 0 -ℤ pos 0) (omega int_laws)
sum-sub (suc n) f g = rw (sum-sub n f g) (
    eq_of_parts (sum n f -ℤ sum n g +ℤ (f n -ℤ g n)) (sum n f +ℤ f n -ℤ (sum n g +ℤ g n))
      (omega int_laws))

sum-split : (n m : ℕ) (f : ℕ → ℤ) → sum (n + m) f ≡ sum n f +ℤ sum m (λ t. f (t + n))
unfolding sum
sum-split n zero f =
    ap (λ (k : ℕ). sum k f) {x = n + 0} {y = n} (omega arith)
    ∙ eq_of_parts (sum n f) (sum n f +ℤ pos 0) (omega int_laws)
sum-split n (suc m) f =
    ap (λ (k : ℕ). sum k f) {x = n + suc m} {y = suc (n + m)} (omega arith)
    ∙ ap₂ ◌+ℤ◌ (sum-split n m f) (ap f {x = n + m} {y = m + n} (omega arith))
    ∙ eq_of_parts (sum n f +ℤ sum m (λ t. f (t + n)) +ℤ f (m + n))
        (sum n f +ℤ (sum m (λ t. f (t + n)) +ℤ f (m + n))) (omega int_laws)

-- `c` has the sums, and `d` the differences, of the cells of `a` and `b`, in a square of side `k`.
abbrev pub IsSum : ℕ → Matrix → Matrix → Matrix → Type 0
IsSum k a b c = (i j : ℕ) → i < k → j < k → entry c i j ≡ entry a i j +ℤ entry b i j

abbrev pub IsDifference : ℕ → Matrix → Matrix → Matrix → Type 0
IsDifference k a b d = (i j : ℕ) → i < k → j < k → entry d i j ≡ entry a i j -ℤ entry b i j

module _ (k i j : ℕ) (p : i < k) (q : j < k) (a b c d : Matrix) where
  pub product-sum_left : IsSum k a b c → product k c d i j ≡ product k a d i j +ℤ product k b d i j
  product-sum_left h =
      sum-congr k (λ t. entry c i t *ℤ entry d t j)
        (λ t. entry a i t *ℤ entry d t j +ℤ entry b i t *ℤ entry d t j)
        (λ t r.
          ap (λ (x : ℤ). x *ℤ entry d t j) (h i t p r)
          ∙ add-mul (entry a i t) (entry b i t) (entry d t j))
      ∙ sum-add k (λ t. entry a i t *ℤ entry d t j) (λ t. entry b i t *ℤ entry d t j)

  pub product-sum_right : IsSum k a b c → product k d c i j ≡ product k d a i j +ℤ product k d b i j
  product-sum_right h =
      sum-congr k (λ t. entry d i t *ℤ entry c t j)
        (λ t. entry d i t *ℤ entry a t j +ℤ entry d i t *ℤ entry b t j)
        (λ t r.
          ap (λ (x : ℤ). entry d i t *ℤ x) (h t j r q)
          ∙ mul-add (entry d i t) (entry a t j) (entry b t j))
      ∙ sum-add k (λ t. entry d i t *ℤ entry a t j) (λ t. entry d i t *ℤ entry b t j)

  pub product-difference_left :
      IsDifference k a b c → product k c d i j ≡ product k a d i j -ℤ product k b d i j
  product-difference_left h =
      sum-congr k (λ t. entry c i t *ℤ entry d t j)
        (λ t. entry a i t *ℤ entry d t j -ℤ entry b i t *ℤ entry d t j)
        (λ t r.
          ap (λ (x : ℤ). x *ℤ entry d t j) (h i t p r)
          ∙ sub-mul (entry a i t) (entry b i t) (entry d t j))
      ∙ sum-sub k (λ t. entry a i t *ℤ entry d t j) (λ t. entry b i t *ℤ entry d t j)

  pub product-difference_right :
      IsDifference k a b c → product k d c i j ≡ product k d a i j -ℤ product k d b i j
  product-difference_right h =
      sum-congr k (λ t. entry d i t *ℤ entry c t j)
        (λ t. entry d i t *ℤ entry a t j -ℤ entry d i t *ℤ entry b t j)
        (λ t r.
          ap (λ (x : ℤ). entry d i t *ℤ x) (h t j r q)
          ∙ mul-sub (entry d i t) (entry a t j) (entry b t j))
      ∙ sum-sub k (λ t. entry d i t *ℤ entry a t j) (λ t. entry d i t *ℤ entry b t j)

sub_back : (s j : ℕ) → s ≤ j → j - s + s ≡ j
sub_back s j h = omega arith

sub_zero : (n : ℕ) → n - 0 ≡ n
sub_zero n = omega arith

-- A cell of the product of two squares of side `k + k`, from the quarters of its row and its column.
module _ (k : ℕ) (a b : Matrix) where
  product-quarters :
      (r c i j : ℕ)
      → i < k
      → j < k
      → product (k + k) a b (i + r) (j + c)
        ≡ product k (block a r 0 k) (block b 0 c k) i j
          +ℤ product k (block a r k k) (block b k c k) i j
  product-quarters r c i j p q =
      sum-split k k (λ t. entry a (i + r) t *ℤ entry b t (j + c))
      ∙ ap₂ ◌+ℤ◌
          (sum-congr k (λ t. entry a (i + r) t *ℤ entry b t (j + c))
            (λ t. entry (block a r 0 k) i t *ℤ entry (block b 0 c k) t j)
            (λ t h.
              ap₂ ◌*ℤ◌
                (ap (entry a (i + r)) {x = t} {y = t + 0} (omega arith)
                  ∙ sym (entry-block a r 0 k i t p h))
                (ap (λ (x : ℕ). entry b x (j + c)) {x = t} {y = t + 0} (omega arith)
                  ∙ sym (entry-block b 0 c k t j h q))))
          (sum-congr k (λ t. entry a (i + r) (t + k) *ℤ entry b (t + k) (j + c))
            (λ t. entry (block a r k k) i t *ℤ entry (block b k c k) t j)
            (λ t h.
              ap₂ ◌*ℤ◌ (sym (entry-block a r k k i t p h)) (sym (entry-block b k c k t j h q))))

  -- `c` has in the quarter at row `r` and column `s` what the product has there.
  abbrev pub IsQuarter : (r s : ℕ) → Matrix → Type 0
  IsQuarter r s c =
      (i j : ℕ)
      → i < k
      → j < k
      → entry c i j
        ≡ product k (block a r 0 k) (block b 0 s k) i j
          +ℤ product k (block a r k k) (block b k s k) i j

  quarter_cell :
      (r s i j : ℕ) (c : Matrix)
      → IsQuarter r s c
      → r ≤ i
      → i < k + r
      → s ≤ j
      → j < k + s
      → entry c (i - r) (j - s) ≡ product (k + k) a b i j
  quarter_cell r s i j c h p q t u =
      h (i - r) (j - s) (omega arith) (omega arith)
      ∙ sym (product-quarters r s (i - r) (j - s) (omega arith) (omega arith))
      ∙ ap₂ (product (k + k) a b) {x = i - r + r} {y = i} (omega arith) (sub_back s j t)

  pub combine-ReturnsProduct :
      (c11 c12 c21 c22 m : Matrix)
      → HasShape (k + k) (k + k) m
      → IsQuarter 0 0 c11
      → IsQuarter 0 k c12
      → IsQuarter k 0 c21
      → IsQuarter k k c22
      → HasShape k k c11
      → HasShape k k c12
      → HasShape k k c21
      → HasShape k k c22
      → ReturnsProduct (k + k) (k + k) (k + k) a b (combine k c11 c12 c21 c22 m)
  combine-ReturnsProduct c11 c12 c21 c22 m s q11 q12 q21 q22 s11 s12 s21 s22 =
      let act = combine-Acts s11 s12 s21 s22 in
      record {
        result = act.after m s;
        returns = act.returns m s;
        correct = record {
          shape = act.keeps m s;
          cells = λ i j p q. act.acts m s i j p q ∙ elim (dec_lt i k) [
            | yes upper ↦ elim (dec_lt j k) [
              | yes left ↦
                  let cell =
                    quarter_cell 0 0 i j c11 q11 (omega arith) (omega arith) (omega arith)
                      (omega arith) in
                  ground (arith, ap₂ (entry c11) (sub_zero i) (sub_zero j), cell)
              | no right ↦
                  let cell =
                    quarter_cell 0 k i j c12 q12 (omega arith) (omega arith) (omega arith)
                      (omega arith) in
                  ground (arith, ap (λ (x : ℕ). entry c12 x (j - k)) (sub_zero i), cell)
            ]
            | no lower ↦ elim (dec_lt j k) [
              | yes left ↦
                  let cell =
                    quarter_cell k 0 i j c21 q21 (omega arith) (omega arith) (omega arith)
                      (omega arith) in
                  ground (arith, ap (entry c21 (i - k)) (sub_zero j), cell)
              | no right ↦
                  let cell =
                    quarter_cell k k i j c22 q22 (omega arith) (omega arith) (omega arith)
                      (omega arith) in
                  ground (arith, cell)
            ]
          ];
        };
      }
