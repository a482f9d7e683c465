-- ===== src/Matrix/Strassen/Correct.antt =====
-- Strassen's algorithm returns the product of squares whose side is a power of two.
use dsalib.Core.{◌*ℤ◌}
use dsalib.Core.{
  ℕ, zero, suc, ◌+◌, ◌/◌, ◌<◌, ◌≡◌, refl, sym, ap, ◌∙◌, false, [], arith, ◌==◌, length,
}
use mathlib.Core.Path.{ap₂}
use dsalib.Matrix.{Matrix, out_of_fuel, entry, read, store, write, zeros, loop_by, ◌>>=◌}
use dsalib.Matrix.Cells.{
  HasShape, zeros-HasShape, store-HasShape, entry-store, read-value, write-value,
}
use dsalib.Matrix.Product.{sum, product, IsProduct, ReturnsProduct, +ℤ_zero}
use dsalib.Matrix.Assign.{assign_all, quarter}
use dsalib.Matrix.Strassen.{subtract, strassen_parts, strassen_body, strassen_multiply}
use dsalib.Matrix.Strassen.Parts.{Returns, strassen_parts-Returns}

-- 2 to the power `p`.
unfoldable pub side : ℕ → ℕ
side zero = 1
side (suc p) = side p + side p

pub side_pos : (p : ℕ) → 0 < side p
unfolding side
side_pos zero = omega arith
side_pos (suc p) = omega (arith, side_pos p)

-- The base case of the recursions: the product of two 1 times 1 matrices.
pub one-IsProduct :
    (a b c : Matrix)
    → HasShape 1 1 c
    → IsProduct 1 1 1 a b (store c 0 0 (entry a 0 0 *ℤ entry b 0 0))
unfolding sum
one-IsProduct a b c s = record {
  shape = store-HasShape s 0 0 (omega arith) (omega arith) (entry a 0 0 *ℤ entry b 0 0);
  cells = λ i j p q.
      let e : i ≡ 0 = omega arith in
      let f : j ≡ 0 = omega arith in
      ap₂ (entry (store c 0 0 (entry a 0 0 *ℤ entry b 0 0))) e f
      ∙ entry-store s 0 0 (omega arith) (omega arith) (entry a 0 0 *ℤ entry b 0 0) 0 0
      ∙ sym (+ℤ_zero (entry a 0 0 *ℤ entry b 0 0))
      ∙ ap₂ (λ (x y : ℕ). product 1 a b x y) (sym e) (sym f);
}

strassen_multiply_above :
    (fuel k : ℕ) (a b : Matrix)
    → length a ≡ k + k
    → (k + k == 1) ≡ false
    → (k + k) / 2 ≡ k
    → strassen_multiply (suc fuel) a b
      ≡ strassen_parts (strassen_multiply fuel) k a b (zeros (k + k) (k + k))
unfolding strassen_multiply strassen_body
strassen_multiply_above fuel k a b h m e =
    ap (λ (n : ℕ). strassen_body (strassen_multiply fuel) n a b) h ∙ rw (strassen_body, m, e) refl

-- What the base case of the recursions returns.
pub one-ReturnsProduct :
    (a b c : Matrix)
    → HasShape 1 1 a
    → HasShape 1 1 b
    → HasShape 1 1 c
    → ReturnsProduct 1 1 1 a b (read a 0 0 >>= λ x. read b 0 0 >>= λ y. write c 0 0 (x *ℤ y))
one-ReturnsProduct a b c sa sb sc = record {
  result = store c 0 0 (entry a 0 0 *ℤ entry b 0 0);
  returns =
      rw
        (
          read-value sa 0 0 (omega arith) (omega arith),
          read-value sb 0 0 (omega arith) (omega arith),
        )
        (write-value sc 0 0 (entry a 0 0 *ℤ entry b 0 0) (omega arith) (omega arith));
  correct = one-IsProduct a b c sc;
}

strassen_multiply_base :
    (fuel : ℕ) (a b : Matrix)
    → length a ≡ 1
    → strassen_multiply (suc fuel) a b
      ≡ (read a 0 0 >>= λ x. read b 0 0 >>= λ y. write (zeros 1 1) 0 0 (x *ℤ y))
unfolding strassen_multiply strassen_body
strassen_multiply_base fuel a b h = ap (λ (n : ℕ). strassen_body (strassen_multiply fuel) n a b) h

-- Strassen's algorithm returns the product of two squares whose side is a power of two, at any depth of
-- recursion that is larger than its exponent, and accesses no cell that is not there.
pub strassen_multiply-Returns :
    (p fuel : ℕ) (a b : Matrix)
    → p < fuel
    → HasShape (side p) (side p) a
    → HasShape (side p) (side p) b
    → Returns (side p) a b (strassen_multiply fuel a b)
unfolding side
strassen_multiply-Returns p zero a b h s t = absurd (omega arith)
strassen_multiply-Returns zero (suc fuel) a b h s t =
    rw (strassen_multiply_base fuel a b s.row_count)
      (one-ReturnsProduct a b (zeros 1 1) s t (zeros-HasShape 1 1))
strassen_multiply-Returns (suc p) (suc fuel) a b h s t =
    let k = side p in
    let more : (k + k == 1) ≡ false = ground (arith, side_pos p) in
    let half : (k + k) / 2 ≡ k = omega arith in
    let whole =
      strassen_parts-Returns k (strassen_multiply fuel)
        (λ x y sx sy. strassen_multiply-Returns p fuel x y (omega arith) sx sy) a b
        (zeros (k + k) (k + k)) s t (zeros-HasShape (k + k) (k + k)) in
    record {
      result = whole.result;
      returns = strassen_multiply_above fuel k a b s.row_count more half ∙ whole.returns;
      correct = whole.correct;
    }

-- On an empty matrix `strassenMultiply` calls itself on empty matrices without end: it has no base case
-- for size 0, and no depth of recursion is enough.
pub strassen_multiply_empty : (fuel : ℕ) (b : Matrix) → strassen_multiply fuel [] b ≡ out_of_fuel
unfolding strassen_multiply strassen_body strassen_parts quarter assign_all loop_by zeros subtract
strassen_multiply_empty zero b = refl
strassen_multiply_empty (suc fuel) b = rw (strassen_multiply_empty fuel []) refl
