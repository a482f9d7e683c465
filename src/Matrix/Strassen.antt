-- ===== src/Matrix/Strassen.antt =====
-- `strassenMultiply`, with `add` and `subtract`. `int n = A.size()` is a power of two where the algorithm
-- works: the halves of an odd size leave a row and a column out, and size 0 never reaches the base.
pub mod Sums
pub mod Identities
pub mod Products
pub mod Results
pub mod Parts
pub mod Correct
use dsalib.Core.{
  ◌*ℤ◌, cons_parts, ℕ, zero, suc, ◌+◌, ◌-◌, ◌*◌, ◌/◌, ◌%◌, ◌^◌, ◌≤◌, ◌<◌, ◌≡◌, refl, sym, ap, ◌∙◌,
  subst, ◌≢◌, ◌⊎◌, inl, inr, Bool, true, false, not, ◌&&◌, ◌||◌, Option, none, some, List, [], ◌∷◌,
  ◌++◌, arith, ltb, leb, ◌==◌, if◌then◌else◌, Bool-cases, Option-cases, length, get_elem?, set,
  get_or, length-append, length-set, get_or-set_self, get_or-set_ne, get_elem?-get_or, ℤ, pos,
  negsuc, pos_part, neg_part, lt_ℤ, le_ℤ, ◌==ℤ◌, ◌+ℤ◌, ◌-ℤ◌, ==ℤ_iff, eq_of_parts, replicate,
}
use dsalib.Matrix.{Matrix, Outcome, value, out_of_fuel, read, write, zeros, ◌>>=◌}
use dsalib.Matrix.Assign.{assign_all, quarter, combine}

unfoldable pub add : Matrix → Matrix → Outcome Matrix
add a b =
    assign_all (length a) (length a) (λ i j. read a i j >>= λ x. read b i j >>= λ y. value (x +ℤ y))
      (zeros (length a) (length a))

unfoldable pub subtract : Matrix → Matrix → Outcome Matrix
subtract a b =
    assign_all (length a) (length a) (λ i j. read a i j >>= λ x. read b i j >>= λ y. value (x -ℤ y))
      (zeros (length a) (length a))

-- `strassenMultiply` above the base case, with quarters of side `k`; `multiply` is the recursive call,
-- and `c` the matrix that the result is written to.
unfoldable pub strassen_parts :
    (Matrix → Matrix → Outcome Matrix) → ℕ → Matrix → Matrix → Matrix → Outcome Matrix
strassen_parts multiply k a b c = do
  a11 ← quarter a 0 0 k
  a12 ← quarter a 0 k k
  a21 ← quarter a k 0 k
  a22 ← quarter a k k k
  b11 ← quarter b 0 0 k
  b12 ← quarter b 0 k k
  b21 ← quarter b k 0 k
  b22 ← quarter b k k k
  d1 ← subtract b12 b22
  p1 ← multiply a11 d1
  s2 ← add a11 a12
  p2 ← multiply s2 b22
  s3 ← add a21 a22
  p3 ← multiply s3 b11
  d4 ← subtract b21 b11
  p4 ← multiply a22 d4
  s5 ← add a11 a22
  t5 ← add b11 b22
  p5 ← multiply s5 t5
  d6 ← subtract a12 a22
  t6 ← add b21 b22
  p6 ← multiply d6 t6
  d7 ← subtract a11 a21
  t7 ← add b11 b12
  p7 ← multiply d7 t7
  u ← add p5 p4
  v ← subtract u p2
  c11 ← add v p6
  c12 ← add p1 p2
  c21 ← add p3 p4
  x ← add p1 p5
  y ← subtract x p3
  c22 ← subtract y p7
  combine k c11 c12 c21 c22 c

-- The body of `strassenMultiply` for `int n = A.size()`.
unfoldable pub strassen_body :
    (Matrix → Matrix → Outcome Matrix) → ℕ → Matrix → Matrix → Outcome Matrix
strassen_body multiply n a b = elim (n == 1) [
  | true ↦ read a 0 0 >>= λ x. read b 0 0 >>= λ y. write (zeros n n) 0 0 (x *ℤ y)
  | false ↦ strassen_parts multiply (n / 2) a b (zeros n n)
]

-- `strassenMultiply`, to a depth of recursion.
unfoldable pub strassen_multiply : ℕ → Matrix → Matrix → Outcome Matrix
strassen_multiply zero a b = out_of_fuel
strassen_multiply (suc fuel) a b = strassen_body (strassen_multiply fuel) (length a) a b
