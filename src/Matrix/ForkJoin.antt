-- ===== src/Matrix/ForkJoin.antt =====
-- `sharedMemoryMultiply`, `multiplyRecursive`, `addMatrices` and `getSubmatrix`. The four parallel
-- sections are run one after the other, in program order. In the source two of them share `temp1` and
-- two share `temp2` with no synchronisation.
pub mod Correct
use dsalib.Core.{
  cons_parts, ℕ, zero, suc, ◌+◌, ◌-◌, ◌*◌, ◌/◌, ◌%◌, ◌^◌, ◌≤◌, ◌<◌, ◌≡◌, refl, sym, ap, ◌∙◌, subst,
  ◌≢◌, ◌⊎◌, inl, inr, Bool, true, false, not, ◌&&◌, ◌||◌, Option, none, some, List, [], ◌∷◌, ◌++◌,
  arith, ltb, leb, ◌==◌, if◌then◌else◌, Bool-cases, Option-cases, length, get_elem?, set, get_or,
  length-append, length-set, get_or-set_self, get_or-set_ne, get_elem?-get_or, ℤ, pos, negsuc,
  pos_part, neg_part, lt_ℤ, le_ℤ, ◌==ℤ◌, ◌+ℤ◌, ◌-ℤ◌, ==ℤ_iff, eq_of_parts, replicate,
}
use dsalib.Core.{◌*ℤ◌}
use dsalib.Matrix.{Matrix, Outcome, value, out_of_fuel, read, write, zeros, loop, ◌>>=◌}
use dsalib.Matrix.Assign.{assign_all, combine}

unfoldable pub get_submatrix : Matrix → (row_start col_start size : ℕ) → Outcome Matrix
get_submatrix matrix row_start col_start size =
    assign_all size size (λ i j. read matrix (row_start + i) (col_start + j)) (zeros size size)

-- One assignment of `addMatrices(c, b, c, size)`: every call adds to its own first argument.
unfoldable pub add_cell : Matrix → (i j : ℕ) → Matrix → Outcome Matrix
add_cell b i j m = do x ← read m i j; y ← read b i j; write m i j (x +ℤ y)

-- `addMatrices(c, b, c, size)`
unfoldable pub add_matrices : Matrix → Matrix → ℕ → Outcome Matrix
add_matrices c b size = loop 0 size 1 (λ i. loop 0 size 1 (λ j. add_cell b i j)) c

-- One section: two products, the second by way of a temporary matrix, and their sum.
unfoldable pub section :
    (Matrix → Matrix → Matrix → Outcome Matrix)
    → ℕ
    → (a1 b1 a2 b2 c temp : Matrix) → Outcome (Matrix × Matrix)
section multiply size a1 b1 a2 b2 c temp = do
  c' ← multiply a1 b1 c
  temp' ← multiply a2 b2 temp
  sums ← add_matrices c' temp' size
  value (sums, temp')

-- `multiplyRecursive` above the base case; `multiply` is the recursive call with the matrix that it
-- writes to.
unfoldable pub multiply_parts :
    (Matrix → Matrix → Matrix → Outcome Matrix) → ℕ → (a b c : Matrix) → Outcome Matrix
multiply_parts multiply k a b c = do
  a11 ← get_submatrix a 0 0 k
  a12 ← get_submatrix a 0 k k
  a21 ← get_submatrix a k 0 k
  a22 ← get_submatrix a k k k
  b11 ← get_submatrix b 0 0 k
  b12 ← get_submatrix b 0 k k
  b21 ← get_submatrix b k 0 k
  b22 ← get_submatrix b k k k
  first ← section multiply k a11 b11 a12 b21 (zeros k k) (zeros k k)
  second ← section multiply k a11 b12 a12 b22 (zeros k k) (zeros k k)
  third ← section multiply k a21 b11 a22 b21 (zeros k k) first.1
  fourth ← section multiply k a21 b12 a22 b22 (zeros k k) second.1
  combine k first.0 second.0 third.0 fourth.0 c

-- The body of `multiplyRecursive`.
unfoldable pub multiply_body :
    (Matrix → Matrix → Matrix → Outcome Matrix) → (size : ℕ) → (a b c : Matrix) → Outcome Matrix
multiply_body multiply size a b c = elim (size == 1) [
  | true ↦ read a 0 0 >>= λ x. read b 0 0 >>= λ y. write c 0 0 (x *ℤ y)
  | false ↦ multiply_parts multiply (size / 2) a b c
]

-- `multiplyRecursive`, to a depth of recursion: the matrix `c` as it is left.
unfoldable pub multiply_recursive : (fuel : ℕ) → (a b c : Matrix) → (size : ℕ) → Outcome Matrix
multiply_recursive zero a b c size = out_of_fuel
multiply_recursive (suc fuel) a b c size =
    multiply_body (λ x y z. multiply_recursive fuel x y z (size / 2)) size a b c

unfoldable pub shared_memory_multiply : (fuel : ℕ) → (a b : Matrix) → Outcome Matrix
shared_memory_multiply fuel a b =
    multiply_recursive fuel a b (zeros (length a) (length a)) (length a)
