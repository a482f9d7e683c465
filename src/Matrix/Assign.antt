-- ===== src/Matrix/Assign.antt =====
-- Loops that assign to every cell of a square, and what they leave in each cell.
use dsalib.Core.{
  ℕ, ◌+◌, ◌-◌, ◌<◌, ◌≡◌, refl, ap, ◌∙◌, inl, inr, arith, ltb, ◌==◌, if◌then◌else◌, Bool-cases, ℤ,
}
use mathlib.Core.Path.{ap₂}
use native.Mathlib.Decide.{dec_lt}
use dsalib.Matrix.{Matrix, Outcome, value, entry, read, write, zeros, loop, ◌>>=◌}
use dsalib.Matrix.Loops.{for, for_by-congr, for_by-if, for-at_in}
use dsalib.Matrix.Cells.{HasShape, Acts, Acts-seq, read-value, write-Acts, range-Acts}

-- `for (i < rows) for (j < cols) m[i][j] = g(i, j)`
unfoldable pub assign_all : (rows cols : ℕ) → (ℕ → ℕ → Outcome ℤ) → Matrix → Outcome Matrix
assign_all rows cols g = loop 0 rows 1 (λ i. loop 0 cols 1 (λ j m. g i j >>= write m i j))

-- The square of side `k` of `a` whose first cell is in row `r0` and column `c0`, in a new matrix.
unfoldable pub quarter : Matrix → (r0 c0 k : ℕ) → Outcome Matrix
quarter a r0 c0 k = assign_all k k (λ i j. read a (i + r0) (j + c0)) (zeros k k)

-- `m[r][s] = c[i][j]`
unfoldable pub copy_cell : Matrix → (i j r s : ℕ) → Matrix → Outcome Matrix
copy_cell c i j r s m = read c i j >>= write m r s

-- The four assignments of one round of the loops that combine the quarters.
unfoldable pub store_four :
    (k : ℕ) → (c11 c12 c21 c22 : Matrix) → (i j : ℕ) → Matrix → Outcome Matrix
store_four k c11 c12 c21 c22 i j m = do
  m1 ← copy_cell c11 i j i j m
  m2 ← copy_cell c12 i j i (j + k) m1
  m3 ← copy_cell c21 i j (i + k) j m2
  copy_cell c22 i j (i + k) (j + k) m3

-- The loops that combine the quarters.
unfoldable pub combine : (k : ℕ) → (c11 c12 c21 c22 : Matrix) → Matrix → Outcome Matrix
combine k c11 c12 c21 c22 = loop 0 k 1 (λ i. loop 0 k 1 (λ j. store_four k c11 c12 c21 c22 i j))

-- Two loops of which one round changes the cell.
for-for-cell :
    (rows cols y z : ℕ) (body : ℕ → ℕ → ℤ → ℤ) (u : ℤ → ℤ) (v : ℤ)
    → y < rows
    → z < cols
    → ((i j : ℕ)
        → i < rows
        → j < cols
        → (t : ℤ) → body i j t ≡ (if i == y then (if j == z then u t else t) else t))
    → for 0 rows 1 (λ i. for 0 cols 1 (body i)) v ≡ u v
for-for-cell rows cols y z body u v p q h =
    for_by-congr (rows - 0) 0 rows 1 (λ i. for 0 cols 1 (body i)) (λ i t. if i == y then u t else t)
      v
      (λ i _ a t.
        for_by-congr (cols - 0) 0 cols 1 (body i)
          (λ j w. if i == y then (if j == z then u w else w) else w) t (λ j _ b w. h i j a b w)
        ∙ for_by-if (cols - 0) 0 cols 1 (i == y) (λ j w. if j == z then u w else w) t
        ∙ ap (λ (w : ℤ). if i == y then w else t) (for-at_in cols z u t q))
    ∙ for-at_in rows y u v p

-- Loops that compute every cell anew from its old value.
pub update_all-Acts :
    (rows cols : ℕ) (body : ℕ → ℕ → Matrix → Outcome Matrix) (g : ℕ → ℕ → ℤ → ℤ)
    → ((i j : ℕ)
        → i < rows
        → j < cols
        → (m : Matrix) → HasShape rows cols m
        → body i j m ≡ write m i j (g i j (entry m i j)))
    → Acts rows cols (loop 0 rows 1 (λ i. loop 0 cols 1 (body i))) g
update_all-Acts rows cols body g h =
    let nest = loop 0 rows 1 (λ i. loop 0 cols 1 (body i)) in
    let cell = λ (i' j' i j : ℕ) (v : ℤ). if i == i' then (if j == j' then g i j v else v) else v in
    let seen = range-Acts rows cols rows _ _ (λ i p.
      range-Acts rows cols cols _ _ (λ j q. write-Acts i j (body i j) (g i j) p q (h i j p q))) in
    record {
      after = seen.after;
      returns = seen.returns;
      keeps = seen.keeps;
      acts = λ m s i' j' a b.
          seen.acts m s i' j' a b
          ∙ for-for-cell rows cols i' j' (λ i j v. cell i' j' i j v) (g i' j') (entry m i' j') a b
              (λ i j _ _ t. elim (Bool-cases (i == i')) [
                | inr other ↦ rw other refl
                | inl same ↦ rw same (elim (Bool-cases (j == j')) [
                  | inr other_col ↦ rw other_col refl
                  | inl same_col ↦
                      let e : i ≡ i' = ground (arith, same) in
                      let f : j ≡ j' = ground (arith, same_col) in
                      rw same_col (ap₂ (λ (x y : ℕ). g x y t) e f)
                ])
              ]);
    }

pub assign_all-Acts :
    (rows cols : ℕ) (g : ℕ → ℕ → Outcome ℤ) (h : ℕ → ℕ → ℤ)
    → ((i j : ℕ) → i < rows → j < cols → g i j ≡ value (h i j))
    → Acts rows cols (assign_all rows cols g) (λ i j v. h i j)
unfolding assign_all
assign_all-Acts rows cols g h e =
    update_all-Acts rows cols (λ i j m. g i j >>= write m i j) (λ i j v. h i j)
      (λ i j p q m s. ap (λ o. o >>= write m i j) (e i j p q))

copy_cell-Acts :
    {k n : ℕ} {c : Matrix}
    → HasShape k k c
    → (i j r s : ℕ) → i < k
    → j < k
    → r < n
    → s < n
    → Acts n n
        (copy_cell c i j r s)
        (λ y z v. if r == y then (if s == z then entry c i j else v) else v)
unfolding copy_cell
copy_cell-Acts {c = c} t i j r s p q a b =
    write-Acts r s (copy_cell c i j r s) (λ v. entry c i j) a b
      (λ m u. ap (λ o. o >>= write m r s) (read-value t i j p q))

-- The cell of the quarter in which a cell of the whole lies.
abbrev pub combined : (k : ℕ) → (c11 c12 c21 c22 : Matrix) → ℕ → ℕ → ℤ
combined k c11 c12 c21 c22 i j =
    if ltb i k
    then (if ltb j k then entry c11 i j else entry c12 i (j - k))
    else if ltb j k
    then entry c21 (i - k) j
    else entry c22 (i - k) (j - k)

module _ {k : ℕ} {c11 c12 c21 c22 : Matrix} (s11 : HasShape k k c11) (s12 : HasShape k k c12)
    (s21 : HasShape k k c21) (s22 : HasShape k k c22) where
  -- What the four assignments do to one cell.
  abbrev four : (i' j' i j : ℕ) → ℤ → ℤ
  four i' j' i j v =
      let v1 = if i == i' then (if j == j' then entry c11 i j else v) else v in
      let v2 = if i == i' then (if (j + k) == j' then entry c12 i j else v1) else v1 in
      let v3 = if (i + k) == i' then (if j == j' then entry c21 i j else v2) else v2 in
      if (i + k) == i' then (if (j + k) == j' then entry c22 i j else v3) else v3

  store_four-Acts :
      (i j : ℕ)
      → i < k
      → j < k
      → Acts (k + k) (k + k) (store_four k c11 c12 c21 c22 i j) (λ i' j'. four i' j' i j)
  unfolding store_four
  store_four-Acts i j p q =
      Acts-seq _ _ _ _ (copy_cell-Acts s11 i j i j p q (omega arith) (omega arith)) (
        Acts-seq _ _ _ _ (copy_cell-Acts s12 i j i (j + k) p q (omega arith) (omega arith)) (
          Acts-seq _ _ _ _ (copy_cell-Acts s21 i j (i + k) j p q (omega arith) (omega arith))
            (copy_cell-Acts s22 i j (i + k) (j + k) p q (omega arith) (omega arith))))

  four-combined :
      (i' j' : ℕ) (v : ℤ)
      → i' < k + k
      → j' < k + k
      → for 0 k 1 (λ i. for 0 k 1 (λ j. four i' j' i j)) v ≡ combined k c11 c12 c21 c22 i' j'
  four-combined i' j' v a b = elim (dec_lt i' k) [
    | yes upper ↦ elim (dec_lt j' k) [
      | yes left ↦
          for-for-cell k k i' j' (λ i j. four i' j' i j) (λ _. entry c11 i' j') v upper left
            (λ i j p q t. ground arith)
          ∙ ground arith
      | no right ↦
          for-for-cell k k i' (j' - k) (λ i j. four i' j' i j) (λ _. entry c12 i' (j' - k)) v upper
            (omega arith) (λ i j p q t. ground arith)
          ∙ ground arith
    ]
    | no lower ↦ elim (dec_lt j' k) [
      | yes left ↦
          for-for-cell k k (i' - k) j' (λ i j. four i' j' i j) (λ _. entry c21 (i' - k) j') v
            (omega arith) left (λ i j p q t. ground arith)
          ∙ ground arith
      | no right ↦
          for-for-cell k k (i' - k) (j' - k) (λ i j. four i' j' i j)
            (λ _. entry c22 (i' - k) (j' - k)) v (omega arith) (omega arith)
            (λ i j p q t. ground arith)
          ∙ ground arith
    ]
  ]

  pub combine-Acts :
      Acts (k + k) (k + k) (combine k c11 c12 c21 c22) (λ i j v. combined k c11 c12 c21 c22 i j)
  unfolding combine
  combine-Acts =
      let nest =
        range-Acts (k + k) (k + k) k _ _
          (λ i p. range-Acts (k + k) (k + k) k _ _ (λ j q. store_four-Acts i j p q)) in
      record {
        after = nest.after;
        returns = nest.returns;
        keeps = nest.keeps;
        acts = λ m s i' j' a b. nest.acts m s i' j' a b ∙ four-combined i' j' (entry m i' j') a b;
      }
