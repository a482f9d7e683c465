-- ===== src/Matrix/Cells.antt =====
-- The shape of a matrix, and what a piece of code does to each of its cells.
use dsalib.Core.{
  ◌-◌, ℕ, zero, suc, ◌+◌, ◌<◌, ◌≤◌, ◌≡◌, refl, ap, sym, ◌∙◌, arith, Bool-cases, inl, inr,
  if◌then◌else◌, ◌==◌, List, [], ℤ, pos, length, get_or, set, replicate, length-set,
  get_or-set_self, get_or-set_ne, length-replicate, get_or-replicate,
}
use mathlib.Core.Path.{ap₂}
use native.Mathlib.Decide.{dec_lt}
use dsalib.Matrix.{
  Matrix, Outcome, value, has_cell, entry, read, store, write, zeros, loop_by, loop, ◌>>=◌,
}
use dsalib.Matrix.Loops.{for, for_by}
use dsalib.Matrix.Loops.{for_by-step, for_by-done}

-- `rows` rows of `cols` numbers.
pub record HasShape (rows cols : ℕ) (m : Matrix) : Type 0 where
  pub row_count : length m ≡ rows
  pub col_count : (i : ℕ) → i < rows → length (get_or m i []) ≡ cols

get_or-replicate_lt : (n i : ℕ) (v d : List ℤ) → i < n → get_or (replicate n v) i d ≡ v
get_or-replicate_lt zero i v d h = absurd (omega arith)
get_or-replicate_lt (suc n) zero v d h = refl
get_or-replicate_lt (suc n) (suc i) v d h = get_or-replicate_lt n i v d (omega arith)

pub zeros-HasShape : (rows cols : ℕ) → HasShape rows cols (zeros rows cols)
unfolding zeros
zeros-HasShape rows cols = record {
  row_count = length-replicate rows (replicate cols (pos 0));
  col_count = λ i h.
      ap length (get_or-replicate_lt rows i (replicate cols (pos 0)) [] h)
      ∙ length-replicate cols (pos 0);
}

pub entry-zeros : (rows cols i j : ℕ) → i < rows → entry (zeros rows cols) i j ≡ pos 0
unfolding entry zeros
entry-zeros rows cols i j h =
    ap (λ (row : List ℤ). get_or row j (pos 0))
      (get_or-replicate_lt rows i (replicate cols (pos 0)) [] h)
    ∙ get_or-replicate cols j (pos 0)

module _ {rows cols : ℕ} {m : Matrix} (s : HasShape rows cols m) (i j : ℕ) (p : i < rows)
    (q : j < cols) (v : ℤ) where
  pub store-HasShape : HasShape rows cols (store m i j v)
  unfolding store
  store-HasShape = record {
    row_count = length-set m i (set (get_or m i []) j v) ∙ s.row_count;
    col_count = λ k h. elim (Bool-cases (i == k)) [
      | inl here ↦
          let same : i ≡ k = ground (arith, here) in
          ap (λ (x : ℕ). length (get_or (set m i (set (get_or m i []) j v)) x [])) (sym same)
          ∙ ap length
              (get_or-set_self m i (set (get_or m i []) j v) [] (omega (arith, s.row_count)))
          ∙ length-set (get_or m i []) j v
          ∙ s.col_count i p
      | inr other ↦
          ap length (get_or-set_ne m i k (set (get_or m i []) j v) [] (ground (arith, other)))
          ∙ s.col_count k h
    ];
  }

  pub entry-store :
      (k l : ℕ)
      → entry (store m i j v) k l
        ≡ (if i == k then (if j == l then v else entry m k l) else entry m k l)
  unfolding entry store
  entry-store k l =
      let row = set (get_or m i []) j v in
      let here = get_or-set_self m i row [] (omega (arith, s.row_count)) in
      let there = get_or-set_self (get_or m i []) j v (pos 0) (omega (arith, s.col_count i p)) in
      elim (Bool-cases (i == k)) [
        | inr other ↦ rw other (
            ap (λ (r : List ℤ). get_or r l (pos 0))
              (get_or-set_ne m i k row [] (ground (arith, other))))
        | inl same ↦
            let e : i ≡ k = ground (arith, same) in
            rw same (
              ap (λ (x : ℕ). get_or (get_or (set m i row) x []) l (pos 0)) (sym e)
              ∙ ap (λ (r : List ℤ). get_or r l (pos 0)) here
              ∙ elim (Bool-cases (j == l)) [
                | inl same_col ↦
                    let f : j ≡ l = ground (arith, same_col) in
                    rw same_col (ap (λ (x : ℕ). get_or row x (pos 0)) (sym f) ∙ there)
                | inr other_col ↦ rw other_col (
                    get_or-set_ne (get_or m i []) j l v (pos 0) (ground (arith, other_col))
                    ∙ ap (λ (x : ℕ). get_or (get_or m x []) l (pos 0)) e)
              ])
      ]

pub read-value :
    {rows cols : ℕ} {m : Matrix} (s : HasShape rows cols m) (i j : ℕ)
    → i < rows
    → j < cols
    → read m i j ≡ value (entry m i j)
unfolding read has_cell
read-value s i j p q = ground (arith, s.row_count, s.col_count i p)

pub write-value :
    {rows cols : ℕ} {m : Matrix} (s : HasShape rows cols m) (i j : ℕ) (v : ℤ)
    → i < rows
    → j < cols
    → write m i j v ≡ value (store m i j v)
unfolding write has_cell
write-value s i j v p q = ground (arith, s.row_count, s.col_count i p)

-- On a matrix of the shape, `body` returns one of the shape, in which the value `v` of each cell has
-- become `f i j v`.
pub record Acts (rows cols : ℕ) (body : Matrix → Outcome Matrix) (f : ℕ → ℕ → ℤ → ℤ) : Type 0 where
  pub after : (m : Matrix) → HasShape rows cols m → Matrix
  pub returns : (m : Matrix) (s : HasShape rows cols m) → body m ≡ value (after m s)
  pub keeps : (m : Matrix) (s : HasShape rows cols m) → HasShape rows cols (after m s)
  pub acts :
      (m : Matrix) (s : HasShape rows cols m) (i j : ℕ)
      → i < rows
      → j < cols
      → entry (after m s) i j ≡ f i j (entry m i j)

module _ {rows cols : ℕ} where
  -- A cell computed anew from its old value.
  pub write-Acts :
      (i j : ℕ) (body : Matrix → Outcome Matrix) (g : ℤ → ℤ)
      → i < rows
      → j < cols
      → ((m : Matrix) → HasShape rows cols m → body m ≡ write m i j (g (entry m i j)))
      → Acts rows cols body (λ k l v. if i == k then (if j == l then g v else v) else v)
  write-Acts i j body g p q h = record {
    after = λ m s. store m i j (g (entry m i j));
    returns = λ m s. h m s ∙ write-value s i j (g (entry m i j)) p q;
    keeps = λ m s. store-HasShape s i j p q (g (entry m i j));
    acts = λ m s k l a b. entry-store s i j p q (g (entry m i j)) k l ∙ elim (Bool-cases (i == k)) [
      | inr other ↦ rw other refl
      | inl same ↦ rw same (elim (Bool-cases (j == l)) [
        | inr other_col ↦ rw other_col refl
        | inl same_col ↦
            let e : i ≡ k = ground (arith, same) in
            let f : j ≡ l = ground (arith, same_col) in
            rw same_col (ap₂ (λ (x y : ℕ). g (entry m x y)) e f)
      ])
    ];
  }

  pub Acts-seq :
      (a b : Matrix → Outcome Matrix) (f g : ℕ → ℕ → ℤ → ℤ)
      → Acts rows cols a f
      → Acts rows cols b g
      → Acts rows cols (λ m. a m >>= b) (λ i j v. g i j (f i j v))
  Acts-seq a b f g p q = record {
    after = λ m s. q.after (p.after m s) (p.keeps m s);
    returns = λ m s. ap (λ o. o >>= b) (p.returns m s) ∙ q.returns (p.after m s) (p.keeps m s);
    keeps = λ m s. q.keeps (p.after m s) (p.keeps m s);
    acts =
        λ m s i j c d. q.acts (p.after m s) (p.keeps m s) i j c d ∙ ap (g i j) (p.acts m s i j c d);
  }

  -- The same code, and the same value of each cell.
  pub Acts-same :
      (a b : Matrix → Outcome Matrix) (f g : ℕ → ℕ → ℤ → ℤ)
      → ((m : Matrix) → b m ≡ a m)
      → ((i j : ℕ) (v : ℤ) → f i j v ≡ g i j v)
      → Acts rows cols a f
      → Acts rows cols b g
  Acts-same a b f g e h p = record {
    after = p.after;
    returns = λ m s. e m ∙ p.returns m s;
    keeps = p.keeps;
    acts = λ m s i j c d. p.acts m s i j c d ∙ h i j (entry m i j);
  }

  idle-Acts : Acts rows cols (λ m. value m) (λ i j v. v)
  idle-Acts = record {
    after = λ m s. m;
    returns = λ m s. refl;
    keeps = λ m s. s;
    acts = λ m s i j c d. refl;
  }

  -- A loop whose rounds are enough.
  pub loop_by-Acts :
      (fuel from to step : ℕ) (body : ℕ → Matrix → Outcome Matrix) (f : ℕ → ℕ → ℕ → ℤ → ℤ)
      → 0 < step
      → to ≤ from + fuel
      → ((x : ℕ) → from ≤ x → x < to → Acts rows cols (body x) (f x))
      → Acts rows cols
          (loop_by fuel from to step body)
          (λ i j v. for_by fuel from to step (λ x. f x i j) v)
  unfolding loop_by
  loop_by-Acts zero from to step body f pos_step enough h =
      Acts-same (λ m. value m) (loop_by zero from to step body) (λ i j v. v)
        (λ i j v. for_by zero from to step (λ x. f x i j) v) (λ m. ground arith)
        (λ i j v. sym (for_by-done zero from to step (λ x. f x i j) v (omega arith))) idle-Acts
  loop_by-Acts (suc fuel) from to step body f pos_step enough h = elim (dec_lt from to) [
    | yes p ↦
        let first = h from (omega arith) p in
        let rest =
          loop_by-Acts fuel (from + step) to step body f pos_step (omega arith)
            (λ x a b. h x (omega arith) b) in
        Acts-same (λ m. body from m >>= loop_by fuel (from + step) to step body)
          (loop_by (suc fuel) from to step body)
          (λ i j v. for_by fuel (from + step) to step (λ x. f x i j) (f from i j v))
          (λ i j v. for_by (suc fuel) from to step (λ x. f x i j) v) (λ m. ground arith)
          (λ i j v. sym (for_by-step fuel from to step (λ x. f x i j) v p))
          (Acts-seq (body from) (loop_by fuel (from + step) to step body) (f from)
            (λ i j v. for_by fuel (from + step) to step (λ x. f x i j) v) first rest)
    | no p ↦
        Acts-same (λ m. value m) (loop_by (suc fuel) from to step body) (λ i j v. v)
          (λ i j v. for_by (suc fuel) from to step (λ x. f x i j) v) (λ m. ground arith)
          (λ i j v. sym (for_by-done (suc fuel) from to step (λ x. f x i j) v (omega arith)))
          idle-Acts
  ]

-- A loop over the rows, the columns or the inner index.
pub range-Acts :
    (rows cols to : ℕ) (body : ℕ → Matrix → Outcome Matrix) (f : ℕ → ℕ → ℕ → ℤ → ℤ)
    → ((x : ℕ) → x < to → Acts rows cols (body x) (f x))
    → Acts rows cols (loop 0 to 1 body) (λ i j. for 0 to 1 (λ x. f x i j))
range-Acts rows cols to body f h =
    loop_by-Acts (to - 0) 0 to 1 body f (omega arith) (omega arith) (λ x _ p. h x p)
