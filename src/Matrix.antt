-- ===== src/Matrix.antt =====
-- Algorithms/CPP/Matrix multiplication/parallel programming/MatrixMultiply.cpp: products of matrices of
-- `int` by six algorithms. A matrix is the list of its rows; an access to a cell that is not there is a
-- fault.
pub mod Loops
pub mod Cells
pub mod Product
pub mod Orders
pub mod Assign
pub mod Tabulate
pub mod Quarters
pub mod Direct
pub mod Tiled
pub mod Strassen
pub mod ForkJoin
mod Examples
use dsalib.Core.{
  ℕ, zero, suc, ◌+◌, ◌-◌, true, false, List, [], ◌∷◌, ℤ, pos, get_or, set, replicate, ltb, Bool,
  ◌&&◌, if◌then◌else◌, length,
}

-- `vector<vector<int>>`
abbrev pub Matrix : Type 0
Matrix = List (List ℤ)

-- What a call comes to: it returns, throws `invalid_argument`, reads or writes a cell that is not there,
-- which is undefined in the program, or needs more rounds or a deeper recursion than it is given.
pub data Outcome {ℓ} (A : Type ℓ) : Type ℓ where
  value : A → Outcome A
  invalid_argument : Outcome A
  out_of_bounds : Outcome A
  out_of_fuel : Outcome A

infixl 5 ◌>>=◌
abbrev pub ◌>>=◌ {ℓ κ} : {A : Type ℓ} {B : Type κ} → Outcome A → (A → Outcome B) → Outcome B
value a >>= f = f a
invalid_argument >>= f = invalid_argument
out_of_bounds >>= f = out_of_bounds
out_of_fuel >>= f = out_of_fuel

-- Whether there is such a cell.
unfoldable pub has_cell : Matrix → ℕ → ℕ → Bool
has_cell m i j = ltb i (length m) && ltb j (length (get_or m i []))

-- The number in a cell that is there.
unfoldable pub entry : Matrix → ℕ → ℕ → ℤ
entry m i j = get_or (get_or m i []) j (pos 0)

-- `m[i][j]`
unfoldable pub read : Matrix → ℕ → ℕ → Outcome ℤ
read m i j = if has_cell m i j then value (entry m i j) else out_of_bounds

-- The matrix with another number in a cell that is there.
unfoldable pub store : Matrix → ℕ → ℕ → ℤ → Matrix
store m i j v = set m i (set (get_or m i []) j v)

-- `m[i][j] = v`
unfoldable pub write : Matrix → ℕ → ℕ → ℤ → Outcome Matrix
write m i j v = if has_cell m i j then value (store m i j v) else out_of_bounds

-- `vector<vector<int>>(rows, vector<int>(cols, 0))`
unfoldable pub zeros : ℕ → ℕ → Matrix
zeros rows cols = replicate rows (replicate cols (pos 0))

-- `for (int x = from; x < to; x += step)` in at most so many rounds.
unfoldable pub loop_by {ℓ} :
    {S : Type ℓ} → (rounds from to step : ℕ) → (ℕ → S → Outcome S) → S → Outcome S
loop_by zero from to step body s = if ltb from to then out_of_fuel else value s
loop_by (suc rounds) from to step body s = elim (ltb from to) [
  | true ↦ body from s >>= loop_by rounds (from + step) to step body
  | false ↦ value s
]

-- The loop, with as many rounds as there are numbers in the range.
abbrev pub loop {ℓ} : {S : Type ℓ} → (from to step : ℕ) → (ℕ → S → Outcome S) → S → Outcome S
loop from to step = loop_by (to - from) from to step
