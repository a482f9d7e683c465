-- ===== src/Tree/Segment/Depth.antt =====
-- How deep the recursions of SegmentTree.cpp go, and that four cells for each number are enough.
use dsalib.Core.{ℕ, zero, suc, ◌+◌, ◌-◌, ◌*◌, ◌/◌, ◌≤◌, ◌<◌, arith}
use native.Mathlib.Decide.{dec_le}

-- 2 ^ h
abbrev pub width : ℕ → ℕ
width zero = 1
width (suc h) = width h + width h

-- The range has at most 2 ^ h positions, and at least one.
abbrev pub Fits : ℕ → (start end : ℕ) → Type 0
Fits h s e = (s ≤ e) × (suc e ≤ s + width h)

pub Fits-left : (h s e : ℕ) → s < e → Fits (suc h) s e → Fits h s ((s + e) / 2)
Fits-left h s e less p = omega arith

pub Fits-right : (h s e : ℕ) → s < e → Fits (suc h) s e → Fits h ((s + e) / 2 + 1) e
Fits-right h s e less p = omega arith

-- All cells up to `h` levels below the node lie in the array.
abbrev pub HasRoom : (h v size : ℕ) → Type 0
HasRoom h v size = (v + 1) * width h ≤ size

pub HasRoom-left : (h v size : ℕ) → HasRoom (suc h) v size → HasRoom h (2 * v) size
HasRoom-left h v size p = omega arith

pub HasRoom-right : (h v size : ℕ) → HasRoom (suc h) v size → HasRoom h (2 * v + 1) size
HasRoom-right h v size p = omega arith

pub HasRoom-lt : (h v size : ℕ) → HasRoom h v size → v < size
HasRoom-lt zero v size p = omega arith
HasRoom-lt (suc h) v size p = omega (arith, HasRoom-lt h (2 * v) size (HasRoom-left h v size p))

-- For `n` numbers there is such an `h` below the fuel `n`.
pub depth : (n : ℕ) → 0 < n → (h : ℕ) × (h < n) × (n ≤ width h) × (width h + width h ≤ 4 * n - 2)
depth zero p = absurd (omega arith)
depth (suc zero) p = (0, omega arith, omega arith, omega arith)
depth (suc (suc n)) p =
    let (h, below, enough, small) = depth (suc n) (omega arith) in
    elim (dec_le (suc (suc n)) (width h)) [
      | yes q ↦ (h, omega arith, q, omega arith)
      | no q ↦ (suc h, omega arith, omega arith, omega arith)
    ]
