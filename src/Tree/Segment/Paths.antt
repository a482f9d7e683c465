-- ===== src/Tree/Segment/Paths.antt =====
-- Which array cells lie below a node of SegmentTree.cpp: those that reach it by halving.
use dsalib.Core.{◌-◌, ℕ, zero, suc, ◌+◌, ◌*◌, ◌/◌, ◌≤◌, ◌≡◌, refl, ap, sym, ◌∙◌, arith}
use native.Mathlib.Decide.{dec_le}

-- The index reached from `w` by halving it `k` times.
unfoldable pub up : ℕ → ℕ → ℕ
up zero w = w
up (suc k) w = up k (w / 2)

up-le : (k w : ℕ) → up k w ≤ w
unfolding up
up-le zero w = omega arith
up-le (suc k) w = omega (arith, up-le k (w / 2))

up-add : (k d w : ℕ) → up (k + d) w ≡ up d (up k w)
unfolding up
up-add zero d w = ap (λ (m : ℕ). up m w) {x = 0 + d} {y = d} (omega arith)
up-add (suc k) d w =
    ap (λ (m : ℕ). up m w) {x = suc k + d} {y = suc (k + d)} (omega arith) ∙ up-add k d (w / 2)

up_below : (k w : ℕ) → up (suc k) w ≤ w / 2
unfolding up
up_below k w = up-le k (w / 2)

-- `w` lies in the subtree of `v`.
pub IsUnder : ℕ → ℕ → Type 0
IsUnder v w = (k : ℕ) × (up k w ≡ v)

pub IsUnder-self : (v : ℕ) → IsUnder v v
unfolding IsUnder up
IsUnder-self v = (0, refl)

up-suc_out : (k w : ℕ) → up (suc k) w ≡ up k w / 2
unfolding up
up-suc_out zero w = refl
up-suc_out (suc k) w = up-suc_out k (w / 2)

pub IsUnder-left : (v w : ℕ) → IsUnder (2 * v) w → IsUnder v w
unfolding IsUnder
IsUnder-left v w (k, e) = (suc k, up-suc_out k w ∙ omega (arith, e))

pub IsUnder-right : (v w : ℕ) → IsUnder (2 * v + 1) w → IsUnder v w
unfolding IsUnder
IsUnder-right v w (k, e) = (suc k, up-suc_out k w ∙ omega (arith, e))

-- The two subtrees of a node are disjoint, and do not hold the node.
pub IsUnder-apart : (v w : ℕ) → 1 ≤ v → IsUnder (2 * v) w → IsUnder (2 * v + 1) w → ⊥
unfolding IsUnder
IsUnder-apart v w h (k, a) (j, b) = elim (dec_le k j) [
  | yes p ↦
      let whole : up (k + (j - k)) w ≡ up j w =
        ap (λ (m : ℕ). up m w) {x = k + (j - k)} {y = j} (omega arith) in
      let left : up (j - k) (up k w) ≡ 2 * v + 1 = sym (up-add k (j - k) w) ∙ whole ∙ b in
      omega (arith, left, up-le (j - k) (up k w))
  | no p ↦
      let whole : up (j + suc (k - j - 1)) w ≡ up k w =
        ap (λ (m : ℕ). up m w) {x = j + suc (k - j - 1)} {y = k} (omega arith) in
      let left : up (suc (k - j - 1)) (up j w) ≡ 2 * v =
        sym (up-add j (suc (k - j - 1)) w) ∙ whole ∙ a in
      omega (arith, left, up-suc_out (k - j - 1) (up j w), up_below (k - j - 1) (up j w))
]

pub IsUnder-ge : (v w : ℕ) → IsUnder v w → v ≤ w
unfolding IsUnder
IsUnder-ge v w (k, e) = omega (arith, up-le k w)
