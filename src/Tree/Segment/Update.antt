-- ===== src/Tree/Segment/Update.antt =====
-- `updateTree` of SegmentTree.cpp keeps the sums exact.
use dsalib.Core.{
  ℕ, zero, suc, ◌+◌, ◌*◌, ◌/◌, ◌≤◌, ◌<◌, ◌≡◌, ◌≢◌, ap, ◌∙◌, arith, ℤ, List, ◌==◌, set, length,
  length-set, true, false, leb,
}
use native.Mathlib.Decide.{dec_lt, dec_le}
use mathlib.Core.Path.{subst}
use dsalib.Tree.Segment.{update_tree}
use dsalib.Tree.Segment.Paths.{IsUnder-left, IsUnder-right, IsUnder-apart}
use dsalib.Tree.Segment.Sums.{range, Holds, Holds-agree}
use dsalib.Tree.Segment.Depth.{
  Fits, Fits-left, Fits-right, HasRoom, HasRoom-left, HasRoom-right, HasRoom-lt,
}
use dsalib.Tree.Segment.Build.{Keeps-set, Leaves, set-Holds, pull-Holds, write-eq_some}

-- `g` is `f` with the value at `idx` replaced.
abbrev pub Differs : (f g : ℕ → ℤ) → ℕ → ℤ → Type 0
Differs f g idx val = (g idx ≡ val) × ((i : ℕ) → i ≢ idx → f i ≡ g i)

update_leaf :
    (fuel h : ℕ) (t : List ℤ) (f g : ℕ → ℤ) (v s e idx : ℕ) (val : ℤ)
    → s ≡ e
    → s ≡ idx
    → v < length t
    → Differs f g idx val
    → Leaves h g v s e (length t) t (update_tree (suc fuel) t v s e idx val)
unfolding update_tree
update_leaf fuel h t f g v s e idx val p q room d =
    let test : (s == e) ≡ true = ground arith in
    (
      set t v val,
      rw (test, update_tree) (write-eq_some t v val room),
      length-set t v val,
      subst (λ (m : ℕ). Holds h (set t v val) g v s m) p
          (subst (λ x. Holds h (set t v x) g v s s) (ap g q ∙ d.0) (set-Holds h t g v s room)),
      Keeps-set t v val,
    )

update_left :
    (fuel h : ℕ) (t : List ℤ) (f g : ℕ → ℤ) (v s e idx : ℕ) (val : ℤ)
    → 1 ≤ v
    → s < e
    → idx ≤ (s + e) / 2
    → v < length t
    → Differs f g idx val
    → Holds h t f (2 * v + 1) ((s + e) / 2 + 1) e
    → Leaves h g
        (2 * v)
        s
        ((s + e) / 2)
        (length t)
        t
        (update_tree fuel t (2 * v) s ((s + e) / 2) idx val)
    → Leaves (suc h) g v s e (length t) t (update_tree (suc fuel) t v s e idx val)
unfolding update_tree
update_left fuel h t f g v s e idx val one less side room d other (u, done, size, holds, keeps) =
    let test : (s == e) ≡ false = ground arith in
    let goes : leb idx ((s + e) / 2) ≡ true = ground arith in
    let still =
      Holds-agree h t u f g (2 * v + 1) ((s + e) / 2 + 1) e
        (λ i p. keeps i (λ q. IsUnder-apart v i one q p)) (λ i p q. d.1 i (omega arith)) other in
    let (pulled, all) = pull-Holds h u g v s e one less (omega arith) holds still in
    (
      set u v (range g s e),
      rw (test, update_tree) (rw (goes, update_tree) (rw done pulled)),
      length-set u v (range g s e) ∙ size,
      all,
      λ i out. Keeps-set u v (range g s e) i out ∙ keeps i (λ p. out (IsUnder-left v i p)),
    )

update_right :
    (fuel h : ℕ) (t : List ℤ) (f g : ℕ → ℤ) (v s e idx : ℕ) (val : ℤ)
    → 1 ≤ v
    → s < e
    → (s + e) / 2 < idx
    → v < length t
    → Differs f g idx val
    → Holds h t f (2 * v) s ((s + e) / 2)
    → Leaves h g
        (2 * v + 1)
        ((s + e) / 2 + 1)
        e
        (length t)
        t
        (update_tree fuel t (2 * v + 1) ((s + e) / 2 + 1) e idx val)
    → Leaves (suc h) g v s e (length t) t (update_tree (suc fuel) t v s e idx val)
unfolding update_tree
update_right fuel h t f g v s e idx val one less side room d other (u, done, size, holds, keeps) =
    let test : (s == e) ≡ false = ground arith in
    let goes : leb idx ((s + e) / 2) ≡ false = ground arith in
    let still =
      Holds-agree h t u f g (2 * v) s ((s + e) / 2)
        (λ i p. keeps i (λ q. IsUnder-apart v i one p q)) (λ i p q. d.1 i (omega arith)) other in
    let (pulled, all) = pull-Holds h u g v s e one less (omega arith) still holds in
    (
      set u v (range g s e),
      rw (test, update_tree) (rw (goes, update_tree) (rw done pulled)),
      length-set u v (range g s e) ∙ size,
      all,
      λ i out. Keeps-set u v (range g s e) i out ∙ keeps i (λ p. out (IsUnder-right v i p)),
    )

-- An update inside the range returns, stays within the array, and leaves the sums of the new values.
pub update_tree-Leaves :
    (fuel h : ℕ) (t : List ℤ) (f g : ℕ → ℤ) (v s e idx : ℕ) (val : ℤ)
    → h < fuel
    → 1 ≤ v
    → Fits h s e
    → s ≤ idx
    → idx ≤ e
    → HasRoom h v (length t)
    → Differs f g idx val
    → Holds h t f v s e
    → Leaves h g v s e (length t) t (update_tree fuel t v s e idx val)
update_tree-Leaves zero h t f g v s e idx val deep one fits low high room d holds =
    absurd (omega arith)
update_tree-Leaves (suc fuel) zero t f g v s e idx val deep one fits low high room d holds =
    update_leaf fuel 0 t f g v s e idx val (omega arith) (omega arith)
      (HasRoom-lt 0 v (length t) room) d
update_tree-Leaves (suc fuel) (suc h) t f g v s e idx val deep one fits low high room d holds =
    let here = HasRoom-lt (suc h) v (length t) room in
    elim (dec_lt s e) [
      | no q ↦ update_leaf fuel (suc h) t f g v s e idx val (omega arith) (omega arith) here d
      | yes less ↦ elim (dec_le idx ((s + e) / 2)) [
        | yes side ↦ update_left fuel h t f g v s e idx val one less side here d (holds.1 less).1 (
            update_tree-Leaves fuel h t f g (2 * v) s ((s + e) / 2) idx val (omega arith)
              (omega arith) (Fits-left h s e less fits) low side (HasRoom-left h v (length t) room)
              d (holds.1 less).0)
        | no side ↦
            update_right fuel h t f g v s e idx val one less (omega arith) here d (holds.1 less).0 (
              update_tree-Leaves fuel h t f g (2 * v + 1) ((s + e) / 2 + 1) e idx val (omega arith)
                (omega arith) (Fits-right h s e less fits) (omega arith) high
                (HasRoom-right h v (length t) room) d (holds.1 less).1)
      ]
    ]
