-- ===== src/Tree/Segment/Query.antt =====
-- `queryTree` of SegmentTree.cpp returns the sum over the positions in the asked range.
use dsalib.Core.{
  ℕ, zero, suc, ◌+◌, ◌*◌, ◌/◌, ◌<◌, ◌≡◌, refl, ap, sym, ◌∙◌, arith, ℤ, pos, some, List, true, false,
  leb, ltb, ◌&&◌, ◌||◌, if◌then◌else◌, Bool-cases, inl, inr,
}
use mathlib.Core.Path.{subst}
use dsalib.Tree.Segment.{query_tree}
use dsalib.Tree.Segment.Sums.{range, range_split, range_none, range_agree, Holds, Holds-root}
use dsalib.Tree.Segment.Depth.{Fits, Fits-left, Fits-right}

-- The value at a position from `l` to `r`, and 0 elsewhere.
abbrev pub within : (ℕ → ℤ) → (l r : ℕ) → ℕ → ℤ
within f l r i = if leb l i && leb i r then f i else pos 0

outside : (f : ℕ → ℤ) (s e l r : ℕ) → (ltb r s || ltb e l) ≡ true → range (within f l r) s e ≡ pos 0
outside f s e l r h = range_none (within f l r) s e (λ i p q. ground (arith, h))

inside :
    (f : ℕ → ℤ) (s e l r : ℕ) → (leb l s && leb e r) ≡ true → range f s e ≡ range (within f l r) s e
inside f s e l r h = range_agree f (within f l r) s e (λ i p q. ground (arith, h))

-- A range that lies partly in the asked one has two positions or more.
deeper :
    (h s e l r : ℕ)
    → Fits h s e
    → (ltb r s || ltb e l) ≡ false
    → (leb l s && leb e r) ≡ false
    → (k : ℕ) × (h ≡ suc k)
deeper zero s e l r fits near part = absurd (ground (arith, near, part))
deeper (suc k) s e l r fits near part = (k, refl)

halves :
    (k : ℕ) (t : List ℤ) (f : ℕ → ℤ) (v s e l r : ℕ)
    → s < e
    → Holds (suc k) t f v s e
    → (s < e) × Holds k t f (2 * v) s ((s + e) / 2) × Holds k t f (2 * v + 1) ((s + e) / 2 + 1) e
halves k t f v s e l r less holds = (less, (holds.1 less).0, (holds.1 less).1)

-- A query returns, within the array, the sum over the node's positions that lie in the asked range.
pub query_tree-range :
    (fuel h : ℕ) (t : List ℤ) (f : ℕ → ℤ) (v s e l r : ℕ)
    → h < fuel
    → Fits h s e
    → Holds h t f v s e
    → query_tree fuel t v s e l r ≡ some (range (within f l r) s e)
unfolding query_tree
query_tree-range zero h t f v s e l r deep fits holds = absurd (omega arith)
query_tree-range (suc fuel) h t f v s e l r deep fits holds =
    elim (Bool-cases (ltb r s || ltb e l)) [
      | inl out ↦ rw (out, query_tree) (ap some (sym (outside f s e l r out)))
      | inr near ↦ elim (Bool-cases (leb l s && leb e r)) [
        | inl all ↦
            rw (near, query_tree)
              (rw (all, query_tree) (Holds-root h t f v s e holds ∙ ap some (inside f s e l r all)))
        | inr part ↦
            let (k, same) = deeper h s e l r fits near part in
            let (less, left, right) =
              halves k t f v s e l r (ground (arith, near, part))
                (subst (λ (m : ℕ). Holds m t f v s e) same holds) in
            rw (near, query_tree)
              (rw (part, query_tree)
                (rw
                  (query_tree-range fuel k t f (2 * v) s ((s + e) / 2) l r (omega arith)
                    (Fits-left k s e less (subst (λ (m : ℕ). Fits m s e) same fits)) left)
                  (rw
                    (query_tree-range fuel k t f (2 * v + 1) ((s + e) / 2 + 1) e l r (omega arith)
                      (Fits-right k s e less (subst (λ (m : ℕ). Fits m s e) same fits)) right)
                    (ap some (
                      sym (
                        range_split (within f l r) s ((s + e) / 2) e (omega arith)
                          (omega arith)))))))
      ]
    ]
