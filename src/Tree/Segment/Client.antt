-- ===== src/Tree/Segment/Client.antt =====
-- A client of SegmentTree.cpp: a construction, updates and a query.
use dsalib.Core.{
  ℕ, ◌-◌, ◌*◌, ◌<◌, ◌≡◌, refl, sym, arith, ℤ, pos, Option, some, List, [], ◌∷◌, All, set, length,
  length-set, length-replicate, replicate, get_or-set_self, get_or-set_ne,
}
use mathlib.Core.Path.{subst}
use dsalib.Tree.Segment.{SegmentTree, create, update, sum_range, update_tree, ◌>>=◌}
use dsalib.Tree.Segment.Sums.{range, Holds}
use dsalib.Tree.Segment.Depth.{Fits, HasRoom, depth}
use dsalib.Tree.Segment.Build.{value, build_tree-Leaves}
use dsalib.Tree.Segment.Update.{Differs, update_tree-Leaves}
use dsalib.Tree.Segment.Query.{within, query_tree-range}

-- The tree holds the sums of `n` numbers, given by their positions, at a depth that its fuel allows.
record IsExact (t : SegmentTree) (n : ℕ) (f : ℕ → ℤ) : Type 0 where
  size : t.n ≡ n
  h : ℕ
  deep : h < n
  fits : Fits h 0 (n - 1)
  room : HasRoom h 1 (length t.tree)
  holds : Holds h t.tree f 1 0 (n - 1)

create-IsExact :
    (nums : List ℤ)
    → 0 < length nums
    → (t : SegmentTree) × (create nums ≡ some t) × IsExact t (length nums) (value nums)
unfolding create
create-IsExact nums h =
    let n = length nums in
    let start = replicate (4 * n) (pos 0) in
    let (d, deep, enough, small) = depth n h in
    let cells = length-replicate (4 * n) (pos 0) in
    let (u, built, size, holds, keeps) =
      build_tree-Leaves n d nums start 1 0 (n - 1) deep (omega arith) (omega arith, omega arith)
        (omega arith) (omega arith) in
    (
      record { tree = u; n = n },
      rw built,
      record {
        size = refl;
        h = d;
        deep = deep;
        fits = (omega arith, omega arith);
        room = omega arith;
        holds = holds;
      },
    )

update-IsExact :
    (t : SegmentTree) (n : ℕ) (f g : ℕ → ℤ) (idx : ℕ) (val : ℤ)
    → IsExact t n f
    → idx < n
    → Differs f g idx val
    → (u : SegmentTree) × (update t idx val ≡ some u) × IsExact u n g
unfolding update
update-IsExact t n f g idx val e less d =
    let (u, done, size, holds, keeps) =
      update_tree-Leaves n e.h t.tree f g 1 0 (n - 1) idx val e.deep (omega arith) e.fits
        (omega arith) (omega arith) e.room d e.holds in
    let run : update_tree t.n t.tree 1 0 (t.n - 1) idx val ≡ some u =
      subst (λ (m : ℕ). update_tree m t.tree 1 0 (m - 1) idx val ≡ some u) (sym e.size) done in
    (
      record t { tree = u },
      rw run,
      record {
        size = e.size;
        h = e.h;
        deep = e.deep;
        fits = e.fits;
        room = omega (arith, e.room);
        holds = holds;
      },
    )

-- The updates of a client, in turn.
unfoldable pub updates : List (ℕ × ℤ) → SegmentTree → Option SegmentTree
updates [] t = some t
updates ((idx, val) ∷ rest) t = do u ← update t idx val; updates rest u

-- The same updates of the numbers.
unfoldable pub set_all : List (ℕ × ℤ) → List ℤ → List ℤ
set_all [] nums = nums
set_all ((idx, val) ∷ rest) nums = set_all rest (set nums idx val)

updates-IsExact :
    (ops : List (ℕ × ℤ)) (t : SegmentTree) (nums : List ℤ)
    → IsExact t (length nums) (value nums)
    → All (λ p. p.0 < length nums) ops
    → (u : SegmentTree) × (updates ops t ≡ some u)
      × IsExact u (length nums) (value (set_all ops nums))
unfolding updates set_all
updates-IsExact [] t nums e a = (t, refl, e)
updates-IsExact ((idx, val) ∷ rest) t nums e a =
    let next = set nums idx val in
    let size = length-set nums idx val in
    let (u, done, exact) = update-IsExact t (length nums) (value nums) (value next) idx val e a.0 (
      get_or-set_self nums idx val (pos 0) a.0,
      λ i ne. sym (get_or-set_ne nums idx i val (pos 0) (λ q. ne (sym q))),
    ) in
    let (w, ran, last) =
      updates-IsExact rest u next (subst (λ (m : ℕ). IsExact u m (value next)) (sym size) exact)
        (subst (λ (m : ℕ). All (λ p. p.0 < m) rest) (sym size) a.1) in
    (w, rw done ran, subst (λ (m : ℕ). IsExact w m (value (set_all rest next))) size last)

-- After the construction from at least one number and any updates at positions of the numbers,
-- `sumRange(l, r)` returns the sum of the present numbers at the positions from `l` to `r`: the calls
-- return, no access leaves the 4 * n cells or the numbers, and no recursion is deeper than `n` calls.
pub sum_range-updates :
    (nums : List ℤ) (ops : List (ℕ × ℤ)) (l r : ℕ)
    → 0 < length nums
    → All (λ p. p.0 < length nums) ops
    → (create nums >>= λ t. updates ops t >>= λ u. sum_range u l r)
      ≡ some (range (within (value (set_all ops nums)) l r) 0 (length nums - 1))
unfolding sum_range
sum_range-updates nums ops l r h a =
    let (t, made, exact) = create-IsExact nums h in
    let (u, ran, last) = updates-IsExact ops t nums exact a in
    rw made (
      rw ran (
        rw last.size (
          query_tree-range (length nums) last.h u.tree (value (set_all ops nums)) 1 0
            (length nums - 1) l r last.deep last.fits last.holds)))
