-- ===== src/Tree/Segment/Build.antt =====
-- `buildTree` of SegmentTree.cpp fills the array with the sums, within its bounds.
use dsalib.Core.{
  [], ◌∷◌, subst, ◌∷◌, ℕ, zero, suc, ◌+◌, ◌*◌, ◌/◌, ◌≤◌, ◌<◌, ◌≡◌, refl, ap, sym, ◌∙◌, arith, ℤ,
  pos, Option, some, List, ◌==◌, get_elem?, get_or, set, length, length-set, get_elem?-set_self,
  get_elem?-set_ne, true, false,
}
use native.Mathlib.Decide.{dec_lt}
use mathlib.Core.Path.{subst}
use dsalib.Tree.Segment.{write, pull, build_tree}
use dsalib.Tree.Segment.Paths.{
  IsUnder, IsUnder-left, IsUnder-right, IsUnder-self, IsUnder-apart, IsUnder-ge,
}
use dsalib.Tree.Segment.Sums.{range, range_one, range_split, Holds, Holds-root, Holds-agree}
use dsalib.Tree.Segment.Depth.{
  Fits, Fits-left, Fits-right, HasRoom, HasRoom-left, HasRoom-right, HasRoom-lt,
}

-- Nothing outside the subtree of the node is changed.
abbrev pub Keeps : ℕ → List ℤ → List ℤ → Type 0
Keeps v t u = (w : ℕ) → ¬ IsUnder v w → get_elem? u w ≡ get_elem? t w

pub write-eq_some : (t : List ℤ) (v : ℕ) (x : ℤ) → v < length t → write t v x ≡ some (set t v x)
unfolding write
write-eq_some t v x h = ground arith

pub Keeps-set : (t : List ℤ) (v : ℕ) (x : ℤ) → Keeps v t (set t v x)
Keeps-set t v x w out =
    get_elem?-set_ne t x (λ e. out (subst (λ (m : ℕ). IsUnder v m) e (IsUnder-self v)))

-- A leaf that is written holds its value.
pub set-Holds :
    (h : ℕ) (t : List ℤ) (f : ℕ → ℤ) (v s : ℕ) → v < length t → Holds h (set t v (f s)) f v s s
set-Holds zero t f v s h = get_elem?-set_self t v (f s) h ∙ ap some (sym (range_one f s))
set-Holds (suc n) t f v s h =
    (get_elem?-set_self t v (f s) h ∙ ap some (sym (range_one f s)), λ less. absurd (omega arith))

-- After both subtrees hold their sums, the assignment to the node makes it hold its own.
pub pull-Holds :
    (h : ℕ) (u : List ℤ) (f : ℕ → ℤ) (v s e : ℕ)
    → 1 ≤ v
    → s < e
    → v < length u
    → Holds h u f (2 * v) s ((s + e) / 2)
    → Holds h u f (2 * v + 1) ((s + e) / 2 + 1) e
    → (pull u v ≡ some (set u v (range f s e))) × Holds (suc h) (set u v (range f s e)) f v s e
unfolding pull
pull-Holds h u f v s e one less room left right =
    let total = range_split f s ((s + e) / 2) e (omega arith) (omega arith) in
    let below = λ (c w : ℕ) (lt : v < c) (p : IsUnder c w).
      get_elem?-set_ne u {i = v} {j = w} (range f s e)
        (λ q. absurd (omega (arith, IsUnder-ge c w p, q))) in
    (
      rw (Holds-root h u f (2 * v) s ((s + e) / 2) left) (
          rw (Holds-root h u f (2 * v + 1) ((s + e) / 2 + 1) e right)
            (rw (sym total) (write-eq_some u v (range f s e) room))),
      (
        get_elem?-set_self u v (range f s e) room,
        λ _. (
          Holds-agree h u (set u v (range f s e)) f f (2 * v) s ((s + e) / 2)
              (λ w. below (2 * v) w (omega arith)) (λ i _ _. refl) left,
          Holds-agree h u (set u v (range f s e)) f f (2 * v + 1) ((s + e) / 2 + 1) e
              (λ w. below (2 * v + 1) w (omega arith)) (λ i _ _. refl) right,
        ),
      ),
    )

-- The numbers as a function of their position.
abbrev pub value : List ℤ → ℕ → ℤ
value nums i = get_or nums i (pos 0)

get_elem?-value : (nums : List ℤ) (i : ℕ) → i < length nums → get_elem? nums i ≡ some (value nums i)
get_elem?-value [] i h = absurd (omega arith)
get_elem?-value (x ∷ xs) zero h = refl
get_elem?-value (x ∷ xs) (suc i) h = get_elem?-value xs i (omega arith)

-- `buildTree` returns, stays within both vectors, and leaves the sums at and below the node, and
-- everything else as it was.
abbrev pub Leaves : (h : ℕ) (f : ℕ → ℤ) (v s e size : ℕ) (t : List ℤ) → Option (List ℤ) → Type 0
Leaves h f v s e size t r =
    (u : List ℤ) × (r ≡ some u) × (length u ≡ size) × Holds h u f v s e × Keeps v t u

build_leaf :
    (fuel h : ℕ) (nums t : List ℤ) (v s : ℕ)
    → s < length nums
    → v < length t
    → Leaves h (value nums) v s s (length t) t (build_tree (suc fuel) nums t v s s)
unfolding build_tree
build_leaf fuel h nums t v s inside room =
    let test : (s == s) ≡ true = ground arith in
    (
      set t v (value nums s),
      rw (test, build_tree)
          (rw (get_elem?-value nums s inside) (write-eq_some t v (value nums s) room)),
      length-set t v (value nums s),
      set-Holds h t (value nums) v s room,
      Keeps-set t v (value nums s),
    )

-- What is kept by steps below the node's children and at the node is kept by the whole.
pub Keeps-trans :
    (v : ℕ) (t u w : List ℤ) (x : ℤ)
    → Keeps (2 * v) t u
    → Keeps (2 * v + 1) u w
    → Keeps v t (set w v x)
Keeps-trans v t u w x left right i out =
    Keeps-set w v x i out
    ∙ right i (λ p. out (IsUnder-right v i p))
    ∙ left i (λ p. out (IsUnder-left v i p))

build_node :
    (fuel h : ℕ) (nums t : List ℤ) (v s e : ℕ)
    → 1 ≤ v
    → s < e
    → v < length t
    → Leaves h
        (value nums)
        (2 * v)
        s
        ((s + e) / 2)
        (length t)
        t
        (build_tree fuel nums t (2 * v) s ((s + e) / 2))
    → ((u : List ℤ)
        → length u ≡ length t
        → Leaves h
            (value nums)
            (2 * v + 1)
            ((s + e) / 2 + 1)
            e
            (length t)
            u
            (build_tree fuel nums u (2 * v + 1) ((s + e) / 2 + 1) e))
    → Leaves (suc h) (value nums) v s e (length t) t (build_tree (suc fuel) nums t v s e)
unfolding build_tree
build_node fuel h nums t v s e one less room (u, left, size, holds, keeps) right =
    let (w, right', size', holds', keeps') = right u size in
    let test : (s == e) ≡ false = ground arith in
    let f = value nums in
    let mid = (s + e) / 2 in
    let still : Holds h w f (2 * v) s mid =
      Holds-agree h u w f f (2 * v) s mid (λ i p. keeps' i (IsUnder-apart v i one p))
        (λ i _ _. refl) holds in
    let (pulled, done) = pull-Holds h w f v s e one less (omega arith) still holds' in
    (
      set w v (range f s e),
      rw (test, build_tree) (rw left (rw right' pulled)),
      length-set w v (range f s e) ∙ size',
      done,
      Keeps-trans v t u w (range f s e) keeps keeps',
    )

pub build_tree-Leaves :
    (fuel h : ℕ) (nums t : List ℤ) (v s e : ℕ)
    → h < fuel
    → 1 ≤ v
    → Fits h s e
    → e < length nums
    → HasRoom h v (length t)
    → Leaves h (value nums) v s e (length t) t (build_tree fuel nums t v s e)
build_tree-Leaves zero h nums t v s e deep one fits inside room = absurd (omega arith)
build_tree-Leaves (suc fuel) zero nums t v s e deep one fits inside room =
    subst (λ (d : ℕ). Leaves 0 (value nums) v s d (length t) t (build_tree (suc fuel) nums t v s d))
      {x = s} {y = e} (omega arith)
      (build_leaf fuel 0 nums t v s (omega arith) (HasRoom-lt 0 v (length t) room))
build_tree-Leaves (suc fuel) (suc h) nums t v s e deep one fits inside room =
    let size = length t in
    let here = HasRoom-lt (suc h) v size room in
    elim (dec_lt s e) [
      | no q ↦
          subst
            (λ (d : ℕ).
              Leaves (suc h) (value nums) v s d size t (build_tree (suc fuel) nums t v s d))
            {x = s} {y = e} (omega arith) (build_leaf fuel (suc h) nums t v s (omega arith) here)
      | yes less ↦
          build_node fuel h nums t v s e one less here
            (build_tree-Leaves fuel h nums t (2 * v) s ((s + e) / 2) (omega arith) (omega arith)
              (Fits-left h s e less fits) (omega arith) (HasRoom-left h v size room))
            (λ u same.
              subst
                (λ (n : ℕ).
                  Leaves h (value nums) (2 * v + 1) ((s + e) / 2 + 1) e n u
                    (build_tree fuel nums u (2 * v + 1) ((s + e) / 2 + 1) e))
                same
                (build_tree-Leaves fuel h nums u (2 * v + 1) ((s + e) / 2 + 1) e (omega arith)
                  (omega arith) (Fits-right h s e less fits) inside
                  (omega (arith, HasRoom-right h v size room, same))))
    ]
