-- ===== src/Tree/Segment/Sums.antt =====
-- Sums over ranges of positions, and what the array of SegmentTree.cpp has to hold.
use dsalib.Core.{
  ℕ, zero, suc, ◌+◌, ◌-◌, ◌*◌, ◌/◌, ◌≤◌, ◌<◌, ◌≡◌, refl, ap, sym, ◌∙◌, arith, ℤ, pos, ◌+ℤ◌,
  int_laws, some, List, get_elem?,
}
use dsalib.Tree.Segment.Paths.{IsUnder, IsUnder-left, IsUnder-right, IsUnder-self}

-- The sum of `f` at `count` positions from `start` on.
unfoldable pub sum : (ℕ → ℤ) → (start count : ℕ) → ℤ
sum f start zero = pos 0
sum f start (suc count) = f start +ℤ sum f (suc start) count

sum_at : (f : ℕ → ℤ) {s s' a a' : ℕ} → s ≡ s' → a ≡ a' → sum f s a ≡ sum f s' a'
sum_at f p q = λ i. sum f (p i) (q i)

zero_add : (x : ℤ) → x ≡ pos 0 +ℤ x
zero_add x = omega int_laws

add_zero : (x : ℤ) → x +ℤ pos 0 ≡ x
add_zero x = omega int_laws

regroup : (x y z : ℤ) → x +ℤ (y +ℤ z) ≡ x +ℤ y +ℤ z
regroup x y z = omega int_laws

sum_split : (f : ℕ → ℤ) (s a b : ℕ) → sum f s (a + b) ≡ sum f s a +ℤ sum f (s + a) b
unfolding sum
sum_split f s zero b = sum_at f (omega arith) (omega arith) ∙ zero_add (sum f (s + 0) b)
sum_split f s (suc a) b =
    sum_at f {s = s} {s' = s} {a = suc a + b} {a' = suc (a + b)} refl (omega arith)
    ∙ ap (λ x. f s +ℤ x) (sum_split f (suc s) a b)
    ∙ ap (λ x. f s +ℤ (sum f (suc s) a +ℤ x))
        (sum_at f {s = suc s + a} {s' = s + suc a} {a = b} {a' = b} (omega arith) refl)
    ∙ regroup (f s) (sum f (suc s) a) (sum f (s + suc a) b)

-- The sum over the positions from `start` to `end`, both included.
abbrev pub range : (ℕ → ℤ) → (start end : ℕ) → ℤ
range f start end = sum f start (suc end - start)

pub range_one : (f : ℕ → ℤ) (s : ℕ) → range f s s ≡ f s
unfolding sum
range_one f s =
    sum_at f {s = s} {s' = s} {a = suc s - s} {a' = 1} refl (omega arith) ∙ add_zero (f s)

pub range_split :
    (f : ℕ → ℤ) (s m e : ℕ) → s ≤ m → m < e → range f s e ≡ range f s m +ℤ range f (m + 1) e
range_split f s m e p q =
    sum_at f {s = s} {s' = s} {a = suc e - s} {a' = (suc m - s) + (suc e - (m + 1))} refl
      (omega arith)
    ∙ sum_split f s (suc m - s) (suc e - (m + 1))
    ∙ ap (λ x. range f s m +ℤ x)
        (sum_at f {s = s + (suc m - s)} {s' = m + 1} {a = suc e - (m + 1)} {a' = suc e - (m + 1)}
          (omega arith) refl)

-- Functions that agree on the positions have the same sum.
sum_agree :
    (f g : ℕ → ℤ) (s n : ℕ) → ((i : ℕ) → s ≤ i → i < s + n → f i ≡ g i) → sum f s n ≡ sum g s n
unfolding sum
sum_agree f g s zero h = refl
sum_agree f g s (suc n) h =
    ap (λ x. x +ℤ sum f (suc s) n) (h s (omega arith) (omega arith))
    ∙ ap (λ x. g s +ℤ x) (sum_agree f g (suc s) n (λ i p q. h i (omega arith) (omega arith)))

pub range_agree :
    (f g : ℕ → ℤ) (s e : ℕ) → ((i : ℕ) → s ≤ i → i ≤ e → f i ≡ g i) → range f s e ≡ range g s e
range_agree f g s e h = sum_agree f g s (suc e - s) (λ i p q. h i p (omega arith))

sum_none : (f : ℕ → ℤ) (s n : ℕ) → ((i : ℕ) → s ≤ i → i < s + n → f i ≡ pos 0) → sum f s n ≡ pos 0
unfolding sum
sum_none f s zero h = refl
sum_none f s (suc n) h =
    ap (λ x. x +ℤ sum f (suc s) n) (h s (omega arith) (omega arith))
    ∙ ap (λ x. pos 0 +ℤ x) (sum_none f (suc s) n (λ i p q. h i (omega arith) (omega arith)))
    ∙ sym (zero_add (pos 0))

pub range_none :
    (f : ℕ → ℤ) (s e : ℕ) → ((i : ℕ) → s ≤ i → i ≤ e → f i ≡ pos 0) → range f s e ≡ pos 0
range_none f s e h = sum_none f s (suc e - s) (λ i p q. h i p (omega arith))

-- The array holds the sums of the ranges at the node and, `h` levels deep, below it.
abbrev pub Holds : (h : ℕ) → List ℤ → (ℕ → ℤ) → (node start end : ℕ) → Type 0
Holds zero t f v s e = get_elem? t v ≡ some (range f s e)
Holds (suc h) t f v s e =
    (get_elem? t v ≡ some (range f s e))
    × (s < e → Holds h t f (2 * v) s ((s + e) / 2) × Holds h t f (2 * v + 1) ((s + e) / 2 + 1) e)

pub Holds-root :
    (h : ℕ) (t : List ℤ) (f : ℕ → ℤ) (v s e : ℕ)
    → Holds h t f v s e
    → get_elem? t v ≡ some (range f s e)
Holds-root zero t f v s e p = p
Holds-root (suc h) t f v s e p = p.0

-- It depends on the cells below the node and the values in the range alone.
pub Holds-agree :
    (h : ℕ) (t u : List ℤ) (f g : ℕ → ℤ) (v s e : ℕ)
    → ((w : ℕ) → IsUnder v w → get_elem? u w ≡ get_elem? t w)
    → ((i : ℕ) → s ≤ i → i ≤ e → f i ≡ g i)
    → Holds h t f v s e
    → Holds h u g v s e
Holds-agree zero t u f g v s e cells values p =
    cells v (IsUnder-self v) ∙ p ∙ ap some (range_agree f g s e values)
Holds-agree (suc h) t u f g v s e cells values p = (
  cells v (IsUnder-self v) ∙ p.0 ∙ ap some (range_agree f g s e values),
  λ less. (
    Holds-agree h t u f g (2 * v) s ((s + e) / 2) (λ w q. cells w (IsUnder-left v w q))
        (λ i a b. values i a (omega arith)) (p.1 less).0,
    Holds-agree h t u f g (2 * v + 1) ((s + e) / 2 + 1) e (λ w q. cells w (IsUnder-right v w q))
        (λ i a b. values i (omega arith) b) (p.1 less).1,
  ),
)
