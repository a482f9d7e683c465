-- ===== src/Tree/Interval/Order.antt =====
-- The invariant of intervalTree.cpp: low ends in search order, and exact cached maxima.
use dsalib.Core.{List, [], ◌∷◌, refl, ◌∷◌, List, sym, inr, ◌≡◌, ◌⊎◌, inl, ℤ, ◌<ℤ◌, ◌≤ℤ◌, arith}
use dsalib.Tree.Interval.{insert_all, Interval, TreeNode, null, node, insert, raise_max}

-- Every interval of the tree satisfies `P`.
abbrev pub AllIn : (Interval → Type 0) → TreeNode → Type 0
AllIn P null = Unit
AllIn P (node k m l r) = P k × AllIn P l × AllIn P r

-- Some interval of the tree satisfies `P`.
abbrev pub AnyIn : (Interval → Type 0) → TreeNode → Type 0
AnyIn P null = ⊥
AnyIn P (node k m l r) = P k ⊎ (AnyIn P l ⊎ AnyIn P r)

-- `max_high` is the largest high end of the interval and the two subtrees.
pub record IsMax (max_high : ℤ) (k : Interval) (l r : TreeNode) : Type 0 where
  pub own : k.high ≤ℤ max_high
  pub left : AllIn (λ x. x.high ≤ℤ max_high) l
  pub right : AllIn (λ x. x.high ≤ℤ max_high) r
  pub attained :
      (k.high ≡ max_high) ⊎ (AnyIn (λ x. x.high ≡ max_high) l ⊎ AnyIn (λ x. x.high ≡ max_high) r)

abbrev pub IsValid : TreeNode → Type 0
IsValid null = Unit
IsValid (node k m l r) =
    AllIn (λ x. x.low <ℤ k.low) l
    × AllIn (λ x. k.low ≤ℤ x.low) r
    × IsMax m k l r
    × IsValid l
    × IsValid r

pub AllIn-imp :
    {P Q : Interval → Type 0} (t : TreeNode) → ((x : Interval) → P x → Q x) → AllIn P t → AllIn Q t
AllIn-imp null f h = tt
AllIn-imp (node k m l r) f h = (f k h.0, AllIn-imp l f h.1, AllIn-imp r f h.2)

pub AllIn-insert :
    (P : Interval → Type 0) (t : TreeNode) (i : Interval) → P i → AllIn P t → AllIn P (insert t i)
unfolding insert
AllIn-insert P null i p h = (p, tt, tt)
AllIn-insert P (node k m l r) i p h = ground (arith, AllIn-insert P l i, AllIn-insert P r i)

-- What is in the tree after `insert` is the new interval and what was there.
pub AnyIn-insert_new :
    (P : Interval → Type 0) (t : TreeNode) (i : Interval) → P i → AnyIn P (insert t i)
unfolding insert
AnyIn-insert_new P null i p = inl p
AnyIn-insert_new P (node k m l r) i p =
    ground (arith, AnyIn-insert_new P l i p, AnyIn-insert_new P r i p)

pub AnyIn-insert_old :
    (P : Interval → Type 0) (t : TreeNode) (i : Interval) → AnyIn P t → AnyIn P (insert t i)
unfolding insert
AnyIn-insert_old P null i h = absurd h
AnyIn-insert_old P (node k m l r) i h =
    ground (arith, AnyIn-insert_old P l i, AnyIn-insert_old P r i)

-- The two cases of the new maximum: the new high end, or the old maximum.
raise_max_cases :
    (m high : ℤ)
    → ((raise_max m high ≡ high) × (m <ℤ high)) ⊎ ((raise_max m high ≡ m) × (high ≤ℤ m))
unfolding raise_max
raise_max_cases m high = ground arith

raise_max_bounds : (m high : ℤ) → (m ≤ℤ raise_max m high) × (high ≤ℤ raise_max m high)
raise_max_bounds m high = ground (arith, raise_max_cases m high)

-- Raising the maximum keeps it exact, with the new interval on either side.
IsMax-insert_left :
    (m : ℤ) (k : Interval) (l r : TreeNode) (i : Interval)
    → IsMax m k l r
    → IsMax (raise_max m i.high) k (insert l i) r
IsMax-insert_left m k l r i h =
    let up = raise_max_bounds m i.high in
    let weaken = λ (x : Interval) (p : x.high ≤ℤ m).
      let goal : x.high ≤ℤ raise_max m i.high = omega arith in goal in
    record {
      own = weaken k h.own;
      left = AllIn-insert (λ x. x.high ≤ℤ raise_max m i.high) l i up.1 (AllIn-imp l weaken h.left);
      right = AllIn-imp r weaken h.right;
      attained = elim (raise_max_cases m i.high) [
        | inl new ↦ inr (inl (AnyIn-insert_new (λ x. x.high ≡ raise_max m i.high) l i (sym new.0)))
        | inr old ↦ rw (old.0) (elim h.attained [
          | inl p ↦ inl p
          | inr (inl p) ↦ inr (inl (AnyIn-insert_old (λ x. x.high ≡ m) l i p))
          | inr (inr p) ↦ inr (inr p)
        ])
      ];
    }

IsMax-insert_right :
    (m : ℤ) (k : Interval) (l r : TreeNode) (i : Interval)
    → IsMax m k l r
    → IsMax (raise_max m i.high) k l (insert r i)
IsMax-insert_right m k l r i h =
    let up = raise_max_bounds m i.high in
    let weaken = λ (x : Interval) (p : x.high ≤ℤ m).
      let goal : x.high ≤ℤ raise_max m i.high = omega arith in goal in
    record {
      own = weaken k h.own;
      left = AllIn-imp l weaken h.left;
      right =
          AllIn-insert (λ x. x.high ≤ℤ raise_max m i.high) r i up.1 (AllIn-imp r weaken h.right);
      attained = elim (raise_max_cases m i.high) [
        | inl new ↦ inr (inr (AnyIn-insert_new (λ x. x.high ≡ raise_max m i.high) r i (sym new.0)))
        | inr old ↦ rw (old.0) (elim h.attained [
          | inl p ↦ inl p
          | inr (inl p) ↦ inr (inl p)
          | inr (inr p) ↦ inr (inr (AnyIn-insert_old (λ x. x.high ≡ m) r i p))
        ])
      ];
    }

-- `insert` keeps the low ends in search order and every cached `maxHigh` exact.
pub insert-IsValid : (t : TreeNode) (i : Interval) → IsValid t → IsValid (insert t i)
unfolding insert
insert-IsValid null i h =
    (tt, tt, record { own = omega arith; left = tt; right = tt; attained = inl refl }, tt, tt)
insert-IsValid (node k m l r) i h = ground (
  arith,
  insert-IsValid l i h.3,
  insert-IsValid r i h.4,
  AllIn-insert (λ x. x.low <ℤ k.low) l i,
  AllIn-insert (λ x. k.low ≤ℤ x.low) r i,
  IsMax-insert_left m k l r i h.2,
  IsMax-insert_right m k l r i h.2,
)

pub insert_all-IsValid : (is : List Interval) (t : TreeNode) → IsValid t → IsValid (insert_all is t)
unfolding insert_all
insert_all-IsValid [] t h = h
insert_all-IsValid (i ∷ is) t h = insert_all-IsValid is (insert t i) (insert-IsValid t i h)
