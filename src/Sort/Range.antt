-- ===== src/Sort/Range.antt =====
-- What an operation on a range of an array keeps, and what it is for a range to be sorted.
use dsalib.Core.{
  Option, none, some, IsSorted, ◌⊎◌, ℕ, ◌<◌, ◌≤◌, ◌≡◌, refl, sym, ◌∙◌, arith, List, ℤ, ◌≤ℤ◌, length,
  SameItems, ◌==◌, Bool-cases, inl, inr,
}
use native.Mathlib.Decide.{dec_lt}
use mathlib.Core.Path.{subst}
use dsalib.Sort.Array.{
  at, swapped, length-swapped, count-swapped, at-swapped_first, at-swapped_second, at-swapped_other,
}

-- Every element of the range satisfies `P`.
abbrev pub AllBetween : (ℤ → Type 0) → (low high : ℕ) → List ℤ → Type 0
AllBetween P low high xs = (k : ℕ) → low ≤ k → k ≤ high → P (at xs k)

-- `ys` is `xs` with the elements from `low` to `high` rearranged: both have the same items, agree
-- outside the range, and every bound on the range's elements is kept.
pub record Rearranges (low high : ℕ) (xs ys : List ℤ) : Type 0 where
  pub same_length : length ys ≡ length xs
  pub same_items : SameItems ys xs
  pub outside : (k : ℕ) → (k < low) ⊎ (high < k) → at ys k ≡ at xs k
  pub upper : (c : ℤ) → AllBetween (λ x. x ≤ℤ c) low high xs → AllBetween (λ x. x ≤ℤ c) low high ys
  pub lower : (c : ℤ) → AllBetween (λ x. c ≤ℤ x) low high xs → AllBetween (λ x. c ≤ℤ x) low high ys

pub Rearranges-refl : (low high : ℕ) (xs : List ℤ) → Rearranges low high xs xs
Rearranges-refl low high xs = record {
  same_length = refl;
  same_items = λ v. refl;
  outside = λ k h. refl;
  upper = λ c h. h;
  lower = λ c h. h;
}

pub Rearranges-trans :
    (low high : ℕ) (xs ys zs : List ℤ)
    → Rearranges low high xs ys
    → Rearranges low high ys zs
    → Rearranges low high xs zs
Rearranges-trans low high xs ys zs p q = record {
  same_length = q.same_length ∙ p.same_length;
  same_items = λ v. q.same_items v ∙ p.same_items v;
  outside = λ k h. q.outside k h ∙ p.outside k h;
  upper = λ c h. q.upper c (p.upper c h);
  lower = λ c h. q.lower c (p.lower c h);
}

-- A predicate of the elements of a wider range is kept if it is kept on the narrower one.
widen_bound :
    (P : ℤ → Type 0) (low high low' high' : ℕ) (xs ys : List ℤ)
    → low ≤ low'
    → high' ≤ high
    → ((k : ℕ) → (k < low') ⊎ (high' < k) → at ys k ≡ at xs k)
    → (AllBetween P low' high' xs → AllBetween P low' high' ys)
    → AllBetween P low high xs
    → AllBetween P low high ys
widen_bound P low high low' high' xs ys p q out inner h k a b = elim (dec_lt k low') [
  | yes before ↦ subst P (sym (out k (inl before))) (h k a b)
  | no not_before ↦ elim (dec_lt high' k) [
    | yes behind ↦ subst P (sym (out k (inr behind))) (h k a b)
    | no not_behind ↦ inner (λ m c d. h m (omega arith) (omega arith)) k (omega arith) (omega arith)
  ]
]

pub Rearranges-widen :
    (low high low' high' : ℕ) (xs ys : List ℤ)
    → low ≤ low'
    → high' ≤ high
    → Rearranges low' high' xs ys
    → Rearranges low high xs ys
Rearranges-widen low high low' high' xs ys p q r = record {
  same_length = r.same_length;
  same_items = r.same_items;
  outside = λ k h. r.outside k (elim h [ inl a ↦ inl (omega arith) | inr a ↦ inr (omega arith) ]);
  upper = λ c. widen_bound (λ x. x ≤ℤ c) low high low' high' xs ys p q r.outside (r.upper c);
  lower = λ c. widen_bound (λ x. c ≤ℤ x) low high low' high' xs ys p q r.outside (r.lower c);
}

swapped_bound :
    (P : ℤ → Type 0) (low high i j : ℕ) (xs : List ℤ)
    → low ≤ i
    → i ≤ high
    → low ≤ j
    → j ≤ high
    → i < length xs
    → j < length xs
    → AllBetween P low high xs
    → AllBetween P low high (swapped xs i j)
swapped_bound P low high i j xs a b c d p q h k e f = elim (Bool-cases (j == k)) [
  | inl second ↦
      subst (λ (m : ℕ). P (at (swapped xs i j) m)) {x = j} {y = k} (ground (arith, second))
        (subst P (sym (at-swapped_second xs i j q)) (h i a b))
  | inr not_second ↦ elim (Bool-cases (i == k)) [
    | inl first ↦
        subst (λ (m : ℕ). P (at (swapped xs i j) m)) {x = i} {y = k} (ground (arith, first))
          (subst P (sym (at-swapped_first xs i j p q)) (h j c d))
    | inr not_first ↦
        subst P
          (sym (at-swapped_other xs i j k (ground (arith, not_first)) (ground (arith, not_second))))
          (h k e f)
  ]
]

pub swapped-Rearranges :
    (low high i j : ℕ) (xs : List ℤ)
    → low ≤ i
    → i ≤ high
    → low ≤ j
    → j ≤ high
    → high < length xs
    → Rearranges low high xs (swapped xs i j)
swapped-Rearranges low high i j xs a b c d p = record {
  same_length = length-swapped xs i j;
  same_items = count-swapped xs i j (omega arith) (omega arith);
  outside = λ k h. elim h [
    | inl before ↦ at-swapped_other xs i j k (omega arith) (omega arith)
    | inr behind ↦ at-swapped_other xs i j k (omega arith) (omega arith)
  ];
  upper = λ m. swapped_bound (λ x. x ≤ℤ m) low high i j xs a b c d (omega arith) (omega arith);
  lower = λ m. swapped_bound (λ x. m ≤ℤ x) low high i j xs a b c d (omega arith) (omega arith);
}

-- The range ascends.
abbrev pub SortedBetween : (low high : ℕ) → List ℤ → Type 0
SortedBetween low high xs = (i j : ℕ) → low ≤ i → i ≤ j → j ≤ high → at xs i ≤ℤ at xs j

-- A sort returned, and with a list that ascends and holds the items of `xs`.
abbrev pub IsSortOf : List ℤ → Option (List ℤ) → Type 0
IsSortOf xs none = ⊥
IsSortOf xs (some ys) = IsSorted ys × SameItems ys xs
