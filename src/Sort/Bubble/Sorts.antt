-- ===== src/Sort/Bubble/Sorts.antt =====
-- `bubbleSort` sorts the array and keeps its items.
use dsalib.Core.{
  ℕ, zero, suc, ◌+◌, ◌-◌, ◌<◌, ◌≤◌, ◌≡◌, refl, sym, ◌∙◌, arith, true, false, Bool-cases, Option,
  some, List, [], ◌∷◌, ℤ, lt_ℤ, ◌≤ℤ◌, length, inl, inr, SameItems,
}
use native.Mathlib.Decide.{dec_le, dec_lt}
use mathlib.Core.Path.{subst}
use dsalib.Sort.Array.{
  at, read, swap, swapped, length-swapped, at-swapped_first, at-swapped_second, at-swapped_other,
  IsSorted-of_at, ◌>>=◌,
}
use dsalib.Sort.Range.{Rearranges, Rearranges-refl, Rearranges-trans, swapped-Rearranges, IsSortOf}
use dsalib.Sort.Bubble.{inner_loop, outer_loop, bubble_sort}

-- The element at `m` is the largest up to it.
IsLargest : ℕ → List ℤ → Type 0
IsLargest m xs = (k : ℕ) → k ≤ m → at xs k ≤ℤ at xs m

IsLargest-first : (xs : List ℤ) → IsLargest 0 xs
unfolding IsLargest
IsLargest-first xs k a =
    subst (λ (m : ℕ). at xs k ≤ℤ at xs m) {x = k} {y = 0} (omega arith) (omega arith)

IsLargest-stay :
    (j : ℕ) (xs : List ℤ)
    → IsLargest j xs
    → lt_ℤ (at xs (j + 1)) (at xs j) ≡ false
    → IsLargest (suc j) xs
unfolding IsLargest
IsLargest-stay j xs h e k a =
    let next : at xs j ≤ℤ at xs (j + 1) = ground (arith, e) in
    elim (dec_le k j) [
      | yes c ↦
          subst (λ (m : ℕ). at xs k ≤ℤ at xs m) {x = j + 1} {y = suc j} (omega arith)
            (omega (arith, h k c))
      | no c ↦ subst (λ (m : ℕ). at xs k ≤ℤ at xs m) {x = k} {y = suc j} (omega arith) (omega arith)
    ]

IsLargest-swapped :
    (j : ℕ) (xs : List ℤ)
    → j + 1 < length xs
    → IsLargest j xs
    → lt_ℤ (at xs (j + 1)) (at xs j) ≡ true
    → IsLargest (suc j) (swapped xs j (j + 1))
unfolding IsLargest
IsLargest-swapped j xs q h e k a =
    let ys = swapped xs j (j + 1) in
    let next : at xs (j + 1) ≤ℤ at xs j = ground (arith, e) in
    subst (λ (m : ℕ). at ys k ≤ℤ at ys m) {x = j + 1} {y = suc j} (omega arith)
      (rw (at-swapped_second xs j (j + 1) q) (elim (dec_lt k j) [
        | yes c ↦
            rw (at-swapped_other xs j (j + 1) k (omega arith) (omega arith)) (h k (omega arith))
        | no c ↦ elim (dec_le k j) [
          | yes d ↦
              subst (λ (m : ℕ). at ys m ≤ℤ at xs j) {x = j} {y = k} (omega arith)
                (rw (at-swapped_first xs j (j + 1) (omega arith) q) next)
          | no d ↦
              subst (λ (m : ℕ). at ys m ≤ℤ at xs j) {x = j + 1} {y = k} (omega arith)
                (rw (at-swapped_second xs j (j + 1) q) (omega arith))
        ]
      ]))

inner_loop-swaps :
    (rounds j : ℕ) (xs : List ℤ)
    → j + 1 < length xs
    → lt_ℤ (at xs (j + 1)) (at xs j) ≡ true
    → inner_loop (suc rounds) j xs ≡ inner_loop rounds (suc j) (swapped xs j (j + 1))
unfolding inner_loop swap swapped
inner_loop-swaps rounds j xs q e = simp (read xs j (omega arith), read xs (j + 1) q, e, ◌>>=◌)

inner_loop-stays :
    (rounds j : ℕ) (xs : List ℤ)
    → j + 1 < length xs
    → lt_ℤ (at xs (j + 1)) (at xs j) ≡ false
    → inner_loop (suc rounds) j xs ≡ inner_loop rounds (suc j) xs
unfolding inner_loop
inner_loop-stays rounds j xs q e = simp (read xs j (omega arith), read xs (j + 1) q, e, ◌>>=◌)

-- A pass up to `m` rearranges the elements up to `m` and leaves the largest of them there.
record PassEnds (m : ℕ) (xs : List ℤ) (r : Option (List ℤ)) : Type 0 where
  arr : List ℤ
  returns : r ≡ some arr
  kept : Rearranges 0 m xs arr
  largest : IsLargest m arr

inner_loop-ends :
    (rounds j m : ℕ) (xs : List ℤ)
    → j + rounds ≡ m
    → m < length xs
    → IsLargest j xs
    → PassEnds m xs (inner_loop rounds j xs)
unfolding inner_loop
inner_loop-ends zero j m xs e q h = record {
  arr = xs;
  returns = refl;
  kept = Rearranges-refl 0 m xs;
  largest = subst (λ (k : ℕ). IsLargest k xs) {x = j} {y = m} (omega arith) h;
}
inner_loop-ends (suc rounds) j m xs e q h = elim (Bool-cases (lt_ℤ (at xs (j + 1)) (at xs j))) [
  | inl larger ↦
      let ys = swapped xs j (j + 1) in
      let r =
        inner_loop-ends rounds (suc j) m ys (omega arith)
          (omega (arith, length-swapped xs j (j + 1)))
          (IsLargest-swapped j xs (omega arith) h larger) in
      record {
        arr = r.arr;
        returns = inner_loop-swaps rounds j xs (omega arith) larger ∙ r.returns;
        kept =
            Rearranges-trans 0 m xs ys r.arr
              (swapped-Rearranges 0 m j (j + 1) xs (omega arith) (omega arith) (omega arith)
                (omega arith) q)
              r.kept;
        largest = r.largest;
      }
  | inr ordered ↦
      let r = inner_loop-ends rounds (suc j) m xs (omega arith) q (IsLargest-stay j xs h ordered) in
      record {
        arr = r.arr;
        returns = inner_loop-stays rounds j xs (omega arith) ordered ∙ r.returns;
        kept = r.kept;
        largest = r.largest;
      }
]

-- After `i` passes over `n` elements the last `i` are in place: none before one of them is larger.
Settled : (i n : ℕ) → List ℤ → Type 0
Settled i n xs = (a b : ℕ) → a ≤ b → b < n → n ≤ b + i → at xs a ≤ℤ at xs b

-- A pass that ends before the settled elements settles one more.
Settled-pass :
    (i m : ℕ) (xs ys : List ℤ)
    → Settled i (m + i + 1) xs
    → Rearranges 0 m xs ys
    → IsLargest m ys
    → Settled (suc i) (m + i + 1) ys
unfolding Settled IsLargest
Settled-pass i m xs ys s kept largest a b p q t = elim (dec_lt m b) [
  | no c ↦
      subst (λ (k : ℕ). at ys a ≤ℤ at ys k) {x = m} {y = b} (omega arith) (largest a (omega arith))
  | yes c ↦
      let same : at ys b ≡ at xs b = kept.outside b (inr c) in
      rw same (elim (dec_lt m a) [
        | yes d ↦ rw (kept.outside a (inr d)) (s a b p q (omega arith))
        | no d ↦
            kept.upper (at xs b) (λ k e f. s k b (omega arith) q (omega arith)) a (omega arith)
              (omega arith)
      ])
]

-- What the outer loop returns.
record LoopEnds (n : ℕ) (xs : List ℤ) (r : Option (List ℤ)) : Type 0 where
  arr : List ℤ
  returns : r ≡ some arr
  same_length : length arr ≡ length xs
  same_items : SameItems arr xs
  sorted : (a b : ℕ) → a ≤ b → b < n → at arr a ≤ℤ at arr b

outer_loop-pass :
    (rounds i n : ℕ) (xs ys : List ℤ)
    → inner_loop (n - i - 1) 0 xs ≡ some ys
    → outer_loop (suc rounds) i n xs ≡ outer_loop rounds (suc i) n ys
unfolding outer_loop
outer_loop-pass rounds i n xs ys e = simp (e, ◌>>=◌)

outer_loop-ends :
    (rounds i n : ℕ) (xs : List ℤ)
    → i + rounds + 1 ≡ n
    → length xs ≡ n
    → Settled i n xs
    → LoopEnds n xs (outer_loop rounds i n xs)
unfolding outer_loop
outer_loop-ends zero i n xs e l s = record {
  arr = xs;
  returns = refl;
  same_length = refl;
  same_items = λ v. refl;
  sorted = λ a b p q. elim (dec_lt 0 b) [
    | yes c ↦ unfold Settled in s a b p q (omega arith)
    | no c ↦ subst (λ (k : ℕ). at xs a ≤ℤ at xs k) {x = a} {y = b} (omega arith) (omega arith)
  ];
}
outer_loop-ends (suc rounds) i n xs e l s =
    let m = n - i - 1 in
    let whole : n ≡ m + i + 1 = omega arith in
    let p = inner_loop-ends m 0 m xs (omega arith) (omega arith) (IsLargest-first xs) in
    let size : length p.arr ≡ length xs = p.kept.same_length in
    let r = outer_loop-ends rounds (suc i) n p.arr (omega arith) (omega arith) (
      subst (λ (k : ℕ). Settled (suc i) k p.arr) (sym whole)
        (Settled-pass i m xs p.arr (subst (λ (k : ℕ). Settled i k xs) whole s) p.kept p.largest)) in
    record {
      arr = r.arr;
      returns = outer_loop-pass rounds i n xs p.arr p.returns ∙ r.returns;
      same_length = r.same_length ∙ size;
      same_items = λ v. r.same_items v ∙ p.kept.same_items v;
      sorted = r.sorted;
    }

-- `bubbleSort` on any array reads no element out of bounds, and leaves an ascending array with the
-- same numbers, each as often.
pub bubble_sort-IsSortOf : (xs : List ℤ) → IsSortOf xs (bubble_sort xs)
unfolding bubble_sort Settled
bubble_sort-IsSortOf [] =
    unfold outer_loop in (IsSorted-of_at [] (λ i j a b. absurd (omega arith)), λ v. refl)
bubble_sort-IsSortOf (x ∷ xs) =
    let n = length (x ∷ xs) in
    let r =
      outer_loop-ends (n - 1) 0 n (x ∷ xs) (omega arith) refl (λ a b p q t. absurd (omega arith)) in
    let size : length r.arr ≡ n = r.same_length in
    subst (IsSortOf (x ∷ xs)) (sym r.returns)
      (IsSorted-of_at r.arr (λ i j a b. r.sorted i j a (omega arith)), r.same_items)
