-- ===== src/Sort/Quick/Sorts.antt =====
-- `quickSort` sorts its range and keeps its items.
use dsalib.Core.{
  ℕ, zero, suc, ◌+◌, ◌-◌, ◌<◌, ◌≤◌, ◌≡◌, refl, sym, ◌∙◌, arith, true, Option, some, List, [], ◌∷◌,
  ℤ, ◌≤ℤ◌, length, inl, inr, ltb,
}
use native.Mathlib.Decide.{dec_lt}
use mathlib.Core.Path.{subst}
use dsalib.Sort.Array.{at, IsSorted-of_at, ◌>>=◌}
use dsalib.Sort.Range.{
  Rearranges, Rearranges-refl, Rearranges-trans, Rearranges-widen, SortedBetween, IsSortOf,
}
use dsalib.Sort.Quick.{partition, quick_sort, sort_all}
use dsalib.Sort.Quick.Partition.{partition-Partitioned}

-- What a call on a range returns: a rearrangement of it that ascends.
pub record SortsRange (low high : ℕ) (xs : List ℤ) (r : Option (List ℤ)) : Type 0 where
  pub arr : List ℤ
  pub returns : r ≡ some arr
  pub kept : Rearranges low high xs arr
  pub sorted : SortedBetween low high arr

-- A range of one element at most ascends.
SortedBetween-short : (low high : ℕ) (xs : List ℤ) → high ≤ low → SortedBetween low high xs
SortedBetween-short low high xs h i j a b c =
    subst (λ (m : ℕ). at xs i ≤ℤ at xs m) {x = i} {y = j} (omega arith) (omega arith)

-- The elements up to the pivot are still at most the pivot when those before it are sorted.
after_left :
    (low high pi : ℕ) (xs ys : List ℤ)
    → low < pi
    → pi ≤ high
    → SortedBetween low (pi - 1) ys
    → Rearranges low (pi - 1) xs ys
    → ((k : ℕ) → low ≤ k → k ≤ pi → at xs k ≤ℤ at xs pi)
    → ((k : ℕ) → low ≤ k → k ≤ pi → at ys k ≤ℤ at ys pi)
after_left low high pi xs ys p q sorted kept small k a b =
    let middle : at ys pi ≡ at xs pi = kept.outside pi (inr (omega arith)) in
    elim (dec_lt k pi) [
      | yes c ↦
          rw middle (kept.upper (at xs pi) (λ m d e. small m d (omega arith)) k a (omega arith))
      | no c ↦ subst (λ (m : ℕ). at ys k ≤ℤ at ys m) {x = k} {y = pi} (omega arith) (omega arith)
    ]

-- A call on a range of one element at most returns the array.
quick_sort-short :
    (fuel : ℕ) (xs : List ℤ) (low high : ℕ)
    → 0 < fuel
    → high ≤ low
    → quick_sort fuel xs low high ≡ some xs
unfolding quick_sort
quick_sort-short zero xs low high f h = absurd (omega arith)
quick_sort-short (suc fuel) xs low high f h = ground arith

-- The array after the recursive call on the elements before the pivot.
record LeftSorted (low high pi : ℕ) (xs : List ℤ) (r : Option (List ℤ)) : Type 0 where
  arr : List ℤ
  returns : r ≡ some arr
  kept : Rearranges low high xs arr
  sorted : (i j : ℕ) → low ≤ i → i ≤ j → j < pi → at arr i ≤ℤ at arr j
  small : (k : ℕ) → low ≤ k → k ≤ pi → at arr k ≤ℤ at arr pi
  same_right : (k : ℕ) → pi ≤ k → at arr k ≡ at xs k

left_sorted :
    (fuel low high pi : ℕ) (xs : List ℤ)
    → 0 < fuel
    → low ≤ pi
    → pi ≤ high
    → ((k : ℕ) → low ≤ k → k ≤ pi → at xs k ≤ℤ at xs pi)
    → SortsRange low (pi - 1) xs (quick_sort fuel xs low (pi - 1))
    → LeftSorted low high pi xs (quick_sort fuel xs low (pi - 1))
left_sorted fuel low high pi xs f p q small left = elim (dec_lt low pi) [
  | yes c ↦ record {
    arr = left.arr;
    returns = left.returns;
    kept = Rearranges-widen low high low (pi - 1) xs left.arr (omega arith) (omega arith) left.kept;
    sorted = λ i j a b d. left.sorted i j a b (omega arith);
    small = after_left low high pi xs left.arr c q left.sorted left.kept small;
    same_right = λ k a. left.kept.outside k (inr (omega arith));
  }
  | no c ↦ record {
    arr = xs;
    returns = quick_sort-short fuel xs low (pi - 1) f (omega arith);
    kept = Rearranges-refl low high xs;
    sorted = λ i j a b d. absurd (omega arith);
    small = small;
    same_right = λ k a. refl;
  }
]

-- Both sides of the pivot are sorted: so is the range.
join_sorted :
    (low high pi : ℕ) (ys zs : List ℤ)
    → ((i j : ℕ) → low ≤ i → i ≤ j → j < pi → at ys i ≤ℤ at ys j)
    → ((k : ℕ) → low ≤ k → k ≤ pi → at ys k ≤ℤ at ys pi)
    → ((k : ℕ) → pi ≤ k → k ≤ high → at ys pi ≤ℤ at ys k)
    → Rearranges (pi + 1) high ys zs
    → SortedBetween (pi + 1) high zs
    → SortedBetween low high zs
join_sorted low high pi ys zs sorted small large kept right i j a b c =
    let same_left = λ (k : ℕ) (h : k ≤ pi). kept.outside k (inl (omega arith)) in
    let above = kept.lower (at ys pi) (λ k d e. large k (omega arith) e) in
    elim (dec_lt pi i) [
      | yes d ↦ right i j (omega arith) b c
      | no d ↦ elim (dec_lt pi j) [
        | yes e ↦
            rw (same_left i (omega arith))
              (omega (arith, small i a (omega arith), above j (omega arith) c))
        | no e ↦
            rw (same_left i (omega arith), same_left j (omega arith))
              (elim (dec_lt j pi) [
                | yes g ↦ sorted i j a b g
                | no g ↦
                    subst (λ (m : ℕ). at ys i ≤ℤ at ys m) {x = pi} {y = j} (omega arith)
                      (small i a (omega arith))
              ])
      ]
    ]

quick_sort-calls :
    (fuel : ℕ) (xs ys zs : List ℤ) (low high pi : ℕ)
    → ltb low high ≡ true
    → partition xs low high ≡ some (ys, pi)
    → quick_sort fuel ys low (pi - 1) ≡ some zs
    → quick_sort (suc fuel) xs low high ≡ quick_sort fuel zs (pi + 1) high
unfolding quick_sort
quick_sort-calls fuel xs ys zs low high pi h p q = rw (quick_sort, h) (simp (p, q, ◌>>=◌))

pub quick_sort-SortsRange :
    (fuel : ℕ) (xs : List ℤ) (low high : ℕ)
    → 0 < fuel
    → high < fuel + low
    → high < length xs
    → SortsRange low high xs (quick_sort fuel xs low high)
quick_sort-SortsRange zero xs low high f g h = absurd (omega arith)
quick_sort-SortsRange (suc fuel) xs low high f g h = elim (dec_lt low high) [
  | no c ↦ record {
    arr = xs;
    returns = quick_sort-short (suc fuel) xs low high f (omega arith);
    kept = Rearranges-refl low high xs;
    sorted = SortedBetween-short low high xs (omega arith);
  }
  | yes c ↦
      let p = partition-Partitioned xs low high c h in
      let low_pi : low ≤ p.pi = p.low_pi in
      let pi_high : p.pi ≤ high = p.pi_high in
      let size : length p.arr ≡ length xs = p.kept.same_length in
      let left = left_sorted fuel low high p.pi p.arr (omega arith) low_pi pi_high p.small (
        quick_sort-SortsRange fuel p.arr low (p.pi - 1) (omega arith) (omega arith)
          (omega arith)) in
      let size_left : length left.arr ≡ length p.arr = left.kept.same_length in
      let right =
        quick_sort-SortsRange fuel left.arr (p.pi + 1) high (omega arith) (omega arith)
          (omega arith) in
      record {
        arr = right.arr;
        returns =
            quick_sort-calls fuel xs p.arr left.arr low high p.pi (ground arith) p.returns
              left.returns
            ∙ right.returns;
        kept = Rearranges-trans low high xs p.arr right.arr p.kept (
            Rearranges-trans low high p.arr left.arr right.arr left.kept (
              Rearranges-widen low high (p.pi + 1) high left.arr right.arr (omega arith)
                (omega arith) right.kept));
        sorted =
            join_sorted low high p.pi left.arr right.arr left.sorted left.small
              (λ k a b.
                rw (left.same_right k a, left.same_right p.pi (omega arith)) (p.large k a b))
              right.kept right.sorted;
      }
]

-- The call in `main` on any array neither reads out of bounds nor runs out of fuel, and it leaves an
-- ascending array with the same numbers, each as often.
pub sort_all-IsSortOf : (xs : List ℤ) → IsSortOf xs (sort_all xs)
unfolding sort_all
sort_all-IsSortOf [] =
    subst (IsSortOf []) (sym (quick_sort-short 1 [] 0 0 (omega arith) (omega arith)))
      (IsSorted-of_at [] (λ i j a b. absurd (omega arith)), λ v. refl)
sort_all-IsSortOf (x ∷ xs) =
    let r =
      quick_sort-SortsRange (length (x ∷ xs) + 1) (x ∷ xs) 0 (length (x ∷ xs) - 1) (omega arith)
        (omega arith) (omega arith) in
    let size : length r.arr ≡ length (x ∷ xs) = r.kept.same_length in
    subst (IsSortOf (x ∷ xs)) (sym r.returns) (
      IsSorted-of_at r.arr (λ i j a b. r.sorted i j (omega arith) a (omega arith)),
      r.kept.same_items,
    )
