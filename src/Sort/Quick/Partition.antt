-- ===== src/Sort/Quick/Partition.antt =====
-- What `partition` leaves: no element before the returned index is larger than the pivot there, and
-- none after it is smaller.
use dsalib.Core.{
  ℕ, zero, suc, ◌+◌, ◌-◌, ◌<◌, ◌≤◌, ◌≡◌, refl, ◌∙◌, arith, true, false, Bool-cases, Option, some,
  List, ℤ, lt_ℤ, ◌≤ℤ◌, length, inl, inr,
}
use native.Mathlib.Decide.{dec_lt}
use mathlib.Core.Path.{subst}
use dsalib.Sort.Array.{
  at, read, swap, swapped, swap-swapped, length-swapped, at-swapped_first, at-swapped_second,
  at-swapped_other, ◌>>=◌,
}
use dsalib.Sort.Range.{Rearranges, Rearranges-refl, Rearranges-trans, swapped-Rearranges}
use dsalib.Sort.Quick.{partition_loop, partition}

-- The loop at `j`: elements before `next` are at most the pivot, those from `next` to `j` at least.
pub record IsSplit (low next j high : ℕ) (pivot : ℤ) (xs : List ℤ) : Type 0 where
  pub low_next : low ≤ next
  pub next_j : next ≤ j
  pub j_high : j ≤ high
  pub inside : high < length xs
  pub last : at xs high ≡ pivot
  pub small : (k : ℕ) → low ≤ k → k < next → at xs k ≤ℤ pivot
  pub large : (k : ℕ) → next ≤ k → k < j → pivot ≤ℤ at xs k

-- An element that is not smaller stays where it is.
IsSplit-stay :
    (low next j high : ℕ) (pivot : ℤ) (xs : List ℤ)
    → IsSplit low next j high pivot xs
    → j < high
    → lt_ℤ (at xs j) pivot ≡ false
    → IsSplit low next (suc j) high pivot xs
IsSplit-stay low next j high pivot xs s h e = record {
  low_next = s.low_next;
  next_j = omega (arith, s.next_j);
  j_high = omega arith;
  inside = s.inside;
  last = s.last;
  small = s.small;
  large = λ k a b. elim (dec_lt k j) [
    | yes before ↦ s.large k a before
    | no not_before ↦
        let here : j ≡ k = omega arith in
        subst (λ (m : ℕ). pivot ≤ℤ at xs m) here (ground (arith, e))
  ];
}

-- A smaller element changes places with the first that is not.
IsSplit-swapped :
    (low next j high : ℕ) (pivot : ℤ) (xs : List ℤ)
    → IsSplit low next j high pivot xs
    → j < high
    → lt_ℤ (at xs j) pivot ≡ true
    → IsSplit low (suc next) (suc j) high pivot (swapped xs next j)
IsSplit-swapped low next j high pivot xs s h e =
    let before : next ≤ j = s.next_j in
    let inside : high < length xs = s.inside in
    record {
      low_next = omega (arith, s.low_next);
      next_j = omega arith;
      j_high = omega arith;
      inside = omega (arith, length-swapped xs next j);
      last = at-swapped_other xs next j high (omega arith) (omega arith) ∙ s.last;
      small = λ k a b. elim (dec_lt k next) [
        | yes c ↦ rw (at-swapped_other xs next j k (omega arith) (omega arith)) (s.small k a c)
        | no c ↦
            let here : next ≡ k = omega arith in
            subst (λ (m : ℕ). at (swapped xs next j) m ≤ℤ pivot) here
              (rw (at-swapped_first xs next j (omega arith) (omega arith)) (ground (arith, e)))
      ];
      large = λ k a b. elim (dec_lt k j) [
        | yes c ↦
            rw (at-swapped_other xs next j k (omega arith) (omega arith))
              (s.large k (omega arith) c)
        | no c ↦
            let here : j ≡ k = omega arith in
            subst (λ (m : ℕ). pivot ≤ℤ at (swapped xs next j) m) here
              (rw (at-swapped_second xs next j (omega arith))
                (s.large next (omega arith) (omega arith)))
      ];
    }

loop-swaps :
    (rounds j next : ℕ) (pivot : ℤ) (xs : List ℤ)
    → next < length xs
    → j < length xs
    → lt_ℤ (at xs j) pivot ≡ true
    → partition_loop (suc rounds) j next pivot xs
      ≡ partition_loop rounds (suc j) (suc next) pivot (swapped xs next j)
unfolding partition_loop swap swapped
loop-swaps rounds j next pivot xs p q e = simp (read xs j q, read xs next p, e, ◌>>=◌)

loop-stays :
    (rounds j next : ℕ) (pivot : ℤ) (xs : List ℤ)
    → j < length xs
    → lt_ℤ (at xs j) pivot ≡ false
    → partition_loop (suc rounds) j next pivot xs ≡ partition_loop rounds (suc j) next pivot xs
unfolding partition_loop
loop-stays rounds j next pivot xs q e = simp (read xs j q, e, ◌>>=◌)

-- What the loop returns.
pub record LoopEnds (low high : ℕ) (pivot : ℤ) (xs : List ℤ) (r : Option (List ℤ × ℕ))
    : Type 0 where
  pub arr : List ℤ
  pub next : ℕ
  pub returns : r ≡ some (arr, next)
  pub kept : Rearranges low high xs arr
  pub split : IsSplit low next high high pivot arr

partition_loop-ends :
    (rounds low next j high : ℕ) (pivot : ℤ) (xs : List ℤ)
    → j + rounds ≡ high
    → IsSplit low next j high pivot xs
    → LoopEnds low high pivot xs (partition_loop rounds j next pivot xs)
unfolding partition_loop
partition_loop-ends zero low next j high pivot xs e s = record {
  arr = xs;
  next = next;
  returns = refl;
  kept = Rearranges-refl low high xs;
  split = subst (λ (m : ℕ). IsSplit low next m high pivot xs) (omega arith) s;
}
partition_loop-ends (suc rounds) low next j high pivot xs e s =
    let before : next ≤ j = s.next_j in
    let after : low ≤ next = s.low_next in
    let inside : high < length xs = s.inside in
    elim (Bool-cases (lt_ℤ (at xs j) pivot)) [
      | inl smaller ↦
          let ys = swapped xs next j in
          let r =
            partition_loop-ends rounds low (suc next) (suc j) high pivot ys (omega arith)
              (IsSplit-swapped low next j high pivot xs s (omega arith) smaller) in
          record {
            arr = r.arr;
            next = r.next;
            returns =
                loop-swaps rounds j next pivot xs (omega arith) (omega arith) smaller ∙ r.returns;
            kept =
                Rearranges-trans low high xs ys r.arr
                  (swapped-Rearranges low high next j xs after (omega arith) (omega arith)
                    (omega arith) inside)
                  r.kept;
            split = r.split;
          }
      | inr larger ↦
          let r =
            partition_loop-ends rounds low next (suc j) high pivot xs (omega arith)
              (IsSplit-stay low next j high pivot xs s (omega arith) larger) in
          record {
            arr = r.arr;
            next = r.next;
            returns = loop-stays rounds j next pivot xs (omega arith) larger ∙ r.returns;
            kept = r.kept;
            split = r.split;
          }
    ]

-- What `partition` returns: a rearrangement of the range with the pivot at the index `pi`.
pub record Partitioned (low high : ℕ) (xs : List ℤ) (r : Option (List ℤ × ℕ)) : Type 0 where
  pub arr : List ℤ
  pub pi : ℕ
  pub returns : r ≡ some (arr, pi)
  pub low_pi : low ≤ pi
  pub pi_high : pi ≤ high
  pub kept : Rearranges low high xs arr
  pub small : (k : ℕ) → low ≤ k → k ≤ pi → at arr k ≤ℤ at arr pi
  pub large : (k : ℕ) → pi ≤ k → k ≤ high → at arr pi ≤ℤ at arr k

ap_le : (xs : List ℤ) (i j : ℕ) → i ≡ j → at xs i ≤ℤ at xs j
ap_le xs i j e = subst (λ (m : ℕ). at xs i ≤ℤ at xs m) e (omega arith)

-- The last swap of `partition` puts the pivot between the two parts.
IsSplit-last :
    (low next high k : ℕ) (pivot : ℤ) (xs : List ℤ)
    → IsSplit low next high high pivot xs
    → (at (swapped xs next high) next ≡ pivot)
      × ((low ≤ k → k < next → at (swapped xs next high) k ≤ℤ pivot)
          × (next < k → k ≤ high → pivot ≤ℤ at (swapped xs next high) k))
IsSplit-last low next high k pivot xs s =
    let before : next ≤ high = s.next_j in
    let inside : high < length xs = s.inside in
    (
      at-swapped_first xs next high (omega arith) inside ∙ s.last,
      (
        λ a b. rw (at-swapped_other xs next high k (omega arith) (omega arith)) (s.small k a b),
        λ a b. elim (dec_lt k high) [
          | yes c ↦
              rw (at-swapped_other xs next high k (omega arith) (omega arith))
                (s.large k (omega arith) c)
          | no c ↦
              let here : high ≡ k = omega arith in
              subst (λ (m : ℕ). pivot ≤ℤ at (swapped xs next high) m) here
                (rw (at-swapped_second xs next high inside)
                  (s.large next (omega arith) (omega arith)))
        ],
      ),
    )

pub partition-Partitioned :
    (xs : List ℤ) (low high : ℕ)
    → low < high
    → high < length xs
    → Partitioned low high xs (partition xs low high)
unfolding partition
partition-Partitioned xs low high p q =
    let pivot = at xs high in
    let r = partition_loop-ends (high - low) low low low high pivot xs (omega arith) record {
      low_next = omega arith;
      next_j = omega arith;
      j_high = omega arith;
      inside = q;
      last = refl;
      small = λ k a b. absurd (omega arith);
      large = λ k a b. absurd (omega arith);
    } in
    let inside : high < length r.arr = r.split.inside in
    let low_pi : low ≤ r.next = r.split.low_next in
    let pi_high : r.next ≤ high = r.split.next_j in
    let ys = swapped r.arr r.next high in
    record {
      arr = ys;
      pi = r.next;
      returns =
          simp
            (read xs high q, r.returns, swap-swapped r.arr r.next high (omega arith) inside, ◌>>=◌);
      low_pi = low_pi;
      pi_high = pi_high;
      kept = Rearranges-trans low high xs r.arr ys r.kept (
          swapped-Rearranges low high r.next high r.arr low_pi pi_high (omega arith) (omega arith)
            inside);
      small = λ k a b.
          let s = IsSplit-last low r.next high k pivot r.arr r.split in
          elim (dec_lt k r.next) [
            | yes c ↦ rw s.0 (s.1.0 a c)
            | no c ↦ ap_le ys k r.next (omega arith)
          ];
      large = λ k a b.
          let s = IsSplit-last low r.next high k pivot r.arr r.split in
          elim (dec_lt r.next k) [
            | yes c ↦ rw s.0 (s.1.1 c b)
            | no c ↦ ap_le ys r.next k (omega arith)
          ];
    }
