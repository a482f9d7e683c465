-- ===== src/Sort/Merge/Sorts.antt =====
-- The merge sort of an array is the merge sort of a list.
use dsalib.Core.{
  take, drop, take-append-drop, length-drop, ℕ, zero, suc, ◌+◌, ◌-◌, ◌/◌, ◌≤◌, ◌<◌, ◌≡◌, refl, sym,
  ap, ◌∙◌, inl, inr, true, false, some, List, [], ◌∷◌, ◌++◌, arith, ltb, Bool-cases, length,
  length-append, ℤ, le_ℤ,
}
use mathlib.Core.List.{append_assoc, append-nil}
use dsalib.Sort.Array.{◌>>=◌}
use dsalib.Sort.Range.{IsSortOf}
use dsalib.Sort.Merge.{copy_range, store, copy_back, merge_loop, merge, merge_sort, merge_sort_all}
use dsalib.Sort.Merge.Lists.{
  merged, merged-nil_left, merged-nil_right, merged-left, merged-right, get_elem?-prefix,
  set-prefix, one_further, msort, msort-short, msort-long, length-take_half, count-msort,
  length-msort, msort-IsSorted,
}

-- Reading a stretch behind a prefix gives it.
copy_range-prefix :
    (mid pre post : List ℤ) → copy_range (length mid) (length pre) (pre ++ (mid ++ post)) ≡ some mid
unfolding copy_range
copy_range-prefix [] pre post = refl
copy_range-prefix (x ∷ mid) pre post =
    let ih = copy_range-prefix mid (pre ++ x ∷ []) post in
    let there : copy_range (length mid) (suc (length pre)) (pre ++ (x ∷ mid ++ post)) ≡ some mid =
      cc (ih, one_further pre x, append_assoc pre (x ∷ []) (mid ++ post)) in
    rw (get_elem?-prefix pre x (mid ++ post)) (rw there refl)

store-prefix :
    (pre : List ℤ) (x y : ℤ) (post : List ℤ)
    → store (pre ++ x ∷ post) (length pre) y ≡ some (pre ++ y ∷ post)
unfolding store
store-prefix pre x y post =
    let inside : ltb (length pre) (length (pre ++ x ∷ post)) ≡ true =
      ground (arith, length-append pre (x ∷ post)) in
    rw inside (ap some (set-prefix pre x y post))

copy_back-prefix :
    (xs pre old post : List ℤ)
    → length old ≡ length xs
    → copy_back xs (length pre) (pre ++ (old ++ post)) ≡ some (pre ++ (xs ++ post))
unfolding copy_back
copy_back-prefix [] pre [] post e = refl
copy_back-prefix [] pre (o ∷ old) post e = absurd (omega arith)
copy_back-prefix (x ∷ xs) pre [] post e = absurd (omega arith)
copy_back-prefix (x ∷ xs) pre (o ∷ old) post e =
    let ih = copy_back-prefix xs (pre ++ x ∷ []) old post (omega arith) in
    rw (store-prefix pre o x (old ++ post)) (
      cc (
        ih,
        one_further pre x,
        append_assoc pre (x ∷ []) (old ++ post),
        append_assoc pre (x ∷ []) (xs ++ post),
      ))

merge_loop-left :
    (x y : ℤ) (left right : List ℤ) (k : ℕ) (a : List ℤ)
    → le_ℤ x y ≡ true
    → merge_loop (x ∷ left) (y ∷ right) k a
      ≡ (store a k x >>= λ b. merge_loop left (y ∷ right) (suc k) b)
unfolding merge_loop
merge_loop-left x y left right k a h = rw (h, merge_loop) refl

merge_loop-right :
    (x y : ℤ) (left right : List ℤ) (k : ℕ) (a : List ℤ)
    → le_ℤ x y ≡ false
    → merge_loop (x ∷ left) (y ∷ right) k a
      ≡ (store a k y >>= λ b. merge_loop (x ∷ left) right (suc k) b)
unfolding merge_loop
merge_loop-right x y left right k a h = rw (h, merge_loop) refl

-- The loop merges into the stretch behind the prefix.
merge_loop-prefix :
    (left right pre old post : List ℤ)
    → length old ≡ length left + length right
    → merge_loop left right (length pre) (pre ++ (old ++ post))
      ≡ some (pre ++ (merged left right ++ post))
unfolding merge_loop
merge_loop-prefix [] right pre old post e =
    rw (merged-nil_left right) (copy_back-prefix right pre old post (omega arith))
merge_loop-prefix (x ∷ left) [] pre old post e =
    rw (merged-nil_right x left) (copy_back-prefix (x ∷ left) pre old post (omega arith))
merge_loop-prefix (x ∷ left) (y ∷ right) pre [] post e = absurd (omega arith)
merge_loop-prefix (x ∷ left) (y ∷ right) pre (o ∷ old) post e = elim (Bool-cases (le_ℤ x y)) [
  | inl h ↦
      let ih = merge_loop-prefix left (y ∷ right) (pre ++ x ∷ []) old post (omega arith) in
      rw (merge_loop-left x y left right (length pre) (pre ++ (o ∷ old ++ post)) h) (
        rw (store-prefix pre o x (old ++ post)) (
          rw (merged-left x y left right h) (
            cc (
              ih,
              one_further pre x,
              append_assoc pre (x ∷ []) (old ++ post),
              append_assoc pre (x ∷ []) (merged left (y ∷ right) ++ post),
            ))))
  | inr h ↦
      let ih = merge_loop-prefix (x ∷ left) right (pre ++ y ∷ []) old post (omega arith) in
      rw (merge_loop-right x y left right (length pre) (pre ++ (o ∷ old ++ post)) h) (
        rw (store-prefix pre o y (old ++ post)) (
          rw (merged-right x y left right h) (
            cc (
              ih,
              one_further pre y,
              append_assoc pre (y ∷ []) (old ++ post),
              append_assoc pre (y ∷ []) (merged (x ∷ left) right ++ post),
            ))))
]

merge-prefix :
    (pre left right post : List ℤ) (l m r : ℕ)
    → l ≡ length pre
    → suc m ≡ l + length left
    → r ≡ m + length right
    → 0 < length left
    → merge (pre ++ (left ++ (right ++ post))) l m r ≡ some (pre ++ (merged left right ++ post))
unfolding merge
merge-prefix pre left right post l m r el em er some_left =
    let en : m - l + 1 ≡ length left = omega arith in
    let ek : r - m ≡ length right = omega arith in
    let second : m + 1 ≡ length (pre ++ left) = omega (arith, length-append pre left) in
    let from_left = copy_range-prefix left pre (right ++ post) in
    let from_right = copy_range-prefix right (pre ++ left) post in
    let to = merge_loop-prefix left right pre (left ++ right) post (length-append left right) in
    let a = pre ++ (left ++ (right ++ post)) in
    let read_left : copy_range (m - l + 1) l a ≡ some left = cc (from_left, en, el) in
    let read_right : copy_range (r - m) (m + 1) a ≡ some right =
      cc (from_right, ek, second, append_assoc pre left (right ++ post)) in
    rw read_left (rw read_right (cc (to, el, append_assoc left right post)))

merge_sort-long :
    (fuel : ℕ) (a b c : List ℤ) (l m r : ℕ)
    → ltb l r ≡ true
    → m ≡ l + (r - l) / 2
    → merge_sort fuel a l m ≡ some b
    → merge_sort fuel b (m + 1) r ≡ some c
    → merge_sort (suc fuel) a l r ≡ merge c l m r
unfolding merge_sort
merge_sort-long fuel a b c l m r h e p q = rw (h, merge_sort) (rw (sym e) (rw p (rw q refl)))

merge_sort-short :
    (fuel : ℕ) (a : List ℤ) (l r : ℕ) → ltb l r ≡ false → merge_sort (suc fuel) a l r ≡ some a
unfolding merge_sort
merge_sort-short fuel a l r h = rw (h, merge_sort) refl

-- The range from `l` to `r` is sorted as a list, and the rest of the array is kept.
merge_sort-range :
    (fuel : ℕ) (pre mid post : List ℤ) (l r : ℕ)
    → l ≡ length pre
    → suc r ≡ l + length mid
    → 0 < length mid
    → length mid ≤ fuel
    → merge_sort fuel (pre ++ (mid ++ post)) l r ≡ some (pre ++ (msort fuel mid ++ post))
merge_sort-range zero pre mid post l r el er n f = absurd (omega arith)
merge_sort-range (suc fuel) pre mid post l r el er n f = elim (Bool-cases (ltb l r)) [
  | inr h ↦
      let one : ltb 1 (length mid) ≡ false = ground (arith, h) in
      rw (msort-short fuel mid one) (merge_sort-short fuel (pre ++ (mid ++ post)) l r h)
  | inl h ↦
      let more : 1 < length mid = ground (arith, h) in
      let long : ltb 1 (length mid) ≡ true = ground (arith, more) in
      let k = (length mid - 1) / 2 + 1 in
      let m = l + (r - l) / 2 in
      let left = take k mid in
      let right = drop k mid in
      let sl = msort fuel left in
      let sr = msort fuel right in
      let nl : length left ≡ k = length-take_half mid k more refl in
      let nr : length right ≡ length mid - k = length-drop k mid in
      let first =
        merge_sort-range fuel pre left (right ++ post) l m el (omega arith) (omega arith)
          (omega arith) in
      let ns = length-msort fuel left in
      let second =
        merge_sort-range fuel (pre ++ sl) right post (m + 1) r (omega (arith, length-append pre sl))
          (omega arith) (omega arith) (omega arith) in
      let all = take-append-drop k mid in
      let first' : merge_sort fuel (pre ++ (mid ++ post)) l m
          ≡ some (pre ++ (sl ++ (right ++ post))) =
        cc (first, all, append_assoc left right post) in
      let second' : merge_sort fuel (pre ++ (sl ++ (right ++ post))) (m + 1) r
          ≡ some (pre ++ (sl ++ (sr ++ post))) =
        cc (second, append_assoc pre sl (right ++ post), append_assoc pre sl (sr ++ post)) in
      rw (msort-long fuel mid long) (
        merge_sort-long fuel (pre ++ (mid ++ post)) (pre ++ (sl ++ (right ++ post)))
          (pre ++ (sl ++ (sr ++ post))) l m r h refl first' second'
        ∙ merge-prefix pre sl sr post l m r el (omega arith)
            (omega (arith, length-msort fuel right)) (omega arith))
]

merge_sort_all-msort : (xs : List ℤ) → merge_sort_all xs ≡ some (msort (length xs + 1) xs)
unfolding merge_sort_all
merge_sort_all-msort [] = merge_sort-short 0 [] 0 0 refl ∙ sym (ap some (msort-short 0 [] refl))
merge_sort_all-msort (x ∷ rest) =
    let xs = x ∷ rest in
    let sorted =
      merge_sort-range (length xs + 1) [] xs [] 0 (length xs - 1) refl (omega arith) (omega arith)
        (omega arith) in
    cc (sorted, append-nil xs, append-nil (msort (length xs + 1) xs))

-- Merge sort on a whole array writes only inside the array, ends, and leaves the elements in ascending
-- order, each as often as before.
pub merge_sort_all-IsSortOf : (xs : List ℤ) → IsSortOf xs (merge_sort_all xs)
merge_sort_all-IsSortOf xs =
    rw (merge_sort_all-msort xs)
      (msort-IsSorted (length xs + 1) xs (omega arith), λ v. count-msort v (length xs + 1) xs)
