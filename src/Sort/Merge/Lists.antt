-- ===== src/Sort/Merge/Lists.antt =====
-- Merging two lists, and stretches of a list.
use dsalib.Core.{
  take, drop, take-append-drop, length-take, length-drop, count-append, ℕ, zero, suc, ◌+◌, ◌-◌, ◌/◌,
  ◌≤◌, ◌<◌, ◌≡◌, refl, sym, ap, ◌∙◌, inl, inr, true, false, some, List, [], ◌∷◌, ◌++◌, arith, ltb,
  Bool-cases, length, get_elem?, set, length-append, ℤ, le_ℤ,
}
use dsalib.Core.{count, IsSorted, All, All-imp, ◌≤ℤ◌}
use mathlib.Core.Path.{ap₂}

pub merged : List ℤ → List ℤ → List ℤ
merged [] right = right
merged (x ∷ left) [] = x ∷ left
merged (x ∷ left) (y ∷ right) = elim (le_ℤ x y) [
  | true ↦ x ∷ merged left (y ∷ right)
  | false ↦ y ∷ merged (x ∷ left) right
]

pub merged-nil_left : (right : List ℤ) → merged [] right ≡ right
unfolding merged
merged-nil_left right = refl

pub merged-nil_right : (x : ℤ) (left : List ℤ) → merged (x ∷ left) [] ≡ x ∷ left
unfolding merged
merged-nil_right x left = refl

pub merged-left :
    (x y : ℤ) (left right : List ℤ)
    → le_ℤ x y ≡ true
    → merged (x ∷ left) (y ∷ right) ≡ x ∷ merged left (y ∷ right)
unfolding merged
merged-left x y left right h = rw (h, merged) refl

pub merged-right :
    (x y : ℤ) (left right : List ℤ)
    → le_ℤ x y ≡ false
    → merged (x ∷ left) (y ∷ right) ≡ y ∷ merged (x ∷ left) right
unfolding merged
merged-right x y left right h = rw (h, merged) refl

pub length-merged : (left right : List ℤ) → length (merged left right) ≡ length left + length right
unfolding merged
length-merged [] right = omega arith
length-merged (x ∷ left) [] = omega arith
length-merged (x ∷ left) (y ∷ right) =
    ground (arith, length-merged left (y ∷ right), length-merged (x ∷ left) right)

pub count-merged :
    (v : ℤ) (left right : List ℤ) → count v (merged left right) ≡ count v left + count v right
unfolding merged
count-merged v [] right = omega arith
count-merged v (x ∷ left) [] = omega arith
count-merged v (x ∷ left) (y ∷ right) =
    ground (arith, count-merged v left (y ∷ right), count-merged v (x ∷ left) right)

All-merged :
    (P : ℤ → Type 0) (left right : List ℤ) → All P left → All P right → All P (merged left right)
unfolding merged
All-merged P [] right a b = b
All-merged P (x ∷ left) [] a b = a
All-merged P (x ∷ left) (y ∷ right) (a, rest_left) (b, rest_right) = elim (Bool-cases (le_ℤ x y)) [
  | inl h ↦
      rw (merged-left x y left right h) (a, All-merged P left (y ∷ right) rest_left (b, rest_right))
  | inr h ↦
      rw (merged-right x y left right h)
        (b, All-merged P (x ∷ left) right (a, rest_left) rest_right)
]

pub merged-IsSorted :
    (left right : List ℤ) → IsSorted left → IsSorted right → IsSorted (merged left right)
unfolding merged IsSorted
merged-IsSorted [] right a b = b
merged-IsSorted (x ∷ left) [] a b = a
merged-IsSorted (x ∷ left) (y ∷ right) (above_x, a) (above_y, b) = elim (Bool-cases (le_ℤ x y)) [
  | inl h ↦
      let le : x ≤ℤ y = ground (arith, h) in
      let ys = All-imp right (λ z (k : y ≤ℤ z). omega arith) above_y in
      rw (merged-left x y left right h) (
        All-merged (λ z. x ≤ℤ z) left (y ∷ right) above_x (le, ys),
        merged-IsSorted left (y ∷ right) a (above_y, b),
      )
  | inr h ↦
      let le : y ≤ℤ x = ground (arith, h) in
      let xs = All-imp left (λ z (k : x ≤ℤ z). omega arith) above_x in
      rw (merged-right x y left right h) (
        All-merged (λ z. y ≤ℤ z) (x ∷ left) right (le, xs) above_y,
        merged-IsSorted (x ∷ left) right (above_x, a) b,
      )
]

-- The place behind a prefix.
pub get_elem?-prefix :
    (pre : List ℤ) (x : ℤ) (post : List ℤ) → get_elem? (pre ++ x ∷ post) (length pre) ≡ some x
get_elem?-prefix [] x post = refl
get_elem?-prefix (y ∷ pre) x post = get_elem?-prefix pre x post

pub set-prefix :
    (pre : List ℤ) (x y : ℤ) (post : List ℤ)
    → set (pre ++ x ∷ post) (length pre) y ≡ pre ++ y ∷ post
set-prefix [] x y post = refl
set-prefix (z ∷ pre) x y post = ap (λ (l : List ℤ). z ∷ l) (set-prefix pre x y post)

pub one_further : (pre : List ℤ) (x : ℤ) → length (pre ++ x ∷ []) ≡ suc (length pre)
one_further pre x = omega (arith, length-append pre (x ∷ []))

-- The merge sort of a list.
pub msort : ℕ → List ℤ → List ℤ
msort zero xs = xs
msort (suc fuel) xs = elim (ltb 1 (length xs)) [
  | false ↦ xs
  | true ↦
      let half = (length xs - 1) / 2 + 1 in
      merged (msort fuel (take half xs)) (msort fuel (drop half xs))
]

pub msort-short : (fuel : ℕ) (xs : List ℤ) → ltb 1 (length xs) ≡ false → msort (suc fuel) xs ≡ xs
unfolding msort
msort-short fuel xs h = rw (h, msort) refl

pub msort-long :
    (fuel : ℕ) (xs : List ℤ)
    → ltb 1 (length xs) ≡ true
    → msort (suc fuel) xs
      ≡ merged
          (msort fuel (take ((length xs - 1) / 2 + 1) xs))
          (msort fuel (drop ((length xs - 1) / 2 + 1) xs))
unfolding msort
msort-long fuel xs h = rw (h, msort) refl

half-le : (n k : ℕ) → 1 < n → k ≡ (n - 1) / 2 + 1 → k < n × 0 < k
half-le n k h e = (omega arith, omega arith)

pub length-take_half :
    (xs : List ℤ) (k : ℕ) → 1 < length xs → k ≡ (length xs - 1) / 2 + 1 → length (take k xs) ≡ k
length-take_half xs k h e = omega (arith, length-take k xs, half-le (length xs) k h e)

pub count-msort : (v : ℤ) (fuel : ℕ) (xs : List ℤ) → count v (msort fuel xs) ≡ count v xs
unfolding msort
count-msort v zero xs = refl
count-msort v (suc fuel) xs = elim (Bool-cases (ltb 1 (length xs))) [
  | inl h ↦
      let k = (length xs - 1) / 2 + 1 in
      let both =
        sym (count-append v (take k xs) (drop k xs)) ∙ ap (count v) (take-append-drop k xs) in
      rw (msort-long fuel xs h) (
        count-merged v (msort fuel (take k xs)) (msort fuel (drop k xs))
        ∙ ap₂ (λ a b. a + b) (count-msort v fuel (take k xs)) (count-msort v fuel (drop k xs))
        ∙ both)
  | inr h ↦ ap (count v) (msort-short fuel xs h)
]

pub length-msort : (fuel : ℕ) (xs : List ℤ) → length (msort fuel xs) ≡ length xs
unfolding msort
length-msort zero xs = refl
length-msort (suc fuel) xs = elim (Bool-cases (ltb 1 (length xs))) [
  | inl h ↦
      let k = (length xs - 1) / 2 + 1 in
      let both = sym (length-append (take k xs) (drop k xs)) ∙ ap length (take-append-drop k xs) in
      rw (msort-long fuel xs h) (
        length-merged (msort fuel (take k xs)) (msort fuel (drop k xs))
        ∙ ap₂ (λ a b. a + b) (length-msort fuel (take k xs)) (length-msort fuel (drop k xs))
        ∙ both)
  | inr h ↦ ap length (msort-short fuel xs h)
]

short-IsSorted : (xs : List ℤ) → length xs ≤ 1 → IsSorted xs
unfolding IsSorted
short-IsSorted [] h = tt
short-IsSorted (x ∷ []) h = (tt, tt)
short-IsSorted (x ∷ y ∷ xs) h = absurd (omega arith)

pub msort-IsSorted : (fuel : ℕ) (xs : List ℤ) → length xs ≤ fuel → IsSorted (msort fuel xs)
unfolding msort
msort-IsSorted zero xs h = short-IsSorted xs (omega arith)
msort-IsSorted (suc fuel) xs h = elim (Bool-cases (ltb 1 (length xs))) [
  | inl long ↦
      let k = (length xs - 1) / 2 + 1 in
      let more : 1 < length xs = ground (arith, long) in
      let bounds = half-le (length xs) k more refl in
      rw (msort-long fuel xs long) (
        merged-IsSorted (msort fuel (take k xs)) (msort fuel (drop k xs))
          (msort-IsSorted fuel (take k xs) (omega (arith, length-take k xs, bounds)))
          (msort-IsSorted fuel (drop k xs) (omega (arith, length-drop k xs, bounds))))
  | inr short ↦ rw (msort-short fuel xs short) (short-IsSorted xs (ground (arith, short)))
]
