-- ===== src/Array/Set/Window.antt =====
-- Stretches of an array, and how often they have a value.
use dsalib.Core.{
  ℕ, zero, suc, ◌+◌, ◌≤◌, ◌<◌, ◌≡◌, refl, sym, ap, ◌∙◌, subst, ◌≢◌, ◌⊎◌, inl, inr, List, [], ◌∷◌,
  arith, ◌==◌, Bool-cases, length, set, get_or, get_or-set_self, get_or-set_ne, ℤ, pos,
}
use dsalib.Core.{count, same}

-- So many values of the array from a place on.
abbrev pub window : List ℤ → (i n : ℕ) → List ℤ
window items i zero = []
window items i (suc n) = get_or items i (pos 0) ∷ window items (suc i) n

pub window-set :
    (items : List ℤ) (i n j : ℕ) (v : ℤ)
    → (j < i) ⊎ (i + n ≤ j)
    → window (set items j v) i n ≡ window items i n
window-set items i zero j v h = refl
window-set items i (suc n) j v h =
    let apart : j ≢ i = (λ (e : j ≡ i). ground (arith, h, e)) in
    rw (get_or-set_ne items j i v (pos 0) apart, window-set items (suc i) n j v (ground (arith, h)))
      refl

pub count-window-suc :
    (v : ℤ) (items : List ℤ) (i n : ℕ)
    → count v (window items i (suc n))
      ≡ count v (window items i n) + same v (get_or items (i + n) (pos 0))
count-window-suc v items i zero =
    ap (λ (k : ℕ). same v (get_or items k (pos 0)) + 0) (plus i) ∙ omega arith
  where
    plus : (i : ℕ) → i ≡ i + 0
    plus i = omega arith
count-window-suc v items i (suc n) =
    let e : suc i + n ≡ i + suc n = omega arith in
    ap (λ (k : ℕ). same v (get_or items i (pos 0)) + k)
      (count-window-suc v items (suc i) n
        ∙ ap (λ (k : ℕ). count v (window items (suc i) n) + same v (get_or items k (pos 0))) e)
    ∙ omega arith

pub count-window-set_first :
    (v : ℤ) (items : List ℤ) (i n : ℕ) (w : ℤ)
    → i < length items
    → count v (window (set items i w) i (suc n)) + same v (get_or items i (pos 0))
      ≡ count v (window items i (suc n)) + same v w
count-window-set_first v items i n w l =
    rw (window-set items (suc i) n i w (inl (omega arith)), get_or-set_self items i w (pos 0) l)
      (omega arith)

pub count-window-set :
    (v : ℤ) (items : List ℤ) (i n j : ℕ) (w : ℤ)
    → i ≤ j
    → j < i + n
    → j < length items
    → count v (window (set items j w) i n) + same v (get_or items j (pos 0))
      ≡ count v (window items i n) + same v w
count-window-set v items i zero j w h k l = absurd (omega arith)
count-window-set v items i (suc n) j w h k l = elim (Bool-cases (j == i)) [
  | inl here ↦
      let e : j ≡ i = ground (arith, here) in
      subst
        (λ (j : ℕ).
          count v (window (set items j w) i (suc n)) + same v (get_or items j (pos 0))
          ≡ count v (window items i (suc n)) + same v w)
        (sym e) (count-window-set_first v items i n w (omega (arith, e)))
  | inr there ↦
      let apart : j ≢ i = (λ (e : j ≡ i). ground (arith, there, e)) in
      rw (get_or-set_ne items j i w (pos 0) apart) (
        omega
          (arith, count-window-set v items (suc i) n j w (ground (arith, there)) (omega arith) l))
]

pub count-window-last :
    (v : ℤ) (items : List ℤ) (m : ℕ)
    → count v (window items 0 (suc m))
      ≡ count v (window items 0 m) + same v (get_or items m (pos 0))
count-window-last v items m =
    count-window-suc v items 0 m
    ∙ ap (λ (k : ℕ). count v (window items 0 m) + same v (get_or items k (pos 0))) (plus m)
  where
    plus : (m : ℕ) → 0 + m ≡ m
    plus m = omega arith

pub move_last :
    (v : ℤ) (items : List ℤ) (i m : ℕ)
    → i ≤ m
    → m < length items
    → count v (window (set items i (get_or items m (pos 0))) 0 m) + same v (get_or items i (pos 0))
      ≡ count v (window items 0 (suc m))
move_last v items i m h l = elim (Bool-cases (i == m)) [
  | inl at_end ↦
      let e : i ≡ m = ground (arith, at_end) in
      ap (λ (xs : List ℤ). count v xs + same v (get_or items i (pos 0)))
        (window-set items 0 m i (get_or items m (pos 0)) (inr (omega arith)))
      ∙ ap (λ (k : ℕ). count v (window items 0 m) + same v (get_or items k (pos 0))) e
      ∙ sym (count-window-last v items m)
  | inr before ↦
      count-window-set v items 0 m i (get_or items m (pos 0)) (omega arith)
        (ground (arith, before, h)) (omega arith)
      ∙ sym (count-window-last v items m)
]
