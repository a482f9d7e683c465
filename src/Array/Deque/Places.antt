-- ===== src/Array/Deque/Places.antt =====
-- The place before another one in the circular array.
use dsalib.Core.{
  ℕ, zero, suc, ◌+◌, ◌-◌, ◌%◌, ◌<◌, ◌≡◌, refl, ap, ◌∙◌, List, [], ◌∷◌, arith, ◌==◌, if◌then◌else◌,
  length, set, get_or-set_self, ℤ, pos, negsuc, ◌+ℤ◌, ◌-ℤ◌,
}
use dsalib.Core.{int_laws}
use native.Mathlib.Nat.{mod-eq_of_lt}
use dsalib.Array.{rem}
use dsalib.Array.Ring.{after, values, values-set_before}

-- The place before another, round the end.
abbrev pub previous : (place size : ℕ) → ℕ
previous place size = if place == 0 then size - 1 else place - 1

pub rem-below : (x : ℤ) (n size : ℕ) → x ≡ pos n → n < size → rem x (pos size) ≡ pos n
unfolding rem
rem-below x n size e h = rw e (ap (λ (k : ℕ). pos (n % k)) plus ∙ ap pos (mod-eq_of_lt h))
  where
    plus : size + 0 ≡ size
    plus = omega arith

pub rem-round : (x : ℤ) (n size : ℕ) → x ≡ pos (size + n) → n < size → rem x (pos size) ≡ pos n
unfolding rem
rem-round x n size e h =
    rw e (ap (λ (k : ℕ). pos ((size + n) % k)) plus ∙ ap pos (round (size + n) size n refl h))
  where
    plus : size + 0 ≡ size
    plus = omega arith

    round : (m size n : ℕ) → m ≡ size + n → n < size → m % size ≡ n
    round m size n e h = grind arith

pub rem-previous :
    (place size : ℕ)
    → place < size
    → rem (pos place -ℤ pos 1 +ℤ pos size) (pos size) ≡ pos (previous place size)
rem-previous zero size h =
    rem-below (pos 0 -ℤ pos 1 +ℤ pos size) (size - 1) size (omega (int_laws, h)) (omega arith)
    ∙ ground arith
rem-previous (suc place) size h =
    rem-round (pos (suc place) -ℤ pos 1 +ℤ pos size) place size (omega int_laws) (omega arith)
    ∙ ground arith

-- The place that `insertFront` takes in an empty deque, whose front is -1.
abbrev pub first_place : (size : ℕ) → ℕ
first_place size = if size == 1 then 0 else size - 2

pub rem-one : rem (negsuc 0 -ℤ pos 1 +ℤ pos 1) (pos 1) ≡ pos 0
unfolding rem ◌-ℤ◌ ◌+ℤ◌
rem-one = refl

pub rem-first :
    (size : ℕ) → 0 < size → rem (negsuc 0 -ℤ pos 1 +ℤ pos size) (pos size) ≡ pos (first_place size)
rem-first zero h = absurd (omega arith)
rem-first (suc zero) h = rem-one
rem-first (suc (suc n)) h =
    rem-below (negsuc 0 -ℤ pos 1 +ℤ pos (suc (suc n))) n (suc (suc n)) (omega int_laws)
      (omega arith)
    ∙ ground arith

abbrev pub new_front : (head count size : ℕ) → ℕ
new_front head zero size = first_place size
new_front head (suc n) size = previous head size

pub new_front-lt : (head count size : ℕ) → head < size → new_front head count size < size
new_front-lt head zero size h = ground arith
new_front-lt head (suc n) size h = ground arith

pub values-new_front :
    (items : List ℤ) (head count size : ℕ) (item : ℤ)
    → length items ≡ size
    → head < size
    → count < size
    → values
        (set items (new_front head count size) item)
        (new_front head count size)
        size
        (suc count)
      ≡ item ∷ values items head size count
values-new_front items head zero size item l h room =
    ap (λ (x : ℤ). x ∷ []) (get_or-set_self items (first_place size) item (pos 0) (ground arith))
values-new_front items head (suc n) size item l h room =
    let place = previous head size in
    let next : after place size ≡ head = ground arith in
    rw (get_or-set_self items place item (pos 0) (ground arith)) (
      ap (λ (xs : List ℤ). item ∷ xs)
        (ap (λ (k : ℕ). values (set items place item) k size (suc n)) next
          ∙ values-set_before items head size (suc n) place 0 item h (ground arith) (ground arith)
              (omega arith)))
