-- ===== src/Tree/Nary/Cut.antt =====
-- A list without one stretch of it.
use dsalib.Core.{◌≡◌, ap, sym, ◌∙◌, List, ◌++◌, ℤ}
use mathlib.Core.List.{append_assoc}

-- `after` is `before` without one stretch, which is `cut`.
pub record Cut (before cut after : List ℤ) : Type 0 where
  pub front : List ℤ
  pub back : List ℤ
  pub whole : before ≡ front ++ (cut ++ back)
  pub left : after ≡ front ++ back

pub Cut-behind :
    (xs : List ℤ) {before cut after : List ℤ}
    → Cut before cut after
    → Cut (xs ++ before) cut (xs ++ after)
Cut-behind xs {cut = cut} c = record {
  front = xs ++ c.front;
  back = c.back;
  whole = ap (λ (l : List ℤ). xs ++ l) c.whole ∙ sym (append_assoc xs c.front (cut ++ c.back));
  left = ap (λ (l : List ℤ). xs ++ l) c.left ∙ sym (append_assoc xs c.front c.back);
}

pub Cut-before :
    (xs : List ℤ) {before cut after : List ℤ}
    → Cut before cut after
    → Cut (before ++ xs) cut (after ++ xs)
Cut-before xs {cut = cut} c = record {
  front = c.front;
  back = c.back ++ xs;
  whole =
      ap (λ (l : List ℤ). l ++ xs) c.whole
      ∙ append_assoc c.front (cut ++ c.back) xs
      ∙ ap (λ (l : List ℤ). c.front ++ l) (append_assoc cut c.back xs);
  left = ap (λ (l : List ℤ). l ++ xs) c.left ∙ append_assoc c.front c.back xs;
}
