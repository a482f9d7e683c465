-- ===== src/Linear/DoublyList/Walks.antt =====
-- The loops that walk along the nodes.
use dsalib.Core.{
  ℕ, zero, suc, ◌+◌, ◌-◌, ◌<◌, ◌≡◌, refl, sym, ap, ◌∙◌, inl, inr, true, false, Option, none, some,
  List, [], ◌∷◌, ◌++◌, arith, Bool-cases, length, ℤ, ◌==ℤ◌,
}
use dsalib.Core.{same, remove_one, is_member}
use mathlib.Core.List.{reverse, reverse-append, append_assoc, append-nil}
use dsalib.Linear.DoublyList.{Memory, search_from, forward_from, backward_from}
use dsalib.Linear.DoublyList.Segment.{Nodes, first, last, Segment}

abbrev pub values_of : Nodes → List ℤ
values_of [] = []
values_of ((a, v) ∷ xs) = v ∷ values_of xs

pub forward_from-Segment :
    (fuel : ℕ) (m : Memory) (xs : Nodes) (p : Option ℕ)
    → length xs < fuel
    → Segment m p xs none
    → forward_from fuel m (first xs none) ≡ some (values_of xs)
unfolding forward_from
forward_from-Segment zero m xs p h s = absurd (omega arith)
forward_from-Segment (suc fuel) m [] p h s = refl
forward_from-Segment (suc fuel) m ((a, v) ∷ xs) p h (here, s) =
    let rest = forward_from-Segment fuel m xs (some a) (omega arith) s in
    rw (forward_from, here, rest) refl

backward_from-Segment_onto :
    (fuel : ℕ) (m : Memory) (xs : Nodes) (p q : Option ℕ) (printed : List ℤ)
    → Segment m p xs q
    → backward_from fuel m p ≡ some printed
    → backward_from (length xs + fuel) m (last p xs) ≡ some (reverse (values_of xs) ++ printed)
unfolding backward_from
backward_from-Segment_onto fuel m [] p q printed s h =
    ap (λ (n : ℕ). backward_from n m p) (plus fuel) ∙ h
  where
    plus : (n : ℕ) → 0 + n ≡ n
    plus n = omega arith
backward_from-Segment_onto fuel m ((a, v) ∷ xs) p q printed (here, s) h =
    let further : backward_from (suc fuel) m (some a) ≡ some (v ∷ printed) =
      rw (backward_from, here, h) refl in
    ap (λ (n : ℕ). backward_from n m (last (some a) xs)) (plus (length xs) fuel)
    ∙ backward_from-Segment_onto (suc fuel) m xs (some a) q (v ∷ printed) s further
    ∙ ap some (
        sym (
          ap (λ (l : List ℤ). l ++ printed) (reverse-append (v ∷ []) (values_of xs))
          ∙ append_assoc (reverse (values_of xs)) (v ∷ []) printed))
  where
    plus : (n fuel : ℕ) → suc n + fuel ≡ n + suc fuel
    plus n fuel = omega arith

pub backward_from-Segment :
    (fuel : ℕ) (m : Memory) (xs : Nodes) (q : Option ℕ)
    → length xs < fuel
    → Segment m none xs q
    → backward_from fuel m (last none xs) ≡ some (reverse (values_of xs))
unfolding backward_from
backward_from-Segment fuel m xs q h s =
    ap (λ (n : ℕ). backward_from n m (last none xs)) (omega arith)
    ∙ backward_from-Segment_onto (suc (fuel - length xs - 1)) m xs none q [] s refl
    ∙ ap some (append-nil (reverse (values_of xs)))

-- The address of the first node with a value.
abbrev pub found_at : Nodes → ℤ → Option ℕ
found_at [] value = none
found_at ((a, v) ∷ xs) value = elim (v ==ℤ value) [ true ↦ some a | false ↦ found_at xs value ]

pub search_from-Segment :
    (fuel : ℕ) (m : Memory) (xs : Nodes) (p : Option ℕ) (value : ℤ)
    → length xs < fuel
    → Segment m p xs none
    → search_from fuel m (first xs none) value ≡ some (found_at xs value)
unfolding search_from
search_from-Segment zero m xs p value h s = absurd (omega arith)
search_from-Segment (suc fuel) m [] p value h s = refl
search_from-Segment (suc fuel) m ((a, v) ∷ xs) p value h (here, s) =
    ground (arith, here, search_from-Segment fuel m xs (some a) value (omega arith) s)

-- Where it is, and what is left without it.
pub record Split (xs : Nodes) (value : ℤ) (a : ℕ) : Type 0 where
  pub pre : Nodes
  pub post : Nodes
  pub at : ℤ
  pub whole : xs ≡ pre ++ (a, at) ∷ post
  pub member : is_member value (values_of xs) ≡ true
  pub left : remove_one value (values_of xs) ≡ values_of (pre ++ post)

pub found_at-Split :
    (xs : Nodes) (value : ℤ) (a : ℕ) → found_at xs value ≡ some a → Split xs value a
unfolding remove_one same
found_at-Split [] value a h = absurd (ground (arith, h))
found_at-Split ((b, v) ∷ xs) value a h = elim (Bool-cases (v ==ℤ value)) [
  | inl here ↦
      let e : b ≡ a = ground (arith, h, here) in
      record {
        pre = [];
        post = xs;
        at = v;
        whole = ap (λ (c : ℕ). (c, v) ∷ xs) e;
        member = ground (arith, here);
        left = ground (arith, here);
      }
  | inr there ↦
      let d = found_at-Split xs value a (ground (arith, h, there)) in
      record {
        pre = (b, v) ∷ d.pre;
        post = d.post;
        at = d.at;
        whole = ap (λ (l : Nodes). (b, v) ∷ l) d.whole;
        member = ground (arith, there, d.member);
        left = ground (arith, there, d.left);
      }
]

pub found_at-none :
    (xs : Nodes) (value : ℤ)
    → found_at xs value ≡ none
    → (is_member value (values_of xs) ≡ false) × (remove_one value (values_of xs) ≡ values_of xs)
unfolding remove_one same
found_at-none [] value h = (refl, refl)
found_at-none ((b, v) ∷ xs) value h = elim (Bool-cases (v ==ℤ value)) [
  | inl here ↦ absurd (ground (arith, h, here))
  | inr there ↦
      let (absent, same_list) = found_at-none xs value (ground (arith, h, there)) in
      (ground (arith, there, absent), ground (arith, there, same_list))
]
