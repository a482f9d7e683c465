-- ===== src/Linear/DoublyList/Edits.antt =====
-- What insertion and deletion do to the nodes.
use dsalib.Core.{
  ℕ, suc, ◌≤◌, ◌≡◌, refl, sym, ap, ◌∙◌, subst, ◌≢◌, inl, inr, Option, none, some, [], ◌∷◌, ◌++◌,
  arith, ◌==◌, if◌then◌else◌, Bool-cases, length, length-append, ℤ,
}
use dsalib.Linear.DoublyList.{
  Node, DoublyLinkedList, update, set_prev, set_next, points_to, relink_prev, relink_next,
  insert_front, insert_back, delete_node,
}
use dsalib.Linear.DoublyList.Segment.{
  Nodes, first, last, Segment, NotIn, Distinct, Away, Segment-off, Segment-update, Segment-append,
  append-Segment, relink_prev-Segment, relink_next-Segment,
}
use dsalib.Linear.DoublyList.Apart.{
  Away-tail, append-NotIn, NotIn-append, Distinct-append, append-Distinct, Below, Below-suc,
  Below-NotIn, Below-append, append-Below, last-append, last-some, head_without, tail_without,
}

-- The state consists of these nodes, linked from the head to the tail, and of nothing else in memory.
pub record Consists (s : DoublyLinkedList) (xs : Nodes) : Type 0 where
  pub linked : Segment s.memory none xs none
  pub distinct : Distinct xs
  pub allocated : Below s.fresh xs
  pub short : length xs ≤ s.fresh
  pub head_first : s.head ≡ first xs none
  pub tail_last : s.tail ≡ last none xs
  pub no_more : (a : ℕ) → NotIn a xs → s.memory a ≡ none

pub insert_front-Consists :
    (s : DoublyLinkedList) (xs : Nodes) (v : ℤ)
    → Consists s xs
    → (s' : DoublyLinkedList) × (insert_front s v ≡ some s') × Consists s' ((s.fresh, v) ∷ xs)
unfolding insert_front set_next relink_prev
insert_front-Consists s [] v h =
    let n : Node = record { value = v; prev = none; next = none } in
    (
      record {
        head = some s.fresh;
        tail = some s.fresh;
        memory = update s.memory s.fresh (some n);
        fresh = suc s.fresh;
      },
      rw (insert_front, h.head_first) refl,
      record {
        linked = (ground arith, tt);
        distinct = (tt, tt);
        allocated = (omega arith, tt);
        short = omega arith;
        head_first = refl;
        tail_last = refl;
        no_more = λ a (ne, out). ground (arith, ne, h.no_more a tt);
      },
    )
insert_front-Consists s ((b, w) ∷ xs) v h =
    let a = s.fresh in
    let out : NotIn a ((b, w) ∷ xs) = Below-NotIn a ((b, w) ∷ xs) h.allocated in
    let n : Node = record { value = v; prev = none; next = none } in
    let n' : Node = record { value = v; prev = none; next = some b } in
    let m = update s.memory a (some n) in
    let m1 = update m a (some n') in
    let here : m a ≡ some n = ground arith in
    let s1 = Segment-update s.memory a (some n) ((b, w) ∷ xs) none none out h.linked in
    let s2 = Segment-update m a (some n') ((b, w) ∷ xs) none none out s1 in
    let (m2, linked, s3, agrees) =
      relink_prev-Segment m1 ((b, w) ∷ xs) none (some a) none h.distinct s2 in
    (
      record { head = some a; tail = s.tail; memory = m2; fresh = suc a },
      rw (insert_front, h.head_first, here, linked) refl,
      record {
        linked = (agrees a out ∙ ground arith, s3);
        distinct = (out, h.distinct);
        allocated = (omega arith, Below-suc a ((b, w) ∷ xs) h.allocated);
        short = omega (arith, h.short);
        head_first = refl;
        tail_last = h.tail_last;
        no_more = λ c (ne, away). agrees c away ∙ ground (arith, ne, h.no_more c away);
      },
    )

pub insert_back-Consists :
    (s : DoublyLinkedList) (xs : Nodes) (v : ℤ)
    → Consists s xs
    → (s' : DoublyLinkedList) × (insert_back s v ≡ some s') × Consists s' (xs ++ (s.fresh, v) ∷ [])
unfolding insert_back relink_next set_prev
insert_back-Consists s [] v h =
    let n : Node = record { value = v; prev = none; next = none } in
    (
      record {
        head = some s.fresh;
        tail = some s.fresh;
        memory = update s.memory s.fresh (some n);
        fresh = suc s.fresh;
      },
      rw (insert_back, h.tail_last) refl,
      record {
        linked = (ground arith, tt);
        distinct = (tt, tt);
        allocated = (omega arith, tt);
        short = omega arith;
        head_first = refl;
        tail_last = refl;
        no_more = λ a (ne, out). ground (arith, ne, h.no_more a tt);
      },
    )
insert_back-Consists s ((b, w) ∷ xs) v h =
    let (t, e) = last-some b xs in
    let a = s.fresh in
    let ys : Nodes = (b, w) ∷ xs in
    let out : NotIn a ys = Below-NotIn a ys h.allocated in
    let n : Node = record { value = v; prev = none; next = none } in
    let n' : Node = record { value = v; prev = some t; next = none } in
    let m = update s.memory a (some n) in
    let s1 = Segment-update s.memory a (some n) ys none none out h.linked in
    let (m1, linked, s2, agrees) = relink_next-Segment m ys none (some a) h.distinct s1 in
    let stored : set_next m t (some a) ≡ some m1 =
      subst (λ (p : Option ℕ). relink_next m p (some a) ≡ some m1) e linked in
    let here : m1 a ≡ some n = agrees a out ∙ ground arith in
    let m2 = update m1 a (some n') in
    let s3 = Segment-update m1 a (some n') ys none (some a) out s2 in
    let at_end : m2 a ≡ some n' = ground arith in
    (
      record { head = s.head; tail = some a; memory = m2; fresh = suc a },
      rw (insert_back, h.tail_last, e, stored, set_prev, here) refl,
      record {
        linked =
            append-Segment m2 ys ((a, v) ∷ []) none none s3
              (subst (λ (p : Option ℕ). Segment m2 p ((a, v) ∷ []) none) (sym e) (at_end, tt));
        distinct = append-Distinct ys ((a, v) ∷ []) h.distinct (tt, tt) (away_one a ys out);
        allocated =
            append-Below (suc a) ys ((a, v) ∷ []) (Below-suc a ys h.allocated) (omega arith, tt);
        short = omega (arith, h.short, length-append ys ((a, v) ∷ []));
        head_first = h.head_first;
        tail_last = sym (last-append none ys ((a, v) ∷ []));
        no_more = λ c away.
            let (away_ys, (ne, _)) = NotIn-append c ys ((a, v) ∷ []) away in
            ground (arith, ne, agrees c away_ys, h.no_more c away_ys);
      },
    )
  where
    away_one : (a : ℕ) (ys : Nodes) → NotIn a ys → Away ((a, v) ∷ []) ys
    away_one a [] out = tt
    away_one a ((c, u) ∷ ys) (ne, out) = (((λ (e : c ≡ a). ne (sym e)), tt), away_one a ys out)

pub delete_node-Consists :
    (s : DoublyLinkedList) (pre post : Nodes) (a : ℕ) (v : ℤ)
    → Consists s (pre ++ (a, v) ∷ post)
    → (s' : DoublyLinkedList) × (delete_node s (some a) ≡ some s') × Consists s' (pre ++ post)
unfolding delete_node
delete_node-Consists s pre post a v h =
    let (dx, (out_post, dy), (out_pre, far), far_both) =
      Distinct-append pre ((a, v) ∷ post) h.distinct in
    let far' = Away-tail a v post pre far_both in
    let (s1, (here, s2)) = Segment-append s.memory pre ((a, v) ∷ post) none none h.linked in
    let (m1, first_link, s3, agrees1) =
      relink_prev-Segment s.memory post (some a) (last none pre) none dy s2 in
    let here1 = agrees1 a out_post ∙ here in
    let s4 = Segment-off s.memory m1 post pre none (some a) agrees1 far' s1 in
    let (m2, second_link, s5, agrees2) =
      relink_next-Segment m1 pre (some a) (first post none) dx s4 in
    let s6 = Segment-off m1 m2 pre post (last none pre) none agrees2 far s3 in
    let m3 = update m2 a none in
    let (low_pre, (_, low_post)) = Below-append s.fresh pre ((a, v) ∷ post) h.allocated in
    (
      record s {
        head = if points_to s.head a then first post none else s.head;
        tail = if points_to s.tail a then last none pre else s.tail;
        memory = m3;
      },
      rw (delete_node, here, first_link, here1, second_link) refl,
      record {
        linked =
            append-Segment m3 pre post none none
              (Segment-update m2 a none pre none (first post none) out_pre s5)
              (Segment-update m2 a none post (last none pre) none out_post s6);
        distinct = append-Distinct pre post dx dy far';
        allocated = append-Below s.fresh pre post low_pre low_post;
        short = omega (arith, h.short, length-append pre ((a, v) ∷ post), length-append pre post);
        head_first =
            ap (λ (p : Option ℕ). if points_to p a then first post none else p) h.head_first
            ∙ head_without a v pre post out_pre;
        tail_last =
            ap (λ (p : Option ℕ). if points_to p a then last none pre else p) h.tail_last
            ∙ tail_without a v pre post out_post;
        no_more = λ c away.
            let (away_pre, away_post) = NotIn-append c pre post away in
            elim (Bool-cases (a == c)) [
              | inl same ↦ ground (arith, same)
              | inr apart ↦
                  let ne : c ≢ a = (λ (e : c ≡ a). ground (arith, apart, e)) in
                  let out = append-NotIn c pre ((a, v) ∷ post) away_pre (ne, away_post) in
                  ground (arith, apart, agrees2 c away_pre, agrees1 c away_post, h.no_more c out)
            ];
      },
    )
