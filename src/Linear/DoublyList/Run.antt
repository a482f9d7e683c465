-- ===== src/Linear/DoublyList/Run.antt =====
-- The linked nodes are a list.
use dsalib.Core.{
  ℕ, zero, suc, ◌<◌, ◌≡◌, refl, sym, ap, ◌∙◌, subst, inl, inr, Option, none, some, List, [], ◌∷◌,
  ◌++◌, arith, ◌==◌, Bool-cases, Option-cases, length, ℤ,
}
use dsalib.Core.{remove_one, is_member, run, run_model, Simulates, Simulates-Runs}
use mathlib.Core.List.{reverse}
use dsalib.Linear.DoublyList.{
  Memory, DoublyLinkedList, new, update, delete_node, search_from, search_list, forward_from,
  display_forward, backward_from, display_backward, destroy_from, destroy, Call, insert_front_call,
  insert_back_call, remove_call, search_call, forward_call, backward_call, call, call_list,
}
use dsalib.Linear.DoublyList.Segment.{Nodes, first, Segment, NotIn, Distinct, Segment-update}
use dsalib.Linear.DoublyList.Walks.{
  values_of, forward_from-Segment, backward_from-Segment, found_at, search_from-Segment,
  found_at-Split, found_at-none,
}
use dsalib.Linear.DoublyList.Edits.{
  Consists, insert_front-Consists, insert_back-Consists, delete_node-Consists,
}

-- The state consists of nodes with the values of the list.
pub record Holds (s : DoublyLinkedList) (q : List ℤ) : Type 0 where
  pub nodes : Nodes
  pub consists : Consists s nodes
  pub same_values : values_of nodes ≡ q

values_of-append :
    (xs : Nodes) (a : ℕ) (v : ℤ) → values_of (xs ++ (a, v) ∷ []) ≡ values_of xs ++ v ∷ []
values_of-append [] a v = refl
values_of-append ((b, w) ∷ xs) a v = ap (λ (l : List ℤ). w ∷ l) (values_of-append xs a v)

search_list-Holds :
    (s : DoublyLinkedList) (xs : Nodes) (v : ℤ)
    → Consists s xs
    → search_list s v ≡ some (found_at xs v)
unfolding search_list
search_list-Holds s xs v h =
    ap (λ (p : Option ℕ). search_from (suc s.fresh) s.memory p v) h.head_first
    ∙ search_from-Segment (suc s.fresh) s.memory xs none v (omega (arith, h.short)) h.linked

remove-Simulates :
    (s : DoublyLinkedList) (q : List ℤ) (v : ℤ)
    → Holds s q
    → Simulates call call_list Holds s q (remove_call v)
unfolding call call_list delete_node
remove-Simulates s q v h =
    let searched = search_list-Holds s h.nodes v h.consists in
    elim (Option-cases (found_at h.nodes v)) [
      | inl missing ↦
          let (absent, same_list) = found_at-none h.nodes v missing in
          (
            s,
            rw (call, searched, missing, delete_node) refl,
            record {
              nodes = h.nodes;
              consists = h.consists;
              same_values = sym same_list ∙ ap (λ (l : List ℤ). remove_one v l) h.same_values;
            },
          )
      | inr (a, found) ↦
          let d = found_at-Split h.nodes v a found in
          let c = subst (λ (xs : Nodes). Consists s xs) d.whole h.consists in
          let (s', deleted, c') = delete_node-Consists s d.pre d.post a d.at c in
          (
            s',
            rw (call, searched, found, deleted) refl,
            record {
              nodes = d.pre ++ d.post;
              consists = c';
              same_values = sym d.left ∙ ap (λ (l : List ℤ). remove_one v l) h.same_values;
            },
          )
    ]

search-Simulates :
    (s : DoublyLinkedList) (q : List ℤ) (v : ℤ)
    → Holds s q
    → Simulates call call_list Holds s q (search_call v)
unfolding call call_list
search-Simulates s q v h =
    let searched = search_list-Holds s h.nodes v h.consists in
    elim (Option-cases (found_at h.nodes v)) [
      | inl missing ↦
          let (absent, same_list) = found_at-none h.nodes v missing in
          let absent_q = ap (λ (l : List ℤ). is_member v l) (sym h.same_values) ∙ absent in
          (s, rw (call, searched, missing, absent_q) refl, h)
      | inr (a, found) ↦
          let d = found_at-Split h.nodes v a found in
          let member_q = ap (λ (l : List ℤ). is_member v l) (sym h.same_values) ∙ d.member in
          (s, rw (call, searched, found, member_q) refl, h)
    ]

display_forward-Holds : (s : DoublyLinkedList) (q : List ℤ) → Holds s q → display_forward s ≡ some q
unfolding display_forward
display_forward-Holds s q h =
    ap (λ (p : Option ℕ). forward_from (suc s.fresh) s.memory p) h.consists.head_first
    ∙ forward_from-Segment (suc s.fresh) s.memory h.nodes none (omega (arith, h.consists.short))
        h.consists.linked
    ∙ ap some h.same_values

display_backward-Holds :
    (s : DoublyLinkedList) (q : List ℤ) → Holds s q → display_backward s ≡ some (reverse q)
unfolding display_backward
display_backward-Holds s q h =
    ap (λ (p : Option ℕ). backward_from (suc s.fresh) s.memory p) h.consists.tail_last
    ∙ backward_from-Segment (suc s.fresh) s.memory h.nodes none (omega (arith, h.consists.short))
        h.consists.linked
    ∙ ap (λ (l : List ℤ). some (reverse l)) h.same_values

call-Simulates :
    (s : DoublyLinkedList) (q : List ℤ) (c : Call)
    → Holds s q
    → Simulates call call_list Holds s q c
unfolding call call_list
call-Simulates s q (insert_front_call v) h =
    let (s', inserted, c') = insert_front-Consists s h.nodes v h.consists in
    (
      s',
      rw (call, inserted) refl,
      record {
        nodes = (s.fresh, v) ∷ h.nodes;
        consists = c';
        same_values = ap (λ (l : List ℤ). v ∷ l) h.same_values;
      },
    )
call-Simulates s q (insert_back_call v) h =
    let (s', inserted, c') = insert_back-Consists s h.nodes v h.consists in
    (
      s',
      rw (call, inserted) refl,
      record {
        nodes = h.nodes ++ (s.fresh, v) ∷ [];
        consists = c';
        same_values =
            values_of-append h.nodes s.fresh v ∙ ap (λ (l : List ℤ). l ++ v ∷ []) h.same_values;
      },
    )
call-Simulates s q (remove_call v) h = remove-Simulates s q v h
call-Simulates s q (search_call v) h = search-Simulates s q v h
call-Simulates s q forward_call h = (s, rw (call, display_forward-Holds s q h) refl, h)
call-Simulates s q backward_call h = (s, rw (call, display_backward-Holds s q h) refl, h)

-- The destructor's loop frees what is linked.
destroy_from-Segment :
    (fuel : ℕ) (m : Memory) (xs : Nodes) (p : Option ℕ)
    → length xs < fuel
    → Distinct xs
    → Segment m p xs none
    → ((a : ℕ) → NotIn a xs → m a ≡ none)
    → (m' : Memory) × (destroy_from fuel m (first xs none) ≡ some m') × ((a : ℕ) → m' a ≡ none)
unfolding destroy_from
destroy_from-Segment zero m xs p h d s no_more = absurd (omega arith)
destroy_from-Segment (suc fuel) m [] p h d s no_more = (m, refl, λ a. no_more a tt)
destroy_from-Segment (suc fuel) m ((a, v) ∷ xs) p h (out, d) (here, s) no_more =
    let (m', ran, gone) =
      destroy_from-Segment fuel (update m a none) xs (some a) (omega arith) d
        (Segment-update m a none xs (some a) none out s)
        (λ b away. elim (Bool-cases (a == b)) [
          | inl same ↦ ground (arith, same)
          | inr apart ↦
              ground (arith, apart, no_more b ((λ (e : b ≡ a). ground (arith, apart, e)), away))
        ]) in
    (m', rw (destroy_from, here) ran, gone)

-- Any calls on a new list run without a fault and get the answers of a list of values: insertion at
-- either end, deletion of the first node that `search` finds, the search itself, and what is printed
-- forward and, in the opposite order, backward. The destructor then leaves no node in memory.
pub run-IsList :
    (calls : List Call)
    → (s : DoublyLinkedList) × (run call new calls ≡ some ((run_model call_list [] calls).0, s))
      × Holds s (run_model call_list [] calls).1
      × ((m : Memory) × (destroy s ≡ some m) × ((a : ℕ) → m a ≡ none))
unfolding destroy
run-IsList calls =
    let (s, ran, h) = Simulates-Runs call call_list Holds call-Simulates calls new [] (record {
      nodes = [];
      consists = record {
        linked = tt;
        distinct = tt;
        allocated = tt;
        short = omega arith;
        head_first = refl;
        tail_last = refl;
        no_more = λ a out. refl;
      };
      same_values = refl;
    }) in
    let c = h.consists in
    let (m, destroyed, gone) =
      destroy_from-Segment (suc s.fresh) s.memory h.nodes none (omega (arith, c.short)) c.distinct
        c.linked c.no_more in
    (
      s,
      ran,
      h,
      (
        m,
        ap (λ (p : Option ℕ). destroy_from (suc s.fresh) s.memory p) c.head_first ∙ destroyed,
        gone,
      ),
    )
