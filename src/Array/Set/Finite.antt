-- ===== src/Array/Set/Finite.antt =====
-- The array without order is a finite set.
use dsalib.Core.{
  is_member, ℕ, zero, suc, ◌+◌, ◌≤◌, ◌<◌, ◌≡◌, refl, ap, ◌∙◌, ◌≢◌, inl, inr, Bool, true, false,
  some, List, [], ◌∷◌, arith, leb, if◌then◌else◌, Bool-cases, length, set, length-set,
  get_or-set_self, ℤ, pos, negsuc, le_ℤ, ◌==ℤ◌, ◌+ℤ◌, ==ℤ_iff,
}
use dsalib.Core.{count, same, same_refl, same_ne, Simulates, Runs, Simulates-Runs, int_laws}
use dsalib.Array.{write, write-pos}
use dsalib.Array.Set.{
  Set, set_capacity, initialize_from, initialize_set, is_in_set, insert_to_set, Call, insert_call,
  delete_call, is_in_call, call, call_list,
}
use dsalib.Array.Set.Window.{window, window-set, count-window-last}
use dsalib.Array.Set.Deletes.{is_in_set_lem, delete_from_set-Holds, delete_from_set-absent, Holds}

once : (v item : ℤ) (q : List ℤ) → count v q ≤ 1 → is_member item q ≡ false → count v (item ∷ q) ≤ 1
once v item q h absent = elim (Bool-cases (v ==ℤ item)) [
  | inl equal ↦
      let e = (==ℤ_iff v item).0 equal in
      let none_yet : count item q ≡ 0 = ground (arith, absent) in
      omega (
        arith,
        ap (λ (x : ℤ). count x q) e,
        none_yet,
        ap (λ (x : ℤ). same x item) e,
        same_refl item,
      )
  | inr differ ↦
      let ne : v ≢ item = (λ (e : v ≡ item). ground (arith, differ, (==ℤ_iff v item).1 e)) in
      omega (arith, same_ne v item ne)
]

insert_to_set-full :
    (s : Set) (q : List ℤ) (item : ℤ)
    → Holds s q
    → leb set_capacity (length q) ≡ true
    → insert_to_set s item ≡ some (negsuc 0, s)
unfolding insert_to_set
insert_to_set-full s q item h full =
    let e : le_ℤ (pos set_capacity) s.count ≡ true = ground (arith, h.counted, full) in
    rw (insert_to_set, e) refl

insert_to_set-old :
    (s : Set) (q : List ℤ) (item : ℤ)
    → Holds s q
    → leb set_capacity (length q) ≡ false
    → is_member item q ≡ true
    → insert_to_set s item ≡ some (pos 0, s)
unfolding insert_to_set
insert_to_set-old s q item h free old =
    let open_end : le_ℤ (pos set_capacity) s.count ≡ false = ground (arith, h.counted, free) in
    let searched : is_in_set s item ≡ some (pos 1) =
      is_in_set_lem s q item h ∙ ap (λ (b : Bool). some (if b then pos 1 else pos 0)) old in
    rw (insert_to_set, open_end, searched) refl

insert_to_set-Holds :
    (s : Set) (q : List ℤ) (item : ℤ)
    → Holds s q
    → length q < set_capacity
    → is_member item q ≡ false
    → (s' : Set) × (insert_to_set s item ≡ some (pos 1, s')) × Holds s' (item ∷ q)
unfolding insert_to_set
insert_to_set-Holds s q item h free absent =
    let n = length q in
    let in_range : n < length s.items = omega (arith, h.room) in
    let open_end : le_ℤ (pos set_capacity) s.count ≡ false = ground (arith, h.counted, free) in
    let searched : is_in_set s item ≡ some (pos 0) =
      is_in_set_lem s q item h ∙ ap (λ (b : Bool). some (if b then pos 1 else pos 0)) absent in
    let written : write s.items s.count item ≡ some (set s.items n item) =
      ap (λ (i : ℤ). write s.items i item) h.counted ∙ write-pos s.items n item in_range in
    (
      record { items = set s.items n item; count = s.count +ℤ pos 1 },
      rw (insert_to_set, open_end, searched, written) refl,
      record {
        room = length-set s.items n item ∙ h.room;
        counted = ap (λ (x : ℤ). x +ℤ pos 1) h.counted ∙ up n;
        fits = omega arith;
        same_items = λ v.
            count-window-last v (set s.items n item) n
            ∙ ap (λ (x : ℤ). count v (window (set s.items n item) 0 n) + same v x)
                (get_or-set_self s.items n item (pos 0) in_range)
            ∙ ap (λ (xs : List ℤ). count v xs + same v item)
                (window-set s.items 0 n n item (inr (omega arith)))
            ∙ omega (arith, h.same_items v);
        distinct = λ v. once v item q (h.distinct v) absent;
      },
    )
  where
    up : (n : ℕ) → pos n +ℤ pos 1 ≡ pos (suc n)
    up n = omega int_laws

call-Simulates :
    (s : Set) (q : List ℤ) (c : Call) → Holds s q → Simulates call call_list Holds s q c
unfolding call call_list
call-Simulates s q (insert_call item) h = elim (Bool-cases (leb set_capacity (length q))) [
  | inl full ↦ (s, rw full (insert_to_set-full s q item h full), rw full h)
  | inr free ↦ elim (Bool-cases (is_member item q)) [
    | inl old ↦ (s, rw (free, old) (insert_to_set-old s q item h free old), rw (free, old) h)
    | inr absent ↦
        let (s', inserted, h') = insert_to_set-Holds s q item h (ground (arith, free)) absent in
        (s', rw (free, absent) inserted, rw (free, absent) h')
  ]
]
call-Simulates s q (delete_call item) h = elim (Bool-cases (is_member item q)) [
  | inl old ↦
      let (s', deleted, h') = delete_from_set-Holds s q item h old in
      (s', rw old deleted, rw old h')
  | inr absent ↦ (s, rw absent (delete_from_set-absent s q item h absent), rw absent h)
]
call-Simulates s q (is_in_call item) h = elim (Bool-cases (is_member item q)) [
  | inl old ↦ (s, rw (call, is_in_set_lem s q item h, old) refl, rw old h)
  | inr absent ↦ (s, rw (call, is_in_set_lem s q item h, absent) refl, rw absent h)
]

initialize_from-length :
    (rounds i : ℕ) (items : List ℤ)
    → i + rounds ≤ length items
    → (items' : List ℤ) × (initialize_from rounds i items ≡ some items')
      × (length items' ≡ length items)
unfolding initialize_from
initialize_from-length zero i items h = (items, refl, refl)
initialize_from-length (suc rounds) i items h =
    let written = write-pos items i (negsuc 0) (omega arith) in
    let l = length-set items i (negsuc 0) in
    let (items', ran, l') =
      initialize_from-length rounds (suc i) (set items i (negsuc 0)) (omega arith) in
    (items', rw (initialize_from, written) ran, l' ∙ l)

-- After `initializeSet`, whatever the memory held, any calls run without a fault and return what a
-- finite set of at most 100 values does: `insertToSet` -1 when the set is full, 0 when it has the value
-- and 1 when it takes it in, `deleteFromSet` and `isInSet` whether the set has the value. In the end the
-- array holds the values of the set, each once.
pub run-IsFiniteSet :
    (memory : Set) (calls : List Call)
    → length memory.items ≡ set_capacity
    → (s : Set) × (initialize_set memory ≡ some s) × Runs call call_list Holds s [] calls
unfolding initialize_set
run-IsFiniteSet memory calls h =
    let (items, ran, l) = initialize_from-length set_capacity 0 memory.items (omega arith) in
    let s : Set = record { items = items; count = pos 0 } in
    (
      s,
      rw (initialize_set, ran) refl,
      Simulates-Runs call call_list Holds call-Simulates calls s [] (record {
        room = l ∙ h;
        counted = refl;
        fits = omega arith;
        same_items = λ v. refl;
        distinct = λ v. omega arith;
      }),
    )
