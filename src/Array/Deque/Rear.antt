-- ===== src/Array/Deque/Rear.antt =====
-- What insertion at the rear does to an empty deque.
use dsalib.Core.{
  ℕ, ◌<◌, ◌≡◌, refl, ap, ◌∙◌, true, false, none, some, List, arith, length, set, get_or, length-set,
  get_or-set_ne, ℤ, pos, negsuc, ◌==ℤ◌, ◌+ℤ◌, ◌-ℤ◌,
}
use dsalib.Core.{int_laws}
use dsalib.Array.{read, write, rem, read-pos, write-pos}
use dsalib.Array.Ring.{rem-after}
use dsalib.Array.Deque.{
  Deque, create_deque, is_full, is_empty, insert_rear, reset_if_empty, delete_front, get_front,
}

zero-ne-pos : (n : ℕ) → 0 < n → (pos 0 ==ℤ pos n) ≡ false
zero-ne-pos n h = ground arith

-- After `insertRear` on a new deque of two places or more, `getFront` returns not the value but what the
-- memory held behind it: the front is set to the place after the value.
pub get_front-insert_rear :
    (capacity : ℕ) (memory : List ℤ) (item : ℤ)
    → 1 < capacity
    → length memory ≡ capacity
    → (d : Deque) × (insert_rear (create_deque memory (pos capacity)) item ≡ some d)
      × (get_front d ≡ some (get_or memory 1 (pos 0)))
unfolding create_deque insert_rear is_full is_empty get_front
get_front-insert_rear capacity memory item h l =
    let written = write-pos memory 0 item (omega arith) in
    let next : rem (pos 0 +ℤ pos 1) (pos capacity) ≡ pos 1 =
      rem-after (pos 0) (pos capacity) 0 capacity refl refl (omega arith) ∙ ground arith in
    let one : pos 0 +ℤ pos 1 ≡ pos 1 = omega int_laws in
    let items = set memory 0 item in
    let other : get_or items 1 (pos 0) ≡ get_or memory 1 (pos 0) =
      get_or-set_ne memory 0 1 item (pos 0) (λ (e : 0 ≡ 1). omega arith) in
    (
      record { items = items; front = pos 1; rear = pos 1; capacity = pos capacity; size = pos 1 },
      rw (insert_rear, is_full, zero-ne-pos capacity (omega arith), written, next, one) refl,
      read-pos items 1 (omega (arith, length-set memory 0 item)) ∙ ap some other,
    )

-- After `deleteFront` took the last value of a deque, `insertRear` writes out of the array, since both
-- indices were set to -1.
pub insert_rear-delete_front :
    (d : Deque) (capacity head : ℕ) (item : ℤ)
    → 0 < capacity
    → d.capacity ≡ pos capacity
    → d.size ≡ pos 1
    → d.front ≡ pos head
    → head < length d.items
    → (d' : Deque) × (delete_front d ≡ some (get_or d.items head (pos 0), d'))
      × (insert_rear d' item ≡ none)
unfolding delete_front is_empty reset_if_empty insert_rear is_full write
insert_rear-delete_front d capacity head item h c n f l =
    let some_left : is_empty d ≡ false = ap (λ (x : ℤ). x ==ℤ pos 0) n in
    let found : read d.items d.front ≡ some (get_or d.items head (pos 0)) =
      ap (λ (i : ℤ). read d.items i) f ∙ read-pos d.items head l in
    let moved = record d { front = rem (d.front +ℤ pos 1) d.capacity; size = d.size -ℤ pos 1 } in
    let last : d.size -ℤ pos 1 ≡ pos 0 = ap (λ (x : ℤ). x -ℤ pos 1) n ∙ omega int_laws in
    let empty : is_empty moved ≡ true = ap (λ (x : ℤ). x ==ℤ pos 0) last in
    let d' = record moved { front = negsuc 0; rear = negsuc 0 } in
    let free : is_full d' ≡ false =
      ap (λ (x : ℤ). x ==ℤ d.capacity) last
      ∙ ap (λ (x : ℤ). pos 0 ==ℤ x) c
      ∙ zero-ne-pos capacity h in
    (
      d',
      rw (delete_front, some_left, found, reset_if_empty, empty) refl,
      rw (insert_rear, free) refl,
    )
