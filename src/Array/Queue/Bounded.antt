-- ===== src/Array/Queue/Bounded.antt =====
-- The circular array is a bounded queue.
use dsalib.Core.{
  cons_parts, ℕ, suc, ◌-◌, ◌≤◌, ◌<◌, ◌≡◌, refl, sym, ap, ◌∙◌, inl, inr, Bool, false, some, List, [],
  ◌∷◌, ◌++◌, arith, ◌==◌, Bool-cases, length, set, length-append, length-set, ℤ, pos, ◌+ℤ◌, ◌-ℤ◌,
}
use dsalib.Core.{Simulates, Runs, Simulates-Runs, int_laws}
use dsalib.Array.{read, write, read-pos, write-pos, rem}
use dsalib.Array.Ring.{rem-after, after, places_on, values, values-set}
use dsalib.Array.Queue.{
  Queue, create_queue, is_full, is_empty, enqueue, dequeue, front_item, Call, enqueue_call,
  dequeue_call, front_call, is_full_call, is_empty_call, test, call, call_list,
}

-- A queue of this capacity that holds the values of a list, the oldest first, from the place `head` on;
-- the value stored last is in the place `last`.
pub record Holds (capacity : ℕ) (s : Queue) (q : List ℤ) : Type 0 where
  pub head : ℕ
  pub last : ℕ
  pub bound : s.capacity ≡ pos capacity
  pub room : length s.items ≡ capacity
  pub fits : length q ≤ capacity
  pub front_place : s.front ≡ pos head
  pub head_in : head < capacity
  pub rear_place : s.rear ≡ pos last
  pub last_in : last < capacity
  pub behind : after last capacity ≡ places_on head (length q) capacity
  pub counted : s.size ≡ pos (length q)
  pub same_values : values s.items head capacity (length q) ≡ q

is_full-Holds :
    (capacity : ℕ) (s : Queue) (q : List ℤ)
    → Holds capacity s q
    → is_full s ≡ (length q == capacity)
unfolding is_full
is_full-Holds capacity s q h = ground (arith, h.bound, h.counted)

is_empty-Holds :
    (capacity : ℕ) (s : Queue) (q : List ℤ) → Holds capacity s q → is_empty s ≡ (length q == 0)
unfolding is_empty
is_empty-Holds capacity s q h = ground (arith, h.counted)

enqueue-Holds :
    (capacity : ℕ) (s : Queue) (q : List ℤ) (item : ℤ)
    → Holds capacity s q
    → length q < capacity
    → (s' : Queue) × (enqueue s item ≡ some s') × Holds capacity s' (q ++ item ∷ [])
unfolding enqueue
enqueue-Holds capacity s q item h free =
    let open_end : is_full s ≡ false = is_full-Holds capacity s q h ∙ ground (arith, free) in
    let place = after h.last capacity in
    let in_range : place < capacity = ground (arith, h.last_in) in
    let moved = rem-after s.rear s.capacity h.last capacity h.rear_place h.bound h.last_in in
    let written : write s.items (rem (s.rear +ℤ pos 1) s.capacity) item
        ≡ some (set s.items place item) =
      rw moved (write-pos s.items place item (omega (arith, h.room))) in
    let longer : length (q ++ item ∷ []) ≡ suc (length q) =
      omega (arith, length-append q (item ∷ [])) in
    let stored =
      values-set s.items h.head capacity (length q) place item h.room h.head_in free h.behind in
    (
      record s {
        items = set s.items place item;
        rear = rem (s.rear +ℤ pos 1) s.capacity;
        size = s.size +ℤ pos 1;
      },
      rw (enqueue, open_end, written) refl,
      record {
        head = h.head;
        last = place;
        bound = h.bound;
        room = length-set s.items place item ∙ h.room;
        fits = omega arith;
        front_place = h.front_place;
        head_in = h.head_in;
        rear_place = moved;
        last_in = in_range;
        behind = ground (arith, h.behind, h.head_in, free, longer);
        counted = ap (λ (x : ℤ). x +ℤ pos 1) h.counted ∙ up (length q) ∙ ap pos (sym longer);
        same_values =
            ap (λ (n : ℕ). values (set s.items place item) h.head capacity n) longer
            ∙ stored
            ∙ ap (λ (xs : List ℤ). xs ++ item ∷ []) h.same_values;
      },
    )
  where
    up : (n : ℕ) → pos n +ℤ pos 1 ≡ pos (suc n)
    up n = omega int_laws

-- The front of a queue that is not empty.
front-Holds :
    (capacity : ℕ) (s : Queue) (x : ℤ) (q : List ℤ)
    → Holds capacity s (x ∷ q)
    → (is_empty s ≡ false) × (read s.items s.front ≡ some x)
front-Holds capacity s x q h = (
  is_empty-Holds capacity s (x ∷ q) h ∙ ground arith,
  rw h.front_place (
      read-pos s.items h.head (omega (arith, h.room, h.head_in))
      ∙ ap some (cons_parts h.same_values).0),
)

dequeue-Holds :
    (capacity : ℕ) (s : Queue) (x : ℤ) (q : List ℤ)
    → Holds capacity s (x ∷ q)
    → (s' : Queue) × (dequeue s ≡ some (x, s')) × Holds capacity s' q
unfolding dequeue
dequeue-Holds capacity s x q h =
    let (some_left, found) = front-Holds capacity s x q h in
    (
      record s { front = rem (s.front +ℤ pos 1) s.capacity; size = s.size -ℤ pos 1 },
      rw (dequeue, some_left, found) refl,
      record {
        head = after h.head capacity;
        last = h.last;
        bound = h.bound;
        room = h.room;
        fits = omega (arith, h.fits);
        front_place = rem-after s.front s.capacity h.head capacity h.front_place h.bound h.head_in;
        head_in = ground (arith, h.head_in);
        rear_place = h.rear_place;
        last_in = h.last_in;
        behind = ground (arith, h.behind, h.head_in, h.fits);
        counted = ap (λ (x : ℤ). x -ℤ pos 1) h.counted ∙ down (length q);
        same_values = (cons_parts h.same_values).1;
      },
    )
  where
    down : (n : ℕ) → pos (suc n) -ℤ pos 1 ≡ pos n
    down n = omega int_laws

call-Simulates :
    (capacity : ℕ) (s : Queue) (q : List ℤ) (c : Call)
    → Holds capacity s q
    → Simulates call (call_list capacity) (Holds capacity) s q c
unfolding call call_list enqueue dequeue front_item
call-Simulates capacity s q (enqueue_call item) h = elim (Bool-cases (length q == capacity)) [
  | inl full ↦ (s, rw (call, is_full-Holds capacity s q h, full) refl, rw full h)
  | inr free ↦
      let (s', stored, h') = enqueue-Holds capacity s q item h (ground (arith, free, h.fits)) in
      (s', rw (call, stored) (rw free refl), rw free h')
]
call-Simulates capacity s [] dequeue_call h =
    (s, rw (call, dequeue, is_empty-Holds capacity s [] h) refl, h)
call-Simulates capacity s (x ∷ q) dequeue_call h =
    let (s', taken, h') = dequeue-Holds capacity s x q h in (s', rw (call, taken) refl, h')
call-Simulates capacity s [] front_call h =
    (s, rw (call, front_item, is_empty-Holds capacity s [] h) refl, h)
call-Simulates capacity s (x ∷ q) front_call h =
    let (some_left, found) = front-Holds capacity s x q h in
    (s, rw (call, front_item, some_left, found) refl, h)
call-Simulates capacity s q is_full_call h =
    (s, ap (λ (b : Bool). some (test b, s)) (is_full-Holds capacity s q h), h)
call-Simulates capacity s q is_empty_call h =
    (s, ap (λ (b : Bool). some (test b, s)) (is_empty-Holds capacity s q h), h)

-- Any calls on a new queue of a positive capacity, whatever its memory held, run without a fault and get
-- the answers of a list of at most `capacity` values, the oldest first: `enqueue` on a full queue
-- changes nothing, `dequeue` and `front` on an empty one return -1. In the end the queue holds the
-- values of the list.
pub run-IsBoundedQueue :
    (capacity : ℕ) (memory : List ℤ) (calls : List Call)
    → 0 < capacity
    → length memory ≡ capacity
    → Runs call (call_list capacity) (Holds capacity) (create_queue memory (pos capacity)) [] calls
unfolding create_queue
run-IsBoundedQueue capacity memory calls positive h =
    Simulates-Runs call (call_list capacity) (Holds capacity) (call-Simulates capacity) calls
      (create_queue memory (pos capacity)) []
      (record {
        head = 0;
        last = capacity - 1;
        bound = refl;
        room = h;
        fits = omega arith;
        front_place = refl;
        head_in = positive;
        rear_place = down;
        last_in = omega arith;
        behind = ground arith;
        counted = refl;
        same_values = refl;
      })
  where
    down : pos capacity -ℤ pos 1 ≡ pos (capacity - 1)
    down = omega (int_laws, positive)
