-- ===== src/Array/Deque/Front.antt =====
-- A deque that is used at its front alone.
use dsalib.Core.{
  cons_parts, ℕ, zero, suc, ◌≤◌, ◌<◌, ◌≡◌, refl, sym, ap, ◌∙◌, subst, inl, inr, Bool, true, false,
  Option, none, some, List, [], ◌∷◌, arith, ◌==◌, if◌then◌else◌, Bool-cases, length, set,
  length-set, ℤ, pos, negsuc, ◌==ℤ◌, ◌+ℤ◌, ◌-ℤ◌,
}
use dsalib.Core.{Simulates, Runs, Simulates-Runs, int_laws}
use dsalib.Array.{read, write, read-pos, write-pos, rem}
use dsalib.Array.Ring.{rem-after, after, values}
use dsalib.Array.Stack.{
  Call, push_call, pop_call, peek_call, is_full_call, is_empty_call, Answer, done, value, test,
  call_list,
}
use dsalib.Array.Deque.Places.{rem-first, rem-previous, new_front, new_front-lt, values-new_front}
use dsalib.Array.Deque.{
  Deque, create_deque, is_full, is_empty, before, insert_front, reset_if_empty, delete_front,
  get_front,
}

-- The calls on the front, named as those of a stack.
unfoldable pub call : Deque → Call → Option (Answer × Deque)
call s (push_call item) = elim (insert_front s item) [ none ↦ none | some s' ↦ some (done, s') ]
call s pop_call = elim (delete_front s) [ none ↦ none | some (item, s') ↦ some (value item, s') ]
call s peek_call = elim (get_front s) [ none ↦ none | some item ↦ some (value item, s) ]
call s is_full_call = some (test (is_full s), s)
call s is_empty_call = some (test (is_empty s), s)

-- Where the front of a deque that holds so many values is: -1 if it holds none, or the place `head`.
abbrev FrontAt : ℤ → (head count : ℕ) → Type 0
FrontAt front head zero = front ≡ negsuc 0
FrontAt front head (suc n) = front ≡ pos head

-- A deque of this capacity that holds the values of a list from the front on.
pub record Holds (capacity : ℕ) (s : Deque) (q : List ℤ) : Type 0 where
  pub head : ℕ
  pub bound : s.capacity ≡ pos capacity
  pub room : length s.items ≡ capacity
  pub fits : length q ≤ capacity
  pub head_in : head < capacity
  pub front_place : FrontAt s.front head (length q)
  pub counted : s.size ≡ pos (length q)
  pub same_values : values s.items head capacity (length q) ≡ q

is_full-Holds :
    (capacity : ℕ) (s : Deque) (q : List ℤ)
    → Holds capacity s q
    → is_full s ≡ (length q == capacity)
unfolding is_full
is_full-Holds capacity s q h = ground (arith, h.bound, h.counted)

is_empty-Holds :
    (capacity : ℕ) (s : Deque) (q : List ℤ) → Holds capacity s q → is_empty s ≡ (length q == 0)
unfolding is_empty
is_empty-Holds capacity s q h = ground (arith, h.counted)

before-front :
    (s : Deque) (head count size : ℕ)
    → s.capacity ≡ pos size
    → FrontAt s.front head count
    → head < size
    → before s s.front ≡ pos (new_front head count size)
unfolding before
before-front s head zero size c e h =
    ap (λ (f : ℤ). rem (f -ℤ pos 1 +ℤ s.capacity) s.capacity) e
    ∙ ap (λ (k : ℤ). rem (negsuc 0 -ℤ pos 1 +ℤ k) k) c
    ∙ rem-first size (omega arith)
before-front s head (suc n) size c e h =
    ap (λ (f : ℤ). rem (f -ℤ pos 1 +ℤ s.capacity) s.capacity) e
    ∙ ap (λ (k : ℤ). rem (pos head -ℤ pos 1 +ℤ k) k) c
    ∙ rem-previous head size h

insert_front-Holds :
    (capacity : ℕ) (s : Deque) (q : List ℤ) (item : ℤ)
    → Holds capacity s q
    → length q < capacity
    → (s' : Deque) × (insert_front s item ≡ some s') × Holds capacity s' (item ∷ q)
unfolding insert_front
insert_front-Holds capacity s q item h free =
    let open_end : is_full s ≡ false = is_full-Holds capacity s q h ∙ ground (arith, free) in
    let place = new_front h.head (length q) capacity in
    let in_range = new_front-lt h.head (length q) capacity h.head_in in
    let moved = before-front s h.head (length q) capacity h.bound h.front_place h.head_in in
    let written : write s.items (before s s.front) item ≡ some (set s.items place item) =
      rw moved (write-pos s.items place item (omega (arith, h.room))) in
    (
      record s {
        items = set s.items place item;
        front = before s s.front;
        rear = if is_empty s then before s s.front else s.rear;
        size = s.size +ℤ pos 1;
      },
      rw (insert_front, open_end, written) refl,
      record {
        head = place;
        bound = h.bound;
        room = length-set s.items place item ∙ h.room;
        fits = omega arith;
        head_in = in_range;
        front_place = moved;
        counted = ap (λ (x : ℤ). x +ℤ pos 1) h.counted ∙ up (length q);
        same_values =
            values-new_front s.items h.head (length q) capacity item h.room h.head_in free
            ∙ ap (λ (xs : List ℤ). item ∷ xs) h.same_values;
      },
    )
  where
    up : (n : ℕ) → pos n +ℤ pos 1 ≡ pos (suc n)
    up n = omega int_laws

-- The front of a deque that is not empty.
front-Holds :
    (capacity : ℕ) (s : Deque) (x : ℤ) (q : List ℤ)
    → Holds capacity s (x ∷ q)
    → (is_empty s ≡ false) × (read s.items s.front ≡ some x)
front-Holds capacity s x q h = (
  is_empty-Holds capacity s (x ∷ q) h ∙ ground arith,
  rw h.front_place (
      read-pos s.items h.head (omega (arith, h.room, h.head_in))
      ∙ ap some (cons_parts h.same_values).0),
)

-- What is left when the front moved on by one place.
moved_on : Deque → Deque
moved_on s = record s { front = rem (s.front +ℤ pos 1) s.capacity; size = s.size -ℤ pos 1 }

reset-Holds :
    (capacity : ℕ) (s : Deque) (x : ℤ) (q : List ℤ)
    → Holds capacity s (x ∷ q)
    → Holds capacity (reset_if_empty (moved_on s)) q
unfolding reset_if_empty is_empty moved_on
reset-Holds capacity s x [] h =
    let last : s.size -ℤ pos 1 ≡ pos 0 = ap (λ (x : ℤ). x -ℤ pos 1) h.counted ∙ omega int_laws in
    let empty : is_empty (moved_on s) ≡ true = ap (λ (x : ℤ). x ==ℤ pos 0) last in
    subst
      (λ (b : Bool).
        Holds capacity
          (if b then record (moved_on s) { front = negsuc 0; rear = negsuc 0 } else moved_on s) [])
      (sym empty)
      (record {
        head = h.head;
        bound = h.bound;
        room = h.room;
        fits = omega arith;
        head_in = h.head_in;
        front_place = refl;
        counted = last;
        same_values = refl;
      })
reset-Holds capacity s x (y ∷ q) h =
    let left : s.size -ℤ pos 1 ≡ pos (suc (length q)) =
      ap (λ (x : ℤ). x -ℤ pos 1) h.counted ∙ omega int_laws in
    let some_left : is_empty (moved_on s) ≡ false =
      ap (λ (x : ℤ). x ==ℤ pos 0) left ∙ ground arith in
    subst
      (λ (b : Bool).
        Holds capacity
          (if b then record (moved_on s) { front = negsuc 0; rear = negsuc 0 } else moved_on s)
          (y ∷ q))
      (sym some_left)
      (record {
        head = after h.head capacity;
        bound = h.bound;
        room = h.room;
        fits = omega (arith, h.fits);
        head_in = ground (arith, h.head_in);
        front_place = rem-after s.front s.capacity h.head capacity h.front_place h.bound h.head_in;
        counted = left;
        same_values = (cons_parts h.same_values).1;
      })

call-Simulates :
    (capacity : ℕ) (s : Deque) (q : List ℤ) (c : Call)
    → Holds capacity s q
    → Simulates call (call_list capacity) (Holds capacity) s q c
unfolding call call_list insert_front delete_front get_front moved_on
call-Simulates capacity s q (push_call item) h = elim (Bool-cases (length q == capacity)) [
  | inl full ↦ (s, rw (call, insert_front, is_full-Holds capacity s q h, full) refl, rw full h)
  | inr free ↦
      let (s', stored, h') =
        insert_front-Holds capacity s q item h (ground (arith, free, h.fits)) in
      (s', rw (call, stored) (rw free refl), rw free h')
]
call-Simulates capacity s [] pop_call h =
    (s, rw (call, delete_front, is_empty-Holds capacity s [] h) refl, h)
call-Simulates capacity s (x ∷ q) pop_call h =
    let (some_left, found) = front-Holds capacity s x q h in
    (
      reset_if_empty (moved_on s),
      rw (call, delete_front, some_left, found) refl,
      reset-Holds capacity s x q h,
    )
call-Simulates capacity s [] peek_call h =
    (s, rw (call, get_front, is_empty-Holds capacity s [] h) refl, h)
call-Simulates capacity s (x ∷ q) peek_call h =
    let (some_left, found) = front-Holds capacity s x q h in
    (s, rw (call, get_front, some_left, found) refl, h)
call-Simulates capacity s q is_full_call h =
    (s, ap (λ (b : Bool). some (test b, s)) (is_full-Holds capacity s q h), h)
call-Simulates capacity s q is_empty_call h =
    (s, ap (λ (b : Bool). some (test b, s)) (is_empty-Holds capacity s q h), h)

-- Any calls of `insertFront`, `deleteFront`, `getFront`, `isFull` and `isEmpty` on a new deque of a
-- positive capacity, whatever its memory held, run without a fault and get the answers of a bounded
-- stack: the values are taken from the front in the opposite order to that of their insertion.
pub run-IsFrontStack :
    (capacity : ℕ) (memory : List ℤ) (calls : List Call)
    → 0 < capacity
    → length memory ≡ capacity
    → Runs call (call_list capacity) (Holds capacity) (create_deque memory (pos capacity)) [] calls
unfolding create_deque
run-IsFrontStack capacity memory calls positive h =
    Simulates-Runs call (call_list capacity) (Holds capacity) (call-Simulates capacity) calls
      (create_deque memory (pos capacity)) []
      (record {
        head = 0;
        bound = refl;
        room = h;
        fits = omega arith;
        head_in = positive;
        front_place = refl;
        counted = refl;
        same_values = refl;
      })
