-- ===== src/Array/Stack/Bounded.antt =====
-- The array stack is a bounded list.
use dsalib.Core.{
  cons_parts, ℕ, zero, suc, ◌≤◌, ◌<◌, ◌≡◌, refl, ap, ◌∙◌, ◌≢◌, inl, inr, Bool, false, some, List,
  [], ◌∷◌, arith, ◌==◌, Bool-cases, length, set, get_or, length-set, get_or-set_self, get_or-set_ne,
  ℤ, pos, negsuc, ◌+ℤ◌, ◌-ℤ◌,
}
use dsalib.Core.{Simulates, Runs, Simulates-Runs, int_laws}
use dsalib.Array.{read, write, read-pos, write-pos}
use dsalib.Array.Stack.{
  Stack, create_stack, is_full, is_empty, push, pop, peek, Call, push_call, pop_call, peek_call,
  is_full_call, is_empty_call, test, call, call_list,
}

-- The first values of an array, the last of them first.
abbrev newest : List ℤ → ℕ → List ℤ
newest items zero = []
newest items (suc n) = get_or items n (pos 0) ∷ newest items n

newest-set : (items : List ℤ) (n i : ℕ) (v : ℤ) → n ≤ i → newest (set items i v) n ≡ newest items n
newest-set items zero i v h = refl
newest-set items (suc n) i v h =
    let apart : i ≢ n = (λ (e : i ≡ n). omega arith) in
    rw (get_or-set_ne items i n v (pos 0) apart, newest-set items n i v (omega arith)) refl

-- A stack of this capacity that holds the values of a list, the newest first.
pub record Holds (capacity : ℕ) (s : Stack) (q : List ℤ) : Type 0 where
  pub bound : s.capacity ≡ pos capacity
  pub room : length s.items ≡ capacity
  pub fits : length q ≤ capacity
  pub place : s.top +ℤ pos 1 ≡ pos (length q)
  pub same_values : newest s.items (length q) ≡ q

is_full-Holds :
    (capacity : ℕ) (s : Stack) (q : List ℤ)
    → Holds capacity s q
    → is_full s ≡ (length q == capacity)
unfolding is_full ◌-ℤ◌ ◌+ℤ◌
is_full-Holds capacity s q h = ground (arith, h.bound, h.place)

is_empty-Holds :
    (capacity : ℕ) (s : Stack) (q : List ℤ) → Holds capacity s q → is_empty s ≡ (length q == 0)
unfolding is_empty ◌+ℤ◌
is_empty-Holds capacity s q h = ground (arith, h.place)

top-pos : (t : ℤ) (n : ℕ) → t +ℤ pos 1 ≡ pos (suc n) → t ≡ pos n
unfolding ◌+ℤ◌
top-pos t n h = ground arith

down_up : (t : ℤ) → t -ℤ pos 1 +ℤ pos 1 ≡ t
down_up t = omega int_laws

push-Holds :
    (capacity : ℕ) (s : Stack) (q : List ℤ) (item : ℤ)
    → Holds capacity s q
    → length q < capacity
    → (s' : Stack) × (push s item ≡ some s') × Holds capacity s' (item ∷ q)
unfolding push
push-Holds capacity s q item h room =
    let open_end : is_full s ≡ false = is_full-Holds capacity s q h ∙ ground (arith, room) in
    let n = length q in
    let in_range : n < length s.items = omega (arith, h.room) in
    let written : write s.items (s.top +ℤ pos 1) item ≡ some (set s.items n item) =
      rw h.place (write-pos s.items n item in_range) in
    (
      record s { items = set s.items n item; top = s.top +ℤ pos 1 },
      rw (push, open_end, written) refl,
      record {
        bound = h.bound;
        room = length-set s.items n item ∙ h.room;
        fits = omega arith;
        place = ap (λ (t : ℤ). t +ℤ pos 1) h.place ∙ up n;
        same_values =
            rw
              (
                get_or-set_self s.items n item (pos 0) in_range,
                newest-set s.items n n item (omega arith),
                h.same_values,
              )
              refl;
      },
    )
  where
    up : (n : ℕ) → pos n +ℤ pos 1 ≡ pos (suc n)
    up n = omega int_laws

-- The top of a stack that is not empty.
top-Holds :
    (capacity : ℕ) (s : Stack) (x : ℤ) (q : List ℤ)
    → Holds capacity s (x ∷ q)
    → (is_empty s ≡ false) × (read s.items s.top ≡ some x)
top-Holds capacity s x q h =
    let e : s.top ≡ pos (length q) = top-pos s.top (length q) h.place in
    let in_range : length q < length s.items = omega (arith, h.room, h.fits) in
    (
      is_empty-Holds capacity s (x ∷ q) h ∙ ground arith,
      rw e (read-pos s.items (length q) in_range ∙ ap some ((cons_parts h.same_values).0)),
    )

pop-Holds :
    (capacity : ℕ) (s : Stack) (x : ℤ) (q : List ℤ)
    → Holds capacity s (x ∷ q)
    → (s' : Stack) × (pop s ≡ some (x, s')) × Holds capacity s' q
unfolding pop
pop-Holds capacity s x q h =
    let (some_left, found) = top-Holds capacity s x q h in
    (
      record s { top = s.top -ℤ pos 1 },
      rw (pop, some_left, found) refl,
      record {
        bound = h.bound;
        room = h.room;
        fits = omega (arith, h.fits);
        place = down_up s.top ∙ top-pos s.top (length q) h.place;
        same_values = (cons_parts h.same_values).1;
      },
    )

call-Simulates :
    (capacity : ℕ) (s : Stack) (q : List ℤ) (c : Call)
    → Holds capacity s q
    → Simulates call (call_list capacity) (Holds capacity) s q c
unfolding call call_list push pop peek
call-Simulates capacity s q (push_call item) h = elim (Bool-cases (length q == capacity)) [
  | inl full ↦ (s, rw (call, is_full-Holds capacity s q h, full) refl, rw full h)
  | inr free ↦
      let (s', pushed, h') = push-Holds capacity s q item h (ground (arith, free, h.fits)) in
      (s', rw (call, pushed) (rw free refl), rw free h')
]
call-Simulates capacity s [] pop_call h =
    (s, rw (call, pop, is_empty-Holds capacity s [] h) refl, h)
call-Simulates capacity s (x ∷ q) pop_call h =
    let (s', popped, h') = pop-Holds capacity s x q h in (s', rw (call, popped) refl, h')
call-Simulates capacity s [] peek_call h =
    (s, rw (call, peek, is_empty-Holds capacity s [] h) refl, h)
call-Simulates capacity s (x ∷ q) peek_call h =
    let (some_left, found) = top-Holds capacity s x q h in
    (s, rw (call, peek, some_left, found) refl, h)
call-Simulates capacity s q is_full_call h =
    (s, ap (λ (b : Bool). some (test b, s)) (is_full-Holds capacity s q h), h)
call-Simulates capacity s q is_empty_call h =
    (s, ap (λ (b : Bool). some (test b, s)) (is_empty-Holds capacity s q h), h)

-- Any calls on a new stack, whatever its memory held, run without a fault and get the answers of a list
-- of at most `capacity` values, the newest first: `push` on a full stack changes nothing, `pop` and
-- `peek` on an empty one return -1. In the end the stack holds the values of the list.
pub run-IsStack :
    (capacity : ℕ) (memory : List ℤ) (calls : List Call)
    → length memory ≡ capacity
    → Runs call (call_list capacity) (Holds capacity) (create_stack memory (pos capacity)) [] calls
unfolding create_stack
run-IsStack capacity memory calls h =
    Simulates-Runs call (call_list capacity) (Holds capacity) (call-Simulates capacity) calls
      (create_stack memory (pos capacity)) []
      (record { bound = refl; room = h; fits = omega arith; place = start; same_values = refl })
  where
    start : negsuc 0 +ℤ pos 1 ≡ pos 0
    start = omega int_laws
