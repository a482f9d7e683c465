-- ===== src/Array/Queue.antt =====
-- DataStructure/C/queue/queue.c and queue.h: a queue of bounded capacity in a circular array.
pub mod Bounded
mod Examples
use dsalib.Core.{
  cons_parts, ℕ, zero, suc, ◌+◌, ◌-◌, ◌*◌, ◌/◌, ◌%◌, ◌≤◌, ◌<◌, ◌≡◌, refl, sym, ap, ◌∙◌, subst, ◌≢◌,
  ◌⊎◌, inl, inr, Bool, true, false, not, ◌&&◌, ◌||◌, Option, none, some, List, [], ◌∷◌, ◌++◌, arith,
  ltb, leb, ◌==◌, if◌then◌else◌, Bool-cases, Option-cases, length, get_elem?, set, get_or,
  length-append, length-set, get_or-set_self, get_or-set_ne, get_elem?-get_or, ℤ, pos, negsuc,
  pos_part, neg_part, lt_ℤ, le_ℤ, ◌==ℤ◌, ◌+ℤ◌, ◌-ℤ◌, ==ℤ_iff, eq_of_parts, replicate,
}
use dsalib.Array.{read, write, rem}

-- `Queue`
pub record Queue : Type 0 where
  pub items : List ℤ
  pub front : ℤ
  pub rear : ℤ
  pub capacity : ℤ
  pub size : ℤ

-- `createQueue`; `memory` is what `malloc` returned for the items.
unfoldable pub create_queue : (memory : List ℤ) → (capacity : ℤ) → Queue
create_queue memory capacity = record {
  items = memory;
  front = pos 0;
  rear = capacity -ℤ pos 1;
  capacity = capacity;
  size = pos 0;
}

-- `isFull`
unfoldable pub is_full : Queue → Bool
is_full queue = queue.size ==ℤ queue.capacity

-- `isEmpty`
unfoldable pub is_empty : Queue → Bool
is_empty queue = queue.size ==ℤ pos 0

-- `enqueue`
unfoldable pub enqueue : Queue → ℤ → Option Queue
enqueue queue item = elim (is_full queue) [
  | true ↦ some queue
  | false ↦
      let rear = rem (queue.rear +ℤ pos 1) queue.capacity in
      elim (write queue.items rear item) [
        | none ↦ none
        | some items ↦
            some (record queue { items = items; rear = rear; size = queue.size +ℤ pos 1 })
      ]
]

-- `dequeue`: the value that it returns, and the queue that is left.
unfoldable pub dequeue : Queue → Option (ℤ × Queue)
dequeue queue = elim (is_empty queue) [
  | true ↦ some (negsuc 0, queue)
  | false ↦ elim (read queue.items queue.front) [
    | none ↦ none
    | some item ↦ some (
      item,
      record queue {
        front = rem (queue.front +ℤ pos 1) queue.capacity;
        size = queue.size -ℤ pos 1;
      },
    )
  ]
]

-- `front`
unfoldable pub front_item : Queue → Option ℤ
front_item queue = elim (is_empty queue) [
  | true ↦ some (negsuc 0)
  | false ↦ read queue.items queue.front
]

-- The calls of a client, each with what it returns.
pub data Call : Type 0 where
  enqueue_call : ℤ → Call
  dequeue_call front_call is_full_call is_empty_call : Call

pub data Answer : Type 0 where
  done : Answer
  value : ℤ → Answer
  test : Bool → Answer

unfoldable pub call : Queue → Call → Option (Answer × Queue)
call s (enqueue_call item) = elim (enqueue s item) [ none ↦ none | some s' ↦ some (done, s') ]
call s dequeue_call = elim (dequeue s) [ none ↦ none | some (item, s') ↦ some (value item, s') ]
call s front_call = elim (front_item s) [ none ↦ none | some item ↦ some (value item, s) ]
call s is_full_call = some (test (is_full s), s)
call s is_empty_call = some (test (is_empty s), s)

-- The same calls on a list of at most `capacity` values, the oldest first.
unfoldable pub call_list : (capacity : ℕ) → List ℤ → Call → Answer × List ℤ
call_list capacity q (enqueue_call item) =
    if length q == capacity then (done, q) else (done, q ++ item ∷ [])
call_list capacity [] dequeue_call = (value (negsuc 0), [])
call_list capacity (x ∷ q) dequeue_call = (value x, q)
call_list capacity [] front_call = (value (negsuc 0), [])
call_list capacity (x ∷ q) front_call = (value x, x ∷ q)
call_list capacity q is_full_call = (test (length q == capacity), q)
call_list capacity q is_empty_call = (test (length q == 0), q)
