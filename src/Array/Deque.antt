-- ===== src/Array/Deque.antt =====
-- DataStructure/C/queue/deque.c and deque.h: a deque of bounded capacity in a circular array.
pub mod Places
pub mod Front
pub mod Rear
mod Examples
use dsalib.Core.{
  cons_parts, ℕ, zero, suc, ◌+◌, ◌-◌, ◌*◌, ◌/◌, ◌%◌, ◌≤◌, ◌<◌, ◌≡◌, refl, sym, ap, ◌∙◌, subst, ◌≢◌,
  ◌⊎◌, inl, inr, Bool, true, false, not, ◌&&◌, ◌||◌, Option, none, some, List, [], ◌∷◌, ◌++◌, arith,
  ltb, leb, ◌==◌, if◌then◌else◌, Bool-cases, Option-cases, length, get_elem?, set, get_or,
  length-append, length-set, get_or-set_self, get_or-set_ne, get_elem?-get_or, ℤ, pos, negsuc,
  pos_part, neg_part, lt_ℤ, le_ℤ, ◌==ℤ◌, ◌+ℤ◌, ◌-ℤ◌, ==ℤ_iff, eq_of_parts, replicate,
}
use dsalib.Array.{read, write, rem}

-- `Deque`
pub record Deque : Type 0 where
  pub items : List ℤ
  pub front : ℤ
  pub rear : ℤ
  pub capacity : ℤ
  pub size : ℤ

-- `createDeque`; `memory` is what `malloc` returned for the items.
unfoldable pub create_deque : (memory : List ℤ) → (capacity : ℤ) → Deque
create_deque memory capacity = record {
  items = memory;
  front = negsuc 0;
  rear = pos 0;
  capacity = capacity;
  size = pos 0;
}

-- `isFull`
unfoldable pub is_full : Deque → Bool
is_full deque = deque.size ==ℤ deque.capacity

-- `isEmpty`
unfoldable pub is_empty : Deque → Bool
is_empty deque = deque.size ==ℤ pos 0

-- `(i - 1 + deque->capacity) % deque->capacity`
unfoldable pub before : Deque → ℤ → ℤ
before deque i = rem (i -ℤ pos 1 +ℤ deque.capacity) deque.capacity

-- `insertFront`
unfoldable pub insert_front : Deque → ℤ → Option Deque
insert_front deque item = elim (is_full deque) [
  | true ↦ some deque
  | false ↦
      let front = before deque deque.front in
      elim (write deque.items front item) [
        | none ↦ none
        | some items ↦ some (record deque {
          items = items;
          front = front;
          rear = if is_empty deque then front else deque.rear;
          size = deque.size +ℤ pos 1;
        })
      ]
]

-- `insertRear`
unfoldable pub insert_rear : Deque → ℤ → Option Deque
insert_rear deque item = elim (is_full deque) [
  | true ↦ some deque
  | false ↦ elim (write deque.items deque.rear item) [
    | none ↦ none
    | some items ↦
        let rear = rem (deque.rear +ℤ pos 1) deque.capacity in
        some (record deque {
          items = items;
          front = if is_empty deque then rear else deque.front;
          rear = rear;
          size = deque.size +ℤ pos 1;
        })
  ]
]

-- The end of `deleteFront` and `deleteRear`, which resets the indices of an empty deque.
unfoldable pub reset_if_empty : Deque → Deque
reset_if_empty deque =
    if is_empty deque then record deque { front = negsuc 0; rear = negsuc 0 } else deque

-- `deleteFront`: the value that it returns, and the deque that is left.
unfoldable pub delete_front : Deque → Option (ℤ × Deque)
delete_front deque = elim (is_empty deque) [
  | true ↦ some (negsuc 0, deque)
  | false ↦ elim (read deque.items deque.front) [
    | none ↦ none
    | some item ↦ some (
      item,
      reset_if_empty (record deque {
        front = rem (deque.front +ℤ pos 1) deque.capacity;
        size = deque.size -ℤ pos 1;
      }),
    )
  ]
]

-- `deleteRear`
unfoldable pub delete_rear : Deque → Option (ℤ × Deque)
delete_rear deque = elim (is_empty deque) [
  | true ↦ some (negsuc 0, deque)
  | false ↦
      let rear = before deque deque.rear in
      elim (read deque.items rear) [
        | none ↦ none
        | some item ↦
            some (item, reset_if_empty (record deque { rear = rear; size = deque.size -ℤ pos 1 }))
      ]
]

-- `getFront`
unfoldable pub get_front : Deque → Option ℤ
get_front deque = elim (is_empty deque) [
  | true ↦ some (negsuc 0)
  | false ↦ read deque.items deque.front
]

-- `getRear`
unfoldable pub get_rear : Deque → Option ℤ
get_rear deque = elim (is_empty deque) [
  | true ↦ some (negsuc 0)
  | false ↦ read deque.items (before deque deque.rear)
]
