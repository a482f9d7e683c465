-- ===== src/Linear/DoublyList.antt =====
-- DataStructure/CPP/linked_list/doublyLinkedlist.cpp: a list of nodes with pointers to the next one and
-- to the one before. A pointer is an address in a memory that is part of the state; reading a node that
-- is not there is a fault, `none`.
pub mod Segment
pub mod Apart
pub mod Walks
pub mod Edits
pub mod Run
mod Examples
use mathlib.Core.List.{reverse}
use dsalib.Core.{
  remove_one, is_member, cons_parts, ℕ, zero, suc, ◌+◌, ◌-◌, ◌*◌, ◌/◌, ◌%◌, ◌^◌, ◌≤◌, ◌<◌, ◌≡◌,
  refl, sym, ap, ◌∙◌, subst, ◌≢◌, ◌⊎◌, inl, inr, Bool, true, false, not, ◌&&◌, ◌||◌, Option, none,
  some, List, [], ◌∷◌, ◌++◌, arith, ltb, leb, ◌==◌, if◌then◌else◌, Bool-cases, Option-cases, length,
  get_elem?, set, get_or, length-append, length-set, get_or-set_self, get_or-set_ne,
  get_elem?-get_or, ℤ, pos, negsuc, pos_part, neg_part, lt_ℤ, le_ℤ, ◌==ℤ◌, ◌+ℤ◌, ◌-ℤ◌, ==ℤ_iff,
  eq_of_parts, replicate,
}

-- `Node`
pub record Node : Type 0 where
  pub value : ℤ
  pub prev : Option ℕ
  pub next : Option ℕ

abbrev pub Memory : Type 0
Memory = ℕ → Option Node

-- `class DoublyLinkedList`, with the memory; the addresses from `fresh` on were never allocated.
pub record DoublyLinkedList : Type 0 where
  pub head : Option ℕ
  pub tail : Option ℕ
  pub memory : Memory
  pub fresh : ℕ

-- The constructor.
abbrev pub new : DoublyLinkedList
new = record { head = none; tail = none; memory = λ a. none; fresh = 0 }

abbrev pub update : Memory → ℕ → Option Node → Memory
update memory a n b = if a == b then n else memory b

-- `p->prev = q`
unfoldable pub set_prev : Memory → (p : ℕ) → (q : Option ℕ) → Option Memory
set_prev memory p q = elim (memory p) [
  | none ↦ none
  | some n ↦ some (update memory p (some (record n { prev = q })))
]

-- `p->next = q`
unfoldable pub set_next : Memory → (p : ℕ) → (q : Option ℕ) → Option Memory
set_next memory p q = elim (memory p) [
  | none ↦ none
  | some n ↦ some (update memory p (some (record n { next = q })))
]

-- `insertFront`
unfoldable pub insert_front : DoublyLinkedList → ℤ → Option DoublyLinkedList
insert_front s value =
    let memory =
      update s.memory s.fresh (some (record { value = value; prev = none; next = none })) in
    elim s.head [
      | none ↦ some (record {
        head = some s.fresh;
        tail = some s.fresh;
        memory = memory;
        fresh = suc s.fresh;
      })
      | some first ↦ elim (set_next memory s.fresh (some first)) [
        | none ↦ none
        | some memory' ↦ elim (set_prev memory' first (some s.fresh)) [
          | none ↦ none
          | some memory'' ↦ some (record {
            head = some s.fresh;
            tail = s.tail;
            memory = memory'';
            fresh = suc s.fresh;
          })
        ]
      ]
    ]

-- `insertBack`
unfoldable pub insert_back : DoublyLinkedList → ℤ → Option DoublyLinkedList
insert_back s value =
    let memory =
      update s.memory s.fresh (some (record { value = value; prev = none; next = none })) in
    elim s.tail [
      | none ↦ some (record {
        head = some s.fresh;
        tail = some s.fresh;
        memory = memory;
        fresh = suc s.fresh;
      })
      | some last ↦ elim (set_next memory last (some s.fresh)) [
        | none ↦ none
        | some memory' ↦ elim (set_prev memory' s.fresh (some last)) [
          | none ↦ none
          | some memory'' ↦ some (record {
            head = s.head;
            tail = some s.fresh;
            memory = memory'';
            fresh = suc s.fresh;
          })
        ]
      ]
    ]

-- Whether a pointer is this address.
unfoldable pub points_to : Option ℕ → ℕ → Bool
points_to none a = false
points_to (some p) a = p == a

-- `if (p != nullptr) p->prev = q`, and the same for `next`.
unfoldable pub relink_prev : Memory → (p q : Option ℕ) → Option Memory
relink_prev memory none q = some memory
relink_prev memory (some p) q = set_prev memory p q

unfoldable pub relink_next : Memory → (p q : Option ℕ) → Option Memory
relink_next memory none q = some memory
relink_next memory (some p) q = set_next memory p q

-- `deleteNode`
unfoldable pub delete_node : DoublyLinkedList → Option ℕ → Option DoublyLinkedList
delete_node s none = some s
delete_node s (some a) = elim (s.memory a) [
  | none ↦ none
  | some n ↦ elim (relink_prev s.memory n.next n.prev) [
    | none ↦ none
    | some memory ↦ elim (memory a) [
      | none ↦ none
      | some n' ↦ elim (relink_next memory n'.prev n'.next) [
        | none ↦ none
        | some memory' ↦ some (record s {
          head = if points_to s.head a then n.next else s.head;
          tail = if points_to s.tail a then n.prev else s.tail;
          memory = update memory' a none;
        })
      ]
    ]
  ]
]

-- The loop of `search`; `none` after a fault or when the fuel runs out.
unfoldable pub search_from : (fuel : ℕ) → Memory → (current : Option ℕ) → ℤ → Option (Option ℕ)
search_from zero memory current value = none
search_from (suc fuel) memory none value = some none
search_from (suc fuel) memory (some a) value = elim (memory a) [
  | none ↦ none
  | some n ↦ elim (n.value ==ℤ value) [
    | true ↦ some (some a)
    | false ↦ search_from fuel memory n.next value
  ]
]

-- `search`; every node was allocated, so its rounds are at most so many and one.
unfoldable pub search_list : DoublyLinkedList → ℤ → Option (Option ℕ)
search_list s value = search_from (suc s.fresh) s.memory s.head value

-- The loop of `displayForward`: what it prints.
unfoldable pub forward_from : (fuel : ℕ) → Memory → (current : Option ℕ) → Option (List ℤ)
forward_from zero memory current = none
forward_from (suc fuel) memory none = some []
forward_from (suc fuel) memory (some a) = elim (memory a) [
  | none ↦ none
  | some n ↦ elim (forward_from fuel memory n.next) [
    | none ↦ none
    | some values ↦ some (n.value ∷ values)
  ]
]

-- `displayForward`
unfoldable pub display_forward : DoublyLinkedList → Option (List ℤ)
display_forward s = forward_from (suc s.fresh) s.memory s.head

-- The loop of `displayBackward`.
unfoldable pub backward_from : (fuel : ℕ) → Memory → (current : Option ℕ) → Option (List ℤ)
backward_from zero memory current = none
backward_from (suc fuel) memory none = some []
backward_from (suc fuel) memory (some a) = elim (memory a) [
  | none ↦ none
  | some n ↦ elim (backward_from fuel memory n.prev) [
    | none ↦ none
    | some values ↦ some (n.value ∷ values)
  ]
]

-- `displayBackward`
unfoldable pub display_backward : DoublyLinkedList → Option (List ℤ)
display_backward s = backward_from (suc s.fresh) s.memory s.tail

-- The loop of the destructor: the memory that it leaves.
unfoldable pub destroy_from : (fuel : ℕ) → Memory → (current : Option ℕ) → Option Memory
destroy_from zero memory current = none
destroy_from (suc fuel) memory none = some memory
destroy_from (suc fuel) memory (some a) = elim (memory a) [
  | none ↦ none
  | some n ↦ destroy_from fuel (update memory a none) n.next
]

-- `~DoublyLinkedList`
unfoldable pub destroy : DoublyLinkedList → Option Memory
destroy s = destroy_from (suc s.fresh) s.memory s.head

-- The calls of a client; the value of `remove_call` is searched, and the node that is found deleted.
pub data Call : Type 0 where
  insert_front_call insert_back_call remove_call search_call : ℤ → Call
  forward_call backward_call : Call

pub data Answer : Type 0 where
  done : Answer
  is_found : Bool → Answer
  printed : List ℤ → Answer

unfoldable pub call : DoublyLinkedList → Call → Option (Answer × DoublyLinkedList)
call s (insert_front_call v) = elim (insert_front s v) [ none ↦ none | some s' ↦ some (done, s') ]
call s (insert_back_call v) = elim (insert_back s v) [ none ↦ none | some s' ↦ some (done, s') ]
call s (remove_call v) = elim (search_list s v) [
  | none ↦ none
  | some found ↦ elim (delete_node s found) [ none ↦ none | some s' ↦ some (done, s') ]
]
call s (search_call v) = elim (search_list s v) [
  | none ↦ none
  | some none ↦ some (is_found false, s)
  | some (some a) ↦ some (is_found true, s)
]
call s forward_call = elim (display_forward s) [
  | none ↦ none
  | some values ↦ some (printed values, s)
]
call s backward_call = elim (display_backward s) [
  | none ↦ none
  | some values ↦ some (printed values, s)
]

-- The same calls on a list.
unfoldable pub call_list : List ℤ → Call → Answer × List ℤ
call_list q (insert_front_call v) = (done, v ∷ q)
call_list q (insert_back_call v) = (done, q ++ v ∷ [])
call_list q (remove_call v) = (done, remove_one v q)
call_list q (search_call v) = (is_found (is_member v q), q)
call_list q forward_call = (printed q, q)
call_list q backward_call = (printed (reverse q), q)
