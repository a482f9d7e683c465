-- ===== src/Array/Stack.antt =====
-- DataStructure/C/stack/stack.c and stack.h: a stack of bounded capacity in an array.
pub mod Bounded
mod Examples
use dsalib.Core.{
  ℕ, zero, suc, ◌+◌, ◌-◌, ◌*◌, ◌/◌, ◌%◌, ◌≤◌, ◌<◌, ◌≡◌, refl, sym, ap, ◌∙◌, subst, ◌≢◌, ◌⊎◌, inl,
  inr, Bool, true, false, not, ◌&&◌, ◌||◌, Option, none, some, List, [], ◌∷◌, ◌++◌, arith, ltb, leb,
  ◌==◌, if◌then◌else◌, Bool-cases, Option-cases, length, get_elem?, set, get_or, length-append,
  length-set, get_or-set_self, get_or-set_ne, get_elem?-get_or, ℤ, pos, negsuc, pos_part, neg_part,
  lt_ℤ, le_ℤ, ◌==ℤ◌, ◌+ℤ◌, ◌-ℤ◌, ==ℤ_iff, eq_of_parts, replicate,
}
use dsalib.Array.{read, write}

-- `Stack`
pub record Stack : Type 0 where
  pub items : List ℤ
  pub top : ℤ
  pub capacity : ℤ

-- `createStack`; `memory` is what `malloc` returned for the items.
unfoldable pub create_stack : (memory : List ℤ) → (capacity : ℤ) → Stack
create_stack memory capacity = record { items = memory; top = negsuc 0; capacity = capacity }

-- `isFull`
unfoldable pub is_full : Stack → Bool
is_full stack = stack.top ==ℤ (stack.capacity -ℤ pos 1)

-- `isEmpty`
unfoldable pub is_empty : Stack → Bool
is_empty stack = stack.top ==ℤ negsuc 0

-- `push`
unfoldable pub push : Stack → ℤ → Option Stack
push stack item = elim (is_full stack) [
  | true ↦ some stack
  | false ↦ elim (write stack.items (stack.top +ℤ pos 1) item) [
    | none ↦ none
    | some items ↦ some (record stack { items = items; top = stack.top +ℤ pos 1 })
  ]
]

-- `pop`: the value that it returns, and the stack that is left.
unfoldable pub pop : Stack → Option (ℤ × Stack)
pop stack = elim (is_empty stack) [
  | true ↦ some (negsuc 0, stack)
  | false ↦ elim (read stack.items stack.top) [
    | none ↦ none
    | some item ↦ some (item, record stack { top = stack.top -ℤ pos 1 })
  ]
]

-- `peek`
unfoldable pub peek : Stack → Option ℤ
peek stack = elim (is_empty stack) [ true ↦ some (negsuc 0) | false ↦ read stack.items stack.top ]

-- The calls of a client, each with the value that it returns.
pub data Call : Type 0 where
  push_call : ℤ → Call
  pop_call peek_call is_full_call is_empty_call : Call

pub data Answer : Type 0 where
  done : Answer
  value : ℤ → Answer
  test : Bool → Answer

unfoldable pub call : Stack → Call → Option (Answer × Stack)
call s (push_call item) = elim (push s item) [ none ↦ none | some s' ↦ some (done, s') ]
call s pop_call = elim (pop s) [ none ↦ none | some (item, s') ↦ some (value item, s') ]
call s peek_call = elim (peek s) [ none ↦ none | some item ↦ some (value item, s) ]
call s is_full_call = some (test (is_full s), s)
call s is_empty_call = some (test (is_empty s), s)

-- The same calls on a list of at most `capacity` values, the newest first.
unfoldable pub call_list : (capacity : ℕ) → List ℤ → Call → Answer × List ℤ
call_list capacity q (push_call item) = if length q == capacity then (done, q) else (done, item ∷ q)
call_list capacity [] pop_call = (value (negsuc 0), [])
call_list capacity (x ∷ q) pop_call = (value x, q)
call_list capacity [] peek_call = (value (negsuc 0), [])
call_list capacity (x ∷ q) peek_call = (value x, x ∷ q)
call_list capacity q is_full_call = (test (length q == capacity), q)
call_list capacity q is_empty_call = (test (length q == 0), q)
