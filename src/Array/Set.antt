-- ===== src/Array/Set.antt =====
-- DataStructure/C/set/set.c and set.h: a set of at most 100 values in an array with no order.
pub mod Window
pub mod Deletes
pub mod Finite
mod Examples
use dsalib.Core.{
  remove_one, is_member, cons_parts, ℕ, zero, suc, ◌+◌, ◌-◌, ◌*◌, ◌/◌, ◌%◌, ◌≤◌, ◌<◌, ◌≡◌, refl,
  sym, ap, ◌∙◌, subst, ◌≢◌, ◌⊎◌, inl, inr, Bool, true, false, not, ◌&&◌, ◌||◌, Option, none, some,
  List, [], ◌∷◌, ◌++◌, arith, ltb, leb, ◌==◌, if◌then◌else◌, Bool-cases, Option-cases, length,
  get_elem?, set, get_or, length-append, length-set, get_or-set_self, get_or-set_ne,
  get_elem?-get_or, ℤ, pos, negsuc, pos_part, neg_part, lt_ℤ, le_ℤ, ◌==ℤ◌, ◌+ℤ◌, ◌-ℤ◌, ==ℤ_iff,
  eq_of_parts, replicate,
}
use dsalib.Core.{count}
use dsalib.Array.{read, write}

abbrev pub set_capacity : ℕ
set_capacity = 100

-- `Set`
pub record Set : Type 0 where
  pub items : List ℤ
  pub count : ℤ

-- The loop of `initializeSet`.
unfoldable pub initialize_from : (rounds i : ℕ) → List ℤ → Option (List ℤ)
initialize_from zero i items = some items
initialize_from (suc rounds) i items = elim (write items (pos i) (negsuc 0)) [
  | none ↦ none
  | some items' ↦ initialize_from rounds (suc i) items'
]

-- `initializeSet`
unfoldable pub initialize_set : Set → Option Set
initialize_set set = elim (initialize_from set_capacity 0 set.items) [
  | none ↦ none
  | some items ↦ some (record { items = items; count = pos 0 })
]

-- The loop of `isInSet`, with the rounds that are left.
unfoldable pub is_in_from : List ℤ → (item : ℤ) → (rounds i : ℕ) → Option ℤ
is_in_from items item zero i = some (pos 0)
is_in_from items item (suc rounds) i = elim (read items (pos i)) [
  | none ↦ none
  | some v ↦ elim (v ==ℤ item) [
    | true ↦ some (pos 1)
    | false ↦ is_in_from items item rounds (suc i)
  ]
]

-- `isInSet`
unfoldable pub is_in_set : Set → ℤ → Option ℤ
is_in_set set item = is_in_from set.items item (pos_part set.count) 0

-- `insertToSet`: the value that it returns, and the set.
unfoldable pub insert_to_set : Set → ℤ → Option (ℤ × Set)
insert_to_set set item = elim (le_ℤ (pos set_capacity) set.count) [
  | true ↦ some (negsuc 0, set)
  | false ↦ elim (is_in_set set item) [
    | none ↦ none
    | some found ↦ elim (found ==ℤ pos 0) [
      | false ↦ some (pos 0, set)
      | true ↦ elim (write set.items set.count item) [
        | none ↦ none
        | some items ↦ some (pos 1, record { items = items; count = set.count +ℤ pos 1 })
      ]
    ]
  ]
]

-- The loop of `deleteFromSet`, with the rounds that are left.
unfoldable pub delete_from : Set → (item : ℤ) → (rounds i : ℕ) → Option (ℤ × Set)
delete_from set item zero i = some (pos 0, set)
delete_from set item (suc rounds) i = elim (read set.items (pos i)) [
  | none ↦ none
  | some v ↦ elim (v ==ℤ item) [
    | false ↦ delete_from set item rounds (suc i)
    | true ↦ elim (read set.items (set.count -ℤ pos 1)) [
      | none ↦ none
      | some last ↦ elim (write set.items (pos i) last) [
        | none ↦ none
        | some items ↦ some (pos 1, record { items = items; count = set.count -ℤ pos 1 })
      ]
    ]
  ]
]

-- `deleteFromSet`
unfoldable pub delete_from_set : Set → ℤ → Option (ℤ × Set)
delete_from_set set item = delete_from set item (pos_part set.count) 0

-- The calls of a client.
pub data Call : Type 0 where
  insert_call delete_call is_in_call : ℤ → Call

unfoldable pub call : Set → Call → Option (ℤ × Set)
call s (insert_call item) = insert_to_set s item
call s (delete_call item) = delete_from_set s item
call s (is_in_call item) = elim (is_in_set s item) [ none ↦ none | some found ↦ some (found, s) ]

-- The same calls on a list of at most 100 different values.
unfoldable pub call_list : List ℤ → Call → ℤ × List ℤ
call_list q (insert_call item) =
    if leb set_capacity (length q)
    then (negsuc 0, q)
    else if is_member item q
    then (pos 0, q)
    else (pos 1, item ∷ q)
call_list q (delete_call item) = if is_member item q then (pos 1, remove_one item q) else (pos 0, q)
call_list q (is_in_call item) = if is_member item q then (pos 1, q) else (pos 0, q)
