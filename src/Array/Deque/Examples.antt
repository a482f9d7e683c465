-- ===== src/Array/Deque/Examples.antt =====
-- A deque of three places in memory that held 7, 8 and 9.
use dsalib.Core.{◌≡◌, refl, arith, List, [], ◌∷◌, pos, none, some, Runs, get_or, ℤ}
use dsalib.Array.Stack.{Call, push_call, pop_call, peek_call, call_list}
use dsalib.Array.Deque.{Deque, create_deque, insert_rear, delete_front, get_front}
use dsalib.Array.Deque.Front.{call, Holds, run-IsFrontStack}
use dsalib.Array.Deque.Rear.{get_front-insert_rear, insert_rear-delete_front}

abbrev memory : List ℤ
memory = pos 7 ∷ pos 8 ∷ pos 9 ∷ []

abbrev calls : List Call
calls =
    push_call (pos 1)
    ∷ push_call (pos 2)
    ∷ push_call (pos 3)
    ∷ push_call (pos 4)
    ∷ peek_call
    ∷ pop_call
    ∷ pop_call
    ∷ pop_call
    ∷ pop_call
    ∷ push_call (pos 5)
    ∷ peek_call
    ∷ []

run-IsFrontStack_example : Runs call (call_list 3) (Holds 3) (create_deque memory (pos 3)) [] calls
run-IsFrontStack_example = run-IsFrontStack 3 memory calls (omega arith) refl

get_front-insert_rear_example :
    (d : Deque) × (insert_rear (create_deque memory (pos 3)) (pos 20) ≡ some d)
    × (get_front d ≡ some (get_or memory 1 (pos 0)))
get_front-insert_rear_example = get_front-insert_rear 3 memory (pos 20) (omega arith) refl

-- A deque with the one value 8.
abbrev single : Deque
single = record { items = memory; front = pos 1; rear = pos 1; capacity = pos 3; size = pos 1 }

insert_rear-delete_front_example :
    (d : Deque) × (delete_front single ≡ some (get_or memory 1 (pos 0), d))
    × (insert_rear d (pos 20) ≡ none)
insert_rear-delete_front_example =
    insert_rear-delete_front single 3 1 (pos 20) (omega arith) refl refl refl (omega arith)
