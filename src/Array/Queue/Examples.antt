-- ===== src/Array/Queue/Examples.antt =====
-- A queue of two places in memory that held 7 and 8.
use dsalib.Core.{◌-ℤ◌, ◌+ℤ◌, ◌≡◌, refl, arith, List, [], ◌∷◌, pos, negsuc, true, some, run, Runs}
use mathlib.Core.Option
use dsalib.Array.{read, write, rem}
use dsalib.Array.Queue.{
  Queue, create_queue, is_full, is_empty, enqueue, dequeue, front_item, Call, enqueue_call,
  dequeue_call, front_call, is_full_call, done, value, test, call, call_list,
}
use dsalib.Array.Queue.Bounded.{Holds, run-IsBoundedQueue}

abbrev start : Queue
start = create_queue (pos 7 ∷ pos 8 ∷ []) (pos 2)

abbrev calls : List Call
calls =
    dequeue_call
    ∷ enqueue_call (pos 1)
    ∷ enqueue_call (pos 2)
    ∷ is_full_call
    ∷ enqueue_call (pos 3)
    ∷ front_call
    ∷ dequeue_call
    ∷ enqueue_call (pos 4)
    ∷ dequeue_call
    ∷ []

run-calls :
    Option.map (λ r. r.0) (run call start calls)
    ≡ some (
        value (negsuc 0)
        ∷ done
        ∷ done
        ∷ test true
        ∷ done
        ∷ value (pos 1)
        ∷ value (pos 1)
        ∷ done
        ∷ value (pos 2)
        ∷ [])
unfolding run call create_queue is_full is_empty enqueue dequeue front_item read write rem ◌-ℤ◌ ◌+ℤ◌
run-calls = refl

run-IsBoundedQueue_example : Runs call (call_list 2) (Holds 2) start [] calls
run-IsBoundedQueue_example = run-IsBoundedQueue 2 (pos 7 ∷ pos 8 ∷ []) calls (omega arith) refl
