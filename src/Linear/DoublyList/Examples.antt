-- ===== src/Linear/DoublyList/Examples.antt =====
-- The calls of `main`, and some more.
use dsalib.Core.{◌≡◌, refl, List, [], ◌∷◌, pos, none, some, ℕ, true, false, run, run_model}
use mathlib.Core.Option
use dsalib.Linear.DoublyList.{
  Memory, DoublyLinkedList, new, set_prev, set_next, points_to, relink_prev, relink_next,
  insert_front, insert_back, delete_node, search_from, search_list, forward_from, display_forward,
  backward_from, display_backward, destroy, Call, insert_front_call, insert_back_call, remove_call,
  search_call, forward_call, backward_call, done, is_found, printed, call, call_list,
}
use dsalib.Linear.DoublyList.Run.{Holds, run-IsList}

abbrev calls : List Call
calls =
    insert_front_call (pos 10)
    ∷ insert_front_call (pos 20)
    ∷ insert_back_call (pos 30)
    ∷ forward_call
    ∷ remove_call (pos 10)
    ∷ forward_call
    ∷ backward_call
    ∷ search_call (pos 10)
    ∷ search_call (pos 30)
    ∷ remove_call (pos 30)
    ∷ remove_call (pos 20)
    ∷ backward_call
    ∷ []

run-calls :
    Option.map (λ r. r.0) (run call new calls)
    ≡ some (
        done
        ∷ done
        ∷ done
        ∷ printed (pos 20 ∷ pos 10 ∷ pos 30 ∷ [])
        ∷ done
        ∷ printed (pos 20 ∷ pos 30 ∷ [])
        ∷ printed (pos 30 ∷ pos 20 ∷ [])
        ∷ is_found false
        ∷ is_found true
        ∷ done
        ∷ done
        ∷ printed []
        ∷ [])
unfolding run call set_prev set_next points_to relink_prev relink_next insert_front insert_back
    delete_node search_from search_list forward_from display_forward backward_from display_backward
run-calls = refl

run-IsList_example :
    (s : DoublyLinkedList) × (run call new calls ≡ some ((run_model call_list [] calls).0, s))
    × Holds s (run_model call_list [] calls).1
    × ((m : Memory) × (destroy s ≡ some m) × ((a : ℕ) → m a ≡ none))
run-IsList_example = run-IsList calls
