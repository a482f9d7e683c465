-- ===== src/Array/Stack/Examples.antt =====
-- A stack of two places in memory that held 7 and 8.
use dsalib.Core.{◌-ℤ◌, ◌+ℤ◌, ◌≡◌, refl, List, [], ◌∷◌, pos, negsuc, true, some, run, Runs}
use mathlib.Core.Option
use dsalib.Array.{read, write, rem}
use dsalib.Array.Stack.{
  Stack, create_stack, is_full, is_empty, push, pop, peek, Call, push_call, pop_call, peek_call,
  is_full_call, done, value, test, call, call_list,
}
use dsalib.Array.Stack.Bounded.{Holds, run-IsStack}

abbrev start : Stack
start = create_stack (pos 7 ∷ pos 8 ∷ []) (pos 2)

abbrev calls : List Call
calls =
    pop_call
    ∷ push_call (pos 1)
    ∷ push_call (pos 2)
    ∷ is_full_call
    ∷ push_call (pos 3)
    ∷ peek_call
    ∷ pop_call
    ∷ push_call (pos 4)
    ∷ pop_call
    ∷ []

run-calls :
    Option.map (λ r. r.0) (run call start calls)
    ≡ some (
        value (negsuc 0)
        ∷ done
        ∷ done
        ∷ test true
        ∷ done
        ∷ value (pos 2)
        ∷ value (pos 2)
        ∷ done
        ∷ value (pos 4)
        ∷ [])
unfolding run call create_stack is_full is_empty push pop peek read write rem ◌-ℤ◌ ◌+ℤ◌
run-calls = refl

run-IsStack_example : Runs call (call_list 2) (Holds 2) start [] calls
run-IsStack_example = run-IsStack 2 (pos 7 ∷ pos 8 ∷ []) calls refl
