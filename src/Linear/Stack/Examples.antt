-- ===== src/Linear/Stack/Examples.antt =====
-- stack.cpp on the calls of its `main`.
use dsalib.Core.{ℕ, ◌≡◌, List, [], ◌∷◌, arith}
use mathlib.Core.List.{reverse}
use dsalib.Linear.Stack.{by_test, new, push_all, pop_all, pop_all-push_all}

abbrev three : List ℕ
three = 1 ∷ 2 ∷ 3 ∷ []

pop_all-push_all_example : pop_all 4 (push_all three new) ≡ (by_test, new, reverse three)
pop_all-push_all_example = pop_all-push_all three 4 (omega arith)
