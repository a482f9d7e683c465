-- ===== src/Linear/SinglyList/Examples.antt =====
-- singlyLinkedList_smartptr.cpp on the list of its `main`.
use dsalib.Core.{ℕ, ◌≡◌, ◌↔◌, true, [], ◌∷◌, Any, refl, nat_eq}
use dsalib.Linear.SinglyList.{LinkedList, new, push_front, pop_back, print_list, find}
use dsalib.Linear.SinglyList.Contents.{off_back, call, act, print_list-call, find_iff}

abbrev three : LinkedList ℕ
three = push_front (push_front (push_front new 10) 20) 30

pop_back-three : print_list (pop_back three) ≡ 30 ∷ 20 ∷ []
unfolding print_list pop_back push_front
pop_back-three = refl

print_list-call_example : print_list (call off_back three) ≡ act off_back (print_list three)
print_list-call_example = print_list-call off_back three

find_iff_example : (find three 20 ≡ true) ↔ Any (λ y. y ≡ 20) (print_list three)
find_iff_example = find_iff three 20
