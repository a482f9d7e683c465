-- ===== src/Linear/SinglyList/Contents.antt =====
-- The list of singlyLinkedList_smartptr.cpp as the sequence that it prints.
use dsalib.Core.{true, List, [], ◌∷◌, ◌≡◌, ◌↔◌, Eq, refl, ap, arith, Any}
use dsalib.Linear.SinglyList.{
  Node, null, node, LinkedList, push_front, pop_front, cut_last, pop_back_node, pop_back,
  clear_node, clear, print_node, print_list, find_node, find,
}

-- A client's call.
pub data Op {ℓ} (T : Type ℓ) : Type ℓ where
  at_front : T → Op T
  off_front : Op T
  off_back : Op T
  everything_off : Op T

module _ {ℓ} {T : Type ℓ} where
  -- A sequence without its last element.
  abbrev pub init : List T → List T
  init [] = []
  init (x ∷ []) = []
  init (x ∷ y ∷ rest) = x ∷ init (y ∷ rest)

  abbrev pub tail : List T → List T
  tail [] = []
  tail (x ∷ xs) = xs

  unfoldable pub call : Op T → LinkedList T → LinkedList T
  call (at_front x) l = push_front l x
  call off_front l = pop_front l
  call off_back l = pop_back l
  call everything_off l = clear l

  -- The same call on a sequence.
  abbrev pub act : Op T → List T → List T
  act (at_front x) xs = x ∷ xs
  act off_front xs = tail xs
  act off_back xs = init xs
  act everything_off xs = []

  print_node-cut_last :
      (x y : T) (rest : Node T) → print_node (cut_last x y rest) ≡ init (x ∷ y ∷ print_node rest)
  unfolding print_node cut_last
  print_node-cut_last x y null = refl
  print_node-cut_last x y (node z rest) = ap (◌∷◌ x) (print_node-cut_last y z rest)

  print_node-pop_back_node : (n : Node T) → print_node (pop_back_node n) ≡ init (print_node n)
  unfolding print_node pop_back_node
  print_node-pop_back_node null = refl
  print_node-pop_back_node (node x null) = refl
  print_node-pop_back_node (node x (node y rest)) = print_node-cut_last x y rest

  print_node-clear_node : (n : Node T) → print_node (clear_node n) ≡ []
  unfolding print_node clear_node
  print_node-clear_node null = refl
  print_node-clear_node (node x next) = print_node-clear_node next

  print_node-pop_front :
      (l : LinkedList T) (n : Node T) → l.head ≡ n → print_list (pop_front l) ≡ tail (print_node n)
  unfolding print_list pop_front
  print_node-pop_front l null h = rw (h, pop_front) (rw h)
  print_node-pop_front l (node x next) h = rw (h, pop_front)

  -- `pushFront`, `popFront`, `popBack` and `clear` change the printed sequence as the operations on
  -- sequences do: an element put in front, the first taken off, the last taken off, all taken off; on
  -- the empty list the last three change nothing.
  pub print_list-call :
      (op : Op T) (l : LinkedList T) → print_list (call op l) ≡ act op (print_list l)
  unfolding print_list call
  print_list-call (at_front x) l = unfold push_front in refl
  print_list-call off_front l = print_node-pop_front l l.head refl
  print_list-call off_back l = unfold pop_back in print_node-pop_back_node l.head
  print_list-call everything_off l = unfold clear in print_node-clear_node l.head

module _ {T : Type 0} ⦃e : Eq T⦄ where
  find_node→Any : (n : Node T) (x : T) → find_node n x ≡ true → Any (λ y. y ≡ x) (print_node n)
  unfolding find_node print_node
  find_node→Any null x h = absurd (ground arith)
  find_node→Any (node y next) x h = ground (arith, find_node→Any next x, e.beq_iff y x)

  Any→find_node : (n : Node T) (x : T) → Any (λ y. y ≡ x) (print_node n) → find_node n x ≡ true
  unfolding find_node print_node
  Any→find_node null x h = absurd h
  Any→find_node (node y next) x h = ground (arith, Any→find_node next x, e.beq_iff y x)

  -- `find` answers true exactly for the values that `printList` prints.
  pub find_iff : (l : LinkedList T) (x : T) → (find l x ≡ true) ↔ Any (λ y. y ≡ x) (print_list l)
  unfolding find print_list
  find_iff l x = (find_node→Any l.head x, Any→find_node l.head x)
