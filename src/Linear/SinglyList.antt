-- ===== src/Linear/SinglyList.antt =====
-- DataStructure/CPP/linked_list/singlyLinkedList_smartptr.cpp: a singly linked list whose nodes own the
-- next one.
pub mod Contents
mod Examples
use dsalib.Core.{ℕ, Bool, true, false, List, [], ◌∷◌, ◌≡◌, Eq}

-- `std::unique_ptr<Node<T>>`: `value` and `next`, or `nullptr`.
pub data Node {ℓ} (T : Type ℓ) : Type ℓ where
  null : Node T
  node : T → Node T → Node T

-- `class LinkedList`
pub record LinkedList {ℓ} (T : Type ℓ) : Type ℓ where
  pub head : Node T

module _ {ℓ} {T : Type ℓ} where
  -- `LinkedList()`
  abbrev pub new : LinkedList T
  new = record { head = null }

  -- `pushFront`
  unfoldable pub push_front : LinkedList T → T → LinkedList T
  push_front l x = record { head = node x l.head }

  -- `popFront`
  unfoldable pub pop_front : LinkedList T → LinkedList T
  pop_front l = elim l.head [ null ↦ l | node x next ↦ record { head = next } ]

  -- The loop of `popBack` from a node that has a next one, up to the assignment `current->next =
  -- nullptr`: it stops at the last but one node. The arguments are `current->value`,
  -- `current->next->value` and `current->next->next`.
  unfoldable pub cut_last : T → T → Node T → Node T
  cut_last x y null = node x null
  cut_last x y (node z rest) = node x (cut_last y z rest)

  -- `popBack` on the node that `head` owns.
  unfoldable pub pop_back_node : Node T → Node T
  unfolding cut_last
  pop_back_node null = null
  pop_back_node (node x null) = null
  pop_back_node (node x (node y rest)) = cut_last x y rest

  -- `popBack`
  unfoldable pub pop_back : LinkedList T → LinkedList T
  unfolding pop_back_node
  pop_back l = record { head = pop_back_node l.head }

  -- The loop of `clear`: moves `head->next` into `head` until it is null.
  unfoldable pub clear_node : Node T → Node T
  clear_node null = null
  clear_node (node x next) = clear_node next

  -- `clear`
  unfoldable pub clear : LinkedList T → LinkedList T
  unfolding clear_node
  clear l = record { head = clear_node l.head }

  -- The loop of `printList`: the printed values.
  unfoldable pub print_node : Node T → List T
  print_node null = []
  print_node (node x next) = x ∷ print_node next

  -- `printList`
  unfoldable pub print_list : LinkedList T → List T
  unfolding print_node
  print_list l = print_node l.head

module _ {ℓ} {T : Type ℓ} ⦃e : Eq T⦄ where
  -- The loop of `find`.
  unfoldable pub find_node : Node T → T → Bool
  find_node null x = false
  find_node (node y next) x = elim (e.beq y x) [ true ↦ true | false ↦ find_node next x ]

  -- `find`
  unfoldable pub find : LinkedList T → T → Bool
  unfolding find_node
  find l x = find_node l.head x
