-- ===== src/Linear/Stack.antt =====
-- DataStructure/CPP/stack/stack.cpp: a stack as a chain of nodes that own the next one.
mod Examples
use dsalib.Core.{
  length-append, Bool, true, false, List, [], ◌∷◌, ◌++◌, ◌≡◌, refl, arith, if◌then◌else◌, ap, sym,
  ◌∙◌, ℕ, zero, suc, length, ◌<◌,
}
use mathlib.Core.List.{reverse, reverse-append, append_assoc, append-nil}

-- `std::unique_ptr<Node>`: a node with `data` and `next`, or `nullptr`.
pub data Node {ℓ} (T : Type ℓ) : Type ℓ where
  null : Node T
  node : T → Node T → Node T

-- The result of a method that may throw `std::out_of_range`.
pub data Result {ℓ} (A : Type ℓ) : Type ℓ where
  value : A → Result A
  out_of_range : Result A

-- How a loop ends: its test fails, a method in it throws and nothing catches the exception, or it needs
-- more rounds than it is given.
pub data Ending : Type 0 where
  by_test : Ending
  uncaught : Ending
  more_rounds : Ending

-- `class Stack`
pub record Stack {ℓ} (T : Type ℓ) : Type ℓ where
  pub top_node : Node T

module _ {ℓ} {T : Type ℓ} where
  -- A new stack.
  abbrev pub new : Stack T
  new = record { top_node = null }

  -- `push`
  unfoldable pub push : Stack T → T → Stack T
  push s x = record { top_node = node x s.top_node }

  -- `isEmpty`
  unfoldable pub is_empty : Stack T → Bool
  is_empty s = elim s.top_node [ null ↦ true | node x next ↦ false ]

  -- `pop`: the stack that is left, and the data or the exception.
  unfoldable pub pop : Stack T → Stack T × Result T
  pop s = elim s.top_node [
    | null ↦ (s, out_of_range)
    | node x next ↦ (record { top_node = next }, value x)
  ]

  -- `top`
  unfoldable pub top : Stack T → Result T
  top s = elim s.top_node [ null ↦ out_of_range | node x next ↦ value x ]

  -- The loop of `main`: pops and prints while the stack is not empty. With how it ends come the stack
  -- that is left and what was printed.
  unfoldable pub pop_all : ℕ → Stack T → Ending × Stack T × List T
  pop_all zero s = (more_rounds, s, [])
  pop_all (suc fuel) s = elim (is_empty s) [
    | true ↦ (by_test, s, [])
    | false ↦
        let (rest, result) = pop s in
        elim result [
          | out_of_range ↦ (uncaught, rest, [])
          | value x ↦ let (ending, left, printed) = pop_all fuel rest in (ending, left, x ∷ printed)
        ]
  ]

  -- Pushes the values in turn.
  unfoldable pub push_all : List T → Stack T → Stack T
  push_all [] s = s
  push_all (x ∷ xs) s = push_all xs (push s x)

  -- The nodes for a list from the top down.
  nodes : List T → Node T
  nodes [] = null
  nodes (x ∷ xs) = node x (nodes xs)

  pop_all-nodes :
      (xs : List T) (fuel : ℕ)
      → length xs < fuel
      → pop_all fuel (record { top_node = nodes xs }) ≡ (by_test, new, xs)
  unfolding pop_all pop is_empty nodes
  pop_all-nodes xs zero h = absurd (omega arith)
  pop_all-nodes [] (suc fuel) h = refl
  pop_all-nodes (x ∷ xs) (suc fuel) h = rw (pop_all-nodes xs fuel (omega arith), pop_all)

  push_all-nodes :
      (xs ys : List T)
      → push_all xs (record { top_node = nodes ys })
        ≡ record { top_node = nodes (reverse xs ++ ys) }
  unfolding push_all push nodes
  push_all-nodes [] ys = refl
  push_all-nodes (x ∷ xs) ys =
      push_all-nodes xs (x ∷ ys)
      ∙ ap (λ zs. record { top_node = nodes zs })
          (sym (append_assoc (reverse xs) (x ∷ []) ys)
            ∙ ap (λ zs. zs ++ ys) (sym (reverse-append (x ∷ []) xs)))

  push_all-new : (xs : List T) → push_all xs new ≡ record { top_node = nodes (reverse xs) }
  unfolding nodes
  push_all-new xs =
      push_all-nodes xs [] ∙ ap (λ zs. record { top_node = nodes zs }) (append-nil (reverse xs))

  length-reverse : (xs : List T) → length (reverse xs) ≡ length xs
  length-reverse [] = refl
  length-reverse (x ∷ xs) =
      ap length (reverse-append (x ∷ []) xs)
      ∙ omega (arith, length-append (reverse xs) (x ∷ []), length-reverse xs)

  -- Values that were pushed on a new stack are popped and printed by the loop of `main` in the opposite
  -- order, the loop ends by its test with the stack empty, and no `pop` throws, if the loop may go on
  -- for more rounds than there are values.
  pub pop_all-push_all :
      (xs : List T) (fuel : ℕ)
      → length xs < fuel
      → pop_all fuel (push_all xs new) ≡ (by_test, new, reverse xs)
  pop_all-push_all xs fuel h =
      ap (pop_all fuel) (push_all-new xs)
      ∙ pop_all-nodes (reverse xs) fuel (omega (arith, length-reverse xs))
