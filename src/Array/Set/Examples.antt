-- ===== src/Array/Set/Examples.antt =====
-- A set in memory that held zeros.
use dsalib.Core.{
  ◌≡◌, refl, List, [], ◌∷◌, pos, negsuc, some, run, Runs, replicate, length-replicate, ◌-ℤ◌, ◌+ℤ◌,
}
use mathlib.Core.Option
use dsalib.Array.{read, write}
use dsalib.Array.Set.{
  Set, initialize_set, is_in_from, is_in_set, insert_to_set, delete_from, delete_from_set, Call,
  insert_call, delete_call, is_in_call, call, call_list,
}
use dsalib.Array.Set.Deletes.{Holds}
use dsalib.Array.Set.Finite.{run-IsFiniteSet}

abbrev memory : Set
memory = record { items = replicate 100 (pos 0); count = pos 5 }

abbrev calls : List Call
calls =
    insert_call (pos 10)
    ∷ insert_call (pos 20)
    ∷ insert_call (pos 10)
    ∷ is_in_call (pos 10)
    ∷ delete_call (pos 10)
    ∷ is_in_call (pos 10)
    ∷ is_in_call (pos 20)
    ∷ delete_call (pos 10)
    ∷ is_in_call (negsuc 0)
    ∷ []

run-calls :
    Option.map
      (λ r. r.0)
      (run call (record { items = replicate 100 (negsuc 0); count = pos 0 }) calls)
    ≡ some (pos 1 ∷ pos 1 ∷ pos 0 ∷ pos 1 ∷ pos 1 ∷ pos 0 ∷ pos 1 ∷ pos 0 ∷ pos 0 ∷ [])
unfolding run call is_in_from is_in_set insert_to_set delete_from delete_from_set read write ◌-ℤ◌
    ◌+ℤ◌
run-calls = refl

run-IsFiniteSet_example :
    (s : Set) × (initialize_set memory ≡ some s) × Runs call call_list Holds s [] calls
run-IsFiniteSet_example = run-IsFiniteSet memory calls (length-replicate 100 (pos 0))
