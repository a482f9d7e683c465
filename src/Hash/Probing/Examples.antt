-- ===== src/Hash/Probing/Examples.antt =====
-- hashtable_cache.hpp with ten cells and the identity as hash.
use dsalib.Core.{ℕ, ◌≡◌, ◌&&◌, some, none, refl, nat_eq, if◌then◌else◌, arith}
use dsalib.Hash.Probing.{
  Table, create, insert, insert_from, search, search_from, remove, remove_from, is_occupied, cell,
  fill, overwrite, release, current_index,
}
use dsalib.Hash.Probing.Probes.{stop, passes}
use dsalib.Hash.Probing.Invariant.{IsProbed, create-IsProbed}
use dsalib.Hash.Probing.Insert.{insert-IsProbed, search-insert}
use dsalib.Hash.Probing.Remove.{search-remove_cut}

abbrev identity : ℕ → ℕ
identity k = k

abbrev blank : ℕ × ℕ
blank = (0, 0)

abbrev one : Table ℕ ℕ
one = (insert identity blank (create blank 10) 1 100).0

-- The collision of `main`: 11 goes to the cell after that of 1.
abbrev two : Table ℕ ℕ
two = (insert identity blank one 11 1100).0

two_reads : search identity blank two 11 ≡ some 1100
unfolding insert insert_from search search_from create is_occupied cell fill overwrite current_index
two_reads = refl

-- After 1 is removed, 11 is not found any more.
two_loses : search identity blank (remove identity blank two 1).0 11 ≡ none
unfolding insert insert_from search search_from remove remove_from create is_occupied cell fill
    overwrite release current_index
two_loses = refl

one-IsProbed : IsProbed identity blank one
one-IsProbed =
    insert-IsProbed identity blank (create blank 10) 1 100 (create-IsProbed identity blank 10)

insert-IsProbed_example : IsProbed identity blank two
insert-IsProbed_example = insert-IsProbed identity blank one 11 1100 one-IsProbed

search-insert_example : search identity blank two 1 ≡ (
    if (insert identity blank one 11 1100).1 && nat_eq.beq 11 1
    then some 1100
    else search identity blank one 1)
search-insert_example = search-insert identity blank one 11 1100 1 one-IsProbed

search-remove_cut_example : search identity blank (remove identity blank two 1).0 11 ≡ none
unfolding insert insert_from create is_occupied cell fill overwrite current_index stop passes
search-remove_cut_example =
    search-remove_cut identity blank two 1 11 0 (omega arith) refl (omega arith) refl
