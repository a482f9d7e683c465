-- ===== src/Lib.antt =====
-- The data structures and algorithms of this repository: models of the C++ programs and the theorems
-- that make them correct. Each program of the repository is a file of its own with one class or a few
-- functions and a `main`; the programs share no code. So each has its own module, named for what it
-- is, and they meet only in the shared helpers and where two programs implement the same contract.
--
-- Files and the code that they model (paths from the repository's root):
--   Tree/Bst           DataStructure/CPP/tree/BST.cpp            class BST, raw pointers
--   Tree/BstOwned      DataStructure/CPP/tree/BST_smartptr.cpp   class BST, unique_ptr
--   Tree/BinaryTree    DataStructure/CPP/tree/BST_smartptr2.cpp  template BinaryTree, at int
--   Tree/Interval      DataStructure/CPP/tree/intervalTree.cpp   insert, doOverlap, overlapSearch
--   Tree/IntervalReport  DataStructure/CPP/tree/intervalTree2.cpp  class IntervalTree
--   Tree/Segment       DataStructure/CPP/tree/SegmentTree.cpp    class SegmentTree
--   Tree/Trie          DataStructure/CPP/tree/trie.cpp           class Trie
--   Tree/Nary          DataStructure/CPP/tree/NaryTree.cpp       class M_aryTree
--   Tree/Hamt          DataStructure/CPP/tree/hamt.cpp           class HAMT, for keys and values of any types
--   Array/Stack        DataStructure/C/stack/stack.c             a stack in an array
--   Array/Queue        DataStructure/C/queue/queue.c             a queue in a circular array
--   Array/Deque        DataStructure/C/queue/deque.c             a deque in a circular array
--   Array/Set          DataStructure/C/set/set.c                 a set in an array
--   Hash/Probing       DataStructure/CPP/hash_table/hashtable_cache.hpp  CacheFriendlyHashTable
--   Linear/DoublyList  DataStructure/CPP/linked_list/doublyLinkedlist.cpp  class DoublyLinkedList
--   Linear/SinglyList  DataStructure/CPP/linked_list/singlyLinkedList_smartptr.cpp  LinkedList
--   Linear/Stack       DataStructure/CPP/stack/stack.cpp         class Stack and the loop of main
--   Sync/BoundedQueue  DataStructure/CPP/queue/boundedQueue.cpp  put and get of the threads
--   Sync/CircularBuffer  Concurrent DataStructure/CPP/Queue/CircularBuffers_1c1p.cpp  put and get
--   Matrix             Algorithms/CPP/Matrix multiplication/parallel programming/MatrixMultiply.cpp
--     (Direct, Tiled, Strassen, ForkJoin: its six algorithms)
--   Sort/Quick         Algorithms/CPP/Sorting/Sequential/Quicksort.cpp  partition, quickSort, main
--   Sort/Bubble        Algorithms/CPP/Sorting/Sequential/BubbleSort.cpp  bubbleSort
--   Sort/Merge         Algorithms/CPP/Sorting/Sequential/MergeSort.cpp  merge, mergeSort, main
-- The parent file of a part holds its state and operations; its child modules hold the lemmas, named
-- for what they prove, and Examples holds tests and concrete instances of the theorems. Core holds the
-- shared helpers: Boolean tests on numbers (Core/Tests), lists measured and indexed by native numbers
-- (Core/Lists), integers (Core/Int), equality of keys (Core/Equality), and lists up to order and
-- ascending lists (Core/Items).
--
-- State and operations. A method of a class is a function from the state before to the state after,
-- with the source's name in snake case. A `unique_ptr`, and a raw pointer to a node that nothing else
-- points at, is the value that it owns, and a null pointer is a constructor of its own. What a method
-- prints is the list of the printed values. A thrown exception is a value of the result, and so is an
-- access to a cell of a matrix that is not there. A client of a class is a list of calls, replayed by
-- `run` on the program and on an abstract state: a finite multiset of values for the search trees, a
-- predicate on words for the trie, a list for the singly linked list.
--
-- Threads. The bounded queue is a step relation. A call of put or get holds the one mutex from its
-- lock to its unlock or to its wait, so each stretch between these is a step; a wait puts a thread
-- to sleep, a notification wakes one sleeping thread if there is one, and a wait may also end by
-- itself. Reachable states are sequences of steps in any order.
--
-- Bounds and fuel. The loops and recursions on trees, lists and words are structural. The loops of
-- the hash table run over the rounds that the source counts, `table.size()` at most. The segment
-- tree's recursion halves a range of n numbers, its fuel is n, since a range of more than one
-- number is larger than its halves, and its array has 4 n cells. The loop of the stack's main takes
-- any fuel larger than the number of pushed values. The outer loop of printLevelOrder runs on fuel,
-- one round a level. Quicksort runs on fuel n + 1 for n elements, since each call leaves at least
-- the pivot out of its two ranges; merge sort runs on the same, since both its ranges are shorter.
-- The recursions of the matrix products, whose loops are given a round for each number in the
-- range, run on fuel that bounds their depth, which is the exponent of the side, and `insertHelper`
-- of the hash array mapped trie on fuel that bounds its levels, of which a hash of 64 bits has 13
-- with 5 bits each.
--
-- Parameters. `std::hash` is a function that the definitions of the hash table and of the hash
-- array mapped trie take, with no law, but that a theorem on the latter assumes where it says so
-- that the keys in use have different hashes of 64 bits; equality of keys is an instance of
-- Core/Equality whose law is that it decides equality. `unordered_map` is read by its keys alone,
-- since the tries never iterate over it. `lookup` of the latter answers an option, where the source
-- has the text "Key not found" for a missing key.
--
-- Not modelled. An `int` is an unbounded integer: signed overflow is undefined in C++, and the sums
-- of the segment tree and indexes are taken to stay in range. Allocation never fails, and memory is
-- not freed explicitly, but for the nodes of Linear/DoublyList, which `delete` takes out of the
-- memory. The memory that `malloc` returns to the C structures is an argument, and an access out of
-- it a fault. Parallel loops and sections of the matrix products are run in program order. A call
-- on the ring buffer under a mutex that has to wait changes nothing, and the sleeping and waking of
-- its threads is left out; Sync/BoundedQueue has it for the same pattern. Division by a table size
-- of 0 and a segment tree of no numbers are undefined in the source and outside the models' use.
-- Input, output formats and time measurement are left out, as are the parallel programs on MPI and
-- OpenMP, floating-point learning, and the C structures that are not named above.
pub mod Array
pub mod Core
pub mod Hash
pub mod Linear
pub mod Matrix
pub mod Sort
pub mod Sync
pub mod Tree
