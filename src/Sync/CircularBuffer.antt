-- ===== src/Sync/CircularBuffer.antt =====
-- Concurrent DataStructure/CPP/Queue/CircularBuffers_1c1p.cpp: a ring buffer under a mutex. The mutex
-- makes the code from a wait that succeeds to the end of the call one step; a call whose predicate is
-- false waits and changes nothing.
pub mod Ring
pub mod Fifo
mod Examples
use dsalib.Core.{
  ℕ, zero, suc, ◌+◌, ◌-◌, ◌%◌, true, false, ltb, Option, none, some, List, [], ◌∷◌, ◌++◌, ℤ, pos,
  length, get_or, set, replicate,
}

-- The fields without the mutex and the condition variables.
pub record CircularBuffer : Type 0 where
  pub buf : List ℤ
  pub head : ℕ
  pub tail : ℕ
  pub max_size : ℕ
  pub count : ℕ

-- The constructor.
abbrev pub new : (size : ℕ) → CircularBuffer
new size = record { buf = replicate size (pos 0); head = 0; tail = 0; max_size = size; count = 0 }

-- `put`; `none` when it waits, since the buffer is full.
unfoldable pub put : CircularBuffer → ℤ → Option CircularBuffer
put b item = elim (ltb b.count b.max_size) [
  | true ↦ some (record b {
    buf = set b.buf b.tail item;
    tail = (b.tail + 1) % b.max_size;
    count = b.count + 1;
  })
  | false ↦ none
]

-- `get`; `none` when it waits, since the buffer is empty.
unfoldable pub get : CircularBuffer → Option (ℤ × CircularBuffer)
get b = elim (ltb 0 b.count) [
  | true ↦ some (
    get_or b.buf b.head (pos 0),
    record b { head = (b.head + 1) % b.max_size; count = b.count - 1 },
  )
  | false ↦ none
]

-- The calls of the threads, in the order in which they take the mutex, and what each comes to.
pub data Call : Type 0 where
  put_call : ℤ → Call
  get_call : Call

pub data Response : Type 0 where
  stored : Response
  taken : ℤ → Response
  waiting : Response

unfoldable pub run : CircularBuffer → List Call → List Response × CircularBuffer
run b [] = ([], b)
run b (put_call item ∷ calls) = elim (put b item) [
  | none ↦ let r = run b calls in (waiting ∷ r.0, r.1)
  | some b' ↦ let r = run b' calls in (stored ∷ r.0, r.1)
]
run b (get_call ∷ calls) = elim (get b) [
  | none ↦ let r = run b calls in (waiting ∷ r.0, r.1)
  | some (item, b') ↦ let r = run b' calls in (taken item ∷ r.0, r.1)
]

-- The same calls on a queue of at most `size` values.
unfoldable pub run_queue : (size : ℕ) → List ℤ → List Call → List Response × List ℤ
run_queue size q [] = ([], q)
run_queue size q (put_call item ∷ calls) = elim (ltb (length q) size) [
  | true ↦ let r = run_queue size (q ++ item ∷ []) calls in (stored ∷ r.0, r.1)
  | false ↦ let r = run_queue size q calls in (waiting ∷ r.0, r.1)
]
run_queue size [] (get_call ∷ calls) = let r = run_queue size [] calls in (waiting ∷ r.0, r.1)
run_queue size (item ∷ q) (get_call ∷ calls) =
    let r = run_queue size q calls in (taken item ∷ r.0, r.1)
