-- ===== src/Sync/CircularBuffer/Examples.antt =====
-- A buffer of two places.
use dsalib.Core.{◌≡◌, refl, arith, List, [], ◌∷◌, pos}
use dsalib.Sync.CircularBuffer.{
  new, put, get, Call, put_call, get_call, stored, taken, waiting, run, run_queue,
}
use dsalib.Sync.CircularBuffer.Fifo.{Matches, run-IsQueue}

abbrev calls : List Call
calls =
    get_call
    ∷ put_call (pos 1)
    ∷ put_call (pos 2)
    ∷ put_call (pos 3)
    ∷ get_call
    ∷ put_call (pos 4)
    ∷ get_call
    ∷ get_call
    ∷ []

run-calls :
    (run (new 2) calls).0
    ≡ waiting
      ∷ stored
      ∷ stored
      ∷ waiting
      ∷ taken (pos 1)
      ∷ stored
      ∷ taken (pos 2)
      ∷ taken (pos 4)
      ∷ []
unfolding run put get
run-calls = refl

run-IsQueue_example : Matches (run (new 2) calls) (run_queue 2 [] calls)
run-IsQueue_example = run-IsQueue 2 calls (omega arith)
