-- ===== src/Sync/BoundedQueue/Examples.antt =====
-- boundedQueue.cpp: two consumers and three producers on a queue of one place.
use dsalib.Core.{◌+◌, ◌<◌, refl, [], ◌∷◌, pos, length, arith}
use dsalib.Sync.BoundedQueue.{
  State, init, has_room, push, get_waits, get_wakes, get_waits_again, put_now, put_waits,
  one_consumer, Reach, here, next,
}
use dsalib.Sync.BoundedQueue.Safety.{IsSafe, init-Reach-IsSafe, Reach-no_deadlock}

-- Two consumers sleep, and one of them wakes by itself and sleeps again; then a producer fills the place and wakes it; then a second producer sleeps.
abbrev asleep : State
asleep = record (init 1) { asleep_consumers = 2 }

abbrev filled : State
filled = record (push (pos 7) asleep) { asleep_consumers = 1; woken_consumers = 1 }

abbrev blocked : State
blocked = record filled { asleep_producers = pos 8 ∷ [] }

Reach-blocked : Reach (init 1) blocked
unfolding has_room
Reach-blocked =
    next
      (next
        (next (next (next (next here (get_waits refl)) (get_waits refl)) (get_wakes 1 refl))
          (get_waits_again 0 refl refl))
        (put_now (pos 7) refl (one_consumer 1 refl)))
      (put_waits (pos 8) refl)

init-Reach-IsSafe_example : IsSafe blocked
init-Reach-IsSafe_example = init-Reach-IsSafe 1 Reach-blocked

Reach-no_deadlock_example : 0 < blocked.woken_consumers + length blocked.woken_producers
Reach-no_deadlock_example =
    Reach-no_deadlock 1 (omega arith) Reach-blocked (omega arith) (omega arith)
