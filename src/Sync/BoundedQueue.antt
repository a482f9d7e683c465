-- ===== src/Sync/BoundedQueue.antt =====
-- DataStructure/CPP/queue/boundedQueue.cpp: a bounded queue that many threads put to and get from. The
-- mutex makes each call one step, up to a wait on a condition variable, where the thread gives the
-- mutex up: it sleeps until it is notified or wakes by itself, takes the mutex again and looks at its predicate again.
pub mod Safety
mod Examples
use dsalib.Core.{suc, ℕ, ◌<◌, ◌≤◌, ◌≡◌, Bool, true, false, List, [], ◌∷◌, ◌++◌, ℤ, length, ltb}

-- The fields `queue` and `size`, the threads that wait in `put` and in `get`, asleep or woken and not
-- yet run (a producer is known by the value that it brings), and the history: all values that were
-- ever pushed and all that were returned.
pub record State : Type 0 where
  pub queue : List ℤ
  pub size : ℕ
  pub asleep_producers : List ℤ
  pub woken_producers : List ℤ
  pub asleep_consumers : ℕ
  pub woken_consumers : ℕ
  pub pushed : List ℤ
  pub returned : List ℤ

-- `bounded_queue_init`
abbrev pub init : ℕ → State
init size = record {
  queue = [];
  size = size;
  asleep_producers = [];
  woken_producers = [];
  asleep_consumers = 0;
  woken_consumers = 0;
  pushed = [];
  returned = [];
}

-- The predicate of `cv_produce.wait`: `queue.size() < size`.
unfoldable pub has_room : State → Bool
has_room s = ltb (length s.queue) s.size

-- `queue.push(value)`
abbrev pub push : ℤ → State → State
push value s = record s { queue = s.queue ++ value ∷ []; pushed = s.pushed ++ value ∷ [] }

-- `queue.pop()` of a queue whose front is `value`, with the rest.
abbrev pub pop : ℤ → List ℤ → State → State
pop value rest s = record s { queue = rest; returned = s.returned ++ value ∷ [] }

-- `cv_consume.notify_one()`: wakes one sleeping consumer, if there is one.
pub data NotifyConsumer (s : State) : State → Type 0 where
  no_consumer : s.asleep_consumers ≡ 0 → NotifyConsumer s s
  one_consumer :
      (n : ℕ)
      → s.asleep_consumers ≡ suc n
      → NotifyConsumer s
          (record s { asleep_consumers = n; woken_consumers = suc s.woken_consumers })

-- `cv_produce.notify_one()`: wakes any one sleeping producer, if there is one.
pub data NotifyProducer (s : State) : State → Type 0 where
  no_producer : s.asleep_producers ≡ [] → NotifyProducer s s
  one_producer :
      (before : List ℤ) (value : ℤ) (behind : List ℤ)
      → s.asleep_producers ≡ before ++ (value ∷ behind)
      → NotifyProducer s (record s {
        asleep_producers = before ++ behind;
        woken_producers = value ∷ s.woken_producers;
      })

-- What a thread does while it holds the mutex, and a wait that ends without a notification.
pub data Step (s : State) : State → Type 0 where
  -- `put` finds room.
  put_now : {t : State} (value : ℤ) → has_room s ≡ true → NotifyConsumer (push value s) t → Step s t
  -- `put` finds the queue full and waits.
  put_waits :
      (value : ℤ)
      → has_room s ≡ false
      → Step s (record s { asleep_producers = value ∷ s.asleep_producers })
  -- A woken producer takes the mutex and finds room.
  put_resumes :
      {t : State} (before : List ℤ) (value : ℤ) (behind : List ℤ)
      → s.woken_producers ≡ before ++ (value ∷ behind)
      → has_room s ≡ true
      → NotifyConsumer (record (push value s) { woken_producers = before ++ behind }) t
      → Step s t
  -- A woken producer finds the queue full and waits again.
  put_waits_again :
      (before : List ℤ) (value : ℤ) (behind : List ℤ)
      → s.woken_producers ≡ before ++ (value ∷ behind)
      → has_room s ≡ false
      → Step s (record s {
        woken_producers = before ++ behind;
        asleep_producers = value ∷ s.asleep_producers;
      })
  -- `get` finds a value.
  get_now :
      {t : State} (value : ℤ) (rest : List ℤ)
      → s.queue ≡ value ∷ rest
      → NotifyProducer (pop value rest s) t
      → Step s t
  -- `get` finds the queue empty and waits.
  get_waits : s.queue ≡ [] → Step s (record s { asleep_consumers = suc s.asleep_consumers })
  -- A woken consumer takes the mutex and finds a value.
  get_resumes :
      {t : State} (n : ℕ) (value : ℤ) (rest : List ℤ)
      → s.woken_consumers ≡ suc n
      → s.queue ≡ value ∷ rest
      → NotifyProducer (record (pop value rest s) { woken_consumers = n }) t
      → Step s t
  -- A woken consumer finds the queue empty and waits again.
  get_waits_again :
      (n : ℕ)
      → s.woken_consumers ≡ suc n
      → s.queue ≡ []
      → Step s (record s { woken_consumers = n; asleep_consumers = suc s.asleep_consumers })
  -- The wait of a sleeping producer ends by itself.
  put_wakes :
      (before : List ℤ) (value : ℤ) (behind : List ℤ)
      → s.asleep_producers ≡ before ++ (value ∷ behind)
      → Step s (record s {
        asleep_producers = before ++ behind;
        woken_producers = value ∷ s.woken_producers;
      })
  -- The wait of a sleeping consumer ends by itself.
  get_wakes :
      (n : ℕ)
      → s.asleep_consumers ≡ suc n
      → Step s (record s { asleep_consumers = n; woken_consumers = suc s.woken_consumers })

-- The states that any interleaving leads to.
pub data Reach (s : State) : State → Type 0 where
  here : Reach s s
  next : {t u : State} → Reach s t → Step t u → Reach s u
