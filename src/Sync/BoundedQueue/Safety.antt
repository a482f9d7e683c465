-- ===== src/Sync/BoundedQueue/Safety.antt =====
-- The bound, the order and the wake-ups of boundedQueue.cpp under every interleaving.
use dsalib.Core.{
  refl, false, sym, true, [], ℕ, suc, ◌+◌, ◌<◌, ◌≤◌, ◌≡◌, ap, ◌∙◌, List, ◌∷◌, ◌++◌, ℤ, length,
  length-append, arith,
}
use mathlib.Core.List.{append_assoc}
use dsalib.Sync.BoundedQueue.{
  get_waits_again, get_resumes, get_waits, here, next, get_now, put_waits_again, put_resumes,
  put_waits, put_wakes, get_wakes, init, next, put_now, Reach, Step, has_room, State,
  NotifyConsumer, no_consumer, one_consumer, NotifyProducer, no_producer, one_producer,
}

-- The bound; the order; and that where threads sleep, those that are woken can use up all that the
-- sleepers wait for.
pub record IsSafe (s : State) : Type 0 where
  pub bounded : length s.queue ≤ s.size
  pub in_order : s.returned ++ s.queue ≡ s.pushed
  pub consumers_woken : 0 < s.asleep_consumers → length s.queue ≤ s.woken_consumers
  pub producers_woken :
      0 < length s.asleep_producers → s.size ≤ length s.queue + length s.woken_producers

-- What a step needs of the state in which it notifies, before it notifies a consumer.
record BeforeConsumer (s : State) : Type 0 where
  bounded : length s.queue ≤ s.size
  in_order : s.returned ++ s.queue ≡ s.pushed
  consumers_woken : 0 < s.asleep_consumers → length s.queue ≤ suc s.woken_consumers
  producers_woken :
      0 < length s.asleep_producers → s.size ≤ length s.queue + length s.woken_producers

NotifyConsumer-IsSafe : {s t : State} → NotifyConsumer s t → BeforeConsumer s → IsSafe t
NotifyConsumer-IsSafe (no_consumer e) h = record {
  bounded = h.bounded;
  in_order = h.in_order;
  consumers_woken = λ k. absurd (omega arith);
  producers_woken = h.producers_woken;
}
NotifyConsumer-IsSafe (one_consumer n e) h = record {
  bounded = h.bounded;
  in_order = h.in_order;
  consumers_woken = λ k. h.consumers_woken (omega arith);
  producers_woken = h.producers_woken;
}

-- The same before it notifies a producer.
record BeforeProducer (s : State) : Type 0 where
  bounded : length s.queue ≤ s.size
  in_order : s.returned ++ s.queue ≡ s.pushed
  consumers_woken : 0 < s.asleep_consumers → length s.queue ≤ s.woken_consumers
  producers_woken :
      0 < length s.asleep_producers → s.size ≤ suc (length s.queue + length s.woken_producers)

length_split :
    (xs before : List ℤ) (value : ℤ) (behind : List ℤ)
    → xs ≡ before ++ (value ∷ behind)
    → length xs ≡ suc (length (before ++ behind))
length_split xs before value behind e =
    ap length e ∙ omega (arith, length-append before (value ∷ behind), length-append before behind)

NotifyProducer-IsSafe : {s t : State} → NotifyProducer s t → BeforeProducer s → IsSafe t
NotifyProducer-IsSafe (no_producer e) h = record {
  bounded = h.bounded;
  in_order = h.in_order;
  consumers_woken = h.consumers_woken;
  producers_woken = λ k. absurd (omega (arith, ap length e));
}
NotifyProducer-IsSafe {s} (one_producer before value behind e) h = record {
  bounded = h.bounded;
  in_order = h.in_order;
  consumers_woken = h.consumers_woken;
  producers_woken = λ k.
      let len = length_split s.asleep_producers before value behind e in
      let old = h.producers_woken (omega arith) in omega arith;
}

room : (s : State) → has_room s ≡ true → length s.queue < s.size
unfolding has_room
room s h = ground arith

full : (s : State) → has_room s ≡ false → s.size ≤ length s.queue
unfolding has_room
full s h = ground arith

push_order :
    (s : State) (value : ℤ)
    → s.returned ++ s.queue ≡ s.pushed
    → s.returned ++ (s.queue ++ value ∷ []) ≡ s.pushed ++ value ∷ []
push_order s value h =
    sym (append_assoc s.returned s.queue (value ∷ [])) ∙ ap (λ xs. xs ++ value ∷ []) h

pop_order :
    (s : State) (value : ℤ) (rest : List ℤ)
    → s.queue ≡ value ∷ rest
    → s.returned ++ s.queue ≡ s.pushed
    → (s.returned ++ value ∷ []) ++ rest ≡ s.pushed
pop_order s value rest e h =
    append_assoc s.returned (value ∷ []) rest ∙ ap (λ xs. s.returned ++ xs) (sym e) ∙ h

length-push : (xs : List ℤ) (value : ℤ) → length (xs ++ value ∷ []) ≡ suc (length xs)
length-push xs value = omega (arith, length-append xs (value ∷ []))

Step-IsSafe : {s t : State} → Step s t → IsSafe s → IsSafe t
Step-IsSafe {s} (put_now value r n) h = NotifyConsumer-IsSafe n (record {
  bounded = omega (arith, length-push s.queue value, room s r);
  in_order = push_order s value h.in_order;
  consumers_woken = λ k. omega (arith, length-push s.queue value, h.consumers_woken k);
  producers_woken = λ k. omega (arith, length-push s.queue value, h.producers_woken k);
})
Step-IsSafe {s} (put_waits value f) h = record {
  bounded = h.bounded;
  in_order = h.in_order;
  consumers_woken = h.consumers_woken;
  producers_woken = λ k. omega (arith, full s f);
}
Step-IsSafe {s} (put_resumes before value behind e r n) h = NotifyConsumer-IsSafe n (record {
  bounded = omega (arith, length-push s.queue value, room s r);
  in_order = push_order s value h.in_order;
  consumers_woken = λ k. omega (arith, length-push s.queue value, h.consumers_woken k);
  producers_woken = λ k. omega (
    arith,
    length-push s.queue value,
    h.producers_woken k,
    length_split s.woken_producers before value behind e,
  );
})
Step-IsSafe {s} (put_waits_again before value behind e f) h = record {
  bounded = h.bounded;
  in_order = h.in_order;
  consumers_woken = h.consumers_woken;
  producers_woken = λ k. omega (arith, full s f);
}
Step-IsSafe {s} (get_now value rest e n) h = NotifyProducer-IsSafe n (record {
  bounded = omega (arith, ap length e, h.bounded);
  in_order = pop_order s value rest e h.in_order;
  consumers_woken = λ k. omega (arith, ap length e, h.consumers_woken k);
  producers_woken = λ k. omega (arith, ap length e, h.producers_woken k);
})
Step-IsSafe {s} (get_waits e) h = record {
  bounded = h.bounded;
  in_order = h.in_order;
  consumers_woken = λ k. omega (arith, ap length e);
  producers_woken = h.producers_woken;
}
Step-IsSafe {s} (get_resumes n value rest w e m) h = NotifyProducer-IsSafe m (record {
  bounded = omega (arith, ap length e, h.bounded);
  in_order = pop_order s value rest e h.in_order;
  consumers_woken = λ k. omega (arith, ap length e, h.consumers_woken k);
  producers_woken = λ k. omega (arith, ap length e, h.producers_woken k);
})
Step-IsSafe {s} (get_waits_again n w e) h = record {
  bounded = h.bounded;
  in_order = h.in_order;
  consumers_woken = λ k. omega (arith, ap length e);
  producers_woken = h.producers_woken;
}
Step-IsSafe {s} (put_wakes before value behind e) h = record {
  bounded = h.bounded;
  in_order = h.in_order;
  consumers_woken = h.consumers_woken;
  producers_woken = λ k.
      let len = length_split s.asleep_producers before value behind e in
      let old = h.producers_woken (omega arith) in omega arith;
}
Step-IsSafe {s} (get_wakes n e) h = record {
  bounded = h.bounded;
  in_order = h.in_order;
  consumers_woken = λ k. let old = h.consumers_woken (omega arith) in omega arith;
  producers_woken = h.producers_woken;
}

Reach-IsSafe : {s t : State} → IsSafe s → Reach s t → IsSafe t
Reach-IsSafe h here = h
Reach-IsSafe h (next r step) = Step-IsSafe step (Reach-IsSafe h r)

init-IsSafe : (size : ℕ) → IsSafe (init size)
init-IsSafe size = record {
  bounded = omega arith;
  in_order = refl;
  consumers_woken = λ k. omega arith;
  producers_woken = λ k. absurd (omega arith);
}

-- Whatever threads call `put` and `get` on a new queue, also where waits end by themselves, in every reachable state the queue holds at
-- most `size` values, what was returned followed by what is in the queue is what was pushed, in that
-- order, and, where consumers sleep, as many consumers are woken as there are values in the queue, and
-- where producers sleep, as many producers are woken as there are free places, or more.
pub init-Reach-IsSafe : (size : ℕ) {s : State} → Reach (init size) s → IsSafe s
init-Reach-IsSafe size r = Reach-IsSafe (init-IsSafe size) r

size-Step : {s t : State} → Step s t → t.size ≡ s.size
size-Step (put_now value r (no_consumer e)) = refl
size-Step (put_now value r (one_consumer n e)) = refl
size-Step (put_waits value f) = refl
size-Step (put_resumes before value behind e r (no_consumer e')) = refl
size-Step (put_resumes before value behind e r (one_consumer n e')) = refl
size-Step (put_waits_again before value behind e f) = refl
size-Step (get_now value rest e (no_producer e')) = refl
size-Step (get_now value rest e (one_producer b v d e')) = refl
size-Step (get_waits e) = refl
size-Step (get_resumes n value rest w e (no_producer e')) = refl
size-Step (get_resumes n value rest w e (one_producer b v d e')) = refl
size-Step (get_waits_again n w e) = refl
size-Step (put_wakes before value behind e) = refl
size-Step (get_wakes n e) = refl

size-Reach : {s t : State} → Reach s t → t.size ≡ s.size
size-Reach here = refl
size-Reach (next r step) = size-Step step ∙ size-Reach r

-- A queue with a positive size does not deadlock: in no reachable state do a producer and a consumer
-- both sleep while no thread is woken.
pub Reach-no_deadlock :
    (size : ℕ) {s : State}
    → 0 < size
    → Reach (init size) s
    → 0 < s.asleep_consumers
    → 0 < length s.asleep_producers
    → 0 < s.woken_consumers + length s.woken_producers
Reach-no_deadlock size pos r sleeping_consumer sleeping_producer =
    let safe = init-Reach-IsSafe size r in
    omega (
      arith,
      size-Reach r,
      safe.consumers_woken sleeping_consumer,
      safe.producers_woken sleeping_producer,
    )
