-- ===== src/Sync/CircularBuffer/Fifo.antt =====
-- The buffer under any sequence of calls.
use dsalib.Core.{
  cons_parts, ℕ, ◌≡◌, ◌<◌, refl, ap, sym, subst, ◌∙◌, arith, true, false, Bool-cases, inl, inr, ltb,
  none, List, [], ◌∷◌, ◌++◌, ℤ, pos, length, length-replicate,
}
use dsalib.Sync.CircularBuffer.{
  CircularBuffer, new, put, get, Call, put_call, get_call, Response, stored, taken, waiting, run,
  run_queue,
}
use dsalib.Array.Ring.{length-values}
use dsalib.Sync.CircularBuffer.Ring.{IsValid, contents, put-Appends, get-Takes}

-- The same responses, and a valid buffer with the values of the queue.
abbrev pub Matches : List Response × CircularBuffer → List Response × List ℤ → Type 0
Matches r s = (r.0 ≡ s.0) × (contents r.1 ≡ s.1) × IsValid r.1

Matches-respond :
    (x : Response) (r r' : List Response × CircularBuffer) (s s' : List Response × List ℤ)
    → r' ≡ (x ∷ r.0, r.1)
    → s' ≡ (x ∷ s.0, s.1)
    → Matches r s
    → Matches r' s'
Matches-respond x r r' s s' e f (responses, held, valid) =
    subst (λ (y : List Response × CircularBuffer). Matches y s') (sym e)
      (subst (λ (y : List Response × List ℤ). Matches (x ∷ r.0, r.1) y) (sym f)
        (ap (λ (xs : List Response). x ∷ xs) responses, held, valid))

length-contents : (b : CircularBuffer) (q : List ℤ) → contents b ≡ q → length q ≡ b.count
length-contents b q h =
    ap (λ (xs : List ℤ). length xs) (sym h) ∙ length-values b.buf b.head b.max_size b.count

put-none : (b : CircularBuffer) (item : ℤ) → ltb b.count b.max_size ≡ false → put b item ≡ none
unfolding put
put-none b item h = ground (arith, h)

get-none : (b : CircularBuffer) → b.count ≡ 0 → get b ≡ none
unfolding get
get-none b h = ground (arith, h)

run-Matches :
    (calls : List Call) (b : CircularBuffer) (q : List ℤ) (size : ℕ)
    → IsValid b
    → b.max_size ≡ size
    → contents b ≡ q
    → Matches (run b calls) (run_queue size q calls)
unfolding run run_queue
run-Matches [] b q size v m h = (refl, h, v)
run-Matches (put_call item ∷ calls) b q size v m h =
    let l = length-contents b q h in
    elim (Bool-cases (ltb b.count b.max_size)) [
      | inl room ↦
          let (b', found, v', e, m') = put-Appends b item v (ground (arith, room)) in
          let fits : ltb (length q) size ≡ true = ground (arith, room, l, m) in
          Matches-respond stored (run b' calls) (run b (put_call item ∷ calls))
            (run_queue size (q ++ item ∷ []) calls) (run_queue size q (put_call item ∷ calls))
            (rw (run, found) refl) (rw (run_queue, fits) refl)
            (run-Matches calls b' (q ++ item ∷ []) size v' (m' ∙ m)
              (e ∙ ap (λ (xs : List ℤ). xs ++ item ∷ []) h))
      | inr full ↦
          let found : put b item ≡ none = put-none b item full in
          let over : ltb (length q) size ≡ false = ground (arith, full, l, m) in
          Matches-respond waiting (run b calls) (run b (put_call item ∷ calls))
            (run_queue size q calls) (run_queue size q (put_call item ∷ calls))
            (rw (run, found) refl) (rw (run_queue, over) refl) (run-Matches calls b q size v m h)
    ]
run-Matches (get_call ∷ calls) b [] size v m h =
    let l = length-contents b [] h in
    let found : get b ≡ none = get-none b (sym l) in
    Matches-respond waiting (run b calls) (run b (get_call ∷ calls)) (run_queue size [] calls)
      (run_queue size [] (get_call ∷ calls)) (rw (run, found) refl) refl
      (run-Matches calls b [] size v m h)
run-Matches (get_call ∷ calls) b (item ∷ q) size v m h =
    let l = length-contents b (item ∷ q) h in
    let (front, b', found, v', e, m') = get-Takes b (length q) v (sym l) in
    let same : item ∷ q ≡ front ∷ contents b' = sym h ∙ e in
    let rest : contents b' ≡ q = sym (cons_parts same).1 in
    let first : front ≡ item = sym (cons_parts same).0 in
    Matches-respond (taken item) (run b' calls) (run b (get_call ∷ calls)) (run_queue size q calls)
      (run_queue size (item ∷ q) (get_call ∷ calls)) (rw (run, found, first) refl) refl
      (run-Matches calls b' q size v' (m' ∙ m) rest)

-- Any sequence of calls on a new buffer of some places, whichever threads make them, gets the responses
-- of a queue of at most that many values: `put` waits exactly when it is full, `get` when it is empty,
-- and the values are taken in the order in which they were put. In the end the buffer holds the queue's
-- values, its indexes are in range, and it counts no more values than places.
pub run-IsQueue :
    (size : ℕ) (calls : List Call)
    → 0 < size
    → Matches (run (new size) calls) (run_queue size [] calls)
run-IsQueue size calls h =
    run-Matches calls (new size) [] size
      (length-replicate size (pos 0), h, omega arith, ground (arith, h)) refl refl
