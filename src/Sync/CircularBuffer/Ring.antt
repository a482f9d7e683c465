-- ===== src/Sync/CircularBuffer/Ring.antt =====
-- The ring as a queue.
use dsalib.Core.{
  ℕ, suc, ◌≡◌, ◌<◌, ◌≤◌, ◌+◌, ◌-◌, ◌%◌, refl, ap, sym, ◌∙◌, arith, some, List, [], ◌∷◌, ◌++◌, ℤ,
  pos, length, get_or, set, length-set,
}
use dsalib.Array.Ring.{after-mod, places_on, values, values-set}
use dsalib.Sync.CircularBuffer.{CircularBuffer, put, get}

-- The buffer has its size, the head is a place of it, there are not more values than places, and the
-- tail is that many places behind the head.
abbrev pub IsValid : CircularBuffer → Type 0
IsValid b =
    (length b.buf ≡ b.max_size)
    × (b.head < b.max_size)
    × (b.count ≤ b.max_size)
    × (b.tail ≡ places_on b.head b.count b.max_size)

-- The values in the order in which they were put.
abbrev pub contents : CircularBuffer → List ℤ
contents b = values b.buf b.head b.max_size b.count

pub put-Appends :
    (b : CircularBuffer) (item : ℤ)
    → IsValid b
    → b.count < b.max_size
    → (b' : CircularBuffer) × (put b item ≡ some b')
      × IsValid b'
      × (contents b' ≡ contents b ++ item ∷ [])
      × (b'.max_size ≡ b.max_size)
unfolding put
put-Appends b item (l, h, c, t) room =
    let in_range : b.tail < b.max_size = ground (arith, t) in
    let e = after-mod b.tail b.max_size in_range in
    let more : b.count + 1 ≡ suc b.count = omega arith in
    (
      record b {
        buf = set b.buf b.tail item;
        tail = (b.tail + 1) % b.max_size;
        count = b.count + 1;
      },
      ground (arith, room),
      (length-set b.buf b.tail item ∙ l, h, omega arith, e ∙ ground (arith, t)),
      ap (λ (n : ℕ). values (set b.buf b.tail item) b.head b.max_size n) more
          ∙ values-set b.buf b.head b.max_size b.count b.tail item l h room t,
      refl,
    )

pub get-Takes :
    (b : CircularBuffer) (n : ℕ)
    → IsValid b
    → b.count ≡ suc n
    → (item : ℤ) × (b' : CircularBuffer) × (get b ≡ some (item, b'))
      × IsValid b'
      × (contents b ≡ item ∷ contents b')
      × (b'.max_size ≡ b.max_size)
unfolding get
get-Takes b n (l, h, c, t) some_left =
    let e = after-mod b.head b.max_size h in
    let less : b.count - 1 ≡ n = omega arith in
    (
      get_or b.buf b.head (pos 0),
      record b { head = (b.head + 1) % b.max_size; count = b.count - 1 },
      ground (arith, some_left),
      (l, ground (arith, e), omega arith, t ∙ ground (arith, e, some_left)),
      ap (λ (k : ℕ). values b.buf b.head b.max_size k) some_left
          ∙ ap (λ (xs : List ℤ). get_or b.buf b.head (pos 0) ∷ xs)
              (ap (λ (k : ℕ). values b.buf k b.max_size n) (sym e)
                ∙ ap (λ (k : ℕ). values b.buf ((b.head + 1) % b.max_size) b.max_size k) (sym less)),
      refl,
    )
