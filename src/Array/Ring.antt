-- ===== src/Array/Ring.antt =====
-- Places of an array that follow one another round its end.
use dsalib.Core.{
  ℕ, zero, suc, ◌+◌, ◌-◌, ◌%◌, ◌<◌, ◌≡◌, refl, sym, ap, ◌∙◌, subst, ◌≢◌, inl, inr, List, [], ◌∷◌,
  ◌++◌, arith, ltb, ◌==◌, if◌then◌else◌, Bool-cases, length, set, get_or, get_or-set_self,
  get_or-set_ne, ℤ, pos, ◌+ℤ◌,
}
use dsalib.Core.{int_laws, ◌+ℤ◌}
use dsalib.Array.{rem}
use native.Mathlib.Nat.{mod_self, mod-eq_of_lt}

-- The next place of the ring.
abbrev pub after : (place size : ℕ) → ℕ
after place size = if (place + 1) == size then 0 else place + 1

pub after-mod : (place size : ℕ) → place < size → (place + 1) % size ≡ after place size
after-mod place size h = elim (Bool-cases ((place + 1) == size)) [
  | inl same ↦
      let e : place + 1 ≡ size = ground (arith, same) in
      rw same (subst (λ (k : ℕ). k % size ≡ 0) (sym e) (mod_self size))
  | inr apart ↦ rw apart (mod-eq_of_lt (ground (arith, apart)))
]

-- The place that many places on.
abbrev pub places_on : (head count size : ℕ) → ℕ
places_on head count size = if ltb (head + count) size then head + count else (head + count) - size

-- The values from the head on.
abbrev pub values : List ℤ → (head size count : ℕ) → List ℤ
values buf head size zero = []
values buf head size (suc n) = get_or buf head (pos 0) ∷ values buf (after head size) size n

pub length-values :
    (buf : List ℤ) (head size count : ℕ) → length (values buf head size count) ≡ count
length-values buf head size zero = refl
length-values buf head size (suc n) = ap suc (length-values buf (after head size) size n)

-- Storing behind the last value.
pub values-set :
    (buf : List ℤ) (head size count tail : ℕ) (item : ℤ)
    → length buf ≡ size
    → head < size
    → count < size
    → tail ≡ places_on head count size
    → values (set buf tail item) head size (suc count) ≡ values buf head size count ++ item ∷ []
values-set buf head size zero tail item l h c t =
    let e : tail ≡ head = ground (arith, t) in
    ap (λ (x : ℤ). x ∷ [])
      (subst (λ (k : ℕ). get_or (set buf k item) head (pos 0) ≡ item) (sym e)
        (get_or-set_self buf head item (pos 0) (omega arith)))
values-set buf head size (suc n) tail item l h c t =
    let apart : tail ≢ head = (λ (e : tail ≡ head). ground (arith, t, e)) in
    let rest =
      values-set buf (after head size) size n tail item l (ground arith) (omega arith)
        (ground (arith, t)) in
    rw (get_or-set_ne buf tail head item (pos 0) apart)
      (ap (λ (xs : List ℤ). get_or buf head (pos 0) ∷ xs) rest)

-- Storing in a place before the head, from which so many values do not reach it.
pub values-set_before :
    (buf : List ℤ) (head size count place gap : ℕ) (item : ℤ)
    → head < size
    → place < size
    → head ≡ places_on place (suc gap) size
    → gap + count < size
    → values (set buf place item) head size count ≡ values buf head size count
values-set_before buf head size zero place gap item h k e room = refl
values-set_before buf head size (suc n) place gap item h k e room =
    let apart : place ≢ head = (λ (same : place ≡ head). ground (arith, e, same)) in
    let rest =
      values-set_before buf (after head size) size n place (suc gap) item (ground arith) k
        (ground (arith, e)) (omega arith) in
    rw (get_or-set_ne buf place head item (pos 0) apart)
      (ap (λ (xs : List ℤ). get_or buf head (pos 0) ∷ xs) rest)

-- One place on, round the end.
pub rem-after :
    (x : ℤ) (b : ℤ) (place size : ℕ)
    → x ≡ pos place
    → b ≡ pos size
    → place < size
    → rem (x +ℤ pos 1) b ≡ pos (after place size)
unfolding rem
rem-after x b place size e f h =
    let up : pos place +ℤ pos 1 ≡ pos (place + 1) = omega int_laws in
    rw (e, f, up) (ap (λ (n : ℕ). pos ((place + 1) % n)) plus ∙ ap pos (after-mod place size h))
  where
    plus : size + 0 ≡ size
    plus = omega arith
