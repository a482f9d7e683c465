-- ===== src/Linear/DoublyList/Segment.antt =====
-- Stretches of linked nodes in memory.
use dsalib.Core.{ℕ, ◌≡◌, refl, ◌∙◌, ◌≢◌, Option, none, some, List, [], ◌∷◌, ◌++◌, arith, ℤ}
use dsalib.Linear.DoublyList.{Node, Memory, update, set_prev, set_next, relink_prev, relink_next}

-- The nodes of a stretch, in order: the address of each and its value.
abbrev pub Nodes : Type 0
Nodes = List (ℕ × ℤ)

-- The address of the first node, or the pointer behind the stretch.
abbrev pub first : Nodes → Option ℕ → Option ℕ
first [] q = q
first ((a, v) ∷ xs) q = some a

-- The address of the last node, or the pointer before the stretch.
abbrev pub last : Option ℕ → Nodes → Option ℕ
last p [] = p
last p ((a, v) ∷ xs) = last (some a) xs

-- The nodes are linked both ways, between the pointers `p` and `q`.
abbrev pub Segment : Memory → Option ℕ → Nodes → Option ℕ → Type 0
Segment m p [] q = Unit
Segment m p ((a, v) ∷ xs) q =
    (m a ≡ some (record { value = v; prev = p; next = first xs q })) × Segment m (some a) xs q

abbrev pub NotIn : ℕ → Nodes → Type 0
NotIn a [] = Unit
NotIn a ((b, v) ∷ xs) = (a ≢ b) × NotIn a xs

abbrev pub Distinct : Nodes → Type 0
Distinct [] = Unit
Distinct ((a, v) ∷ xs) = NotIn a xs × Distinct xs

-- No address of the second stretch is in the first.
abbrev pub Away : Nodes → Nodes → Type 0
Away xs [] = Unit
Away xs ((b, v) ∷ ys) = NotIn b xs × Away xs ys

-- The memories agree outside the stretch.
abbrev pub AgreesOff : Nodes → Memory → Memory → Type 0
AgreesOff xs m m' = (a : ℕ) → NotIn a xs → m' a ≡ m a

pub Segment-off :
    (m m' : Memory) (xs ys : Nodes) (p q : Option ℕ)
    → AgreesOff xs m m'
    → Away xs ys
    → Segment m p ys q
    → Segment m' p ys q
Segment-off m m' xs [] p q h away s = tt
Segment-off m m' xs ((b, v) ∷ ys) p q h (out, away) (here, s) =
    (h b out ∙ here, Segment-off m m' xs ys (some b) q h away s)

pub Segment-update :
    (m : Memory) (a : ℕ) (n : Option Node) (xs : Nodes) (p q : Option ℕ)
    → NotIn a xs
    → Segment m p xs q
    → Segment (update m a n) p xs q
Segment-update m a n [] p q out s = tt
Segment-update m a n ((b, v) ∷ xs) p q (ne, out) (here, s) =
    (ground (arith, here, ne), Segment-update m a n xs (some b) q out s)

pub Segment-append :
    (m : Memory) (xs ys : Nodes) (p q : Option ℕ)
    → Segment m p (xs ++ ys) q
    → Segment m p xs (first ys q) × Segment m (last p xs) ys q
Segment-append m [] ys p q s = (tt, s)
Segment-append m ((a, v) ∷ []) ys p q (here, s) = ((here, tt), s)
Segment-append m ((a, v) ∷ (b, w) ∷ xs) ys p q (here, s) =
    let (s1, s2) = Segment-append m ((b, w) ∷ xs) ys (some a) q s in ((here, s1), s2)

pub append-Segment :
    (m : Memory) (xs ys : Nodes) (p q : Option ℕ)
    → Segment m p xs (first ys q)
    → Segment m (last p xs) ys q
    → Segment m p (xs ++ ys) q
append-Segment m [] ys p q s t = t
append-Segment m ((a, v) ∷ []) ys p q (here, s) t = (here, t)
append-Segment m ((a, v) ∷ (b, w) ∷ xs) ys p q (here, s) t =
    (here, append-Segment m ((b, w) ∷ xs) ys (some a) q s t)

-- A new pointer before the stretch.
pub relink_prev-Segment :
    (m : Memory) (xs : Nodes) (p p' q : Option ℕ)
    → Distinct xs
    → Segment m p xs q
    → (m' : Memory) × (relink_prev m (first xs none) p' ≡ some m')
      × Segment m' p' xs q
      × AgreesOff xs m m'
unfolding relink_prev set_prev
relink_prev-Segment m [] p p' q d s = (m, refl, tt, λ a out. refl)
relink_prev-Segment m ((a, v) ∷ xs) p p' q (out, d) (here, s) =
    let n' : Node = record { value = v; prev = p'; next = first xs q } in
    (
      update m a (some n'),
      rw (set_prev, here) refl,
      (ground arith, Segment-update m a (some n') xs (some a) q out s),
      λ b h. ground (arith, h),
    )

-- A new pointer behind the stretch.
relink_next-Segment_cons :
    (m : Memory) (a : ℕ) (v : ℤ) (xs : Nodes) (p q q' : Option ℕ)
    → Distinct ((a, v) ∷ xs)
    → Segment m p ((a, v) ∷ xs) q
    → (m' : Memory) × (relink_next m (last (some a) xs) q' ≡ some m')
      × Segment m' p ((a, v) ∷ xs) q'
      × AgreesOff ((a, v) ∷ xs) m m'
unfolding relink_next set_next
relink_next-Segment_cons m a v [] p q q' d (here, s) =
    let n' : Node = record { value = v; prev = p; next = q' } in
    (update m a (some n'), rw (set_next, here) refl, (ground arith, tt), λ b h. ground (arith, h))
relink_next-Segment_cons m a v ((b, w) ∷ xs) p q q' (out, d) (here, s) =
    let (m', linked, s', agrees) = relink_next-Segment_cons m b w xs (some a) q q' d s in
    (m', linked, (agrees a out ∙ here, s'), λ c (ne, h). agrees c h)

pub relink_next-Segment :
    (m : Memory) (xs : Nodes) (q q' : Option ℕ)
    → Distinct xs
    → Segment m none xs q
    → (m' : Memory) × (relink_next m (last none xs) q' ≡ some m')
      × Segment m' none xs q'
      × AgreesOff xs m m'
unfolding relink_next
relink_next-Segment m [] q q' d s = (m, refl, tt, λ a out. refl)
relink_next-Segment m ((a, v) ∷ xs) q q' d s = relink_next-Segment_cons m a v xs none q q' d s
