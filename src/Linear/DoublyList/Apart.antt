-- ===== src/Linear/DoublyList/Apart.antt =====
-- Addresses that are not in a stretch, and the stretch without a node.
use dsalib.Core.{
  ℕ, suc, ◌<◌, ◌≡◌, refl, sym, ◌≢◌, true, false, Option, none, some, [], ◌∷◌, ◌++◌, arith,
  if◌then◌else◌, ℤ,
}
use dsalib.Linear.DoublyList.{points_to}
use dsalib.Linear.DoublyList.Segment.{Nodes, first, last, NotIn, Distinct, Away}

pub append-NotIn : (a : ℕ) (xs ys : Nodes) → NotIn a xs → NotIn a ys → NotIn a (xs ++ ys)
append-NotIn a [] ys h k = k
append-NotIn a ((b, v) ∷ xs) ys (ne, h) k = (ne, append-NotIn a xs ys h k)

pub NotIn-append : (a : ℕ) (xs ys : Nodes) → NotIn a (xs ++ ys) → NotIn a xs × NotIn a ys
NotIn-append a [] ys h = (tt, h)
NotIn-append a ((b, v) ∷ xs) ys (ne, h) = let (k, l) = NotIn-append a xs ys h in ((ne, k), l)

Away-cons : (a : ℕ) (v : ℤ) (xs ys : Nodes) → Away xs ys → NotIn a ys → Away ((a, v) ∷ xs) ys
Away-cons a v xs [] h k = tt
Away-cons a v xs ((b, w) ∷ ys) (h, hs) (ne, k) =
    (((λ (e : b ≡ a). ne (sym e)), h), Away-cons a v xs ys hs k)

Away-nil : (ys : Nodes) → Away [] ys
Away-nil [] = tt
Away-nil ((b, w) ∷ ys) = (tt, Away-nil ys)

-- The two parts of a stretch without a repeated address.
pub Distinct-append :
    (xs ys : Nodes) → Distinct (xs ++ ys) → Distinct xs × Distinct ys × Away xs ys × Away ys xs
Distinct-append [] ys d = (tt, d, Away-nil ys, tt)
Distinct-append ((a, v) ∷ xs) ys (out, d) =
    let (dx, dy, far, far') = Distinct-append xs ys d in
    let (out_xs, out_ys) = NotIn-append a xs ys out in
    ((out_xs, dx), dy, Away-cons a v xs ys far out_ys, (out_ys, far'))

pub append-Distinct : (xs ys : Nodes) → Distinct xs → Distinct ys → Away ys xs → Distinct (xs ++ ys)
append-Distinct [] ys dx dy far = dy
append-Distinct ((a, v) ∷ xs) ys (out, dx) dy (out_ys, far) =
    (append-NotIn a xs ys out out_ys, append-Distinct xs ys dx dy far)

pub Away-tail : (a : ℕ) (v : ℤ) (xs ys : Nodes) → Away ((a, v) ∷ xs) ys → Away xs ys
Away-tail a v xs [] h = tt
Away-tail a v xs ((b, w) ∷ ys) ((ne, h), hs) = (h, Away-tail a v xs ys hs)

-- Every address is below a number.
abbrev pub Below : ℕ → Nodes → Type 0
Below n [] = Unit
Below n ((a, v) ∷ xs) = (a < n) × Below n xs

pub Below-suc : (n : ℕ) (xs : Nodes) → Below n xs → Below (suc n) xs
Below-suc n [] h = tt
Below-suc n ((a, v) ∷ xs) (h, hs) = (omega arith, Below-suc n xs hs)

pub Below-NotIn : (n : ℕ) (xs : Nodes) → Below n xs → NotIn n xs
Below-NotIn n [] h = tt
Below-NotIn n ((a, v) ∷ xs) (h, hs) = ((λ (e : n ≡ a). omega arith), Below-NotIn n xs hs)

pub Below-append : (n : ℕ) (xs ys : Nodes) → Below n (xs ++ ys) → Below n xs × Below n ys
Below-append n [] ys h = (tt, h)
Below-append n ((a, v) ∷ xs) ys (h, hs) = let (k, l) = Below-append n xs ys hs in ((h, k), l)

pub append-Below : (n : ℕ) (xs ys : Nodes) → Below n xs → Below n ys → Below n (xs ++ ys)
append-Below n [] ys h k = k
append-Below n ((a, v) ∷ xs) ys (h, hs) k = (h, append-Below n xs ys hs k)

pub last-append : (p : Option ℕ) (xs ys : Nodes) → last p (xs ++ ys) ≡ last (last p xs) ys
last-append p [] ys = refl
last-append p ((a, v) ∷ xs) ys = last-append (some a) xs ys

pub last-some : (a : ℕ) (xs : Nodes) → (b : ℕ) × (last (some a) xs ≡ some b)
last-some a [] = (a, refl)
last-some a ((b, v) ∷ xs) = last-some b xs

last-apart : (a b : ℕ) (xs : Nodes) → a ≢ b → NotIn a xs → points_to (last (some b) xs) a ≡ false
unfolding points_to
last-apart a b [] ne out = ground (arith, ne)
last-apart a b ((c, v) ∷ xs) ne (ne', out) = last-apart a c xs ne' out

points_to_self : (a : ℕ) → points_to (some a) a ≡ true
unfolding points_to
points_to_self a = ground arith

-- The head and the tail after a node between two parts is deleted.
pub head_without :
    (a : ℕ) (v : ℤ) (pre post : Nodes)
    → NotIn a pre
    → (if points_to (first (pre ++ (a, v) ∷ post) none) a
        then first post none
        else first (pre ++ (a, v) ∷ post) none)
      ≡ first (pre ++ post) none
unfolding points_to
head_without a v [] post out = ground arith
head_without a v ((b, w) ∷ pre) post (ne, out) = ground (arith, ne)

pub tail_without :
    (a : ℕ) (v : ℤ) (pre post : Nodes)
    → NotIn a post
    → (if points_to (last none (pre ++ (a, v) ∷ post)) a
        then last none pre
        else last none (pre ++ (a, v) ∷ post))
      ≡ last none (pre ++ post)
tail_without a v pre [] out =
    let e = last-append none pre ((a, v) ∷ []) in
    let f = last-append none pre [] in let here = points_to_self a in rw (e, f, here) refl
tail_without a v pre ((b, w) ∷ post) (ne, out) =
    let e = last-append none pre ((a, v) ∷ (b, w) ∷ post) in
    let f = last-append none pre ((b, w) ∷ post) in rw (e, f, last-apart a b post ne out) refl
