-- ===== src/Array.antt =====
-- The containers of DataStructure/C that keep `int` values in one array, which `malloc` may leave with
-- any values. An index is an `int`; an access out of the array is a fault, `none`.
pub mod Ring
pub mod Stack
pub mod Queue
pub mod Set
pub mod Deque
use dsalib.Core.{
  ℕ, zero, suc, ◌+◌, ◌-◌, ◌*◌, ◌/◌, ◌%◌, ◌≤◌, ◌<◌, ◌≡◌, refl, sym, ap, ◌∙◌, subst, ◌≢◌, ◌⊎◌, inl,
  inr, Bool, true, false, not, ◌&&◌, ◌||◌, Option, none, some, List, [], ◌∷◌, ◌++◌, arith, ltb, leb,
  ◌==◌, if◌then◌else◌, Bool-cases, Option-cases, length, get_elem?, set, get_or, length-append,
  length-set, get_or-set_self, get_or-set_ne, get_elem?-get_or, ℤ, pos, negsuc, pos_part, neg_part,
  lt_ℤ, le_ℤ, ◌==ℤ◌, ◌+ℤ◌, ◌-ℤ◌, ==ℤ_iff, eq_of_parts, replicate,
}

unfoldable pub read : List ℤ → ℤ → Option ℤ
read items (pos i) = get_elem? items i
read items (negsuc i) = none

unfoldable pub write : List ℤ → ℤ → ℤ → Option (List ℤ)
write items (pos i) v = if ltb i (length items) then some (set items i v) else none
write items (negsuc i) v = none

-- `a % b` of C, which has the sign of `a`.
unfoldable pub rem : ℤ → ℤ → ℤ
rem (pos a) b = pos (a % (pos_part b + neg_part b))
rem (negsuc a) b = pos 0 -ℤ pos (suc a % (pos_part b + neg_part b))

pub read-pos :
    (items : List ℤ) (i : ℕ) → i < length items → read items (pos i) ≡ some (get_or items i (pos 0))
unfolding read
read-pos items i h = get_elem?-get_or items i (pos 0) h

pub write-pos :
    (items : List ℤ) (i : ℕ) (v : ℤ)
    → i < length items
    → write items (pos i) v ≡ some (set items i v)
unfolding write
write-pos items i v h = ground arith
