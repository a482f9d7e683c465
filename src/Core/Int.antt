-- ===== src/Core/Int.antt =====
-- `int` and the other element types that the code only compares, moves and adds: integers over the
-- native numbers. Orders and sums go through the two parts, which are numbers.
use Prim.Native.Nat.{ℕ, suc, ◌+◌, ◌-◌, ◌*◌, ◌≤◌, ◌<◌}
use mathlib.Core.Path.{◌≡◌, ap}
use mathlib.Core.Bool.{Bool, true}
use mathlib.Core.Logic.{◌↔◌}
use native.Mathlib.Omega.{arith}
use dsalib.Core.Tests.{ltb, leb, ◌==◌, if◌then◌else◌}

-- `negsuc n` is -(n + 1).
pub data ℤ : Type 0 where
  pos : ℕ → ℤ
  negsuc : ℕ → ℤ

abbrev pub pos_part : ℤ → ℕ
pos_part (pos n) = n
pos_part (negsuc n) = 0

abbrev pub neg_part : ℤ → ℕ
neg_part (pos n) = 0
neg_part (negsuc n) = suc n

infix 50 ◌≤ℤ◌ ◌<ℤ◌ ◌==ℤ◌
abbrev pub ◌≤ℤ◌ : ℤ → ℤ → Type 0
a ≤ℤ b = pos_part a + neg_part b ≤ pos_part b + neg_part a

abbrev pub ◌<ℤ◌ : ℤ → ℤ → Type 0
a <ℤ b = pos_part a + neg_part b < pos_part b + neg_part a

abbrev pub lt_ℤ : ℤ → ℤ → Bool
lt_ℤ a b = ltb (pos_part a + neg_part b) (pos_part b + neg_part a)

abbrev pub le_ℤ : ℤ → ℤ → Bool
le_ℤ a b = leb (pos_part a + neg_part b) (pos_part b + neg_part a)

abbrev pub ◌==ℤ◌ : ℤ → ℤ → Bool
a ==ℤ b = (pos_part a + neg_part b) == (pos_part b + neg_part a)

-- `a - b` of two numbers, as an integer.
abbrev pub sub_ℕ : ℕ → ℕ → ℤ
sub_ℕ a b = if leb b a then pos (a - b) else negsuc (b - a - 1)

infixl 65 ◌+ℤ◌ ◌-ℤ◌
unfoldable pub ◌+ℤ◌ : ℤ → ℤ → ℤ
a +ℤ b = sub_ℕ (pos_part a + pos_part b) (neg_part a + neg_part b)

unfoldable pub ◌-ℤ◌ : ℤ → ℤ → ℤ
a -ℤ b = sub_ℕ (pos_part a + neg_part b) (neg_part a + pos_part b)

pub +ℤ_parts :
    (a b : ℤ)
    → pos_part (a +ℤ b) + neg_part a + neg_part b ≡ neg_part (a +ℤ b) + pos_part a + pos_part b
unfolding ◌+ℤ◌
+ℤ_parts a b = ground arith

pub -ℤ_parts :
    (a b : ℤ)
    → pos_part (a -ℤ b) + neg_part a + pos_part b ≡ neg_part (a -ℤ b) + pos_part a + neg_part b
unfolding ◌-ℤ◌
-ℤ_parts a b = ground arith

pub eq_of_parts : (a b : ℤ) → pos_part a + neg_part b ≡ pos_part b + neg_part a → a ≡ b
eq_of_parts a b h = ground arith

pub ==ℤ_iff : (a b : ℤ) → ((a ==ℤ b) ≡ true) ↔ (a ≡ b)
==ℤ_iff a b = ground (arith, eq_of_parts a b)

pub ruleset int_laws = (arith, +ℤ_parts, -ℤ_parts, eq_of_parts)

infixl 70 ◌*ℤ◌
unfoldable pub ◌*ℤ◌ : ℤ → ℤ → ℤ
a *ℤ b =
    sub_ℕ (pos_part a * pos_part b + neg_part a * neg_part b)
      (pos_part a * neg_part b + neg_part a * pos_part b)

pub *ℤ_parts :
    (a b : ℤ)
    → pos_part (a *ℤ b) + (pos_part a * neg_part b + neg_part a * pos_part b)
      ≡ neg_part (a *ℤ b) + (pos_part a * pos_part b + neg_part a * neg_part b)
unfolding ◌*ℤ◌
*ℤ_parts a b = ground arith

-- A product is determined by the difference that its factors stand for.
module _ (a b c : ℤ) where
  pub add-mul : (a +ℤ b) *ℤ c ≡ a *ℤ c +ℤ b *ℤ c
  add-mul = eq_of_parts ((a +ℤ b) *ℤ c) (a *ℤ c +ℤ b *ℤ c) (
      omega (
        arith,
        *ℤ_parts (a +ℤ b) c,
        *ℤ_parts a c,
        *ℤ_parts b c,
        +ℤ_parts (a *ℤ c) (b *ℤ c),
        ap (λ (t : ℕ). t * pos_part c) (+ℤ_parts a b),
        ap (λ (t : ℕ). t * neg_part c) (+ℤ_parts a b),
      ))

  pub sub-mul : (a -ℤ b) *ℤ c ≡ a *ℤ c -ℤ b *ℤ c
  sub-mul = eq_of_parts ((a -ℤ b) *ℤ c) (a *ℤ c -ℤ b *ℤ c) (
      omega (
        arith,
        *ℤ_parts (a -ℤ b) c,
        *ℤ_parts a c,
        *ℤ_parts b c,
        -ℤ_parts (a *ℤ c) (b *ℤ c),
        ap (λ (t : ℕ). t * pos_part c) (-ℤ_parts a b),
        ap (λ (t : ℕ). t * neg_part c) (-ℤ_parts a b),
      ))

  pub mul-add : a *ℤ (b +ℤ c) ≡ a *ℤ b +ℤ a *ℤ c
  mul-add = eq_of_parts (a *ℤ (b +ℤ c)) (a *ℤ b +ℤ a *ℤ c) (
      omega (
        arith,
        *ℤ_parts a (b +ℤ c),
        *ℤ_parts a b,
        *ℤ_parts a c,
        +ℤ_parts (a *ℤ b) (a *ℤ c),
        ap (λ (t : ℕ). pos_part a * t) (+ℤ_parts b c),
        ap (λ (t : ℕ). neg_part a * t) (+ℤ_parts b c),
      ))

  pub mul-sub : a *ℤ (b -ℤ c) ≡ a *ℤ b -ℤ a *ℤ c
  mul-sub = eq_of_parts (a *ℤ (b -ℤ c)) (a *ℤ b -ℤ a *ℤ c) (
      omega (
        arith,
        *ℤ_parts a (b -ℤ c),
        *ℤ_parts a b,
        *ℤ_parts a c,
        -ℤ_parts (a *ℤ b) (a *ℤ c),
        ap (λ (t : ℕ). pos_part a * t) (-ℤ_parts b c),
        ap (λ (t : ℕ). neg_part a * t) (-ℤ_parts b c),
      ))
