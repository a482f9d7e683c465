-- ===== src/Tree/Hamt/Digits.antt =====
-- The indices of a hash are its digits.
use dsalib.Core.{ℕ, zero, suc, ◌≡◌, ◌*◌, ◌<◌, ◌/◌, ◌%◌, ◌^◌, arith, ap, sym, ◌∙◌}
use native.Mathlib.Nat.{div-div-eq-div-mul}
use dsalib.Tree.Hamt.{index}
use dsalib.Tree.Hamt.Depth.{Separates}

power-suc : (n : ℕ) → 32 * 2 ^ n ≡ 2 ^ suc (suc (suc (suc (suc n))))
power-suc n = omega arith

-- The digits of a number to the base 32 are its indices.
digit-suc : (x l : ℕ) → index (x / 32) l ≡ index x (suc l)
unfolding index
digit-suc x l =
    ap (λ (q : ℕ). q % 32)
      (div-div-eq-div-mul x 32 (2 ^ (l * 5))
        ∙ ap (λ (p : ℕ). x / p) (power-suc (l * 5) ∙ ap (λ (n : ℕ). 2 ^ n) (omega arith)))

digit-zero : (x : ℕ) → x % 32 ≡ index x 0
unfolding index
digit-zero x = omega arith

-- Numbers with the same digits are the same.
digits-eq :
    (n x y : ℕ)
    → x < 2 ^ (n * 5)
    → y < 2 ^ (n * 5)
    → ((l : ℕ) → l < n → index x l ≡ index y l)
    → x ≡ y
unfolding index
digits-eq zero x y hx hy h = omega arith
digits-eq (suc n) x y hx hy h =
    let low : x % 32 ≡ y % 32 = digit-zero x ∙ h 0 (omega arith) ∙ sym (digit-zero y) in
    let grow : 2 ^ (suc n * 5) ≡ 32 * 2 ^ (n * 5) =
      ap (λ (n : ℕ). 2 ^ n) (omega arith) ∙ sym (power-suc (n * 5)) in
    let rest : x / 32 ≡ y / 32 =
      digits-eq n (x / 32) (y / 32) (omega arith) (omega arith)
        (λ l below. digit-suc x l ∙ h (suc l) (omega arith) ∙ sym (digit-suc y l)) in
    omega arith

module _ {ℓ} {K : Type ℓ} (hash : K → ℕ) (InUse : K → Type 0) where
  -- The keys in use have different hashes of 64 bits.
  abbrev pub NoCollision : Type ℓ
  NoCollision =
      ((k : K) → InUse k → hash k < 2 ^ 64)
      × ((k key : K) → InUse k → InUse key → hash k ≡ hash key → k ≡ key)

  pub NoCollision-Separates : NoCollision → Separates hash InUse 13
  NoCollision-Separates (small, apart) k key pk pkey agree =
      let hk = small k pk in
      let hkey = small key pkey in
      apart k key pk pkey (digits-eq 13 (hash k) (hash key) (omega arith) (omega arith) agree)
