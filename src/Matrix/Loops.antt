-- ===== src/Matrix/Loops.antt =====
-- What the loops of the products compute on one cell.
use dsalib.Core.{
  ℕ, zero, suc, ◌+◌, ◌-◌, ◌<◌, ◌≤◌, ◌≡◌, ◌≢◌, refl, ap, sym, ◌∙◌, arith, Bool, true, false,
  if◌then◌else◌, ltb, leb, ◌==◌, ◌&&◌,
}
use Prim.Native.Nat.{min}
use native.Mathlib.Decide.{dec_le, dec_lt}

-- A loop on a value that no round can fail on: what a loop on matrices does to one cell.
unfoldable pub for_by {ℓ} : {S : Type ℓ} → (fuel from to step : ℕ) → (ℕ → S → S) → S → S
for_by zero from to step body s = s
for_by (suc fuel) from to step body s = elim (ltb from to) [
  | true ↦ for_by fuel (from + step) to step body (body from s)
  | false ↦ s
]

abbrev pub for {ℓ} : {S : Type ℓ} → (from to step : ℕ) → (ℕ → S → S) → S → S
for from to step = for_by (to - from) from to step

module _ {ℓ} {S : Type ℓ} where
  -- Bodies that agree in the range give the same loop.
  pub for_by-congr :
      (fuel from to step : ℕ) (f g : ℕ → S → S) (s : S)
      → ((x : ℕ) → from ≤ x → x < to → (s : S) → f x s ≡ g x s)
      → for_by fuel from to step f s ≡ for_by fuel from to step g s
  unfolding for_by
  for_by-congr zero from to step f g s h = refl
  for_by-congr (suc fuel) from to step f g s h = elim (dec_lt from to) [
    | yes p ↦
        let rest =
          for_by-congr fuel (from + step) to step f g (f from s) (λ x a b. h x (omega arith) b) in
        ground (arith, rest, h from (omega arith) p s)
    | no p ↦ ground arith
  ]

  -- A loop whose body leaves the state alone.
  pub for_by-idle :
      (fuel from to step : ℕ) (f : ℕ → S → S) (s : S)
      → ((x : ℕ) → from ≤ x → x < to → f x s ≡ s)
      → for_by fuel from to step f s ≡ s
  unfolding for_by
  for_by-idle zero from to step f s h = refl
  for_by-idle (suc fuel) from to step f s h = elim (dec_lt from to) [
    | yes p ↦
        let rest = for_by-idle fuel (from + step) to step f s (λ x a b. h x (omega arith) b) in
        ground (arith, rest, h from (omega arith) p)
    | no p ↦ ground arith
  ]

  -- A loop of which one round does something.
  pub for_by-only :
      (fuel from to y : ℕ) (f : ℕ → S → S) (s : S)
      → from ≤ y
      → y < to
      → to ≤ from + fuel
      → ((x : ℕ) → x ≢ y → (s : S) → f x s ≡ s)
      → for_by fuel from to 1 f s ≡ f y s
  unfolding for_by
  for_by-only zero from to y f s a b c h = absurd (omega arith)
  for_by-only (suc fuel) from to y f s a b c h = elim (dec_lt from y) [
    | yes p ↦
        let rest = for_by-only fuel (from + 1) to y f s (omega arith) b (omega arith) h in
        ground (arith, rest, h from (omega arith) s)
    | no p ↦
        let here : from ≡ y = omega arith in
        let rest =
          for_by-idle fuel (from + 1) to 1 f (f y s) (λ x d e. h x (omega arith) (f y s)) in
        ground (arith, rest, ap (λ (x : ℕ). f x s) here, here)
  ]

  -- A test that the loop does not change.
  pub for_by-if :
      (fuel from to step : ℕ) (b : Bool) (f : ℕ → S → S) (s : S)
      → for_by fuel from to step (λ x t. if b then f x t else t) s
        ≡ (if b then for_by fuel from to step f s else s)
  for_by-if fuel from to step true f s = refl
  for_by-if fuel from to step false f s = for_by-idle fuel from to step (λ x t. t) s (λ x p q. refl)

  -- Any two amounts of fuel that are enough.
  pub for_by-fuel :
      (n m from to step : ℕ) (f : ℕ → S → S) (s : S)
      → 0 < step
      → to ≤ from + n
      → to ≤ from + m
      → for_by n from to step f s ≡ for_by m from to step f s
  unfolding for_by
  for_by-fuel zero zero from to step f s p a b = refl
  for_by-fuel zero (suc m) from to step f s p a b = ground arith
  for_by-fuel (suc n) zero from to step f s p a b = ground arith
  for_by-fuel (suc n) (suc m) from to step f s p a b =
      let rest = for_by-fuel n m (from + step) to step f (f from s) p (omega arith) (omega arith) in
      ground (arith, rest)

  pub for_by-step :
      (fuel from to step : ℕ) (f : ℕ → S → S) (s : S)
      → from < to
      → for_by (suc fuel) from to step f s ≡ for_by fuel (from + step) to step f (f from s)
  unfolding for_by
  for_by-step fuel from to step f s p = ground arith

  pub for_by-done :
      (fuel from to step : ℕ) (f : ℕ → S → S) (s : S) → to ≤ from → for_by fuel from to step f s ≡ s
  unfolding for_by
  for_by-done zero from to step f s p = refl
  for_by-done (suc fuel) from to step f s p = ground arith

  -- Two loops in a row.
  pub for_by-append :
      (fuel from middle to : ℕ) (f : ℕ → S → S) (s : S)
      → from ≤ middle
      → middle ≤ to
      → to ≤ from + fuel
      → for_by fuel middle to 1 f (for_by fuel from middle 1 f s) ≡ for_by fuel from to 1 f s
  unfolding for_by
  for_by-append zero from middle to f s a b c = for_by-done zero middle to 1 f s (omega arith)
  for_by-append (suc fuel) from middle to f s a b c = elim (dec_lt from middle) [
    | yes p ↦
        ap (for_by (suc fuel) middle to 1 f) (for_by-step fuel from middle 1 f s p)
        ∙ for_by-fuel (suc fuel) fuel middle to 1 f (for_by fuel (from + 1) middle 1 f (f from s))
            (omega arith) (omega arith) (omega arith)
        ∙ for_by-append fuel (from + 1) middle to f (f from s) (omega arith) b (omega arith)
        ∙ sym (for_by-step fuel from to 1 f s (omega arith))
    | no p ↦
        ap (for_by (suc fuel) middle to 1 f)
          (for_by-done (suc fuel) from middle 1 f s (omega arith))
        ∙ ap (λ (m : ℕ). for_by (suc fuel) m to 1 f s) {x = middle} {y = from} (omega arith)
  ]

  tiles_done :
      (fuel from to step : ℕ) (f : ℕ → S → S) (s : S)
      → to ≤ from
      → for_by fuel from to step (λ x t. for x (min (x + step) to) 1 f t) s
        ≡ for_by fuel from to 1 f s
  tiles_done fuel from to step f s h =
      for_by-done fuel from to step (λ x t. for x (min (x + step) to) 1 f t) s h
      ∙ sym (for_by-done fuel from to 1 f s h)

  -- A loop that starts at the end or behind it, with one more round.
  from_middle :
      (fuel from to : ℕ) (f : ℕ → S → S) (s : S)
      → to ≤ from + fuel
      → for_by fuel from to 1 f s ≡ for_by (suc fuel) (min from to) to 1 f s
  from_middle fuel from to f s h = elim (dec_le from to) [
    | yes a ↦
        for_by-fuel fuel (suc fuel) from to 1 f s (omega arith) (omega arith) (omega arith)
        ∙ ap (λ (m : ℕ). for_by (suc fuel) m to 1 f s) {x = from} {y = min from to} (omega arith)
    | no a ↦
        for_by-done fuel from to 1 f s (omega arith)
        ∙ sym (for_by-done (suc fuel) (min from to) to 1 f s (omega arith))
  ]

  -- A loop over tiles, and in each over the numbers of the tile, is the loop over all numbers.
  pub for_by-tiles :
      (fuel from to step : ℕ) (f : ℕ → S → S) (s : S)
      → 0 < step
      → to ≤ from + fuel
      → for_by fuel from to step (λ x t. for x (min (x + step) to) 1 f t) s
        ≡ for_by fuel from to 1 f s
  unfolding for_by
  for_by-tiles zero from to step f s p c = refl
  for_by-tiles (suc fuel) from to step f s p c = elim (dec_lt from to) [
    | no q ↦ tiles_done (suc fuel) from to step f s (omega arith)
    | yes q ↦
        let tiles = λ (x : ℕ) (t : S). for x (min (x + step) to) 1 f t in
        let first = tiles from s in
        let middle = min (from + step) to in
        let enough =
          for_by-fuel (middle - from) (suc fuel) from middle 1 f s (omega arith) (omega arith)
            (omega arith) in
        for_by-step fuel from to step tiles s q
        ∙ for_by-tiles fuel (from + step) to step f first p (omega arith)
        ∙ from_middle fuel (from + step) to f first (omega arith)
        ∙ ap (for_by (suc fuel) middle to 1 f) enough
        ∙ for_by-append (suc fuel) from middle to f s (omega arith) (omega arith) c
  ]

  -- A loop over tiles of which one holds `y`.
  pub for_by-tile_only :
      (fuel from to step y : ℕ) (g : S → S) (s : S)
      → 0 < step
      → from ≤ y
      → y < to
      → to ≤ from + fuel
      → for_by fuel from to step (λ x t. if leb x y && ltb y (min (x + step) to) then g t else t) s
        ≡ g s
  for_by-tile_only zero from to step y g s p a b c = absurd (omega arith)
  for_by-tile_only (suc fuel) from to step y g s p a b c =
      let body = λ (x : ℕ) (t : S). if leb x y && ltb y (min (x + step) to) then g t else t in
      for_by-step fuel from to step body s (omega arith) ∙ elim (dec_lt y (from + step)) [
        | yes here ↦
            let now : body from s ≡ g s = ground arith in
            ap (for_by fuel (from + step) to step body) now
            ∙ for_by-idle fuel (from + step) to step body (g s) (λ x d e. ground arith)
        | no later ↦
            let now : body from s ≡ s = ground arith in
            ap (for_by fuel (from + step) to step body) now
            ∙ for_by-tile_only fuel (from + step) to step y g s p (omega arith) b (omega arith)
      ]

  -- A loop of which the round at `y` does something, if the range holds it.
  pub for-at :
      (from to y : ℕ) (g : S → S) (s : S)
      → for from to 1 (λ x t. if x == y then g t else t) s
        ≡ (if leb from y && ltb y to then g s else s)
  for-at from to y g s =
      let body = λ (x : ℕ) (t : S). if x == y then g t else t in
      elim (dec_le from y) [
        | yes p ↦ elim (dec_lt y to) [
          | yes q ↦
              let found =
                for_by-only (to - from) from to y body s p q (omega arith)
                  (λ x d t. ground arith) in
              let now : body y s ≡ g s = ground arith in
              let test : (leb from y && ltb y to) ≡ true = ground arith in rw test (found ∙ now)
          | no q ↦
              let idle = for_by-idle (to - from) from to 1 body s (λ x a b. ground arith) in
              let test : (leb from y && ltb y to) ≡ false = ground arith in rw test idle
        ]
        | no p ↦
            let idle = for_by-idle (to - from) from to 1 body s (λ x a b. ground arith) in
            let test : (leb from y && ltb y to) ≡ false = ground arith in rw test idle
      ]

  pub for-at_in :
      (to y : ℕ) (g : S → S) (s : S)
      → y < to
      → for 0 to 1 (λ x t. if x == y then g t else t) s ≡ g s
  for-at_in to y g s p =
      let test : (leb 0 y && ltb y to) ≡ true = ground arith in for-at 0 to y g s ∙ rw test refl

  -- Equal bodies.
  pub for-ext :
      (from to step : ℕ) (f g : ℕ → S → S) (s : S)
      → ((x : ℕ) (t : S) → f x t ≡ g x t)
      → for from to step f s ≡ for from to step g s
  for-ext from to step f g s h = for_by-congr (to - from) from to step f g s (λ x a b t. h x t)
