-- ===== src/Core/Calls.antt =====
-- Calls of a client on code that may fault, against a model that does not.
use mathlib.Core.Path.{◌≡◌, refl}
use mathlib.Core.Option.{Option, none, some}
use mathlib.Core.List.{List, [], ◌∷◌}

-- The answers to the calls one after the other and the last state; `none` after a fault.
unfoldable pub run {ℓ κ μ} :
    {S : Type ℓ} {C : Type κ} {O : Type μ}
    → (S → C → Option (O × S))
    → S
    → List C
    → Option (List O × S)
run step s [] = some ([], s)
run step s (c ∷ calls) = elim (step s c) [
  | none ↦ none
  | some (answer, s') ↦ elim (run step s' calls) [
    | none ↦ none
    | some (answers, last) ↦ some (answer ∷ answers, last)
  ]
]

unfoldable pub run_model {ℓ κ μ} :
    {Q : Type ℓ} {C : Type κ} {O : Type μ} → (Q → C → O × Q) → Q → List C → List O × Q
run_model model q [] = ([], q)
run_model model q (c ∷ calls) =
    let now = model q c in let rest = run_model model now.1 calls in (now.0 ∷ rest.0, rest.1)

module _ {ℓ κ μ ν} {S Q : Type ℓ} {C : Type κ} {O : Type μ} (step : S → C → Option (O × S))
    (model : Q → C → O × Q) (Holds : S → Q → Type ν) where
  -- The step answers as the model does, and the new states correspond again.
  abbrev pub Simulates : S → Q → C → Type (ℓ ⊔ μ ⊔ ν)
  Simulates s q c = (s' : S) × (step s c ≡ some ((model q c).0, s')) × Holds s' (model q c).1

  -- So do all calls.
  abbrev pub Runs : S → Q → List C → Type (ℓ ⊔ μ ⊔ ν)
  Runs s q calls =
      (s' : S) × (run step s calls ≡ some ((run_model model q calls).0, s'))
      × Holds s' (run_model model q calls).1

  pub Simulates-Runs :
      ((s : S) (q : Q) (c : C) → Holds s q → Simulates s q c)
      → (calls : List C) (s : S) (q : Q) → Holds s q
      → Runs s q calls
  unfolding run run_model
  Simulates-Runs sim [] s q h = (s, refl, h)
  Simulates-Runs sim (c ∷ calls) s q h =
      let (s', stepped, h') = sim s q c h in
      let (last, ran, held) = Simulates-Runs sim calls s' (model q c).1 h' in
      (last, rw (run, stepped, ran) refl, held)
