-- ===== src/Common/Effects.antt =====
-- Functions that change a state: they return a value, return an error, or abort the process.
-- An early return is the error case of a bind.
use mathlib.Core.Path.{◌≡◌, refl}
use mathlib.Core.Logic.{◌⊎◌, inl, inr}
use mathlib.Core.Bool.{Bool, true, false}
use mathlib.Core.List.{List, [], ◌∷◌}
use android_system_apex.Common.Results.{Error, StatusOr, ok, fail}

-- `aborted` is a failed CHECK or LOG(FATAL).
pub data Outcome {ℓ} (A : Type ℓ) : Type ℓ where
  done : A → Outcome A
  failed : Error → Outcome A
  aborted : Outcome A

abbrev pub Action : Type 0 → Type 0 → Type 0
Action S A = S → Outcome A × S

module _ {S : Type 0} where
  infixl 5 ◌>>=◌ ◌>>◌
  abbrev pub ◌>>=◌ : {A B : Type 0} → Action S A → (A → Action S B) → Action S B
  ◌>>=◌ m f s =
      let (r, s') = m s in
      elim r [ done a ↦ f a s' | failed e ↦ (failed e, s') | aborted ↦ (aborted, s') ]

  abbrev pub ◌>>◌ : {A B : Type 0} → Action S A → Action S B → Action S B
  m >> k = m >>= λ _. k

  abbrev pub pure : {A : Type 0} → A → Action S A
  pure a s = (done a, s)

  abbrev pub raise : {A : Type 0} → Error → Action S A
  raise e s = (failed e, s)

  abbrev pub abort : {A : Type 0} → Action S A
  abort s = (aborted, s)

  abbrev pub skip : Action S (Unit {0})
  skip = pure tt

  abbrev pub gets : {A : Type 0} → (S → A) → Action S A
  gets f s = (done (f s), s)

  abbrev pub modify : (S → S) → Action S (Unit {0})
  modify f s = (done tt, f s)

  -- A read-only function of the state that returns a `StatusOr`.
  abbrev pub lift_status : {A : Type 0} → (S → StatusOr A) → Action S A
  lift_status f s = (elim (f s) [ ok a ↦ done a | fail e ↦ failed e ], s)

  abbrev pub ensure : Bool → Error → Action S (Unit {0})
  ensure b e s = (elim b [ true ↦ done tt | false ↦ failed e ], s)

  -- `auto status = f();`: the status is a value that the caller looks at.
  abbrev pub try_run : {A : Type 0} → Action S A → Action S (StatusOr A)
  try_run m s =
      let (r, s') = m s in
      elim r [
        | done a ↦ (done (ok a), s')
        | failed e ↦ (done (fail e), s')
        | aborted ↦ (aborted, s')
      ]

  -- A status that is only logged.
  abbrev pub ignore : {A : Type 0} → Action S A → Action S (Unit {0})
  ignore m = try_run m >> skip

  -- `make_scope_guard(cleanup)` around `m`, disabled when `m` succeeds.
  abbrev pub guarded : {A : Type 0} → Action S (Unit {0}) → Action S A → Action S A
  guarded cleanup m s =
      let (r, s') = m s in
      elim r [
        | done a ↦ (done a, s')
        | failed e ↦ (cleanup >> raise e) s'
        | aborted ↦ (aborted, s')
      ]

  -- `make_scope_guard(cleanup)` around `m`, never disabled.
  abbrev pub finally : {A : Type 0} → Action S (Unit {0}) → Action S A → Action S A
  finally cleanup m s =
      let (r, s') = m s in
      elim r [
        | done a ↦ (cleanup >> pure a) s'
        | failed e ↦ (cleanup >> raise e) s'
        | aborted ↦ (aborted, s')
      ]

  unfoldable pub for_each : {A : Type 0} → (A → Action S (Unit {0})) → List A → Action S (Unit {0})
  for_each f [] = skip
  for_each f (x ∷ xs) = f x >> for_each f xs

pub Outcome-cases {ℓ} :
    {A : Type ℓ} (o : Outcome A)
    → ((a : A) × (o ≡ done a)) ⊎ ((e : Error) × (o ≡ failed e)) ⊎ (o ≡ aborted)
Outcome-cases (done a) = inl (a, refl)
Outcome-cases (failed e) = inr (inl (e, refl))
Outcome-cases aborted = inr (inr refl)
