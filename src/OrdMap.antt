-- ===== src/OrdMap.antt =====
-- `std::map` as an association list in the order of its keys: `find`, `emplace`, a write through
-- an iterator, and `erase` of the first entry that passes a test.
pub mod Laws
use android_system_apex.Common.{
  ◌≡◌, Bool, true, false, Option, none, some, List, [], ◌∷◌, if◌then◌else◌,
}

-- A strict total order on the keys.
pub record Order {ℓ} (K : Type ℓ) : Type ℓ where
  pub lt : K → K → Bool
  pub irrefl : (a : K) → lt a a ≡ false
  pub trans : (a b c : K) → lt a b ≡ true → lt b c ≡ true → lt a c ≡ true
  pub total : (a b : K) → lt a b ≡ false → lt b a ≡ false → a ≡ b

module _ {ℓ} {K : Type ℓ} {V : Type 0} ⦃o : Order K⦄ where
  unfoldable pub find : K → List (K × V) → Option V
  find k [] = none
  find k ((j, w) ∷ m) = if o.lt k j then none else if o.lt j k then find k m else some w

  -- The map after `emplace(k, v)`: an entry with an equal key stays.
  unfoldable pub emplace : K → V → List (K × V) → List (K × V)
  emplace k v [] = (k, v) ∷ []
  emplace k v ((j, w) ∷ m) =
      if o.lt k j
      then (k, v) ∷ (j, w) ∷ m
      else if o.lt j k
      then (j, w) ∷ emplace k v m
      else (j, w) ∷ m

  -- `emplace(k, v).second`.
  unfoldable pub is_new : K → List (K × V) → Bool
  unfolding find
  is_new k m = elim (find k m) [ none ↦ true | some _ ↦ false ]

  -- A change of the value that an iterator to `k` points at.
  unfoldable pub update : K → (V → V) → List (K × V) → List (K × V)
  update k f [] = []
  update k f ((j, w) ∷ m) =
      if o.lt k j then (j, w) ∷ m else if o.lt j k then (j, w) ∷ update k f m else (j, f w) ∷ m
