-- ===== src/OrdMap/Laws.antt =====
-- Lookups after the changes of an ordered map.
use mathlib.Core.Option
use android_system_apex.Common.{
  ◌≡◌, ◌≢◌, refl, none, some, List, [], ◌∷◌, inl, inr, arith, All, Bool-cases,
}
use android_system_apex.OrdMap.{Order, find, emplace, update}

module _ {ℓ} {K : Type ℓ} {V : Type 0} ⦃o : Order K⦄ where
  pub find-update_self :
      (k : K) (f : V → V) (m : List (K × V)) → find k (update k f m) ≡ Option.map f (find k m)
  unfolding find update
  find-update_self k f [] = refl
  find-update_self k f ((j, w) ∷ m) = ground (arith, find-update_self k f m)

  pub find-update_ne :
      (j k : K) (f : V → V) (m : List (K × V)) → j ≢ k → find j (update k f m) ≡ find j m
  unfolding find update
  find-update_ne j k f [] h = refl
  find-update_ne j k f ((i, w) ∷ m) h =
      ground (arith, find-update_ne j k f m h, o.total j i, o.total k i)

  -- `emplace` keeps what is there.
  pub find-emplace_self :
      (k : K) (v : V) (m : List (K × V))
      → find k (emplace k v m) ≡ some (Option.get_or (find k m) v)
  unfolding find emplace
  find-emplace_self k v [] = ground (arith, o.irrefl k)
  find-emplace_self k v ((j, w) ∷ m) = ground (arith, find-emplace_self k v m, o.irrefl k)

  pub find-emplace_ne :
      (j k : K) (v : V) (m : List (K × V)) → j ≢ k → find j (emplace k v m) ≡ find j m
  unfolding find emplace
  find-emplace_ne j k v [] h = ground (arith, o.total j k)
  find-emplace_ne j k v ((i, w) ∷ m) h =
      ground (arith, find-emplace_ne j k v m h, o.total j k, o.trans j k i)

  pub All-update :
      {P : V → Type 0} (k : K) (f : V → V) (m : List (K × V))
      → ((v : V) → P v → P (f v))
      → All (λ e. P e.1) m
      → All (λ e. P e.1) (update k f m)
  unfolding update
  All-update k f [] keep h = tt
  All-update {P} k f ((j, w) ∷ m) keep (h, t) = elim (Bool-cases (o.lt k j)) [
    | inl e ↦ rw (e, update) (h, t)
    | inr e ↦
        rw (e, update)
          (elim (Bool-cases (o.lt j k)) [
            | inl e' ↦ rw e' (h, All-update {P = P} k f m keep t)
            | inr e' ↦ rw e' (keep w h, t)
          ])
  ]

  pub All-emplace :
      (P : V → Type 0) (k : K) (v : V) (m : List (K × V))
      → P v
      → All (λ e. P e.1) m
      → All (λ e. P e.1) (emplace k v m)
  unfolding emplace
  All-emplace P k v [] p h = (p, tt)
  All-emplace P k v ((j, w) ∷ m) p (h, t) = elim (Bool-cases (o.lt k j)) [
    | inl e ↦ rw (e, emplace) (p, (h, t))
    | inr e ↦
        rw (e, emplace)
          (elim (Bool-cases (o.lt j k)) [
            | inl e' ↦ rw e' (h, All-emplace P k v m p t)
            | inr e' ↦ rw e' (h, t)
          ])
  ]

  pub update-missing : (k : K) (f : V → V) (m : List (K × V)) → find k m ≡ none → update k f m ≡ m
  unfolding find update
  update-missing k f [] h = refl
  update-missing k f ((j, w) ∷ m) h = ground (arith, update-missing k f m)
