-- ===== src/Common/Insertion.antt =====
-- One list with an element put in somewhere, and names that differ pairwise.
use mathlib.Core.Path.{◌≡◌, refl, ◌∙◌}
use mathlib.Core.Logic.{◌↔◌}
use mathlib.Core.Bool.{Bool, false, not, ◌&&◌}
use mathlib.Core.List.{List, [], ◌∷◌, ◌++◌, map}
use native.Mathlib.Omega.{arith}
use android_system_apex.Common.Lists.{All, any_of}
use android_system_apex.Common.Texts.{Text, text_eq, text_eq_iff, is_empty}

-- `ys` is `xs` with `x` put in.
pub data Inserted {ℓ} {A : Type ℓ} (x : A) : List A → List A → Type ℓ where
  here : (xs : List A) → Inserted x xs (x ∷ xs)
  there : (y : A) {xs ys : List A} → Inserted x xs ys → Inserted x (y ∷ xs) (y ∷ ys)

module _ {ℓ} {A : Type ℓ} {x : A} where
  pub Inserted-append_left :
      (zs : List A) {xs ys : List A} → Inserted x xs ys → Inserted x (zs ++ xs) (zs ++ ys)
  Inserted-append_left [] i = i
  Inserted-append_left (z ∷ zs) i = there z (Inserted-append_left zs i)

  pub Inserted-append_right :
      (zs : List A) {xs ys : List A} → Inserted x xs ys → Inserted x (xs ++ zs) (ys ++ zs)
  Inserted-append_right zs (here xs) = here (xs ++ zs)
  Inserted-append_right zs (there y i) = there y (Inserted-append_right zs i)

  pub Inserted-map {κ} :
      {B : Type κ} (f : A → B) {xs ys : List A}
      → Inserted x xs ys
      → Inserted (f x) (map f xs) (map f ys)
  Inserted-map f (here xs) = here (map f xs)
  Inserted-map f (there y i) = there (f y) (Inserted-map f i)

  pub Inserted-All {κ} :
      (P : A → Type κ) {xs ys : List A} → Inserted x xs ys → All P ys ↔ (P x × All P xs)
  Inserted-All P (here xs) = (λ h. h, λ h. h)
  Inserted-All P (there y i) =
      let ih = Inserted-All P i in
      (λ h. ((ih.0 h.1).0, (h.0, (ih.0 h.1).1)), λ h. (h.1.0, ih.1 (h.0, h.1.1)))

-- Two names clash if they are equal and not empty.
abbrev pub clash : Text → Text → Bool
clash a b = not (is_empty a) && text_eq a b

pub clash_comm : (a b : Text) → clash a b ≡ clash b a
clash_comm a b = ground (arith, text_eq_iff a b, text_eq_iff b a)

abbrev pub Avoids : Text → List Text → Type 0
Avoids a = All (λ b. clash a b ≡ false)

-- No two of the names clash.
abbrev pub Distinct : List Text → Type 0
Distinct [] = Unit
Distinct (a ∷ names) = Avoids a names × Distinct names

pub Inserted-Distinct :
    {a : Text} {names others : List Text}
    → Inserted a names others
    → Distinct others ↔ (Avoids a names × Distinct names)
Inserted-Distinct (here names) = (λ h. h, λ h. h)
Inserted-Distinct {a} (there b i) =
    let ih = Inserted-Distinct i in
    let av = Inserted-All (λ c. clash b c ≡ false) i in
    (
      λ h. let (f, d) = ih.0 h.1 in let (g, k) = av.0 h.0 in ((clash_comm a b ∙ g, f), (k, d)),
      λ h. (av.1 (clash_comm b a ∙ h.0.0, h.1.0), ih.1 (h.0.1, h.1.1)),
    )

-- Whether a name clashes with one of a list.
pub Avoids-iff :
    (a : Text) (others : List Text) → (any_of (clash a) others ≡ false) ↔ Avoids a others
Avoids-iff a [] = (λ _. tt, λ _. refl)
Avoids-iff a (b ∷ others) = ground (arith, Avoids-iff a others)
