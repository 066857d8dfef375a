-- ===== src/Service/Listing.antt =====
-- apexd/apexservice.cpp: what getAllPackages lists.
use android_system_apex.Common.{
  ◌≡◌, refl, ◌↔◌, ◌⊎◌, inl, inr, true, Any, Any-append, All, All-map, All-append, List, [], ◌∷◌,
  map, Text, text_eq_iff, arith, Bool-cases,
}
use android_system_apex.ApexInfo.{ApexInfo}
use android_system_apex.ApexFile.{ApexFile}
use android_system_apex.Service.{Binder}
use android_system_apex.Service.Info.{contains, factory_info, other_infos, all_infos}

-- A package with the path.
abbrev pub Has : List ApexFile → Text → Type 0
Has apexes path = Any (λ apex. apex.apex_path ≡ path) apexes

-- An info says truly whether its package is active and whether it is a factory package.
abbrev pub Right : List ApexFile → List ApexFile → ApexInfo → Type 0
Right active factory info =
    ((info.is_active ≡ true) ↔ Has active info.package_path)
    × ((info.is_factory ≡ true) ↔ Has factory info.package_path)

contains_iff :
    (apexes : List ApexFile) (apex : ApexFile)
    → (contains apexes apex ≡ true) ↔ Has apexes apex.apex_path
unfolding contains
contains_iff [] apex = ground arith
contains_iff (listed ∷ apexes) apex =
    ground (arith, text_eq_iff apex.apex_path listed.apex_path, contains_iff apexes apex)

Has-self : (apexes : List ApexFile) → All (λ apex. Has apexes apex.apex_path) apexes
Has-self [] = tt
Has-self (apex ∷ apexes) = (
  inl refl,
  All-map {P = λ a. Has apexes a.apex_path} {Q = λ a. Has (apex ∷ apexes) a.apex_path} apexes
      (λ a h. inr h) (Has-self apexes),
)

factory_infos-Right :
    (binder : Binder) (active factory rest : List ApexFile)
    → All (λ apex. Has factory apex.apex_path) rest
    → All (Right active factory) (map (factory_info binder active) rest)
factory_infos-Right binder active factory [] listed = tt
factory_infos-Right binder active factory (apex ∷ rest) listed = (
  (contains_iff active apex, ground arith),
  factory_infos-Right binder active factory rest listed.1,
)

other_infos-Right :
    (binder : Binder) (active factory rest : List ApexFile)
    → All (λ apex. Has active apex.apex_path) rest
    → All (Right active factory) (other_infos binder factory rest)
unfolding other_infos
other_infos-Right binder active factory [] listed = tt
other_infos-Right binder active factory (apex ∷ rest) listed =
    let rest_right = other_infos-Right binder active factory rest listed.1 in
    elim (Bool-cases (contains factory apex)) [
      | inl found ↦ rw found rest_right
      | inr missing ↦
          rw missing ((ground arith, ground (arith, contains_iff factory apex)), rest_right)
    ]

factory_listed :
    (binder : Binder) (active factory : List ApexFile) (path : Text)
    → Has factory path
    → Any (λ info. info.package_path ≡ path) (map (factory_info binder active) factory)
factory_listed binder active [] path h = h
factory_listed binder active (apex ∷ factory) path h =
    ground (arith, factory_listed binder active factory path)

other_listed :
    (binder : Binder) (factory active : List ApexFile) (path : Text)
    → Has active path
    → Has factory path ⊎ Any (λ info. info.package_path ≡ path) (other_infos binder factory active)
unfolding other_infos
other_listed binder factory [] path h = ground arith
other_listed binder factory (apex ∷ active) path h =
    ground (arith, contains_iff factory apex, other_listed binder factory active path)

-- The list has an info for each of the packages.
abbrev pub Covers : List ApexInfo → List ApexFile → Type 0
Covers infos apexes = All (λ apex. Any (λ info. info.package_path ≡ apex.apex_path) infos) apexes

all_infos-Covers :
    (binder : Binder) (active factory apexes : List ApexFile)
    → All (λ apex. Has active apex.apex_path ⊎ Has factory apex.apex_path) apexes
    → Covers (all_infos binder active factory) apexes
unfolding all_infos
all_infos-Covers binder active factory [] has = tt
all_infos-Covers binder active factory (apex ∷ apexes) (has, more) =
    let path = apex.apex_path in
    (
      Any-append (λ info. info.package_path ≡ path) (map (factory_info binder active) factory)
          (other_infos binder factory active)
          (ground (
            arith,
            factory_listed binder active factory path,
            other_listed binder factory active path,
          )),
      all_infos-Covers binder active factory apexes more,
    )

-- The list of getAllPackages has an info for each package that is active or a factory package,
-- and each info says truly whether the package at its path is active and whether it is a factory
-- package.
pub all_infos-Right :
    (binder : Binder) (active factory : List ApexFile)
    → All (Right active factory) (all_infos binder active factory)
      × Covers (all_infos binder active factory) active
      × Covers (all_infos binder active factory) factory
unfolding all_infos
all_infos-Right binder active factory = (
  All-append (Right active factory) (map (factory_info binder active) factory) _
      (factory_infos-Right binder active factory factory (Has-self factory))
      (other_infos-Right binder active factory active (Has-self active)),
  all_infos-Covers binder active factory active (
      All-map {P = λ a. Has active a.apex_path}
        {Q = λ a. Has active a.apex_path ⊎ Has factory a.apex_path} active (λ a h. inl h)
        (Has-self active)),
  all_infos-Covers binder active factory factory (
      All-map {P = λ a. Has factory a.apex_path}
        {Q = λ a. Has active a.apex_path ⊎ Has factory a.apex_path} factory (λ a h. inr h)
        (Has-self factory)),
)
