-- ===== src/Activate/Versions.antt =====
-- What `activatePackageImpl` (apexd/apexd.cpp) finds out about a version among the mounts of its
-- package.
use android_system_apex.Common.{
  ℕ, ◌≤◌, ◌≡◌, ◌↔◌, ◌⊎◌, inl, inr, refl, Bool, true, false, [], ◌∷◌, arith, to_u64, ltb, ◌==◌,
  ==_iff, if◌then◌else◌, All, Any, StatusOr, ok, StatusOr-cases,
}
use android_system_apex.Os.{Os}
use android_system_apex.ApexFile.{ApexFile, open_apex}
use android_system_apex.Database.Entry.{MountedApexData}
use android_system_apex.Database.{PackageMap}
use android_system_apex.Activate.{Found, see, see_mounts, look_for_version}

still_newest :
    (b : Bool) (other version : ℕ)
    → ((if ltb version other then false else b) ≡ true) ↔ ((b ≡ true) × (other ≤ version))
still_newest b other version = ground arith

now_mounted :
    (b : Bool) (other version : ℕ)
    → ((if other == version then true else b) ≡ true) ↔ ((b ≡ true) ⊎ (other ≡ version))
now_mounted b other version = ground (arith, ==_iff other version)

opens_same : {s : StatusOr ApexFile} {a b : ApexFile} → s ≡ ok a → s ≡ ok b → a ≡ b
opens_same h k = cc

module _ {W : Type 0} (os : Os W) (version : ℕ) (w : W) where
  abbrev Opens : MountedApexData × Bool → ApexFile → Type 0
  Opens e other = open_apex os e.0.full_path w ≡ ok other

  -- A package that cannot be opened, or one of this version or an older one.
  abbrev pub IsNotNewer : MountedApexData × Bool → Type 0
  IsNotNewer e = (other : ApexFile) → Opens e other → to_u64 other.manifest.version ≤ version

  -- A package of this version.
  abbrev pub IsSame : MountedApexData × Bool → Type 0
  IsSame e = (other : ApexFile) × Opens e other × (to_u64 other.manifest.version ≡ version)

  newest_iff :
      (m : PackageMap) (f : Found)
      → ((see_mounts os version w m f).is_newest_version ≡ true)
        ↔ ((f.is_newest_version ≡ true) × All IsNotNewer m)
  unfolding see_mounts
  newest_iff [] f = (λ h. (h, tt), λ h. h.0)
  newest_iff ((d, latest) ∷ m) f = elim (StatusOr-cases (open_apex os d.full_path w)) [
    | inr (e, refused) ↦
        let ih = newest_iff m f in
        rw (refused, see_mounts)
          (λ h. let (a, b) = ih.0 h in (a, ((λ other o. cc), b)), λ h. ih.1 (h.0, h.1.1))
    | inl (a, opened) ↦
        let other_version = to_u64 a.manifest.version in
        let ih = newest_iff m (see os version other_version latest f) in
        let step = still_newest f.is_newest_version other_version version in
        rw (opened, see_mounts)
          (
            λ h.
                let (now, rest) = ih.0 h in
                let (before, below) = step.0 now in
                (before, ((λ other o. rw (← opens_same refl o) below), rest)),
            λ h. ih.1 (step.1 (h.0, h.1.0 a refl), h.1.1),
          )
  ]

  mounted_iff :
      (m : PackageMap) (f : Found)
      → ((see_mounts os version w m f).version_found_mounted ≡ true)
        ↔ ((f.version_found_mounted ≡ true) ⊎ Any IsSame m)
  unfolding see_mounts
  mounted_iff [] f = (λ h. inl h, λ h. elim h [ inl e ↦ e | inr e ↦ absurd e ])
  mounted_iff ((d, latest) ∷ m) f = elim (StatusOr-cases (open_apex os d.full_path w)) [
    | inr (e, refused) ↦
        let ih = mounted_iff m f in
        rw (refused, see_mounts)
          (
            λ h. elim (ih.0 h) [ inl a ↦ inl a | inr b ↦ inr (inr b) ],
            λ h. elim h [
              | inl a ↦ ih.1 (inl a)
              | inr (inl (other, o, same)) ↦ absurd (cc o)
              | inr (inr b) ↦ ih.1 (inr b)
            ],
          )
    | inl (a, opened) ↦
        let other_version = to_u64 a.manifest.version in
        let ih = mounted_iff m (see os version other_version latest f) in
        let step = now_mounted f.version_found_mounted other_version version in
        rw (opened, see_mounts)
          (
            λ h. elim (ih.0 h) [
              | inl now ↦ elim (step.0 now) [
                | inl before ↦ inl before
                | inr same ↦ inr (inl (a, refl, same))
              ]
              | inr b ↦ inr (inr b)
            ],
            λ h. elim h [
              | inl before ↦ ih.1 (inl (step.1 (inl before)))
              | inr (inl (other, o, same)) ↦ ih.1 (inl (step.1 (inr (rw (opens_same refl o) same))))
              | inr (inr b) ↦ ih.1 (inr b)
            ],
          )
  ]

  -- The walk over the mounts of a package finds that the version is the newest exactly when no
  -- mounted package that can be opened has a greater one, and that the version is mounted exactly
  -- when a mounted package that can be opened has it. Versions are compared as 64-bit numbers.
  pub look_for_version_iff :
      (m : PackageMap)
      → (((look_for_version os version m w).is_newest_version ≡ true) ↔ All IsNotNewer m)
        × (((look_for_version os version m w).version_found_mounted ≡ true) ↔ Any IsSame m)
  unfolding look_for_version
  look_for_version_iff m =
      let f : Found = record {
        is_newest_version = true;
        version_found_mounted = false;
        version_found_active = false;
      } in
      let n = newest_iff m f in
      let s = mounted_iff m f in
      (
        (λ h. (n.0 h).1, λ h. n.1 (refl, h)),
        (λ h. elim (s.0 h) [ inl e ↦ absurd (false-ne-true e) | inr b ↦ b ], λ h. s.1 (inr h)),
      )
    where
      false-ne-true : false ≡ true → ⊥
      false-ne-true e = cc
