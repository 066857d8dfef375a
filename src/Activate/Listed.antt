-- ===== src/Activate/Listed.antt =====
-- apexd/apexd.cpp: `getActivePackages` after an activation.
use android_system_apex.Common.{
  ◌≡◌, refl, inl, inr, ◌⊎◌, true, false, List, [], ◌∷◌, ◌++◌, Text, arith, ok, done, Any,
  Any-append, StatusOr-cases, Option-cases,
}
use android_system_apex.Os.{Os}
use android_system_apex.Config.{Config}
use android_system_apex.ApexFile.{ApexFile, open_apex}
use android_system_apex.OrdMap.{find}
use android_system_apex.Database.Entry.{text_order}
use android_system_apex.Database.Latest.{MarksOnly}
use android_system_apex.Database.Invariant.{find-Split}
use android_system_apex.Database.{PackageMap, Database, latest_count, package_map}
use android_system_apex.Daemon.{Daemon}
use android_system_apex.Activate.{latest_packages, get_active_packages, activate_package_impl}
use android_system_apex.Activate.Outcome.{IsLatest, found_for, activate_package_impl_outcome}

module _ {W : Type 0} (os : Os W) (w : W) (a : ApexFile) where
  abbrev pub Lists : List ApexFile → Type 0
  Lists = Any (λ x. x ≡ a)

  -- The walk over the entries before, of and after the package.
  latest_packages-append :
      (m n : PackageMap)
      → latest_packages os w (m ++ n) ≡ latest_packages os w m ++ latest_packages os w n
  unfolding latest_packages
  latest_packages-append [] n = refl
  latest_packages-append ((d, true) ∷ m) n = elim (StatusOr-cases (open_apex os d.full_path w)) [
    | inl (x, e) ↦ ground (arith, latest_packages-append m n)
    | inr e ↦ ground (arith, latest_packages-append m n)
  ]
  latest_packages-append ((d, false) ∷ m) n = latest_packages-append m n

  marked-Lists :
      (path : Text) (m : PackageMap)
      → open_apex os path w ≡ ok a
      → latest_count m ≡ 1
      → MarksOnly path m
      → Lists (latest_packages os w m)
  unfolding latest_packages latest_count
  marked-Lists path [] opens one only = absurd (ground arith)
  marked-Lists path ((d, true) ∷ m) opens one only =
      let here : d.full_path ≡ path = only.0 refl in rw (here, opens, latest_packages) (inl refl)
  marked-Lists path ((d, false) ∷ m) opens one only = marked-Lists path m opens one only.1

  module _ (apex : ApexFile) (config : Config) where
    -- The latest entry of a package is among the active packages, when its file opens.
    IsLatest-Lists :
        (db : Database)
        → open_apex os apex.apex_path w ≡ ok a
        → IsLatest os config apex db
        → Lists (get_active_packages os db w)
    unfolding get_active_packages latest_count
    IsLatest-Lists db opens (one, only) = elim (Option-cases (find apex.manifest.name db)) [
      | inl missing ↦ absurd (ground arith)
      | inr (m, found) ↦
          let whole : package_map apex.manifest.name db ≡ m = rw found refl in
          let s = find-Split apex.manifest.name db {m = m} found in
          let listed = marked-Lists apex.apex_path m opens (rw whole at one) (rw whole at only) in
          rw
            (
              s.whole,
              latest_packages-append s.before (m ++ s.after),
              latest_packages-append m s.after,
            )
            (Any-append (λ x. x ≡ a) (latest_packages os w s.before) _
              (inr (Any-append (λ x. x ≡ a) (latest_packages os w m) _ (inl listed))))
    ]

module _ {W : Type 0} (os : Os W) (config : Config) (apex : ApexFile) where
  -- When the activation of a package succeeds that no mounted package of its name is newer than,
  -- either nothing has changed, or getActivePackages lists what opening the package's file gives.
  pub activate_package_impl-Lists :
      (d : Daemon W) (a : ApexFile)
      → (activate_package_impl os config apex d).0 ≡ done tt
      → (found_for os config apex d).is_newest_version ≡ true
      → let after : Daemon W = (activate_package_impl os config apex d).1 in
        open_apex os apex.apex_path after.world ≡ ok a
        → (after ≡ d)
          ⊎ Lists os after.world a (get_active_packages os after.mounted_apexes after.world)
  activate_package_impl-Lists d a h newest opens =
      let after = (activate_package_impl os config apex d).1 in
      elim (activate_package_impl_outcome os config apex d h) [
        | inl (why, same) ↦ inl same
        | inr (inl (_, latest, _)) ↦
            inr (IsLatest-Lists os after.world a apex config after.mounted_apexes opens latest)
        | inr (inr (older, _, _)) ↦ absurd (ground arith)
      ]
