-- ===== src/Activate/Valid.antt =====
-- apexd/apexd.cpp: activating and deactivating packages, against the invariant of the database of
-- mounted packages.
use android_system_apex.Common.{
  Bool, true, false, ◌||◌, Option, List, [], ◌∷◌, Text, inl, inr, arith, ℕ, StatusOr-cases,
  Outcome-cases,
}
use android_system_apex.Os.{Os}
use android_system_apex.Config.{Config}
use android_system_apex.Paths.{is_path_for_builtin_apexes}
use android_system_apex.Manifest.{get_package_mount_point, get_active_mount_point}
use android_system_apex.ApexFile.{ApexFile, open_apex, find_apex_files_by_name}
use android_system_apex.Database.Invariant.{IsValid, set_latest-IsValid}
use android_system_apex.Database.{set_latest}
use android_system_apex.Daemon.{Daemon}
use android_system_apex.Mount.Bind.{bind_mount, mounted_apexes-bind_mount}
use android_system_apex.Mount.Valid.{
  moved, mount_package-IsValid, unmount_package-IsValid, update_database-IsValid,
}
use android_system_apex.Activate.{
  mount_unless, make_latest, activate_version, activate_package_impl, activate_package,
  deactivate_package, scan_one, scan_all, scan_packages_dir_and_activate, get_active_packages_map,
}

module _ {W : Type 0} (os : Os W) (config : Config) where
  mount_unless-IsValid :
      (b : Bool) (apex : ApexFile) (d : Daemon W)
      → IsValid d.mounted_apexes
      → IsValid (mount_unless os config b apex d).1.mounted_apexes
  unfolding mount_unless
  mount_unless-IsValid true apex d v = v
  mount_unless-IsValid false apex d v =
      mount_package-IsValid os config apex (get_package_mount_point apex.manifest) d v

  make_latest-IsValid :
      (b : Bool) (apex : ApexFile) (d : Daemon W)
      → IsValid d.mounted_apexes
      → IsValid (make_latest os config b apex d).1.mounted_apexes
  unfolding make_latest
  make_latest-IsValid false apex d v = v
  make_latest-IsValid true apex d v =
      let target = get_active_mount_point apex.manifest in
      let source = get_package_mount_point apex.manifest in
      let (r, d') = bind_mount os target source d in
      let v' = moved (mounted_apexes-bind_mount os target source d) v in
      let pkg = apex.manifest.name in
      ground (
        arith,
        v',
        update_database-IsValid (set_latest pkg apex.apex_path) d'
            (λ db h. set_latest-IsValid pkg apex.apex_path d'.mounted_apexes db h v') v',
      )

  activate_version-IsValid :
      (apex : ApexFile) (d : Daemon W)
      → IsValid d.mounted_apexes
      → IsValid (activate_version os config apex d).1.mounted_apexes
  unfolding activate_version
  activate_version-IsValid apex d v = grind (arith, mount_unless-IsValid, make_latest-IsValid)

  pub activate_package_impl-IsValid :
      (apex : ApexFile) (d : Daemon W)
      → IsValid d.mounted_apexes
      → IsValid (activate_package_impl os config apex d).1.mounted_apexes
  unfolding activate_package_impl
  activate_package_impl-IsValid apex d v = ground (arith, activate_version-IsValid apex d v)

  pub activate_package-IsValid :
      (path : Text) (d : Daemon W)
      → IsValid d.mounted_apexes
      → IsValid (activate_package os config path d).1.mounted_apexes
  unfolding activate_package
  activate_package-IsValid path d v = elim (StatusOr-cases (open_apex os path d.world)) [
    | inl (apex, e) ↦ ground (arith, activate_package_impl-IsValid apex d v)
    | inr e ↦ ground arith
  ]

  pub deactivate_package-IsValid :
      (path : Text) (d : Daemon W)
      → IsValid d.mounted_apexes
      → IsValid (deactivate_package os config path d).1.mounted_apexes
  unfolding deactivate_package
  deactivate_package-IsValid path d v = elim (StatusOr-cases (open_apex os path d.world)) [
    | inl (apex, e) ↦ ground (arith, unmount_package-IsValid os apex true d v)
    | inr e ↦ ground arith
  ]

  scan_one-IsValid :
      (code : Text → Option ℕ) (name : Text) (d : Daemon W)
      → IsValid d.mounted_apexes
      → IsValid (scan_one os config code name d).1.mounted_apexes
  unfolding scan_one
  scan_one-IsValid code name d v = elim (StatusOr-cases (open_apex os name d.world)) [
    | inl (apex, e) ↦ ground (arith, activate_package_impl-IsValid apex d v)
    | inr e ↦ ground arith
  ]

  scan_all-IsValid :
      (code : Text → Option ℕ) (bad : Bool) (names : List Text) (d : Daemon W)
      → IsValid d.mounted_apexes
      → IsValid (scan_all os config code bad names d).1.mounted_apexes
  unfolding scan_all
  scan_all-IsValid code bad [] d v = v
  scan_all-IsValid code bad (name ∷ names) d v =
      let (r, d') = scan_one os config code name d in
      let v' = scan_one-IsValid code name d v in
      elim (Outcome-cases r) [
        | inl (b, e) ↦ ground (arith, scan_all-IsValid code (bad || b) names d' v')
        | inr e ↦ ground (arith, v')
      ]

  pub scan_packages_dir_and_activate-IsValid :
      (dir : Text) (d : Daemon W)
      → IsValid d.mounted_apexes
      → IsValid (scan_packages_dir_and_activate os config dir d).1.mounted_apexes
  unfolding scan_packages_dir_and_activate
  scan_packages_dir_and_activate-IsValid dir d v =
      elim (StatusOr-cases
        (find_apex_files_by_name os dir (is_path_for_builtin_apexes dir) d.world)) [
          | inl (names, e) ↦
              let code = get_active_packages_map os d.mounted_apexes d.world in
              ground (arith, scan_all-IsValid code false names d v)
          | inr e ↦ ground arith
        ]
