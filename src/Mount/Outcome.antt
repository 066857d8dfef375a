-- ===== src/Mount/Outcome.antt =====
-- apexd/apexd.cpp and apexd/apexd_private.cpp: what a mount that succeeds has recorded.
use android_system_apex.Common.{
  Bool, false, ◌≡◌, ◌∙◌, sym, ap, inl, inr, ◌⊎◌, some, Text, arith, Error, Outcome, done, failed,
  aborted, Option-cases, Outcome-cases, StatusOr-cases,
}
use android_system_apex.Os.{Os}
use android_system_apex.Config.{Config, loop_device_setup_attempts}
use android_system_apex.Manifest.{get_package_id}
use android_system_apex.ApexFile.{ApexFile, path_exists}
use android_system_apex.Database.Entry.{MountedApexData}
use android_system_apex.Database.{add_mounted_apex}
use android_system_apex.Daemon.{Daemon}
use android_system_apex.Mount.Frame.{mounted_apexes-mount_package_impl}
use android_system_apex.Mount.{
  attempt_loop_device, mount_non_flattened, mount_flattened, make_mount_point, mount_package_impl,
  mount_package,
}

-- What was mounted of a package, and where.
pub record MountOf (apex : ApexFile) (mount_point : Text) (mounted : MountedApexData) : Type 0 where
  pub path : mounted.full_path ≡ apex.apex_path
  pub place : mounted.mount_point ≡ mount_point

module _ {W : Type 0} (os : Os W) (config : Config) where
  mount_non_flattened-MountOf :
      (apex : ApexFile) (mount_point device : Text) (verify : Bool) (d : Daemon W)
      (mounted : MountedApexData)
      → (mount_non_flattened os config apex mount_point device verify d).0 ≡ done mounted
      → MountOf apex mount_point mounted
  unfolding mount_non_flattened
  mount_non_flattened-MountOf apex mount_point device verify d mounted h =
      let (r, d') = attempt_loop_device os config loop_device_setup_attempts apex d in
      elim (Outcome-cases r) [
        | inl (loop, e) ↦
            let (path, place) : (mounted.full_path ≡ apex.apex_path)
                × (mounted.mount_point ≡ mount_point) =
              ground arith in
            record { path = path; place = place }
        | inr e ↦ absurd (ground arith)
      ]

  mount_flattened-MountOf :
      (apex : ApexFile) (mount_point : Text) (d : Daemon W) (mounted : MountedApexData)
      → (mount_flattened os config apex mount_point d).0 ≡ done mounted
      → MountOf apex mount_point mounted
  unfolding mount_flattened
  mount_flattened-MountOf apex mount_point d mounted h =
      let (path, place) : (mounted.full_path ≡ apex.apex_path)
          × (mounted.mount_point ≡ mount_point) =
        ground arith in
      record { path = path; place = place }

  mount_package_impl-MountOf :
      (apex : ApexFile) (mount_point device : Text) (verify : Bool) (d : Daemon W)
      (mounted : MountedApexData)
      → (mount_package_impl os config apex mount_point device verify d).0 ≡ done mounted
      → MountOf apex mount_point mounted
  unfolding mount_package_impl
  mount_package_impl-MountOf apex mount_point device verify d mounted h =
      elim (StatusOr-cases (path_exists os mount_point d.world)) [
        | inl (exists, e) ↦
            let d' = (make_mount_point os config exists mount_point d).1 in
            ground (
              arith,
              mount_flattened-MountOf apex mount_point d' mounted,
              mount_non_flattened-MountOf apex mount_point device verify d' mounted,
            )
        | inr e ↦ absurd (ground arith)
      ]

  -- Mounting a package ends in one of three ways: it succeeds, and `AddMountedApex` has added one
  -- entry, which is not the latest and has the package's path and the mount point; it fails, and
  -- the database is as before; or it ends the process, and the database is as before.
  pub mount_package_outcome :
      (apex : ApexFile) (mount_point : Text) (d : Daemon W)
      → let after : Daemon W = (mount_package os config apex mount_point d).1 in
        let r : Outcome (Unit {0}) = (mount_package os config apex mount_point d).0 in
        ((mounted : MountedApexData) × (r ≡ done tt)
          × MountOf apex mount_point mounted
          × (add_mounted_apex apex.manifest.name false mounted d.mounted_apexes
              ≡ some after.mounted_apexes))
        ⊎ ((e : Error) × (r ≡ failed e) × (after.mounted_apexes ≡ d.mounted_apexes))
        ⊎ ((r ≡ aborted) × (after.mounted_apexes ≡ d.mounted_apexes))
  unfolding mount_package
  mount_package_outcome apex mount_point d =
      let id = get_package_id apex.manifest in
      let pkg = apex.manifest.name in
      let same = mounted_apexes-mount_package_impl os config apex mount_point id false d in
      let (r, d') = mount_package_impl os config apex mount_point id false d in
      elim (Outcome-cases r) [
        | inl (mounted, e) ↦
            let of = mount_package_impl-MountOf apex mount_point id false d mounted e in
            elim (Option-cases (add_mounted_apex pkg false mounted d'.mounted_apexes)) [
              | inl refused ↦ inr (inr (ground (arith, same), ground (arith, same)))
              | inr (db, added) ↦ inl (
                mounted,
                ground arith,
                of,
                (ap (add_mounted_apex pkg false mounted) (sym same) ∙ added)
                    ∙ ground (arith, added),
              )
            ]
        | inr (inl (error, e)) ↦ inr (inl (error, ground arith, ground (arith, same)))
        | inr (inr e) ↦ inr (inr (ground arith, ground (arith, same)))
      ]
