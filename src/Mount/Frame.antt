-- ===== src/Mount/Frame.antt =====
-- apexd/apexd.cpp and apexd/apexd_private.cpp: what stands below `MountPackage` and
-- `UnmountPackage`, beside the database of mounted packages.
use android_system_apex.Common.{
  ℕ, zero, suc, Bool, true, false, not, ◌||◌, ◌≡◌, refl, inl, inr, ◌++◌, Text, codes, Action, arith,
  StatusOr-cases, Outcome-cases,
}
use android_system_apex.Os.{Os}
use android_system_apex.Config.{Config, loop_device_setup_attempts}
use android_system_apex.Manifest.{get_package_id, get_package_mount_point}
use android_system_apex.Paths.{is_path_for_builtin_apexes}
use android_system_apex.ApexFile.{ApexFile, path_exists}
use android_system_apex.Verity.{ApexVerityData, verify_apex_verity}
use android_system_apex.Loop.Frame.{
  mounted_apexes-create_loop_device, mounted_apexes-destroy_loop_device,
  mounted_apexes-configure_read_ahead,
}
use android_system_apex.Devices.Frame.{
  mounted_apexes-wait_for_device, mounted_apexes-delete_verity_device,
  mounted_apexes-delete_verity_device_at, mounted_apexes-create_verity_device,
  mounted_apexes-read_verity_device,
}
use android_system_apex.Database.Entry.{MountedApexData}
use android_system_apex.Daemon.{Daemon}
use android_system_apex.Mount.{
  free_device, free_loop, unmount, unmount_latest, attempt_loop_device, verify_mounted,
  mount_device, check_device, mount_on, verify_and_mount, mount_non_flattened, mount_flattened,
  make_mount_point, mount_package_impl, run_verify_fn_inside_temp_mount,
}

module _ {W : Type 0} (os : Os W) where
  mounted_apexes-free_device :
      (b : Bool) (name : Text) (d : Daemon W)
      → (free_device os b name d).1.mounted_apexes ≡ d.mounted_apexes
  unfolding free_device
  mounted_apexes-free_device true name d = refl
  mounted_apexes-free_device false name d = grind (arith, mounted_apexes-delete_verity_device)

  mounted_apexes-free_loop :
      (b : Bool) (name : Text) (d : Daemon W)
      → (free_loop os b name d).1.mounted_apexes ≡ d.mounted_apexes
  unfolding free_loop
  mounted_apexes-free_loop true name d = refl
  mounted_apexes-free_loop false name d = grind (arith, mounted_apexes-destroy_loop_device)

  pub mounted_apexes-unmount :
      (e : MountedApexData) (d : Daemon W) → (unmount os e d).1.mounted_apexes ≡ d.mounted_apexes
  unfolding unmount
  mounted_apexes-unmount e d = grind (arith, mounted_apexes-free_device, mounted_apexes-free_loop)

  pub mounted_apexes-unmount_latest :
      (latest allow : Bool) (mount_point : Text) (d : Daemon W)
      → (unmount_latest os latest allow mount_point d).1.mounted_apexes ≡ d.mounted_apexes
  unfolding unmount_latest
  mounted_apexes-unmount_latest true allow mount_point d = ground arith
  mounted_apexes-unmount_latest false allow mount_point d = refl

  module _ (config : Config) where
    mounted_apexes-make_mount_point :
        (b : Bool) (mount_point : Text) (d : Daemon W)
        → (make_mount_point os config b mount_point d).1.mounted_apexes ≡ d.mounted_apexes
    unfolding make_mount_point
    mounted_apexes-make_mount_point true mount_point d = refl
    mounted_apexes-make_mount_point false mount_point d = ground arith

    mounted_apexes-attempt_loop_device :
        (n : ℕ) (apex : ApexFile) (d : Daemon W)
        → (attempt_loop_device os config n apex d).1.mounted_apexes ≡ d.mounted_apexes
    unfolding attempt_loop_device
    mounted_apexes-attempt_loop_device zero apex d = refl
    mounted_apexes-attempt_loop_device (suc n) apex d =
        grind (arith, mounted_apexes-create_loop_device, mounted_apexes-attempt_loop_device n)

    mounted_apexes-verify_mounted :
        (apex : ApexFile) (mount_point : Text) (d : Daemon W)
        → (verify_mounted os config apex mount_point d).1.mounted_apexes ≡ d.mounted_apexes
    unfolding verify_mounted
    mounted_apexes-verify_mounted apex mount_point d = ground arith

    mounted_apexes-mount_device :
        (apex : ApexFile) (device mount_point : Text) (d : Daemon W)
        → (mount_device os config apex device mount_point d).1.mounted_apexes ≡ d.mounted_apexes
    unfolding mount_device
    mounted_apexes-mount_device apex device mount_point d =
        grind (arith, mounted_apexes-verify_mounted)

    mounted_apexes-check_device :
        (b : Bool) (device : Text) (verity : ApexVerityData) (d : Daemon W)
        → (check_device os config b device verity d).1.mounted_apexes ≡ d.mounted_apexes
    unfolding check_device
    mounted_apexes-check_device true device verity d =
        grind (arith, mounted_apexes-read_verity_device)
    mounted_apexes-check_device false device verity d = refl

    mounted_apexes-mount_on :
        (b : Bool) (apex : ApexFile) (mount_point device loop : Text) (verity : ApexVerityData)
        (verify : Bool) (d : Daemon W)
        → (mount_on os config b apex mount_point device loop verity verify d).1.mounted_apexes
          ≡ d.mounted_apexes
    unfolding mount_on
    mounted_apexes-mount_on true apex mount_point device loop verity verify d = grind (
      arith, mounted_apexes-create_verity_device, mounted_apexes-configure_read_ahead,
      mounted_apexes-wait_for_device, mounted_apexes-check_device, mounted_apexes-mount_device,
      mounted_apexes-delete_verity_device_at,
    )
    mounted_apexes-mount_on false apex mount_point device loop verity verify d =
        grind (arith, mounted_apexes-wait_for_device, mounted_apexes-mount_device)

    mounted_apexes-verify_and_mount :
        (apex : ApexFile) (mount_point device : Text) (verify : Bool) (loop : Text) (d : Daemon W)
        → (verify_and_mount os config apex mount_point device verify loop d).1.mounted_apexes
          ≡ d.mounted_apexes
    unfolding verify_and_mount
    mounted_apexes-verify_and_mount apex mount_point device verify loop d =
        elim (StatusOr-cases
          (verify_apex_verity os config.debug_allow_bundled_key d.scanned_apex_keys apex d.world)) [
            | inl (verity, e) ↦ ground (
              arith,
              mounted_apexes-mount_on
                  (config.force_dm_verity_on_system
                    || not (is_path_for_builtin_apexes apex.apex_path))
                  apex mount_point device loop verity verify d,
            )
            | inr (error, e) ↦ ground arith
          ]

    mounted_apexes-mount_non_flattened :
        (apex : ApexFile) (mount_point device : Text) (verify : Bool) (d : Daemon W)
        → (mount_non_flattened os config apex mount_point device verify d).1.mounted_apexes
          ≡ d.mounted_apexes
    unfolding mount_non_flattened
    mounted_apexes-mount_non_flattened apex mount_point device verify d =
        let first = mounted_apexes-attempt_loop_device loop_device_setup_attempts apex d in
        let (r, d') = attempt_loop_device os config loop_device_setup_attempts apex d in
        elim (Outcome-cases r) [
          | inl (loop, e) ↦
              ground (
                arith,
                first,
                mounted_apexes-verify_and_mount apex mount_point device verify loop d',
              )
          | inr e ↦ ground (arith, first)
        ]

    mounted_apexes-mount_flattened :
        (apex : ApexFile) (mount_point : Text) (d : Daemon W)
        → (mount_flattened os config apex mount_point d).1.mounted_apexes ≡ d.mounted_apexes
    unfolding mount_flattened
    mounted_apexes-mount_flattened apex mount_point d = ground arith

    pub mounted_apexes-mount_package_impl :
        (apex : ApexFile) (mount_point device : Text) (verify : Bool) (d : Daemon W)
        → (mount_package_impl os config apex mount_point device verify d).1.mounted_apexes
          ≡ d.mounted_apexes
    unfolding mount_package_impl
    mounted_apexes-mount_package_impl apex mount_point device verify d =
        elim (StatusOr-cases (path_exists os mount_point d.world)) [
          | inl (exists, e) ↦
              let d' = (make_mount_point os config exists mount_point d).1 in
              ground (
                arith,
                mounted_apexes-make_mount_point exists mount_point d,
                mounted_apexes-mount_flattened apex mount_point d',
                mounted_apexes-mount_non_flattened apex mount_point device verify d',
              )
          | inr (error, e) ↦ ground arith
        ]

    pub mounted_apexes-run_verify_fn_inside_temp_mount :
        (apex : ApexFile) (verify_fn : Text → Action (Daemon W) (Unit {0})) (d : Daemon W)
        → ((path : Text) (d : Daemon W) → (verify_fn path d).1.mounted_apexes ≡ d.mounted_apexes)
        → (run_verify_fn_inside_temp_mount os config apex verify_fn d).1.mounted_apexes
          ≡ d.mounted_apexes
    unfolding run_verify_fn_inside_temp_mount
    mounted_apexes-run_verify_fn_inside_temp_mount apex verify_fn d h =
        let temp = get_package_mount_point apex.manifest ++ codes ".tmp" in
        let id = get_package_id apex.manifest ++ codes ".tmp" in
        let first = mounted_apexes-mount_package_impl apex temp id true d in
        let (r, d1) = mount_package_impl os config apex temp id true d in
        let d2 = (verify_fn temp d1).1 in
        elim (Outcome-cases r) [
          | inl (mounted, e) ↦ ground (arith, first, h temp d1, mounted_apexes-unmount mounted d2)
          | inr e ↦ ground (arith, first)
        ]
