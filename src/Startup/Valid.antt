-- ===== src/Startup/Valid.antt =====
-- apexd/apexd.cpp: what apexd does at boot, against the invariant of the database of mounted
-- packages.
use android_system_apex.Common.{
  ℕ, Bool, true, false, ◌&&◌, ◌≡◌, refl, inl, inr, Option, none, some, List, [], ◌∷◌, Text, codes,
  arith, ltb, StatusOr-cases, Option-cases,
}
use android_system_apex.Os.{Os}
use android_system_apex.Config.{Config}
use android_system_apex.Paths.{
  active_apex_packages_data_dir, apex_package_system_dir, apex_package_builtin_dirs,
}
use android_system_apex.ApexFile.{find_apexes}
use android_system_apex.Loop.Frame.{mounted_apexes-pre_allocate_loop_devices}
use android_system_apex.Checkpoint.{needs_rollback}
use android_system_apex.Populate.{populate_from_mounts}
use android_system_apex.Populate.Valid.{populate_from_mounts-IsValid}
use android_system_apex.Activate.{scan_packages_dir_and_activate}
use android_system_apex.Activate.Valid.{scan_packages_dir_and_activate-IsValid}
use android_system_apex.Rollback.{resume_rollback_if_needed, rollback_active_session_and_reboot}
use android_system_apex.Rollback.Frame.{
  mounted_apexes-resume_rollback_if_needed, mounted_apexes-rollback_staged_session_if_any,
  mounted_apexes-rollback_active_session_and_reboot,
}
use android_system_apex.Lifecycle.{scan_staged_sessions_dir_and_stage}
use android_system_apex.Lifecycle.Valid.{scan_staged_sessions-IsValid}
use android_system_apex.Mount.Valid.{moved}
use android_system_apex.Database.Invariant.{IsValid}
use android_system_apex.Daemon.{Daemon, VoldCheckpoint}
use android_system_apex.Startup.{
  count_devices, allocate_if, pre_allocate_devices, collect_keys, on_bootstrap, read_mode,
  read_checkpoints, rollback_if_needed, populate, scan_builtin, start_activation, on_start,
}

module _ {W : Type 0} (os : Os W) (config : Config) where
  mounted_apexes-allocate_if :
      (b : Bool) (n : ℕ) (d : Daemon W)
      → (allocate_if os config b n d).1.mounted_apexes ≡ d.mounted_apexes
  unfolding allocate_if
  mounted_apexes-allocate_if false n d = refl
  mounted_apexes-allocate_if true n d = mounted_apexes-pre_allocate_loop_devices os n d

  mounted_apexes-pre_allocate_devices :
      (d : Daemon W) → (pre_allocate_devices os config d).1.mounted_apexes ≡ d.mounted_apexes
  unfolding pre_allocate_devices
  mounted_apexes-pre_allocate_devices d =
      elim (StatusOr-cases (find_apexes os apex_package_builtin_dirs d.world)) [
        | inl (paths, e) ↦
            let n = count_devices os config paths d.world in
            ground (arith, mounted_apexes-allocate_if (ltb 0 n && config.updatable) n d)
        | inr e ↦ ground arith
      ]

  mounted_apexes-collect_keys :
      (d : Daemon W) → (collect_keys os config d).1.mounted_apexes ≡ d.mounted_apexes
  unfolding collect_keys
  mounted_apexes-collect_keys d = ground arith

  pub on_bootstrap-IsValid :
      (d : Daemon W)
      → IsValid d.mounted_apexes
      → IsValid (on_bootstrap os config d).1.mounted_apexes
  unfolding on_bootstrap
  on_bootstrap-IsValid d v =
      let d0 = record d { bootstrap = true } in
      let d1 = (pre_allocate_devices os config d0).1 in
      let v1 = moved (mounted_apexes-pre_allocate_devices d0) v in
      let d2 = (collect_keys os config d1).1 in
      let v2 = moved (mounted_apexes-collect_keys d1) v1 in
      ground (
        arith,
        v1,
        v2,
        scan_packages_dir_and_activate-IsValid os config apex_package_system_dir d2 v2,
      )

  mounted_apexes-read_mode :
      (b : Bool) (d : Daemon W) → (read_mode os config b d).1.mounted_apexes ≡ d.mounted_apexes
  unfolding read_mode
  mounted_apexes-read_mode false d = refl
  mounted_apexes-read_mode true d = elim (Option-cases d.vold_service) [
    | inl e ↦ ground arith
    | inr (v, e) ↦ ground arith
  ]

  mounted_apexes-read_checkpoints :
      (service : Option VoldCheckpoint) (d : Daemon W)
      → (read_checkpoints os config service d).1.mounted_apexes ≡ d.mounted_apexes
  unfolding read_checkpoints
  mounted_apexes-read_checkpoints none d = refl
  mounted_apexes-read_checkpoints (some service) d = mounted_apexes-read_mode _ _

  mounted_apexes-rollback_if_needed :
      (b : Bool) (d : Daemon W)
      → (rollback_if_needed os config b d).1.mounted_apexes ≡ d.mounted_apexes
  unfolding rollback_if_needed
  mounted_apexes-rollback_if_needed false d = refl
  mounted_apexes-rollback_if_needed true d =
      let same = mounted_apexes-rollback_staged_session_if_any os d in
      elim (Option-cases d.vold_service) [
        | inl e ↦ ground arith
        | inr (v, e) ↦ elim (StatusOr-cases (needs_rollback os v d.world)) [
          | inl (b, e') ↦ ground (arith, same)
          | inr e' ↦ ground arith
        ]
      ]

  populate-IsValid :
      (mounts : List Text) (d : Daemon W)
      → IsValid d.mounted_apexes
      → IsValid (populate os config mounts d).1.mounted_apexes
  unfolding populate
  populate-IsValid mounts d v =
      elim (Option-cases (populate_from_mounts os d.world mounts d.mounted_apexes)) [
        | inl e ↦ ground arith
        | inr (db, e) ↦
            ground (arith, populate_from_mounts-IsValid os d.world mounts d.mounted_apexes db e v)
      ]

  scan_builtin-IsValid :
      (dirs : List Text) (d : Daemon W)
      → IsValid d.mounted_apexes
      → IsValid (scan_builtin os config dirs d).1.mounted_apexes
  unfolding scan_builtin
  scan_builtin-IsValid [] d v = v
  scan_builtin-IsValid (dir ∷ dirs) d v =
      let v1 = scan_packages_dir_and_activate-IsValid os config dir d v in
      ground
        (arith, v1, scan_builtin-IsValid dirs (scan_packages_dir_and_activate os config dir d).1 v1)

  start_activation-IsValid :
      (mounts : List Text) (d : Daemon W)
      → IsValid d.mounted_apexes
      → IsValid (start_activation os config mounts d).1.mounted_apexes
  unfolding start_activation
  start_activation-IsValid mounts d v =
      let d1 = (populate os config mounts d).1 in
      let v1 = populate-IsValid mounts d v in
      let d2 = (scan_staged_sessions_dir_and_stage os config d1).1 in
      let v2 = scan_staged_sessions-IsValid os config d1 v1 in
      let d3 = (resume_rollback_if_needed os d2).1 in
      let v3 = moved (mounted_apexes-resume_rollback_if_needed os d2) v2 in
      let data_dir = active_apex_packages_data_dir in
      let d4 = (scan_packages_dir_and_activate os config data_dir d3).1 in
      let v4 = scan_packages_dir_and_activate-IsValid os config data_dir d3 v3 in
      let d5 = (rollback_active_session_and_reboot os d4).1 in
      let v5 = moved (mounted_apexes-rollback_active_session_and_reboot os d4) v4 in
      ground (
        arith,
        v1,
        v2,
        v3,
        v4,
        v5,
        scan_builtin-IsValid apex_package_builtin_dirs d4 v4,
        scan_builtin-IsValid apex_package_builtin_dirs d5 v5,
      )

  pub on_start-IsValid :
      (service : Option VoldCheckpoint) (mounts : List Text) (d : Daemon W)
      → IsValid d.mounted_apexes
      → IsValid (on_start os config service mounts d).1.mounted_apexes
  unfolding on_start
  on_start-IsValid service mounts d v =
      let status = os.set_property (codes "apexd.status") (codes "starting") d.world in
      let d0 = record d { world = status.1 } in
      let d1 = (read_checkpoints os config service d0).1 in
      let v1 = moved (mounted_apexes-read_checkpoints service d0) v in
      let d2 = (rollback_if_needed os config d1.supports_fs_checkpoints d1).1 in
      let v2 = moved (mounted_apexes-rollback_if_needed d1.supports_fs_checkpoints d1) v1 in
      let d3 = (collect_keys os config d2).1 in
      let v3 = moved (mounted_apexes-collect_keys d2) v2 in
      ground (arith, v1, v2, v3, start_activation-IsValid mounts d3 v3)
