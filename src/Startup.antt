-- ===== src/Startup.antt =====
-- apexd/apexd.cpp: what apexd does at boot, `onBootstrap` and `onStart`.
pub mod Valid
pub mod Vold
use android_system_apex.Common.{
  ℕ, Bool, true, false, ◌&&◌, Option, none, some, List, [], ◌∷◌, Text, codes, if◌then◌else◌, ltb,
  ◌+◌, StatusOr, ok, fail, Action,
}
use android_system_apex.Common.Effects.{
  ◌>>=◌, ◌>>◌, pure, abort, gets, modify, skip, ignore, try_run, lift_status,
}
use android_system_apex.Os.{Os}
use android_system_apex.Config.{Config}
use android_system_apex.Paths.{
  active_apex_packages_data_dir, apex_package_system_dir, apex_package_builtin_dirs,
}
use android_system_apex.ApexFile.{open_apex, find_apexes}
use android_system_apex.Keys.{collect_apex_keys}
use android_system_apex.Loop.{pre_allocate_loop_devices}
use android_system_apex.Populate.{populate_from_mounts}
use android_system_apex.Activate.{scan_packages_dir_and_activate, is_bootstrap_apex}
use android_system_apex.Rollback.{
  resume_rollback_if_needed, rollback_staged_session_if_any, rollback_active_session_and_reboot,
}
use android_system_apex.Checkpoint.{
  supports_fs_checkpoints, needs_checkpoint, needs_rollback, with_vold,
}
use android_system_apex.Daemon.{Daemon, VoldCheckpoint, call, look, look_status}
use android_system_apex.Lifecycle.{scan_staged_sessions_dir_and_stage}

module _ {W : Type 0} (os : Os W) (config : Config) where
  count_devices : List Text → W → ℕ
  count_devices [] w = 0
  count_devices (path ∷ paths) w =
      let rest = count_devices paths w in
      elim (open_apex os path w) [
        | fail e ↦ rest
        | ok apex ↦
            if apex.is_flattened
            then rest
            else if is_bootstrap_apex apex
            then rest + 2
            else rest + 1
      ]

  allocate_if : Bool → ℕ → Action (Daemon W) (Unit {0})
  allocate_if false size = skip
  allocate_if true size = pre_allocate_loop_devices os size

  -- `preAllocateLoopDevices` of apexd.cpp.
  unfoldable pub pre_allocate_devices : Action (Daemon W) (Unit {0})
  unfolding count_devices allocate_if
  pre_allocate_devices = do
    paths ← look_status (find_apexes os apex_package_builtin_dirs)
    size ← look (count_devices paths)
    allocate_if (ltb 0 size && config.updatable) size

  -- `collectApexKeys`, on the global keys.
  collect_keys : Action (Daemon W) (Unit {0})
  collect_keys d =
      let (st, keys) = collect_apex_keys os d.world d.scanned_apex_keys in
      lift_status (λ _. st) (record d { scanned_apex_keys = keys })

  -- `onBootstrap`: its exit code.
  unfoldable pub on_bootstrap : Action (Daemon W) ℕ
  unfolding collect_keys
  on_bootstrap = do
    modify (λ d. record d { bootstrap = true })
    ignore pre_allocate_devices
    collected ← try_run collect_keys
    elim collected [
      | fail e ↦ pure 1
      | ok _ ↦ do
        scanned ← try_run (scan_packages_dir_and_activate os config apex_package_system_dir)
        pure (elim scanned [ ok _ ↦ 0 | fail e ↦ 1 ])
    ]

  abbrev ok_or : StatusOr Bool → Bool → Bool
  ok_or (fail e) old = old
  ok_or (ok b) old = b

  pub read_mode : Bool → Action (Daemon W) (Unit {0})
  read_mode false = skip
  read_mode true = do
    needs ← try_run (with_vold (λ v. look_status (needs_checkpoint os v)))
    modify (λ d. record d { in_fs_checkpoint_mode = ok_or needs d.in_fs_checkpoint_mode })

  -- The checkpoint service is asked, if there is one.
  pub read_checkpoints : Option VoldCheckpoint → Action (Daemon W) (Unit {0})
  unfolding read_mode
  read_checkpoints none = skip
  read_checkpoints (some service) = do
    modify (λ d. record d { vold_service = some service })
    supports ← try_run (with_vold (λ v. lift_status (λ _. supports_fs_checkpoints os v)))
    modify (λ d. record d { supports_fs_checkpoints = ok_or supports d.supports_fs_checkpoints })
    supported ← gets (λ d. d.supports_fs_checkpoints)
    read_mode supported

  pub rollback_if_needed : Bool → Action (Daemon W) (Unit {0})
  rollback_if_needed false = skip
  rollback_if_needed true = do
    needs ← try_run (with_vold (λ v. look_status (needs_rollback os v)))
    elim (ok_or needs false) [ false ↦ skip | true ↦ ignore (rollback_staged_session_if_any os) ]

  populate : List Text → Action (Daemon W) (Unit {0})
  populate mounts d = elim (populate_from_mounts os d.world mounts d.mounted_apexes) [
    | none ↦ abort d
    | some db ↦ skip (record d { mounted_apexes = db })
  ]

  scan_builtin : List Text → Action (Daemon W) (Unit {0})
  scan_builtin [] = skip
  scan_builtin (dir ∷ dirs) = do
    ignore (scan_packages_dir_and_activate os config dir)
    scan_builtin dirs

  -- `onStart` after its key collection.
  start_activation : List Text → Action (Daemon W) (Unit {0})
  start_activation mounts = do
    populate mounts
    scan_staged_sessions_dir_and_stage os config
    ignore (resume_rollback_if_needed os)
    status ← try_run (scan_packages_dir_and_activate os config active_apex_packages_data_dir)
    elim status [ ok _ ↦ skip | fail e ↦ ignore (rollback_active_session_and_reboot os) ]
    scan_builtin apex_package_builtin_dirs

  -- `onStart`, given the lines of /proc/mounts.
  unfoldable pub on_start : Option VoldCheckpoint → List Text → Action (Daemon W) (Unit {0})
  unfolding read_checkpoints rollback_if_needed populate scan_builtin start_activation collect_keys
  on_start checkpoint_service mounts = do
    call (os.set_property (codes "apexd.status") (codes "starting"))
    read_checkpoints checkpoint_service
    supported ← gets (λ d. d.supports_fs_checkpoints)
    rollback_if_needed supported
    collected ← try_run collect_keys
    elim collected [ fail e ↦ skip | ok _ ↦ start_activation mounts ]
