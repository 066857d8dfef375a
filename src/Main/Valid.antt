-- ===== src/Main/Valid.antt =====
-- apexd/apexd_main.cpp: the program, from its command line on, and its database of mounted packages.
use android_system_apex.Common.{ℕ, List, [], ◌∷◌, Text, arith}
use android_system_apex.Os.{Os}
use android_system_apex.Config.{Config}
use android_system_apex.Database.Invariant.{IsValid}
use android_system_apex.Daemon.{Daemon}
use android_system_apex.Mount.Valid.{moved}
use android_system_apex.Hooks.{Hook, pre_install, post_install}
use android_system_apex.Hooks.Child.Frame.{mounted_apexes-run_fn_install}
use android_system_apex.Checkpoint.{create}
use android_system_apex.Activate.Dangling.{unmount_dangling_mounts, unmount_dangling_mounts-IsValid}
use android_system_apex.Rollback.{rollback_active_session_and_reboot}
use android_system_apex.Rollback.Frame.{mounted_apexes-rollback_active_session_and_reboot}
use android_system_apex.Lifecycle.{on_all_packages_ready}
use android_system_apex.Startup.{on_start}
use android_system_apex.Startup.Valid.{on_bootstrap-IsValid, on_start-IsValid}
use android_system_apex.Boot.Valid.{wait_for_boot_status-IsValid}
use android_system_apex.Main.{
  service_of, run_hook_process, handle_subcommand, run_daemon, main, apex_service_name,
}

module _ {W : Type 0} (os : Os W) (config : Config) where
  run_hook_process-IsValid :
      (hook : Hook) (paths : List Text) (d : Daemon W)
      → IsValid d.mounted_apexes
      → IsValid (run_hook_process os config hook paths d).1.mounted_apexes
  unfolding run_hook_process
  run_hook_process-IsValid hook [] d v = v
  run_hook_process-IsValid hook (path ∷ paths) d v =
      moved (mounted_apexes-run_fn_install os hook path paths d) v

  handle_subcommand-IsValid :
      (cmd : Text) (paths : List Text) (d : Daemon W)
      → IsValid d.mounted_apexes
      → IsValid (handle_subcommand os config cmd paths d).1.mounted_apexes
  unfolding handle_subcommand
  handle_subcommand-IsValid cmd paths d v = ground (
    arith,
    run_hook_process-IsValid pre_install paths d v,
    run_hook_process-IsValid post_install paths d v,
    on_bootstrap-IsValid os config d v,
  )

  run_daemon-IsValid :
      (rounds : ℕ) (mounts : List Text) (d : Daemon W)
      → IsValid d.mounted_apexes
      → IsValid (run_daemon os config rounds mounts d).1.mounted_apexes
  unfolding run_daemon on_all_packages_ready
  run_daemon-IsValid rounds mounts d v =
      let service = service_of (create os d.world) in
      let (r, d1) = on_start os config service mounts d in
      let v1 = on_start-IsValid os config service mounts d v in
      let w = os.start_threads (os.add_service apex_service_name d1.world) in
      let d2 = (on_all_packages_ready os (record d1 { world = w })).1 in
      let v2 : IsValid d2.mounted_apexes = v1 in
      ground (
        arith,
        v1,
        v2,
        wait_for_boot_status-IsValid os (rollback_active_session_and_reboot os)
            (unmount_dangling_mounts os)
            (λ d' v'. moved (mounted_apexes-rollback_active_session_and_reboot os d') v')
            (unmount_dangling_mounts-IsValid os) rounds d2 v2,
      )

  -- Whatever the command line, the mounts, the files and the kernel are, the program keeps a valid
  -- database valid, whether it returns, fails, aborts or is still waiting for the boot.
  pub main-IsValid :
      (rounds : ℕ) (mounts args : List Text) (d : Daemon W)
      → IsValid d.mounted_apexes
      → IsValid (main os config rounds mounts args d).1.mounted_apexes
  unfolding main
  main-IsValid rounds mounts [] d v = run_daemon-IsValid rounds mounts d v
  main-IsValid rounds mounts (cmd ∷ paths) d v =
      ground (arith, handle_subcommand-IsValid cmd paths d v)
