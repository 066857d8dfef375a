-- ===== src/Main.antt =====
-- apexd/apexd_main.cpp: the program, from its command line on.
pub mod Valid
pub mod Running
use android_system_apex.Common.{
  ℕ, true, false, Option, none, some, List, [], ◌∷◌, Text, codes, text_eq, if◌then◌else◌, StatusOr,
  ok, fail, Action,
}
use android_system_apex.Common.Effects.{◌>>=◌, ◌>>◌, pure, abort}
use android_system_apex.Os.{Os}
use android_system_apex.Config.{Config}
use android_system_apex.Daemon.{Daemon, VoldCheckpoint, call, look}
use android_system_apex.Checkpoint.{create}
use android_system_apex.Hooks.{Hook, pre_install, post_install}
use android_system_apex.Hooks.Child.{ChildEnd, exited, run_fn_install}
use android_system_apex.Activate.Dangling.{unmount_dangling_mounts}
use android_system_apex.Rollback.{rollback_active_session_and_reboot}
use android_system_apex.Lifecycle.{on_all_packages_ready}
use android_system_apex.Startup.{on_bootstrap, on_start}
use android_system_apex.Boot.{wait_for_boot_status}

abbrev apex_service_name : Text
apex_service_name = codes "apexservice"

-- `vold_service`: null where there is none.
abbrev pub service_of : StatusOr VoldCheckpoint → Option VoldCheckpoint
service_of (fail e) = none
service_of (ok v) = some v

-- How the program ends: the end of the process, or `none` while it still waits for the boot.
module _ {W : Type 0} (os : Os W) (config : Config) where
  -- `RunPreInstall` and `RunPostInstall`. A missing path is a null pointer that is read.
  run_hook_process : Hook → List Text → Action (Daemon W) ChildEnd
  run_hook_process hook [] = abort
  run_hook_process hook (path ∷ paths) = run_fn_install os hook path paths

  -- `HandleSubcommand`, over the words of the command line from the first argument on.
  unfoldable pub handle_subcommand : Text → List Text → Action (Daemon W) ChildEnd
  unfolding run_hook_process
  handle_subcommand cmd paths =
      if text_eq (codes "--pre-install") cmd
      then run_hook_process pre_install paths
      else if text_eq (codes "--post-install") cmd
      then run_hook_process post_install paths
      else if text_eq (codes "--bootstrap") cmd
      then (do code ← on_bootstrap os config; pure (exited code))
      else pure (exited 1)

  -- `CreateAndRegisterService`, `StartThreadPool` and `JoinThreadPool`.
  abbrev create_and_register_service : Action (Daemon W) (Unit {0})
  create_and_register_service = call (λ w. (tt, os.add_service apex_service_name w))

  abbrev start_thread_pool : Action (Daemon W) (Unit {0})
  start_thread_pool = call (λ w. (tt, os.start_threads w))

  abbrev join_thread_pool : Action (Daemon W) (Unit {0})
  join_thread_pool = call (λ w. (tt, os.join_threads w))

  -- The daemon: `main` without arguments, for so many rounds of waiting for the boot.
  pub run_daemon : ℕ → List Text → Action (Daemon W) (Option ChildEnd)
  run_daemon rounds mounts = do
    vold ← look (create os)
    on_start os config (service_of vold) mounts
    create_and_register_service
    start_thread_pool
    on_all_packages_ready os
    returned ←
        wait_for_boot_status os rounds (rollback_active_session_and_reboot os)
          (unmount_dangling_mounts os)
    elim returned [ false ↦ pure none | true ↦ do join_thread_pool; pure (some (exited 1)) ]

  -- `main`, over the arguments after the name of the program and the lines of /proc/mounts.
  unfoldable pub main : ℕ → List Text → List Text → Action (Daemon W) (Option ChildEnd)
  unfolding run_daemon
  main rounds mounts [] = run_daemon rounds mounts
  main rounds mounts (cmd ∷ paths) = do end ← handle_subcommand cmd paths; pure (some end)
