-- ===== src/Tests/Service.antt =====
-- Runs of the service, of the program and of the helper processes (apexd/apexservice.cpp,
-- apexd/apexd_prop.cpp, apexd/apexd_prepostinstall.cpp, apexd/apexd_utils.h).
use android_system_apex.Common.{
  ℕ, ◌+◌, ◌≡◌, ◌≢◌, ◌⊎◌, refl, arith, true, false, none, some, [], ◌∷◌, codes, leb, All, Error, ok,
  fail, done, aborted, pos, negsuc, to_string, if◌then◌else◌, text_eq,
}
use android_system_apex.Common.Effects.{skip}
use android_system_apex.Os.{Os}
use android_system_apex.ApexInfo.{ApexSessionInfo}
use android_system_apex.ApexFile.{ApexFile}
use android_system_apex.SessionState.{SessionState, unknown}
use android_system_apex.Session.{get_session}
use android_system_apex.Daemon.{Daemon, VoldCheckpoint}
use android_system_apex.Process.{wait_for_file}
use android_system_apex.Process.Wait.{Sleeps, Waited, wait_for_file-Waited}
use android_system_apex.Hooks.{pre_install}
use android_system_apex.Hooks.Child.{run_fn_install}
use android_system_apex.Hooks.Child.Exec.{
  Ended, Unshares, IsHookOf, private_mounts, run_fn_install-Ended,
}
use android_system_apex.Startup.{read_checkpoints}
use android_system_apex.Startup.Vold.{VoldSafe, read_checkpoints-VoldSafe}
use android_system_apex.Lifecycle.{start_checkpoint}
use android_system_apex.Rollback.{abort_changes_if}
use android_system_apex.Boot.{wait_for_boot_status}
use android_system_apex.Boot.Events.{reaction, wait_for_boot_status-Quiet}
use android_system_apex.Service.{
  Binder, no_exception, ex_security, stage_package, stage_packages, activate_package,
  deactivate_package, preinstall_packages, postinstall_packages, rollback_active_session,
  resume_rollback_if_needed,
}
use android_system_apex.Service.Debug.{debug_methods-Locked}
use android_system_apex.Service.Info.{all_infos, get_staged_session_info}
use android_system_apex.Service.Listing.{Covers, Right, all_infos-Right}
use android_system_apex.Service.Sessions.{Tells, get_staged_session_info-Tells}
use android_system_apex.Service.SessionId.{parse_session_id}
use android_system_apex.Service.SessionId.Laws.{Int32, parse_session_id-to_string}
use android_system_apex.Service.Help.{Printed}
use android_system_apex.Service.Shell.{bad_value, command_of, shell_command}
use android_system_apex.Service.Usage.{OnError, shell_command-misuse}
use android_system_apex.Tests.World.{Files, files_os, set_file}
use android_system_apex.Tests.Sessions.{config}
use android_system_apex.Tests.Data.{no_files, daemon_on, shim_apex}

-- A world with a clock in one of its files.
abbrev time : Files → ℕ
time w = elim (w (codes "clock")) [ none ↦ 0 | some [] ↦ 0 | some (t ∷ rest) ↦ t ]

abbrev tick : ℕ → Files → Files
tick n w = set_file (codes "clock") (some ((time w + n) ∷ [])) w

abbrev clock_os : Os Files
clock_os = record files_os {
  elapsed = λ start w. time w;
  sleep = λ duration w. tick 5 w;
  wait_for_property = λ name value w. (false, tick 30000 w);
  get_property = λ name w. if leb 60000 (time w) then codes "1" else [];
}

clock_os-Sleeps : Sleeps clock_os
unfolding text_eq
clock_os-Sleeps timer w = omega arith

abbrev pub daemon : Daemon Files
daemon = daemon_on no_files

abbrev pub binder : Binder
binder = record {
  bad_type = negsuc 2147483646;
  new_apex_info = record {
    package_name = [];
    package_path = [];
    version_code = pos 0;
    version_name = [];
    is_active = false;
    is_factory = false;
  };
  describe = λ status. [];
  state_name = λ state. [];
}

wait_for_file-Waited_example :
    Waited clock_os no_files
      (codes "/dev/loop-control")
      20
      (wait_for_file clock_os (codes "/dev/loop-control") 20 daemon)
wait_for_file-Waited_example =
    wait_for_file-Waited clock_os (codes "/dev/loop-control") 20 daemon clock_os-Sleeps

run_fn_install-Ended_example :
    Ended
      (λ p.
        Unshares files_os daemon
        × IsHookOf files_os pre_install (codes "/data/a.apex") (private_mounts files_os daemon) p)
      (run_fn_install files_os pre_install (codes "/data/a.apex") [] daemon).0
run_fn_install-Ended_example =
    run_fn_install-Ended files_os pre_install (codes "/data/a.apex") [] daemon

abbrev vold : VoldCheckpoint
vold = record { supports = true }

daemon-VoldSafe : VoldSafe daemon
daemon-VoldSafe = refl

read_checkpoints-VoldSafe_example :
    let after : Daemon Files = (read_checkpoints files_os config (some vold) daemon).1 in
    ((read_checkpoints files_os config (some vold) daemon).0 ≡ done tt)
    × VoldSafe after
    × ((start_checkpoint files_os config after.supports_fs_checkpoints after).0 ≢ aborted)
    × ((abort_changes_if files_os after.in_fs_checkpoint_mode after).0 ≢ aborted)
read_checkpoints-VoldSafe_example =
    read_checkpoints-VoldSafe files_os config (some vold) daemon daemon-VoldSafe

wait_for_boot_status-Quiet_example :
    wait_for_boot_status clock_os 3 skip skip daemon
    ≡ reaction clock_os false skip skip (record daemon { world = tick 30000 (tick 30000 no_files) })
unfolding text_eq
wait_for_boot_status-Quiet_example =
    wait_for_boot_status-Quiet clock_os 1 3 skip skip daemon (omega arith) (refl, refl, tt) refl

debug_methods-Locked_example :
    let path = codes "/data/a.apex" in
    let paths = path ∷ [] in
    (stage_package files_os config path daemon
      ≡ (done (ex_security (codes "stagePackage"), none), daemon))
    × (stage_packages files_os config paths daemon
        ≡ (done (ex_security (codes "stagePackages"), none), daemon))
    × (activate_package files_os config path daemon
        ≡ (done (ex_security (codes "activatePackage"), tt), daemon))
    × (deactivate_package files_os config path daemon
        ≡ (done (ex_security (codes "deactivatePackage"), tt), daemon))
    × (preinstall_packages files_os config paths daemon
        ≡ (done (ex_security (codes "preinstallPackages"), tt), daemon))
    × (postinstall_packages files_os config paths daemon
        ≡ (done (ex_security (codes "postinstallPackages"), tt), daemon))
    × (rollback_active_session files_os daemon
        ≡ (done (ex_security (codes "rollbackActiveSession"), tt), daemon))
    × (resume_rollback_if_needed files_os daemon
        ≡ (done (ex_security (codes "resumeRollbackIfNeeded"), tt), daemon))
debug_methods-Locked_example =
    debug_methods-Locked files_os config (codes "/data/a.apex") (codes "/data/a.apex" ∷ []) daemon
      refl

abbrev updated_apex : ApexFile
updated_apex = record shim_apex { apex_path = codes "/data/apex/active/shim.apex" }

all_infos-Right_example :
    let active = updated_apex ∷ [] in
    let factory = shim_apex ∷ [] in
    All (Right active factory) (all_infos binder active factory)
    × Covers (all_infos binder active factory) active
    × Covers (all_infos binder active factory) factory
all_infos-Right_example = all_infos-Right binder (updated_apex ∷ []) (shim_apex ∷ [])

get_staged_session_info-Tells_example :
    (info : ApexSessionInfo) × (get_staged_session_info files_os (pos 7) daemon
      ≡ (done (no_exception, info), daemon))
    × (((s : SessionState) × (get_session files_os (pos 7) no_files ≡ ok s)
          × Tells info s.id s.state)
        ⊎ ((e : Error) × (get_session files_os (pos 7) no_files ≡ fail e)
            × Tells info (negsuc 0) unknown))
get_staged_session_info-Tells_example = get_staged_session_info-Tells files_os (pos 7) daemon

parse_session_id-to_string_example :
    Int32 (parse_session_id (codes "99999999999")) × (parse_session_id (codes "1543") ≡ pos 1543)
unfolding to_string
parse_session_id-to_string_example =
    parse_session_id-to_string (codes "99999999999") 1543 (omega arith)

shell_command-misuse_example :
    (printed : Printed) × All OnError printed
    × (shell_command files_os config binder
          (pos 0)
          (pos 1)
          (pos 2)
          (codes "activatePackage" ∷ [])
          daemon
        ≡ (done (bad_value, printed), daemon))
unfolding command_of text_eq
shell_command-misuse_example =
    shell_command-misuse files_os config binder (pos 0) (pos 1) (pos 2)
      (codes "activatePackage" ∷ []) daemon refl
