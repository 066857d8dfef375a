-- ===== src/Rollback.antt =====
-- apexd/apexd.cpp: the backup of the active packages, and rolling a session back to it.
pub mod Frame
pub mod Outcomes
pub mod Resume
use android_system_apex.Common.{
  Bool, true, false, Option, none, some, List, [], ◌∷◌, ◌++◌, Text, codes, cannot_link,
  cannot_rename, cannot_stat, cannot_chmod, backup_missing, invalid_state, no_active, Action,
}
use android_system_apex.Common.Effects.{◌>>=◌, ◌>>◌, raise, gets, ensure, skip, guarded, ignore}
use android_system_apex.Os.{Os, unreadable}
use android_system_apex.Manifest.{get_package_id}
use android_system_apex.Paths.{
  apex_backup_dir, active_apex_packages_data_dir, apex_package_suffix, ◌/+◌,
}
use android_system_apex.SessionState.{
  SessionState, verified, staged, activated, rollback_in_progress, rolled_back, rollback_failed,
  state_eq,
}
use android_system_apex.ApexFile.{open_apex, find_apex_files_by_name, path_exists}
use android_system_apex.Session.{
  get_active_session, update_state_and_commit, delete_session, get_sessions,
}
use android_system_apex.Checkpoint.{abort_changes, with_vold}
use android_system_apex.Daemon.{
  Daemon, call, call_or, look, look_status, create_dir_if_needed, delete_dir_content,
}

module _ {W : Type 0} (os : Os W) where
  -- `ClearSessions`.
  delete_each : List SessionState → Action (Daemon W) (Unit {0})
  delete_each [] = skip
  delete_each (s ∷ ss) = do delete_session os s; delete_each ss

  unfoldable pub clear_sessions : Action (Daemon W) (Unit {0})
  unfolding delete_each
  clear_sessions = do sessions ← look (get_sessions os); delete_each sessions

  -- `DeleteBackup`.
  unfoldable pub delete_backup : Action (Daemon W) (Unit {0})
  delete_backup = do
    exists ← look_status (path_exists os apex_backup_dir)
    elim exists [ false ↦ skip | true ↦ delete_dir_content os apex_backup_dir ]

  link_backups : List Text → Action (Daemon W) (Unit {0})
  link_backups [] = skip
  link_backups (path ∷ paths) = do
    apex ← look_status (open_apex os path)
    call_or
        (os.link apex.apex_path
          (apex_backup_dir /+ (get_package_id apex.manifest ++ apex_package_suffix)))
        cannot_link
    link_backups paths

  -- `BackupActivePackages`.
  unfoldable pub backup_active_packages : Action (Daemon W) (Unit {0})
  unfolding link_backups
  backup_active_packages = do
    create_dir_if_needed os apex_backup_dir 0o700
    active_exists ← look_status (path_exists os active_apex_packages_data_dir)
    elim active_exists [
      | false ↦ skip
      | true ↦ do
        active_packages ←
            look_status (find_apex_files_by_name os active_apex_packages_data_dir false)
        delete_backup
        guarded (ignore (delete_dir_content os apex_backup_dir)) (link_backups active_packages)
    ]

  -- `DoRollback` under its scope guard. `st_mode & ALLPERMS` is read before the content goes.
  pub restore_active : Action (Daemon W) (Unit {0})
  restore_active = do
    exists ← look_status (path_exists os apex_backup_dir)
    ensure exists backup_missing
    kind ← look (os.stat active_apex_packages_data_dir)
    elim kind [ unreadable e ↦ raise cannot_stat | _ ↦ skip ]
    mode ←
        look (λ w. elim (os.file_status active_apex_packages_data_dir w) [
          | none ↦ 0
          | some (_, m) ↦ m
        ])
    delete_dir_content os active_apex_packages_data_dir
    call_or (os.rename apex_backup_dir active_apex_packages_data_dir) cannot_rename
    call_or (os.chmod active_apex_packages_data_dir mode) cannot_chmod

  -- `DoRollback`.
  unfoldable pub do_rollback : SessionState → Action (Daemon W) (Unit {0})
  unfolding restore_active
  do_rollback session = do
    checkpoint ← gets (λ d. d.in_fs_checkpoint_mode)
    elim checkpoint [
      | true ↦ skip
      | false ↦ guarded (ignore (update_state_and_commit os session rollback_failed)) restore_active
    ]

  -- `RollbackStagedSession`.
  unfoldable pub rollback_staged_session : SessionState → Action (Daemon W) (Unit {0})
  rollback_staged_session session = do update_state_and_commit os session rolled_back; skip

  -- `RollbackActivatedSession`.
  unfoldable pub rollback_activated_session : SessionState → Action (Daemon W) (Unit {0})
  rollback_activated_session session = do
    checkpoint ← gets (λ d. d.in_fs_checkpoint_mode)
    elim checkpoint [
      | true ↦ skip
      | false ↦ do
        session' ← update_state_and_commit os session rollback_in_progress
        do_rollback session'
        ignore (update_state_and_commit os session' rolled_back)
    ]

  -- `RollbackSession`.
  unfoldable pub rollback_session : SessionState → Action (Daemon W) (Unit {0})
  rollback_session session = elim session.state [
    | rollback_in_progress ↦ skip
    | rolled_back ↦ skip
    | staged ↦ rollback_staged_session session
    | activated ↦ rollback_activated_session session
    | _ ↦ raise invalid_state
  ]

  -- `ResumeRollback`.
  unfoldable pub resume_rollback : SessionState → Action (Daemon W) (Unit {0})
  resume_rollback session = do
    exists ← look_status (path_exists os apex_backup_dir)
    elim exists [ false ↦ skip | true ↦ do_rollback session ]
    ignore (update_state_and_commit os session rolled_back)

  resume_if : Option SessionState → Action (Daemon W) (Unit {0})
  resume_if none = skip
  resume_if (some s) = elim (state_eq s.state rollback_in_progress) [
    | true ↦ resume_rollback s
    | false ↦ skip
  ]

  -- `resumeRollbackIfNeeded`.
  unfoldable pub resume_rollback_if_needed : Action (Daemon W) (Unit {0})
  unfolding resume_if
  resume_rollback_if_needed = do session ← look_status (get_active_session os); resume_if session

  abort_session : Option SessionState → Action (Daemon W) (Unit {0})
  abort_session none = skip
  abort_session (some s) = elim s.state [
    | verified ↦ delete_session os s
    | staged ↦ delete_session os s
    | activated ↦ rollback_activated_session s
    | _ ↦ raise invalid_state
  ]

  -- `abortActiveSession`.
  unfoldable pub abort_active_session : Action (Daemon W) (Unit {0})
  unfolding abort_session
  abort_active_session = do session ← look_status (get_active_session os); abort_session session

  rollback_if_staged : Option SessionState → Action (Daemon W) (Unit {0})
  rollback_if_staged none = skip
  rollback_if_staged (some s) = elim (state_eq s.state staged) [
    | true ↦ rollback_staged_session s
    | false ↦ raise invalid_state
  ]

  -- `rollbackStagedSessionIfAny`.
  unfoldable pub rollback_staged_session_if_any : Action (Daemon W) (Unit {0})
  unfolding rollback_if_staged
  rollback_staged_session_if_any = do
    session ← look_status (get_active_session os)
    rollback_if_staged session

  rollback_some : Option SessionState → Action (Daemon W) (Unit {0})
  rollback_some none = raise no_active
  rollback_some (some s) = rollback_session s

  -- `rollbackActiveSession`.
  unfoldable pub rollback_active_session : Action (Daemon W) (Unit {0})
  unfolding rollback_some
  rollback_active_session = do session ← look_status (get_active_session os); rollback_some session

  unfoldable pub abort_changes_if : Bool → Action (Daemon W) (Unit {0})
  abort_changes_if false = skip
  abort_changes_if true =
      ignore (with_vold (λ v. abort_changes os v (codes "apexd_initiated") false))

  -- `rollbackActiveSessionAndReboot`.
  unfoldable pub rollback_active_session_and_reboot : Action (Daemon W) (Unit {0})
  unfolding abort_changes_if
  rollback_active_session_and_reboot = do
    rollback_active_session
    checkpoint ← gets (λ d. d.in_fs_checkpoint_mode)
    abort_changes_if checkpoint
    call (λ w. (tt, os.reboot w))
