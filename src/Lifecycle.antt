-- ===== src/Lifecycle.antt =====
-- apexd/apexd.cpp: a staged session from its submission to its success.
pub mod Lifetime
pub mod Valid
pub mod Sessions
pub mod Submission
use android_system_apex.Common.{
  Bool, true, false, not, List, [], ◌∷◌, ◌++◌, Text, codes, text_eq, ℤ, to_string, invalid_state,
  activation_failed as activation_error, more_than_one_apex, ◌+◌, cannot_read, StatusOr, ok, fail,
  is_ok, Action,
}
use android_system_apex.Common.Effects.{
  ◌>>=◌, ◌>>◌, pure, raise, gets, ensure, skip, ignore, try_run,
}
use android_system_apex.Os.{Os}
use android_system_apex.Config.{Config, num_retries_when_checkpointing_enabled}
use android_system_apex.Paths.{staged_sessions_dir, ◌/+◌}
use android_system_apex.SessionState.{
  SessionState, verified, staged, activated, activation_failed, succeeded, state_eq,
}
use android_system_apex.ApexFile.{ApexFile, find_apex_files_by_name}
use android_system_apex.Session.{
  get_session, get_sessions_in_state, create_session, update_state_and_commit,
  set_child_session_ids, set_build_fingerprint,
}
use android_system_apex.Checkpoint.{start_checkpoint as start_vold_checkpoint, with_vold}
use android_system_apex.Hooks.{
  pre_install, post_install, pre_postinstall_packages, install_hook_packages,
}
use android_system_apex.Staging.{verify_session_dir, stage_packages}
use android_system_apex.Rollback.{clear_sessions, delete_backup, backup_active_packages}
use android_system_apex.Daemon.{Daemon, call, look, look_status}

abbrev pub build_fingerprint_sysprop : Text
build_fingerprint_sysprop = codes "ro.build.fingerprint"

module _ {W : Type 0} (os : Os W) where
  mark_ready : SessionState → Action (Daemon W) (Unit {0})
  mark_ready s = elim (state_eq s.state staged) [
    | true ↦ skip
    | false ↦ elim (state_eq s.state verified) [
      | true ↦ do update_state_and_commit os s staged; skip
      | false ↦ raise invalid_state
    ]
  ]

  -- `markStagedSessionReady`.
  unfoldable pub mark_staged_session_ready : ℤ → Action (Daemon W) (Unit {0})
  unfolding mark_ready
  mark_staged_session_ready session_id = do
    session ← look_status (get_session os session_id)
    mark_ready session

  mark_successful : SessionState → Action (Daemon W) (Unit {0})
  mark_successful s = elim (state_eq s.state succeeded) [
    | true ↦ skip
    | false ↦ elim (state_eq s.state activated) [
      | true ↦ do delete_backup os; update_state_and_commit os s succeeded; skip
      | false ↦ raise invalid_state
    ]
  ]

  -- `markStagedSessionSuccessful`.
  unfoldable pub mark_staged_session_successful : ℤ → Action (Daemon W) (Unit {0})
  unfolding mark_successful
  mark_staged_session_successful session_id = do
    session ← look_status (get_session os session_id)
    mark_successful session

  -- `onAllPackagesReady`.
  unfoldable pub on_all_packages_ready : Action (Daemon W) (Unit {0})
  on_all_packages_ready = do call (os.set_property (codes "apexd.status") (codes "ready")); skip

  module _ (config : Config) where
    verify_ids : List ℤ → Action (Daemon W) (List ApexFile)
    verify_ids [] = pure []
    verify_ids (session_id ∷ ids) = do
      apex ← verify_session_dir os config session_id
      apexes ← verify_ids ids
      pure (apex ∷ apexes)

    -- Whether a backup is needed: not when a checkpoint could be started.
    unfoldable pub start_checkpoint : Bool → Action (Daemon W) Bool
    start_checkpoint false = pure true
    start_checkpoint true = do
      started ←
          try_run
            (with_vold (λ v. start_vold_checkpoint os v num_retries_when_checkpointing_enabled))
      pure (not (is_ok started))

    backup_if : Bool → Action (Daemon W) (Unit {0})
    backup_if false = skip
    backup_if true = backup_active_packages os

    abbrev pub ids_to_scan : ℤ → List ℤ → List ℤ
    ids_to_scan session_id [] = session_id ∷ []
    ids_to_scan session_id (child ∷ children) = child ∷ children

    -- Verified packages, and the backup or checkpoint before: `submitStagedSession` up to its
    -- new session.
    pub packages_to_submit : ℤ → List ℤ → Action (Daemon W) (List ApexFile)
    unfolding verify_ids start_checkpoint backup_if
    packages_to_submit session_id child_session_ids = do
      clear_sessions os
      checkpoints ← gets (λ d. d.supports_fs_checkpoints)
      needs_backup ← start_checkpoint checkpoints
      backup_if needs_backup
      apexes ← verify_ids (ids_to_scan session_id child_session_ids)
      pre_postinstall_packages os config pre_install apexes
      pure apexes

    -- The new session, as `submitStagedSession` writes it.
    pub write_verified : ℤ → List ℤ → Action (Daemon W) (Unit {0})
    write_verified session_id child_session_ids = do
      session ← create_session os session_id
      fingerprint ← look (os.get_property build_fingerprint_sysprop)
      update_state_and_commit os
          (set_build_fingerprint fingerprint (set_child_session_ids child_session_ids session))
          verified
      skip

    -- `submitStagedSession`.
    unfoldable pub submit_staged_session : ℤ → List ℤ → Action (Daemon W) (List ApexFile)
    unfolding packages_to_submit write_verified
    submit_staged_session session_id child_session_ids = do
      apexes ← packages_to_submit session_id child_session_ids
      write_verified session_id child_session_ids
      pure apexes

    dirs_to_scan : List ℤ → List Text
    dirs_to_scan [] = []
    dirs_to_scan (session_id ∷ ids) =
        (staged_sessions_dir /+ (codes "session_" ++ to_string session_id)) ∷ dirs_to_scan ids

    abbrev one_apex : List Text → StatusOr Text
    one_apex [] = fail cannot_read
    one_apex (apex ∷ []) = ok apex
    one_apex (apex ∷ other ∷ more) = fail more_than_one_apex

    -- One package in each directory, or the scan fails.
    find_staged : List Text → W → StatusOr (List Text)
    find_staged [] w = ok []
    find_staged (dir ∷ dirs) w = elim (find_apex_files_by_name os dir false w) [
      | fail e ↦ fail e
      | ok scan ↦ elim (one_apex scan) [
        | fail e ↦ fail e
        | ok apex ↦ elim (find_staged dirs w) [ fail e ↦ fail e | ok apexes ↦ ok (apex ∷ apexes) ]
      ]
    ]

    -- What the loop of `scanStagedSessionsDirAndStage` does to a session under its scope guard.
    pub activate_session : SessionState → Action (Daemon W) (Unit {0})
    activate_session session = do
      fingerprint ← look (os.get_property build_fingerprint_sysprop)
      ensure (text_eq session.expected_build_fingerprint fingerprint) activation_error
      apexes ←
          look_status
            (find_staged (dirs_to_scan (ids_to_scan session.id session.child_session_ids)))
      install_hook_packages os config post_install apexes
      stage_packages os config apexes

    -- One round of the loop: a session that is not activated is marked as failed.
    unfoldable pub stage_session : SessionState → Action (Daemon W) (Unit {0})
    unfolding dirs_to_scan find_staged activate_session
    stage_session session = do
      result ← try_run (activate_session session)
      elim result [
        | ok _ ↦ ignore (update_state_and_commit os session activated)
        | fail e ↦ ignore (update_state_and_commit os session activation_failed)
      ]

    stage_each : List SessionState → Action (Daemon W) (Unit {0})
    stage_each [] = skip
    stage_each (s ∷ ss) = do stage_session s; stage_each ss

    -- `scanStagedSessionsDirAndStage`.
    unfoldable pub scan_staged_sessions_dir_and_stage : Action (Daemon W) (Unit {0})
    unfolding stage_each
    scan_staged_sessions_dir_and_stage = do
      staged_sessions ← look (get_sessions_in_state os staged)
      stage_each staged_sessions
