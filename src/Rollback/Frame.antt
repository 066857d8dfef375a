-- ===== src/Rollback/Frame.antt =====
-- apexd/apexd.cpp: backing up, rolling back and aborting, beside the database of mounted packages.
use android_system_apex.Common.{
  Bool, true, false, ◌≡◌, refl, inl, inr, Option, none, some, List, [], ◌∷◌, Text, arith,
  StatusOr-cases, Outcome-cases, Option-cases,
}
use android_system_apex.Os.{Os}
use android_system_apex.Paths.{apex_backup_dir}
use android_system_apex.SessionState.{
  SessionState, rollback_in_progress, rolled_back, rollback_failed,
}
use android_system_apex.ApexFile.{open_apex, path_exists}
use android_system_apex.Session.{get_active_session, get_sessions, update_state_and_commit}
use android_system_apex.Session.Frame.{
  mounted_apexes-update_state_and_commit, mounted_apexes-delete_session,
}
use android_system_apex.Checkpoint.{abort_changes}
use android_system_apex.Daemon.{Daemon}
use android_system_apex.Daemon.Frame.{
  mounted_apexes-create_dir_if_needed, mounted_apexes-delete_dir_content,
}
use android_system_apex.Rollback.{
  delete_each, clear_sessions, delete_backup, link_backups, backup_active_packages, restore_active,
  do_rollback, rollback_staged_session, rollback_activated_session, rollback_session,
  resume_rollback, resume_if, resume_rollback_if_needed, abort_session, abort_active_session,
  rollback_if_staged, rollback_staged_session_if_any, rollback_some, rollback_active_session,
  abort_changes_if, rollback_active_session_and_reboot,
}

module _ {W : Type 0} (os : Os W) where
  mounted_apexes-delete_each :
      (ss : List SessionState) (d : Daemon W)
      → (delete_each os ss d).1.mounted_apexes ≡ d.mounted_apexes
  unfolding delete_each
  mounted_apexes-delete_each [] d = refl
  mounted_apexes-delete_each (s ∷ ss) d =
      grind (arith, mounted_apexes-delete_session, mounted_apexes-delete_each ss)

  pub mounted_apexes-clear_sessions :
      (d : Daemon W) → (clear_sessions os d).1.mounted_apexes ≡ d.mounted_apexes
  unfolding clear_sessions
  mounted_apexes-clear_sessions d = mounted_apexes-delete_each (get_sessions os d.world) d

  pub mounted_apexes-delete_backup :
      (d : Daemon W) → (delete_backup os d).1.mounted_apexes ≡ d.mounted_apexes
  unfolding delete_backup
  mounted_apexes-delete_backup d = elim (StatusOr-cases (path_exists os apex_backup_dir d.world)) [
    | inl (b, e) ↦ ground (arith, mounted_apexes-delete_dir_content os apex_backup_dir d)
    | inr e ↦ ground arith
  ]

  mounted_apexes-link_backups :
      (paths : List Text) (d : Daemon W)
      → (link_backups os paths d).1.mounted_apexes ≡ d.mounted_apexes
  unfolding link_backups
  mounted_apexes-link_backups [] d = refl
  mounted_apexes-link_backups (path ∷ paths) d = elim (StatusOr-cases (open_apex os path d.world)) [
    | inl (apex, e) ↦ grind (arith, mounted_apexes-link_backups paths)
    | inr e ↦ ground arith
  ]

  pub mounted_apexes-backup_active_packages :
      (d : Daemon W) → (backup_active_packages os d).1.mounted_apexes ≡ d.mounted_apexes
  unfolding backup_active_packages
  mounted_apexes-backup_active_packages d = grind (
    arith, mounted_apexes-create_dir_if_needed, mounted_apexes-delete_backup,
    mounted_apexes-link_backups, mounted_apexes-delete_dir_content,
  )

  mounted_apexes-restore_active :
      (d : Daemon W) → (restore_active os d).1.mounted_apexes ≡ d.mounted_apexes
  unfolding restore_active
  mounted_apexes-restore_active d = grind (arith, mounted_apexes-delete_dir_content)

  mounted_apexes-do_rollback :
      (s : SessionState) (d : Daemon W) → (do_rollback os s d).1.mounted_apexes ≡ d.mounted_apexes
  unfolding do_rollback
  mounted_apexes-do_rollback s d = ground (
    arith,
    mounted_apexes-restore_active d,
    mounted_apexes-update_state_and_commit os s rollback_failed (restore_active os d).1,
  )

  mounted_apexes-rollback_staged_session :
      (s : SessionState) (d : Daemon W)
      → (rollback_staged_session os s d).1.mounted_apexes ≡ d.mounted_apexes
  unfolding rollback_staged_session
  mounted_apexes-rollback_staged_session s d = grind (arith, mounted_apexes-update_state_and_commit)

  mounted_apexes-rollback_activated_session :
      (s : SessionState) (d : Daemon W)
      → (rollback_activated_session os s d).1.mounted_apexes ≡ d.mounted_apexes
  unfolding rollback_activated_session
  mounted_apexes-rollback_activated_session s d =
      let (r, d') = update_state_and_commit os s rollback_in_progress d in
      elim (Outcome-cases r) [
        | inl (s', e) ↦
            grind (arith, mounted_apexes-update_state_and_commit, mounted_apexes-do_rollback s')
        | inr e ↦ grind (arith, mounted_apexes-update_state_and_commit)
      ]

  mounted_apexes-rollback_session :
      (s : SessionState) (d : Daemon W)
      → (rollback_session os s d).1.mounted_apexes ≡ d.mounted_apexes
  unfolding rollback_session
  mounted_apexes-rollback_session s d = ground (
    arith,
    mounted_apexes-rollback_staged_session s d,
    mounted_apexes-rollback_activated_session s d,
  )

  mounted_apexes-resume_rollback :
      (s : SessionState) (d : Daemon W)
      → (resume_rollback os s d).1.mounted_apexes ≡ d.mounted_apexes
  unfolding resume_rollback
  mounted_apexes-resume_rollback s d =
      let d' = (do_rollback os s d).1 in
      elim (StatusOr-cases (path_exists os apex_backup_dir d.world)) [
        | inl (b, e) ↦ ground (
          arith,
          mounted_apexes-do_rollback s d,
          mounted_apexes-update_state_and_commit os s rolled_back d,
          mounted_apexes-update_state_and_commit os s rolled_back d',
        )
        | inr e ↦ ground arith
      ]

  mounted_apexes-resume_if :
      (s : Option SessionState) (d : Daemon W)
      → (resume_if os s d).1.mounted_apexes ≡ d.mounted_apexes
  unfolding resume_if
  mounted_apexes-resume_if none d = refl
  mounted_apexes-resume_if (some s) d = ground (arith, mounted_apexes-resume_rollback s d)

  mounted_apexes-abort_session :
      (s : Option SessionState) (d : Daemon W)
      → (abort_session os s d).1.mounted_apexes ≡ d.mounted_apexes
  unfolding abort_session
  mounted_apexes-abort_session none d = refl
  mounted_apexes-abort_session (some s) d =
      ground
        (arith, mounted_apexes-delete_session os s d, mounted_apexes-rollback_activated_session s d)

  mounted_apexes-rollback_if_staged :
      (s : Option SessionState) (d : Daemon W)
      → (rollback_if_staged os s d).1.mounted_apexes ≡ d.mounted_apexes
  unfolding rollback_if_staged
  mounted_apexes-rollback_if_staged none d = refl
  mounted_apexes-rollback_if_staged (some s) d =
      ground (arith, mounted_apexes-rollback_staged_session s d)

  mounted_apexes-rollback_some :
      (s : Option SessionState) (d : Daemon W)
      → (rollback_some os s d).1.mounted_apexes ≡ d.mounted_apexes
  unfolding rollback_some
  mounted_apexes-rollback_some none d = refl
  mounted_apexes-rollback_some (some s) d = mounted_apexes-rollback_session s d

  mounted_apexes-abort_changes_if :
      (b : Bool) (d : Daemon W) → (abort_changes_if os b d).1.mounted_apexes ≡ d.mounted_apexes
  unfolding abort_changes_if abort_changes
  mounted_apexes-abort_changes_if false d = refl
  mounted_apexes-abort_changes_if true d = elim (Option-cases d.vold_service) [
    | inl e ↦ ground arith
    | inr (v, e) ↦ ground arith
  ]

  pub mounted_apexes-resume_rollback_if_needed :
      (d : Daemon W) → (resume_rollback_if_needed os d).1.mounted_apexes ≡ d.mounted_apexes
  unfolding resume_rollback_if_needed
  mounted_apexes-resume_rollback_if_needed d =
      elim (StatusOr-cases (get_active_session os d.world)) [
        | inl (s, e) ↦ ground (arith, mounted_apexes-resume_if s d)
        | inr e ↦ ground arith
      ]

  pub mounted_apexes-abort_active_session :
      (d : Daemon W) → (abort_active_session os d).1.mounted_apexes ≡ d.mounted_apexes
  unfolding abort_active_session
  mounted_apexes-abort_active_session d = elim (StatusOr-cases (get_active_session os d.world)) [
    | inl (s, e) ↦ ground (arith, mounted_apexes-abort_session s d)
    | inr e ↦ ground arith
  ]

  pub mounted_apexes-rollback_staged_session_if_any :
      (d : Daemon W) → (rollback_staged_session_if_any os d).1.mounted_apexes ≡ d.mounted_apexes
  unfolding rollback_staged_session_if_any
  mounted_apexes-rollback_staged_session_if_any d =
      elim (StatusOr-cases (get_active_session os d.world)) [
        | inl (s, e) ↦ ground (arith, mounted_apexes-rollback_if_staged s d)
        | inr e ↦ ground arith
      ]

  pub mounted_apexes-rollback_active_session :
      (d : Daemon W) → (rollback_active_session os d).1.mounted_apexes ≡ d.mounted_apexes
  unfolding rollback_active_session
  mounted_apexes-rollback_active_session d = elim (StatusOr-cases (get_active_session os d.world)) [
    | inl (s, e) ↦ ground (arith, mounted_apexes-rollback_some s d)
    | inr e ↦ ground arith
  ]

  pub mounted_apexes-rollback_active_session_and_reboot :
      (d : Daemon W) → (rollback_active_session_and_reboot os d).1.mounted_apexes ≡ d.mounted_apexes
  unfolding rollback_active_session_and_reboot
  mounted_apexes-rollback_active_session_and_reboot d =
      grind (arith, mounted_apexes-rollback_active_session, mounted_apexes-abort_changes_if)
