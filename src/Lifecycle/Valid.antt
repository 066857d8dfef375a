-- ===== src/Lifecycle/Valid.antt =====
-- apexd/apexd.cpp: the life of a staged session, against the invariant of the database of mounted
-- packages.
use android_system_apex.Common.{
  Bool, true, false, ◌≡◌, refl, inl, inr, List, [], ◌∷◌, ℤ, arith, StatusOr-cases, Outcome-cases,
  Option-cases,
}
use android_system_apex.Os.{Os}
use android_system_apex.Config.{Config}
use android_system_apex.SessionState.{
  SessionState, verified, staged, activated, activation_failed, succeeded,
}
use android_system_apex.Session.{
  get_session, get_sessions_in_state, create_session, set_child_session_ids, set_build_fingerprint,
}
use android_system_apex.Session.Frame.{
  mounted_apexes-create_session, mounted_apexes-update_state_and_commit,
}
use android_system_apex.Database.Invariant.{IsValid}
use android_system_apex.Checkpoint.{start_checkpoint as start_vold_checkpoint}
use android_system_apex.Hooks.{pre_install, post_install, install_hook_packages}
use android_system_apex.Hooks.Valid.{
  pre_postinstall_packages-IsValid, install_hook_packages-IsValid,
}
use android_system_apex.Staging.{verify_session_dir}
use android_system_apex.Staging.Frame.{
  mounted_apexes-verify_session_dir, mounted_apexes-stage_packages,
}
use android_system_apex.Rollback.{clear_sessions, delete_backup}
use android_system_apex.Rollback.Frame.{
  mounted_apexes-clear_sessions, mounted_apexes-delete_backup,
  mounted_apexes-backup_active_packages,
}
use android_system_apex.Daemon.{Daemon}
use android_system_apex.Mount.Valid.{moved}
use android_system_apex.Lifecycle.{
  build_fingerprint_sysprop, mark_ready, mark_staged_session_ready, mark_successful,
  mark_staged_session_successful, verify_ids, start_checkpoint, backup_if, packages_to_submit,
  write_verified, submit_staged_session, ids_to_scan, dirs_to_scan, find_staged, activate_session,
  stage_session, stage_each, scan_staged_sessions_dir_and_stage,
}

module _ {W : Type 0} (os : Os W) where
  mounted_apexes-mark_ready :
      (s : SessionState) (d : Daemon W) → (mark_ready os s d).1.mounted_apexes ≡ d.mounted_apexes
  unfolding mark_ready
  mounted_apexes-mark_ready s d =
      ground (arith, mounted_apexes-update_state_and_commit os s staged d)

  pub mounted_apexes-mark_staged_session_ready :
      (session_id : ℤ) (d : Daemon W)
      → (mark_staged_session_ready os session_id d).1.mounted_apexes ≡ d.mounted_apexes
  unfolding mark_staged_session_ready
  mounted_apexes-mark_staged_session_ready session_id d =
      elim (StatusOr-cases (get_session os session_id d.world)) [
        | inl (s, e) ↦ ground (arith, mounted_apexes-mark_ready s d)
        | inr e ↦ ground arith
      ]

  mounted_apexes-mark_successful :
      (s : SessionState) (d : Daemon W)
      → (mark_successful os s d).1.mounted_apexes ≡ d.mounted_apexes
  unfolding mark_successful
  mounted_apexes-mark_successful s d = ground (
    arith,
    mounted_apexes-delete_backup os d,
    mounted_apexes-update_state_and_commit os s succeeded (delete_backup os d).1,
  )

  pub mounted_apexes-mark_staged_session_successful :
      (session_id : ℤ) (d : Daemon W)
      → (mark_staged_session_successful os session_id d).1.mounted_apexes ≡ d.mounted_apexes
  unfolding mark_staged_session_successful
  mounted_apexes-mark_staged_session_successful session_id d =
      elim (StatusOr-cases (get_session os session_id d.world)) [
        | inl (s, e) ↦ ground (arith, mounted_apexes-mark_successful s d)
        | inr e ↦ ground arith
      ]

  module _ (config : Config) where
    mounted_apexes-verify_ids :
        (ids : List ℤ) (d : Daemon W)
        → (verify_ids os config ids d).1.mounted_apexes ≡ d.mounted_apexes
    unfolding verify_ids
    mounted_apexes-verify_ids [] d = refl
    mounted_apexes-verify_ids (session_id ∷ ids) d =
        let d' = (verify_session_dir os config session_id d).1 in
        ground (
          arith,
          mounted_apexes-verify_session_dir os config session_id d,
          mounted_apexes-verify_ids ids d',
        )

    mounted_apexes-start_checkpoint :
        (b : Bool) (d : Daemon W)
        → (start_checkpoint os config b d).1.mounted_apexes ≡ d.mounted_apexes
    unfolding start_checkpoint start_vold_checkpoint
    mounted_apexes-start_checkpoint false d = refl
    mounted_apexes-start_checkpoint true d = elim (Option-cases d.vold_service) [
      | inl e ↦ ground arith
      | inr (v, e) ↦ ground arith
    ]

    mounted_apexes-backup_if :
        (b : Bool) (d : Daemon W) → (backup_if os config b d).1.mounted_apexes ≡ d.mounted_apexes
    unfolding backup_if
    mounted_apexes-backup_if false d = refl
    mounted_apexes-backup_if true d = mounted_apexes-backup_active_packages os d

    packages_to_submit-IsValid :
        (session_id : ℤ) (children : List ℤ) (d : Daemon W)
        → IsValid d.mounted_apexes
        → IsValid (packages_to_submit os config session_id children d).1.mounted_apexes
    unfolding packages_to_submit
    packages_to_submit-IsValid session_id children d v =
        let d1 = (clear_sessions os d).1 in
        let (r, d2) = start_checkpoint os config d1.supports_fs_checkpoints d1 in
        let v1 = moved (mounted_apexes-clear_sessions os d) v in
        let v2 = moved (mounted_apexes-start_checkpoint d1.supports_fs_checkpoints d1) v1 in
        elim (Outcome-cases r) [
          | inr e ↦ ground (arith, v1, v2)
          | inl (b, e) ↦
              let d3 = (backup_if os config b d2).1 in
              let v3 = moved (mounted_apexes-backup_if b d2) v2 in
              let ids = ids_to_scan os config session_id children in
              let (r', d4) = verify_ids os config ids d3 in
              let v4 = moved (mounted_apexes-verify_ids ids d3) v3 in
              elim (Outcome-cases r') [
                | inr e' ↦ ground (arith, v1, v3, v4)
                | inl (apexes, e') ↦ ground (
                  arith,
                  v1,
                  v3,
                  pre_postinstall_packages-IsValid os config pre_install apexes d4 v4,
                )
              ]
        ]

    mounted_apexes-write_verified :
        (session_id : ℤ) (children : List ℤ) (d : Daemon W)
        → (write_verified os config session_id children d).1.mounted_apexes ≡ d.mounted_apexes
    unfolding write_verified
    mounted_apexes-write_verified session_id children d =
        let first = mounted_apexes-create_session os session_id d in
        let (r, d') = create_session os session_id d in
        elim (Outcome-cases r) [
          | inr e ↦ ground (arith, first)
          | inl (s, e) ↦
              let fingerprint = os.get_property build_fingerprint_sysprop d'.world in
              ground (
                arith,
                first,
                mounted_apexes-update_state_and_commit os
                    (set_build_fingerprint fingerprint (set_child_session_ids children s)) verified
                    d',
              )
        ]

    pub submit_staged_session-IsValid :
        (session_id : ℤ) (children : List ℤ) (d : Daemon W)
        → IsValid d.mounted_apexes
        → IsValid (submit_staged_session os config session_id children d).1.mounted_apexes
    unfolding submit_staged_session
    submit_staged_session-IsValid session_id children d v =
        let v1 = packages_to_submit-IsValid session_id children d v in
        let d1 = (packages_to_submit os config session_id children d).1 in
        ground (arith, v1, moved (mounted_apexes-write_verified session_id children d1) v1)

    activate_session-IsValid :
        (s : SessionState) (d : Daemon W)
        → IsValid d.mounted_apexes
        → IsValid (activate_session os config s d).1.mounted_apexes
    unfolding activate_session
    activate_session-IsValid s d v =
        let dirs = dirs_to_scan os config (ids_to_scan os config s.id s.child_session_ids) in
        elim (StatusOr-cases (find_staged os config dirs d.world)) [
          | inr e ↦ ground arith
          | inl (apexes, e) ↦
              let v1 = install_hook_packages-IsValid os config post_install apexes d v in
              let d1 = (install_hook_packages os config post_install apexes d).1 in
              ground (arith, v1, moved (mounted_apexes-stage_packages os config apexes d1) v1)
        ]

    stage_session-IsValid :
        (s : SessionState) (d : Daemon W)
        → IsValid d.mounted_apexes
        → IsValid (stage_session os config s d).1.mounted_apexes
    unfolding stage_session
    stage_session-IsValid s d v =
        let v1 = activate_session-IsValid s d v in
        let d1 = (activate_session os config s d).1 in
        ground (
          arith,
          v1,
          moved (mounted_apexes-update_state_and_commit os s activated d1) v1,
          moved (mounted_apexes-update_state_and_commit os s activation_failed d1) v1,
        )

    stage_each-IsValid :
        (ss : List SessionState) (d : Daemon W)
        → IsValid d.mounted_apexes
        → IsValid (stage_each os config ss d).1.mounted_apexes
    unfolding stage_each
    stage_each-IsValid [] d v = v
    stage_each-IsValid (s ∷ ss) d v =
        let v1 = stage_session-IsValid s d v in
        ground (arith, v1, stage_each-IsValid ss (stage_session os config s d).1 v1)

    pub scan_staged_sessions-IsValid :
        (d : Daemon W)
        → IsValid d.mounted_apexes
        → IsValid (scan_staged_sessions_dir_and_stage os config d).1.mounted_apexes
    unfolding scan_staged_sessions_dir_and_stage
    scan_staged_sessions-IsValid d v =
        stage_each-IsValid (get_sessions_in_state os staged d.world) d v
