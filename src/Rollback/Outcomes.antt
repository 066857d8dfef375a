-- ===== src/Rollback/Outcomes.antt =====
-- The state in which `RollbackActivatedSession` (apexd/apexd.cpp) leaves a session on disk.
use android_system_apex.Common.{
  ◌≡◌, ◌≢◌, List, [], ◌∷◌, Text, for_each, StatusOr-cases, ◌⊎◌, inl, inr, sym, ap, ◌∙◌, subst, true,
  false, arith, Error, done, failed, aborted, Outcome-cases,
}
use android_system_apex.SessionState.{
  SessionState, rollback_in_progress, rolled_back, rollback_failed,
}
use android_system_apex.Os.{Os}
use android_system_apex.Paths.{active_apex_packages_data_dir}
use android_system_apex.ApexFile.{read_dir}
use android_system_apex.Daemon.{Daemon, unlink_file, delete_dir_content}
use android_system_apex.Session.{update_state_and_commit}
use android_system_apex.Session.Active.{KeepsSessions}
use android_system_apex.Session.Commit.{Writes, OnDisk, commit_returns, committed}
use android_system_apex.Rollback.{restore_active, do_rollback, rollback_activated_session}

module _ {W : Type 0} (os : Os W) where
  abbrev in_progress : SessionState → SessionState
  in_progress s = record s { state = rollback_in_progress }

  -- The daemon when the session is marked as being rolled back.
  abbrev pub started : SessionState → Daemon W → Daemon W
  started s d = (update_state_and_commit os s rollback_in_progress d).1

  unlink_each_returns :
      (paths : List Text) (d : Daemon W) → (for_each (unlink_file os) paths d).0 ≢ aborted
  unfolding for_each
  unlink_each_returns [] d h = cc
  unlink_each_returns (path ∷ paths) d h =
      let d' : Daemon W = record d { world = (os.unlink path d.world).1 } in
      ground (arith, unlink_each_returns paths d')

  delete_dir_content_returns :
      (path : Text) (d : Daemon W) → (delete_dir_content os path d).0 ≢ aborted
  unfolding delete_dir_content
  delete_dir_content_returns path d h =
      elim (StatusOr-cases (read_dir os path (λ _. true) d.world)) [
        | inr (e, refused) ↦ ground arith
        | inl (paths, found) ↦ ground (arith, unlink_each_returns paths d)
      ]

  -- Restoring the backup ends in a success or an error.
  pub restore_active_returns : (d : Daemon W) → (restore_active os d).0 ≢ aborted
  unfolding restore_active
  restore_active_returns d h =
      ground (arith, delete_dir_content_returns active_apex_packages_data_dir d)

  restored :
      (s : SessionState) (d : Daemon W) {u : Unit {0}}
      → Writes os
      → d.in_fs_checkpoint_mode ≡ false
      → (restore_active os (started s d)).0 ≡ done u
      → ((rollback_activated_session os s d).0 ≡ done tt)
        × ((rollback_activated_session os s d).1
            ≡ (update_state_and_commit os
                (in_progress s)
                rolled_back
                (restore_active os (started s d)).1).1)
  unfolding rollback_activated_session do_rollback update_state_and_commit
  restored s d writes mode h =
      let d' = (restore_active os (started s d)).1 in
      ground (
        arith,
        commit_returns os s rollback_in_progress d writes,
        commit_returns os (in_progress s) rolled_back d' writes,
      )

  started_mode :
      (s : SessionState) (d : Daemon W)
      → (started s d).in_fs_checkpoint_mode ≡ d.in_fs_checkpoint_mode
  unfolding update_state_and_commit
  started_mode s d = ground arith

  pub do_rollback_failed :
      (s : SessionState) (d : Daemon W) {e : Error}
      → d.in_fs_checkpoint_mode ≡ false
      → (restore_active os d).0 ≡ failed e
      → do_rollback os s d
        ≡ (failed e, (update_state_and_commit os s rollback_failed (restore_active os d).1).1)
  unfolding do_rollback update_state_and_commit
  do_rollback_failed s d mode h = ground arith

  not_restored :
      (s : SessionState) (d x : Daemon W) {e : Error}
      → Writes os
      → d.in_fs_checkpoint_mode ≡ false
      → do_rollback os (in_progress s) (started s d) ≡ (failed e, x)
      → rollback_activated_session os s d ≡ (failed e, x)
  unfolding rollback_activated_session
  not_restored s d x writes mode h =
      let marked = commit_returns os s rollback_in_progress d writes in ground arith

  -- Outside of checkpoint mode, where files can be written and read back: a session whose packages
  -- are restored from the backup is afterwards on disk as rolled back, and the rollback succeeds;
  -- one whose packages are not is on disk as failed to roll back, and the rollback fails with the
  -- same error.
  pub rollback_activated_session_outcome :
      (s : SessionState) (d : Daemon W)
      → KeepsSessions os
      → Writes os
      → d.in_fs_checkpoint_mode ≡ false
      → (((restore_active os (started s d)).0 ≡ done tt)
          × ((rollback_activated_session os s d).0 ≡ done tt)
          × OnDisk os s rolled_back (rollback_activated_session os s d).1)
        ⊎ ((e : Error) × ((restore_active os (started s d)).0 ≡ failed e)
            × ((rollback_activated_session os s d).0 ≡ failed e)
            × OnDisk os s rollback_failed (rollback_activated_session os s d).1)
  rollback_activated_session_outcome s d laws writes mode =
      let d' = (restore_active os (started s d)).1 in
      elim (Outcome-cases (restore_active os (started s d)).0) [
        | inl (u, worked) ↦
            let (r, e) = restored s d writes mode worked in
            inl (
              worked,
              r,
              subst (OnDisk os s rolled_back) (sym e)
                  (committed os (in_progress s) rolled_back d' laws writes),
            )
        | inr (inl (err, fails)) ↦
            let e =
              not_restored s d _ writes mode (
                do_rollback_failed (in_progress s) (started s d) (started_mode s d ∙ mode) fails) in
            inr (
              err,
              fails,
              ap (λ r. r.0) e,
              subst (OnDisk os s rollback_failed) (sym (ap (λ r. r.1) e))
                  (committed os (in_progress s) rollback_failed d' laws writes),
            )
        | inr (inr aborts) ↦ absurd (restore_active_returns (started s d) aborts)
      ]
