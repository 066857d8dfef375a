-- ===== src/Rollback/Resume.antt =====
-- The state in which `ResumeRollback` (apexd/apexd.cpp) leaves a session whose rollback was cut off.
use android_system_apex.Common.{
  ◌≡◌, inl, inr, sym, ap, subst, true, false, arith, Error, ok, fail, done, failed, Outcome-cases,
  StatusOr-cases, Bool, StatusOr,
}
use android_system_apex.SessionState.{SessionState, rolled_back, rollback_failed}
use android_system_apex.Os.{Os}
use android_system_apex.Paths.{apex_backup_dir}
use android_system_apex.ApexFile.{path_exists}
use android_system_apex.Daemon.{Daemon}
use android_system_apex.Session.{update_state_and_commit}
use android_system_apex.Session.Active.{KeepsSessions}
use android_system_apex.Session.Commit.{Writes, OnDisk, commit_returns, committed}
use android_system_apex.Rollback.{restore_active, do_rollback, resume_rollback}
use android_system_apex.Rollback.Outcomes.{restore_active_returns, do_rollback_failed}

module _ {W : Type 0} (os : Os W) where
  -- What `PathExists` says of the backup.
  abbrev pub backup : Daemon W → StatusOr Bool
  backup d = path_exists os apex_backup_dir d.world

  -- The session is committed as rolled back on a daemon.
  abbrev ends_on : SessionState → Daemon W → Daemon W
  ends_on s d = (update_state_and_commit os s rolled_back d).1

  resume-no_backup :
      (s : SessionState) (d : Daemon W)
      → Writes os
      → backup d ≡ ok false
      → resume_rollback os s d ≡ (done tt, ends_on s d)
  unfolding resume_rollback
  resume-no_backup s d writes none_there =
      let returns = commit_returns os s rolled_back d writes in ground arith

  resume-restored :
      (s : SessionState) (d : Daemon W) {u : Unit {0}}
      → Writes os
      → d.in_fs_checkpoint_mode ≡ false
      → backup d ≡ ok true
      → (restore_active os d).0 ≡ done u
      → resume_rollback os s d ≡ (done tt, ends_on s (restore_active os d).1)
  unfolding resume_rollback do_rollback
  resume-restored s d writes mode there worked =
      let d' = (restore_active os d).1 in
      let returns = commit_returns os s rolled_back d' writes in ground arith

  resume-not_restored :
      (s : SessionState) (d x : Daemon W) {e : Error}
      → backup d ≡ ok true
      → do_rollback os s d ≡ (failed e, x)
      → resume_rollback os s d ≡ (failed e, x)
  unfolding resume_rollback
  resume-not_restored s d x there fails = ground arith

  -- How a resumed rollback ends, by what became of the backup: an error before anything changed,
  -- or a session on disk that is rolled back, or one that failed to roll back and an error.
  pub data Resumed (s : SessionState) (d : Daemon W) : Type 0 where
    unknown_backup :
        {e : Error} → backup d ≡ fail e → resume_rollback os s d ≡ (failed e, d) → Resumed s d
    no_backup :
        backup d ≡ ok false
        → (resume_rollback os s d).0 ≡ done tt
        → OnDisk os s rolled_back (resume_rollback os s d).1
        → Resumed s d
    restored :
        backup d ≡ ok true
        → (restore_active os d).0 ≡ done tt
        → (resume_rollback os s d).0 ≡ done tt
        → OnDisk os s rolled_back (resume_rollback os s d).1
        → Resumed s d
    not_restored :
        {e : Error}
        → backup d ≡ ok true
        → (restore_active os d).0 ≡ failed e
        → (resume_rollback os s d).0 ≡ failed e
        → OnDisk os s rollback_failed (resume_rollback os s d).1
        → Resumed s d

  resume-unknown :
      (s : SessionState) (d : Daemon W) {e : Error}
      → backup d ≡ fail e
      → resume_rollback os s d ≡ (failed e, d)
  unfolding resume_rollback
  resume-unknown s d unknown = ground arith

  rolled_back_on :
      (s : SessionState) (d x : Daemon W)
      → KeepsSessions os
      → Writes os
      → resume_rollback os s d ≡ (done tt, ends_on s x)
      → ((resume_rollback os s d).0 ≡ done tt) × OnDisk os s rolled_back (resume_rollback os s d).1
  rolled_back_on s d x laws writes e = (
    ap (λ r. r.0) e,
    subst (OnDisk os s rolled_back) (sym (ap (λ r. r.1) e))
        (committed os s rolled_back x laws writes),
  )

  with_backup :
      (s : SessionState) (d : Daemon W)
      → KeepsSessions os
      → Writes os
      → d.in_fs_checkpoint_mode ≡ false
      → backup d ≡ ok true
      → Resumed s d
  with_backup s d laws writes mode there =
      let d' = (restore_active os d).1 in
      elim (Outcome-cases (restore_active os d).0) [
        | inl (u, worked) ↦
            let (r, disk) =
              rolled_back_on s d d' laws writes (resume-restored s d writes mode there worked) in
            restored there worked r disk
        | inr (inl (err, fails)) ↦
            let e = resume-not_restored s d _ there (do_rollback_failed os s d mode fails) in
            not_restored there fails (ap (λ r. r.0) e) (
              subst (OnDisk os s rollback_failed) (sym (ap (λ r. r.1) e))
                (committed os s rollback_failed d' laws writes))
        | inr (inr gone) ↦ absurd (restore_active_returns os d gone)
      ]

  -- Outside of checkpoint mode, where files can be written and read back: a resumed rollback whose
  -- backup is there ends with the session on disk as rolled back when the packages are restored,
  -- and as failed to roll back, with the error, when they are not; without a backup the session is
  -- on disk as rolled back; when it is not known whether there is one, nothing changes.
  pub resume_rollback-Resumed :
      (s : SessionState) (d : Daemon W)
      → KeepsSessions os
      → Writes os
      → d.in_fs_checkpoint_mode ≡ false
      → Resumed s d
  resume_rollback-Resumed s d laws writes mode = elim (StatusOr-cases (backup d)) [
    | inr (e, unknown) ↦ unknown_backup unknown (resume-unknown s d unknown)
    | inl (true, there) ↦ with_backup s d laws writes mode there
    | inl (false, none_there) ↦
        let (r, disk) = rolled_back_on s d d laws writes (resume-no_backup s d writes none_there) in
        no_backup none_there r disk
  ]
