-- ===== src/Lifecycle/Lifetime.antt =====
-- apexd/apexd.cpp: a session from its submission over markStagedSessionReady to the next boot, whose
-- steps run on the states of different processes that share the file of the session.
use android_system_apex.Common.{
  ◌≡◌, ◌∙◌, refl, ◌⊎◌, List, ok, Error, done, failed, aborted, ℤ, arith, [], ◌∷◌,
}
use android_system_apex.Os.{Os}
use android_system_apex.Config.{Config}
use android_system_apex.SessionState.{
  SessionState, verified, staged, activated, activation_failed, state_eq,
}
use android_system_apex.Session.{get_session, get_sessions_in_state}
use android_system_apex.Session.Active.{KeepsSessions, OnlySession, get_sessions_in_state-only}
use android_system_apex.Session.Commit.{Writes, OnDisk, commit_returns}
use android_system_apex.Daemon.{Daemon}
use android_system_apex.Lifecycle.{
  mark_staged_session_ready, mark_ready, write_verified, activate_session, stage_session,
  stage_each, scan_staged_sessions_dir_and_stage,
}
use android_system_apex.Lifecycle.Submission.{verified_session, fingerprint_at, stored}
use android_system_apex.Lifecycle.Sessions.{stage_session_outcome, mark_staged_session_ready_staged}

module _ {W : Type 0} (os : Os W) (config : Config) where
  -- What the scan of a boot does with its only session.
  abbrev pub Scanned : SessionState → Daemon W → Type 0
  Scanned s d =
      let r = scan_staged_sessions_dir_and_stage os config d in
      (((activate_session os config s d).0 ≡ done tt) × (r.0 ≡ done tt) × OnDisk os s activated r.1)
      ⊎ ((((e : Error) × ((activate_session os config s d).0 ≡ failed e))
            × (r.0 ≡ done tt)
            × OnDisk os s activation_failed r.1)
          ⊎ (((activate_session os config s d).0 ≡ aborted) × (r.0 ≡ aborted)))

  ready_returns :
      (session_id : ℤ) (s : SessionState) (d : Daemon W)
      → Writes os
      → s.state ≡ verified
      → get_session os session_id d.world ≡ ok s
      → (mark_staged_session_ready os session_id d).0 ≡ done tt
  unfolding mark_staged_session_ready mark_ready state_eq
  ready_returns session_id s d writes was found =
      ground (arith, commit_returns os s staged d writes)

  scan-only :
      (s : SessionState) (d : Daemon W)
      → get_sessions_in_state os staged d.world ≡ s ∷ []
      → scan_staged_sessions_dir_and_stage os config d ≡ stage_session os config s d
  unfolding scan_staged_sessions_dir_and_stage stage_each
  scan-only s d one = ground arith

  scanned :
      (s : SessionState) (d : Daemon W)
      → KeepsSessions os
      → Writes os
      → get_sessions_in_state os staged d.world ≡ s ∷ []
      → Scanned s d
  scanned s d laws writes one =
      rw (scan-only s d one) (stage_session_outcome os config s d laws writes)

  -- The session after it was submitted and found ready.
  abbrev pub staged_session : ℤ → List ℤ → Daemon W → SessionState
  staged_session session_id children d =
      record (verified_session session_id children (fingerprint_at os config session_id d)) {
        state = staged;
      }

  -- Where files can be written and read back: when the file of a session is as its submission left
  -- it, markStagedSessionReady succeeds; and when, at the next boot, the file is as that left it and
  -- there is no other session, scanStagedSessionsDirAndStage finds one staged session, the one with
  -- the id, the children and the build of the submission, and when the scan is over that session is
  -- on disk as activated when its packages were staged and as failed when that failed; the scan
  -- aborts when staging aborts.
  pub write_verified_lifetime :
      (session_id : ℤ) (children : List ℤ) (d b1 b2 : Daemon W)
      → KeepsSessions os
      → Writes os
      → get_session os session_id b1.world
        ≡ get_session os session_id (write_verified os config session_id children d).1.world
      → get_session os session_id b2.world
        ≡ get_session os session_id (mark_staged_session_ready os session_id b1).1.world
      → OnlySession os session_id b2.world
      → ((mark_staged_session_ready os session_id b1).0 ≡ done tt)
        × (get_sessions_in_state os staged b2.world ≡ staged_session session_id children d ∷ [])
        × Scanned (staged_session session_id children d) b2
  write_verified_lifetime session_id children d b1 b2 laws writes kept1 kept2 alone =
      let v = verified_session session_id children (fingerprint_at os config session_id d) in
      let s = staged_session session_id children d in
      let found = kept1 ∙ stored os config session_id children d laws writes in
      let works = ready_returns session_id v b1 writes refl found in
      let r = mark_staged_session_ready os session_id b1 in
      let (was, on_disk) =
        mark_staged_session_ready_staged os session_id v b1 r.1 laws refl found
          (λ i. (works i, r.1)) in
      let one = get_sessions_in_state-only os session_id s b2.world alone (kept2 ∙ on_disk) refl in
      (works, one, scanned s b2 laws writes one)
