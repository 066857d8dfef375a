-- ===== src/Lifecycle/Submission.antt =====
-- What `submitStagedSession` (apexd/apexd.cpp) leaves on disk.
use android_system_apex.Common.{
  ◌≡◌, sym, ap, ◌∙◌, subst, arith, ℤ, List, Text, ok, done, failed, aborted, inl, inr, ◌⊎◌, Error,
  Outcome-cases,
}
use android_system_apex.SessionState.{SessionState, unknown, verified}
use android_system_apex.Os.{Os}
use android_system_apex.Config.{Config}
use android_system_apex.ApexFile.{ApexFile}
use android_system_apex.Daemon.{Daemon}
use android_system_apex.Session.{create_session, get_session, update_state_and_commit}
use android_system_apex.Session.Active.{
  KeepsSessions, create_session_returns, get_session-update_state_and_commit,
}
use android_system_apex.Session.Commit.{Writes, commit_returns}
use android_system_apex.Lifecycle.{
  build_fingerprint_sysprop, packages_to_submit, write_verified, submit_staged_session,
}

-- A session that was verified under a build.
abbrev pub verified_session : ℤ → List ℤ → Text → SessionState
verified_session session_id children fingerprint = record {
  id = session_id;
  state = verified;
  child_session_ids = children;
  expected_build_fingerprint = fingerprint;
}

module _ {W : Type 0} (os : Os W) (config : Config) where
  -- The build that runs when the session is written.
  abbrev pub fingerprint_at : ℤ → Daemon W → Text
  fingerprint_at session_id d =
      os.get_property build_fingerprint_sysprop (create_session os session_id d).1.world

  abbrev new_session : ℤ → List ℤ → Text → SessionState
  new_session session_id children fingerprint =
      record (verified_session session_id children fingerprint) { state = unknown }

  write_verified-stored :
      (session_id : ℤ) (children : List ℤ) (d d' : Daemon W)
      → KeepsSessions os
      → write_verified os config session_id children d ≡ (done tt, d')
      → get_session os session_id d'.world
        ≡ ok (verified_session session_id children (fingerprint_at session_id d))
  unfolding write_verified
  write_verified-stored session_id children d d' laws h =
      let d1 = (create_session os session_id d).1 in
      let s = new_session session_id children (fingerprint_at session_id d) in
      let made = create_session_returns os session_id d in
      elim (Outcome-cases (update_state_and_commit os s verified d1).0) [
        | inl (s', written) ↦
            let e : update_state_and_commit os s verified d1 ≡ (done s', d') = ground arith in
            let (same, stored) =
              get_session-update_state_and_commit os s s' verified d1 d' laws e in
            stored ∙ ap ok same
        | inr (inl (err, refused)) ↦ ground arith
        | inr (inr gone) ↦ ground arith
      ]

  write_verified_returns :
      (session_id : ℤ) (children : List ℤ) (d : Daemon W)
      → Writes os
      → (write_verified os config session_id children d).0 ≡ done tt
  unfolding write_verified
  write_verified_returns session_id children d writes =
      let d1 = (create_session os session_id d).1 in
      let s = new_session session_id children (fingerprint_at session_id d) in
      let made = create_session_returns os session_id d in
      let written = commit_returns os s verified d1 writes in ground arith

  -- The session on disk after its submission, by the daemon on which its packages were found good.
  abbrev pub Submitted : ℤ → List ℤ → Daemon W → Daemon W → Type 0
  Submitted session_id children d1 d' =
      get_session os session_id d'.world
      ≡ ok (verified_session session_id children (fingerprint_at session_id d1))

  after_packages :
      (session_id : ℤ) (children : List ℤ) (d : Daemon W) {apexes : List ApexFile}
      → Writes os
      → (packages_to_submit os config session_id children d).0 ≡ done apexes
      → submit_staged_session os config session_id children d ≡ (
        done apexes,
        (write_verified os config session_id children
            (packages_to_submit os config session_id children d).1).1,
      )
  unfolding submit_staged_session
  after_packages session_id children d writes passed =
      let d1 = (packages_to_submit os config session_id children d).1 in
      let written = write_verified_returns session_id children d1 writes in ground arith

  pub stored :
      (session_id : ℤ) (children : List ℤ) (d : Daemon W)
      → KeepsSessions os
      → Writes os
      → Submitted session_id children d (write_verified os config session_id children d).1
  stored session_id children d laws writes =
      let r = write_verified os config session_id children d in
      write_verified-stored session_id children d r.1 laws
        (λ i. (write_verified_returns session_id children d writes i, r.1))

  -- Where files can be written and read back: when the steps of submitStagedSession up to the
  -- pre-install hooks give packages, it returns them, and GetSession reads a session with the given
  -- id and children that is verified and expects the build that was running; when they fail it fails
  -- with their error and writes no session; and it aborts when they do.
  pub submit_staged_session_outcome :
      (session_id : ℤ) (children : List ℤ) (d : Daemon W)
      → KeepsSessions os
      → Writes os
      → let (o, d1) = packages_to_submit os config session_id children d in
        let r = submit_staged_session os config session_id children d in
        ((apexes : List ApexFile) × (o ≡ done apexes)
          × (r.0 ≡ done apexes)
          × Submitted session_id children d1 r.1)
        ⊎ (((e : Error) × (o ≡ failed e) × (r ≡ (failed e, d1)))
            ⊎ ((o ≡ aborted) × (r ≡ (aborted, d1))))
  unfolding submit_staged_session
  submit_staged_session_outcome session_id children d laws writes =
      let d1 = (packages_to_submit os config session_id children d).1 in
      elim (Outcome-cases (packages_to_submit os config session_id children d).0) [
        | inr (inl (e, refused)) ↦ inr (inl (e, refused, ground arith))
        | inr (inr gone) ↦ inr (inr (gone, ground arith))
        | inl (apexes, passed) ↦
            let whole = after_packages session_id children d writes passed in
            inl (
              apexes,
              passed,
              ap (λ r. r.0) whole,
              subst (λ r. Submitted session_id children d1 r.1) (sym whole)
                  (stored session_id children d1 laws writes),
            )
      ]
