-- ===== src/Lifecycle/Sessions.antt =====
-- What becomes of a session on disk: `markStagedSessionReady` and the loop of
-- `scanStagedSessionsDirAndStage` (apexd/apexd.cpp).
use android_system_apex.Common.{
  ◌≡◌, ◌⊎◌, inl, inr, refl, sym, ap, ◌∙◌, subst, true, arith, ℤ, Error, ok, done, failed, aborted,
  Outcome-cases, Bool-cases,
}
use android_system_apex.SessionState.{
  State, SessionState, state_eq, verified, staged, activated, activation_failed,
}
use android_system_apex.Os.{Os}
use android_system_apex.Config.{Config}
use android_system_apex.Daemon.{Daemon}
use android_system_apex.Session.{get_session, update_state_and_commit}
use android_system_apex.Session.Active.{KeepsSessions, get_session-update_state_and_commit}
use android_system_apex.Session.Commit.{Writes, OnDisk, commit_returns, committed}
use android_system_apex.Lifecycle.{mark_staged_session_ready, activate_session, stage_session}

state_eq-staged : (s : State) → state_eq s staged ≡ true → s ≡ staged
unfolding state_eq
state_eq-staged State.staged h = refl
state_eq-staged State.unknown h = cc
state_eq-staged State.verified h = cc
state_eq-staged State.activated h = cc
state_eq-staged State.activation_failed h = cc
state_eq-staged State.succeeded h = cc
state_eq-staged State.rollback_in_progress h = cc
state_eq-staged State.rolled_back h = cc
state_eq-staged State.rollback_failed h = cc

state_eq-verified : (s : State) → state_eq s verified ≡ true → s ≡ verified
unfolding state_eq
state_eq-verified State.unknown h = cc
state_eq-verified State.verified h = refl
state_eq-verified State.staged h = cc
state_eq-verified State.activated h = cc
state_eq-verified State.activation_failed h = cc
state_eq-verified State.succeeded h = cc
state_eq-verified State.rollback_in_progress h = cc
state_eq-verified State.rolled_back h = cc
state_eq-verified State.rollback_failed h = cc

module _ {W : Type 0} (os : Os W) where
  after_done :
      (config : Config) (s : SessionState) (d : Daemon W) {u : Unit {0}}
      → (activate_session os config s d).0 ≡ done u
      → (stage_session os config s d).1
        ≡ (update_state_and_commit os s activated (activate_session os config s d).1).1
  unfolding stage_session update_state_and_commit
  after_done config s d h = ground arith

  after_failed :
      (config : Config) (s : SessionState) (d : Daemon W) {e : Error}
      → (activate_session os config s d).0 ≡ failed e
      → (stage_session os config s d).1
        ≡ (update_state_and_commit os s activation_failed (activate_session os config s d).1).1
  unfolding stage_session update_state_and_commit
  after_failed config s d h = ground arith

  -- A round of the loop of `scanStagedSessionsDirAndStage`, where files can be written and
  -- read back: a session whose packages are staged is afterwards on disk as activated, one whose
  -- activation fails is on disk as failed, the round reports no error for either, and it aborts
  -- when the activation aborts.
  pub stage_session_outcome :
      (config : Config) (s : SessionState) (d : Daemon W)
      → KeepsSessions os
      → Writes os
      → (((activate_session os config s d).0 ≡ done tt)
          × ((stage_session os config s d).0 ≡ done tt)
          × OnDisk os s activated (stage_session os config s d).1)
        ⊎ ((((e : Error) × ((activate_session os config s d).0 ≡ failed e))
              × ((stage_session os config s d).0 ≡ done tt)
              × OnDisk os s activation_failed (stage_session os config s d).1)
            ⊎ (((activate_session os config s d).0 ≡ aborted)
                × ((stage_session os config s d).0 ≡ aborted)))
  unfolding stage_session
  stage_session_outcome config s d laws writes =
      let d' = (activate_session os config s d).1 in
      elim (Outcome-cases (activate_session os config s d).0) [
        | inl (u, worked) ↦ inl (
          worked,
          ground (arith, commit_returns os s activated d' writes),
          subst (OnDisk os s activated) (sym (after_done config s d worked))
              (committed os s activated d' laws writes),
        )
        | inr (inl (e, fails)) ↦ inr (
            inl (
              (e, fails),
              ground (arith, commit_returns os s activation_failed d' writes),
              subst (OnDisk os s activation_failed) (sym (after_failed config s d fails))
                  (committed os s activation_failed d' laws writes),
            ))
        | inr (inr aborts) ↦ inr (inr (aborts, ground arith))
      ]

  ready-cases :
      (session_id : ℤ) (s : SessionState) (d d' : Daemon W)
      → get_session os session_id d.world ≡ ok s
      → mark_staged_session_ready os session_id d ≡ (done tt, d')
      → ((s.state ≡ verified)
          × ((s' : SessionState) × (update_state_and_commit os s staged d ≡ (done s', d'))))
        ⊎ ((s.state ≡ staged) × (d ≡ d'))
  unfolding mark_staged_session_ready update_state_and_commit
  ready-cases session_id s d d' found h = elim (Bool-cases (state_eq s.state staged)) [
    | inl was ↦ inr (state_eq-staged s.state was, ground arith)
    | inr other ↦ elim (Bool-cases (state_eq s.state verified)) [
      | inl was ↦ inl (state_eq-verified s.state was, (record s { state = staged }, ground arith))
      | inr neither ↦ absurd (ground arith)
    ]
  ]

  -- Where files that are written are read back: when `markStagedSessionReady` succeeds on a session that is stored under its own id, the
  -- session was verified or already staged, and afterwards it is on disk as staged.
  pub mark_staged_session_ready_staged :
      (session_id : ℤ) (s : SessionState) (d d' : Daemon W)
      → KeepsSessions os
      → s.id ≡ session_id
      → get_session os session_id d.world ≡ ok s
      → mark_staged_session_ready os session_id d ≡ (done tt, d')
      → ((s.state ≡ verified) ⊎ (s.state ≡ staged)) × OnDisk os s staged d'
  mark_staged_session_ready_staged session_id s d d' laws own found h =
      elim (ready-cases session_id s d d' found h) [
        | inl (was, (s', commits)) ↦
            let (e, read) = get_session-update_state_and_commit os s s' staged d d' laws commits in
            (inl was, read ∙ ap ok e)
        | inr (was, same) ↦ (
          inr was,
          subst (OnDisk os s staged) same (
              subst (λ i. get_session os i d.world ≡ ok (record s { state = staged })) (sym own)
                (found ∙ ap (λ t. ok (record s { state = t })) was)),
        )
      ]
