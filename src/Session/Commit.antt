-- ===== src/Session/Commit.antt =====
-- `UpdateStateAndCommit` (apexd/apexd_session.cpp) where files can be written.
use android_system_apex.Common.{◌≡◌, true, arith, Text, ok, done}
use android_system_apex.SessionState.{State, SessionState}
use android_system_apex.Os.{Os}
use android_system_apex.Daemon.{Daemon}
use android_system_apex.Session.{get_session, get_session_state_file_path, update_state_and_commit}
use android_system_apex.Session.Active.{KeepsSessions, get_session-update_state_and_commit}

module _ {W : Type 0} (os : Os W) where
  -- Every write of a file succeeds.
  abbrev pub Writes : Type 0
  Writes = (path content : Text) (w : W) → (os.write_file path content w).0 ≡ true

  -- `UpdateStateAndCommit` succeeds.
  pub commit_returns :
      (s : SessionState) (state : State) (d : Daemon W)
      → Writes
      → (update_state_and_commit os s state d).0 ≡ done (record s { state = state })
  unfolding update_state_and_commit
  commit_returns s state d writes =
      let s' = record s { state = state } in
      ground (arith, writes (get_session_state_file_path s.id) (os.serialize_session s') d.world)

  -- The session with a state is what `GetSession` reads.
  abbrev pub OnDisk : SessionState → State → Daemon W → Type 0
  OnDisk s state d = get_session os s.id d.world ≡ ok (record s { state = state })

  pub committed :
      (s : SessionState) (state : State) (d : Daemon W)
      → KeepsSessions os
      → Writes
      → OnDisk s state (update_state_and_commit os s state d).1
  committed s state d laws writes =
      let r = update_state_and_commit os s state d in
      (get_session-update_state_and_commit os s (record s { state = state }) state d r.1 laws
        (λ i. (commit_returns s state d writes i, r.1))).1
