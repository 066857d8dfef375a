-- ===== src/Session/Active.antt =====
-- `GetActiveSession` and `UpdateStateAndCommit` of apexd/apexd_session.cpp.
use android_system_apex.Common.{
  ℕ, ◌≡◌, ◌≢◌, refl, true, false, Option, none, some, List, [], ◌∷◌, arith, Text, ℤ, if◌then◌else◌,
  multiple_active, StatusOr, ok, fail, done, aborted,
}
use android_system_apex.SessionState.{State, SessionState, unknown, staged, state_eq}
use android_system_apex.Os.{Os}
use android_system_apex.ApexFile.{read_dir, filter_paths}
use android_system_apex.Daemon.{Daemon, create_dir_if_needed}
use android_system_apex.Session.{
  is_finalized, active_from, get_sessions, get_active_session, get_session, get_session_from_file,
  get_session_state_file_path, update_state_and_commit, create_session,
  create_session_dir_if_needed, apex_sessions_dir, get_session_dir, get_sessions_in_state,
  read_sessions,
}

-- The sessions that are not finalized, in order.
unfoldable pub unfinished : List SessionState → List SessionState
unfinished [] = []
unfinished (s ∷ ss) = let rest = unfinished ss in if is_finalized s then rest else s ∷ rest

-- None, the only one, or an error.
abbrev pub only_one : List SessionState → StatusOr (Option SessionState)
only_one [] = ok none
only_one (s ∷ []) = ok (some s)
only_one (s ∷ t ∷ more) = fail multiple_active

active_from-some :
    (s : SessionState) (ss : List SessionState)
    → active_from (some s) ss ≡ only_one (s ∷ unfinished ss)
unfolding active_from unfinished
active_from-some s [] = refl
active_from-some s (t ∷ ss) = ground (arith, active_from-some s ss)

active_from-none : (ss : List SessionState) → active_from none ss ≡ only_one (unfinished ss)
unfolding active_from unfinished
active_from-none [] = refl
active_from-none (t ∷ ss) = ground (arith, active_from-none ss, active_from-some t ss)

module _ {W : Type 0} (os : Os W) where
  -- `GetActiveSession` returns no session when all sessions on disk are finalized, the session
  -- that is not finalized when there is one, and an error when there are two or more.
  pub get_active_session-only_one :
      (w : W) → get_active_session os w ≡ only_one (unfinished (get_sessions os w))
  unfolding get_active_session
  get_active_session-only_one w = active_from-none (get_sessions os w)

  -- A file that was written is read back, and a session that was serialized is parsed back.
  pub record KeepsSessions : Type 0 where
    pub read_written :
        (path content : Text) (w : W)
        → (os.write_file path content w).0 ≡ true
        → os.read_file path (os.write_file path content w).1 ≡ some content
    pub parse_serialized : (s : SessionState) → os.parse_session (os.serialize_session s) ≡ some s

  -- Where a file that was written is read back, and a session that was serialized is parsed back:
  -- once `UpdateStateAndCommit` succeeds it has returned the session with the new state and no
  -- other change, and `GetSession` reads exactly that session back.
  pub get_session-update_state_and_commit :
      (s s' : SessionState) (state : State) (d d' : Daemon W)
      → KeepsSessions
      → update_state_and_commit os s state d ≡ (done s', d')
      → (s' ≡ record s { state = state }) × (get_session os s.id d'.world ≡ ok s')
  unfolding update_state_and_commit get_session get_session_from_file
  get_session-update_state_and_commit s s' state d d' laws h =
      let s'' = record s { state = state } in
      let path = get_session_state_file_path s.id in
      let content = os.serialize_session s'' in
      ground (arith, laws.read_written path content d.world, laws.parse_serialized s'')

  -- The directory of sessions has one entry, the directory of the session.
  abbrev pub OnlySession : ℤ → W → Type 0
  OnlySession session_id w = os.list_dir apex_sessions_dir w ≡ (
    record { path = get_session_dir session_id; is_regular = false; is_directory = true } ∷ [],
    true,
  )

  pub get_sessions_in_state-only :
      (session_id : ℤ) (s : SessionState) (w : W)
      → OnlySession session_id w
      → get_session os session_id w ≡ ok s
      → s.state ≡ staged
      → get_sessions_in_state os staged w ≡ s ∷ []
  unfolding get_sessions_in_state get_sessions read_sessions read_dir filter_paths get_session
      get_session_state_file_path state_eq
  get_sessions_in_state-only session_id s w alone found was = ground arith

  create_dir_if_needed_returns :
      (path : Text) (mode : ℕ) (d : Daemon W) → (create_dir_if_needed os path mode d).0 ≢ aborted
  unfolding create_dir_if_needed
  create_dir_if_needed_returns path mode d h = ground arith

  -- `CreateSession` succeeds whatever becomes of the session's directories, with the session of
  -- the given id in its initial state: a failure to make a directory is not reported.
  pub create_session_returns :
      (session_id : ℤ) (d : Daemon W)
      → (create_session os session_id d).0
        ≡ done (record {
          id = session_id;
          state = unknown;
          child_session_ids = [];
          expected_build_fingerprint = [];
        })
  unfolding create_session create_session_dir_if_needed
  create_session_returns session_id d =
      let (r, d') = create_dir_if_needed os apex_sessions_dir 0o700 d in
      ground (
        arith,
        create_dir_if_needed_returns apex_sessions_dir 0o700 d,
        create_dir_if_needed_returns (get_session_dir session_id) 0o700 d',
      )
