-- ===== src/Session.antt =====
-- apexd/apexd_session.cpp: the sessions on disk. An ApexSession is its SessionState message.
pub mod Frame
pub mod Active
pub mod Commit
use android_system_apex.Common.{
  ◌⊎◌, inl, inr, Bool, true, false, Option, none, some, List, [], ◌∷◌, ◌++◌, Text, codes, ℤ,
  to_string, if◌then◌else◌, Error, cannot_read, cannot_parse, cannot_write, cannot_delete,
  multiple_active, StatusOr, ok, fail, Action,
}
use android_system_apex.Common.Effects.{◌>>=◌, ◌>>◌, pure, try_run}
use android_system_apex.Paths.{apex_data_dir, ◌/+◌}
use android_system_apex.SessionState.{
  State, SessionState, unknown, activation_failed, succeeded, rolled_back, rollback_failed,
  state_eq,
}
use android_system_apex.Os.{Os}
use android_system_apex.ApexFile.{read_dir}
use android_system_apex.Daemon.{Daemon, call_checked, create_dir_if_needed}

abbrev pub apex_sessions_dir : Text
apex_sessions_dir = apex_data_dir ++ codes "/sessions"

abbrev state_file_name : Text
state_file_name = codes "state"

-- `getSessionDir`.
abbrev get_session_dir : ℤ → Text
get_session_dir session_id = apex_sessions_dir /+ to_string session_id

-- `getSessionStateFilePath`.
unfoldable pub get_session_state_file_path : ℤ → Text
get_session_state_file_path session_id = get_session_dir session_id /+ state_file_name

-- `IsFinalized`.
unfoldable pub is_finalized : SessionState → Bool
is_finalized s = elim s.state [
  | succeeded ↦ true
  | activation_failed ↦ true
  | rolled_back ↦ true
  | rollback_failed ↦ true
  | _ ↦ false
]

-- The sessions in a state, `remove_if` of the others.
abbrev in_state : State → List SessionState → List SessionState
in_state state [] = []
in_state state (s ∷ ss) =
    let rest = in_state state ss in if state_eq s.state state then s ∷ rest else rest

-- The loop of `GetActiveSession`.
active_from : Option SessionState → List SessionState → StatusOr (Option SessionState)
active_from ret [] = ok ret
active_from ret (s ∷ ss) =
    let skip = active_from ret ss in
    let take = active_from (some s) ss in
    if is_finalized s then skip else elim ret [ none ↦ take | some _ ↦ fail multiple_active ]

-- `SetChildSessionIds` and `SetBuildFingerprint`.
abbrev pub set_child_session_ids : List ℤ → SessionState → SessionState
set_child_session_ids ids s = record s { child_session_ids = ids }

abbrev pub set_build_fingerprint : Text → SessionState → SessionState
set_build_fingerprint fingerprint s = record s { expected_build_fingerprint = fingerprint }

module _ {W : Type 0} (os : Os W) where
  -- `createSessionDirIfNeeded`. Where a directory cannot be made, the function returns a success:
  -- `StatusOr<std::string>(message)` holds the message as its value.
  unfoldable pub create_session_dir_if_needed : ℤ → Action (Daemon W) (Text ⊎ Error)
  create_session_dir_if_needed session_id = do
    res ← try_run (create_dir_if_needed os apex_sessions_dir 0o700)
    elim res [
      | fail e ↦ pure (inr e)
      | ok _ ↦ do
        let session_dir = get_session_dir session_id
        res' ← try_run (create_dir_if_needed os session_dir 0o700)
        elim res' [ fail e ↦ pure (inr e) | ok _ ↦ pure (inl session_dir) ]
    ]

  -- `CreateSession`.
  unfoldable pub create_session : ℤ → Action (Daemon W) SessionState
  create_session session_id = do
    create_session_dir_if_needed session_id
    pure (record {
      id = session_id;
      state = unknown;
      child_session_ids = [];
      expected_build_fingerprint = [];
    })

  -- `GetSessionFromFile`.
  unfoldable pub get_session_from_file : Text → W → StatusOr SessionState
  get_session_from_file path w = elim (os.read_file path w) [
    | none ↦ fail cannot_read
    | some content ↦ elim (os.parse_session content) [ none ↦ fail cannot_parse | some s ↦ ok s ]
  ]

  -- `GetSession`.
  unfoldable pub get_session : ℤ → W → StatusOr SessionState
  get_session session_id = get_session_from_file (get_session_state_file_path session_id)

  read_sessions : List Text → W → List SessionState
  read_sessions [] w = []
  read_sessions (dir ∷ dirs) w =
      let rest = read_sessions dirs w in
      elim (get_session_from_file (dir /+ state_file_name) w) [ fail e ↦ rest | ok s ↦ s ∷ rest ]

  -- `GetSessions`.
  unfoldable pub get_sessions : W → List SessionState
  unfolding read_sessions
  get_sessions w = elim (read_dir os apex_sessions_dir (λ e. e.is_directory) w) [
    | fail e ↦ []
    | ok dirs ↦ read_sessions dirs w
  ]

  -- `GetSessionsInState`.
  unfoldable pub get_sessions_in_state : State → W → List SessionState
  get_sessions_in_state state w = in_state state (get_sessions w)

  -- `GetActiveSession`.
  unfoldable pub get_active_session : W → StatusOr (Option SessionState)
  unfolding active_from
  get_active_session w = active_from none (get_sessions w)

  -- `UpdateStateAndCommit`: the session with its new state, once that is written.
  unfoldable pub update_state_and_commit : SessionState → State → Action (Daemon W) SessionState
  update_state_and_commit s state = do
    let s' = record s { state = state }
    call_checked (os.write_file (get_session_state_file_path s.id) (os.serialize_session s'))
        cannot_write
    pure s'

  -- `DeleteSession`.
  unfoldable pub delete_session : SessionState → Action (Daemon W) (Unit {0})
  delete_session s = call_checked (os.remove_all (get_session_dir s.id)) cannot_delete
