-- ===== src/Session/Frame.antt =====
-- apexd/apexd_session.cpp: sessions on disk, beside the database of mounted packages.
use android_system_apex.Common.{◌≡◌, ℤ, arith}
use android_system_apex.Os.{Os}
use android_system_apex.SessionState.{SessionState, State}
use android_system_apex.Daemon.{Daemon}
use android_system_apex.Daemon.Frame.{mounted_apexes-create_dir_if_needed}
use android_system_apex.Session.{
  create_session_dir_if_needed, create_session, update_state_and_commit, delete_session,
}

module _ {W : Type 0} (os : Os W) where
  mounted_apexes-create_session_dir :
      (session_id : ℤ) (d : Daemon W)
      → (create_session_dir_if_needed os session_id d).1.mounted_apexes ≡ d.mounted_apexes
  unfolding create_session_dir_if_needed
  mounted_apexes-create_session_dir session_id d =
      grind (arith, mounted_apexes-create_dir_if_needed)

  pub mounted_apexes-create_session :
      (session_id : ℤ) (d : Daemon W)
      → (create_session os session_id d).1.mounted_apexes ≡ d.mounted_apexes
  unfolding create_session
  mounted_apexes-create_session session_id d = grind (arith, mounted_apexes-create_session_dir)

  pub mounted_apexes-update_state_and_commit :
      (s : SessionState) (state : State) (d : Daemon W)
      → (update_state_and_commit os s state d).1.mounted_apexes ≡ d.mounted_apexes
  unfolding update_state_and_commit
  mounted_apexes-update_state_and_commit s state d = ground arith

  pub mounted_apexes-delete_session :
      (s : SessionState) (d : Daemon W)
      → (delete_session os s d).1.mounted_apexes ≡ d.mounted_apexes
  unfolding delete_session
  mounted_apexes-delete_session s d = ground arith
