-- ===== src/Service/Sessions.antt =====
-- apexd/apexservice.cpp: an ApexSessionInfo tells the state of its session.
use android_system_apex.Common.{
  ℕ, ◌+◌, ◌≡◌, refl, Bool, true, false, ok, fail, StatusOr-cases, inl, inr, if◌then◌else◌, negsuc,
  List, ℤ, done, Error, ◌⊎◌,
}
use android_system_apex.Os.{Os}
use android_system_apex.ApexInfo.{ApexSessionInfo}
use android_system_apex.SessionState.{
  State, SessionState, unknown, verified, staged, activated, activation_failed, succeeded,
  rollback_in_progress, rolled_back, rollback_failed,
}
use android_system_apex.Session.{get_session}
use android_system_apex.Daemon.{Daemon}
use android_system_apex.Service.{no_exception}
use android_system_apex.Service.Info.{
  clear_session_info, convert_to_apex_session_info, get_staged_session_info,
}

-- The state that the flags of an info tell.
abbrev pub state_of : ApexSessionInfo → State
state_of info =
    if info.is_verified
    then verified
    else if info.is_staged
    then staged
    else if info.is_activated
    then activated
    else if info.is_activation_failed
    then activation_failed
    else if info.is_success
    then succeeded
    else if info.is_rollback_in_progress
    then rollback_in_progress
    else if info.is_rolled_back
    then rolled_back
    else if info.is_rollback_failed
    then rollback_failed
    else unknown

abbrev count : Bool → ℕ
count true = 1
count false = 0

-- How many of the flags are set.
abbrev pub flags_set : ApexSessionInfo → ℕ
flags_set info =
    count info.is_unknown
    + count info.is_verified
    + count info.is_staged
    + count info.is_activated
    + count info.is_rollback_in_progress
    + count info.is_activation_failed
    + count info.is_success
    + count info.is_rolled_back
    + count info.is_rollback_failed

-- An info with exactly one flag, that of a state, and an id.
abbrev pub Tells : ApexSessionInfo → ℤ → State → Type 0
Tells info session_id state =
    (info.session_id ≡ session_id) × (state_of info ≡ state) × (flags_set info ≡ 1)

told :
    (session_id : ℤ) (state : State) (children : List ℤ) (fingerprint : List ℕ)
    → let s : SessionState = record {
      id = session_id;
      state = state;
      child_session_ids = children;
      expected_build_fingerprint = fingerprint;
    } in
      Tells (convert_to_apex_session_info s) session_id state
unfolding convert_to_apex_session_info
told session_id unknown children fingerprint = (refl, refl, refl)
told session_id verified children fingerprint = (refl, refl, refl)
told session_id staged children fingerprint = (refl, refl, refl)
told session_id activated children fingerprint = (refl, refl, refl)
told session_id activation_failed children fingerprint = (refl, refl, refl)
told session_id succeeded children fingerprint = (refl, refl, refl)
told session_id rollback_in_progress children fingerprint = (refl, refl, refl)
told session_id rolled_back children fingerprint = (refl, refl, refl)
told session_id rollback_failed children fingerprint = (refl, refl, refl)

-- getStagedSessionInfo never fails: for a session that GetSession reads, the info has its id and
-- exactly one flag, from which its state can be told; for any other it has the id -1 and the flag
-- of an unknown session.
pub get_staged_session_info-Tells :
    {W : Type 0} (os : Os W) (session_id : ℤ) (d : Daemon W)
    → (info : ApexSessionInfo) × (get_staged_session_info os session_id d
        ≡ (done (no_exception, info), d))
      × (((s : SessionState) × (get_session os session_id d.world ≡ ok s) × Tells info s.id s.state)
          ⊎ ((e : Error) × (get_session os session_id d.world ≡ fail e)
              × Tells info (negsuc 0) unknown))
unfolding get_staged_session_info
get_staged_session_info-Tells os session_id d =
    elim (StatusOr-cases (get_session os session_id d.world)) [
      | inl (s, found) ↦ (
        convert_to_apex_session_info s,
        rw found refl,
        inl (s, found, told s.id s.state s.child_session_ids s.expected_build_fingerprint),
      )
      | inr (e, missing) ↦ (
        record clear_session_info { is_unknown = true },
        rw missing refl,
        inr (e, missing, (refl, refl, refl)),
      )
    ]
