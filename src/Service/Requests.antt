-- ===== src/Service/Requests.antt =====
-- apexd/apexservice.cpp: the methods of the class ApexService as requests that a thread of the
-- service answers one after the other.
pub mod Valid
use android_system_apex.Common.{List, [], ◌∷◌, Text, ℤ, Action}
use android_system_apex.Common.Effects.{◌>>=◌, ◌>>◌, skip}
use android_system_apex.Os.{Os}
use android_system_apex.Config.{Config}
use android_system_apex.Daemon.{Daemon}
use android_system_apex.Service.Info.{
  get_sessions, get_staged_session_info, get_active_packages, get_active_package, get_all_packages,
}
use android_system_apex.Service.Dump.{dump}
use android_system_apex.Service.Shell.{shell_command}
use android_system_apex.Service.{
  Binder, abort_active_session, rollback_active_session, resume_rollback_if_needed,
  unstage_packages, mark_staged_session_ready, mark_staged_session_successful, stage_packages,
  stage_package, submit_staged_session, activate_package, deactivate_package, preinstall_packages,
  postinstall_packages,
}

-- The methods that are overridden, with their arguments.
pub data Request : Type 0 where
  call_stage_package : Text → Request
  call_stage_packages call_unstage_packages : List Text → Request
  call_submit : ℤ → List ℤ → Request
  call_mark_ready call_mark_successful call_get_session : ℤ → Request
  call_get_sessions call_get_active call_get_all call_dump : Request
  call_activate call_deactivate call_get_package : Text → Request
  call_preinstall call_postinstall : List Text → Request
  call_abort call_rollback call_resume : Request
  call_shell : ℤ → ℤ → ℤ → List Text → Request

module _ {W : Type 0} (os : Os W) (config : Config) (binder : Binder) where
  -- What the answer is, is for the caller: the service goes on.
  abbrev dropped : {A : Type 0} → Action (Daemon W) A → Action (Daemon W) (Unit {0})
  dropped method = do method; skip

  unfoldable pub answer : Request → Action (Daemon W) (Unit {0})
  answer (call_stage_package path) = dropped (stage_package os config path)
  answer (call_stage_packages paths) = dropped (stage_packages os config paths)
  answer (call_unstage_packages paths) = dropped (unstage_packages os paths)
  answer (call_submit session_id children) =
      dropped (submit_staged_session os config binder session_id children)
  answer (call_mark_ready session_id) = dropped (mark_staged_session_ready os session_id)
  answer (call_mark_successful session_id) = dropped (mark_staged_session_successful os session_id)
  answer call_get_sessions = dropped (get_sessions os)
  answer (call_get_session session_id) = dropped (get_staged_session_info os session_id)
  answer (call_activate path) = dropped (activate_package os config path)
  answer (call_deactivate path) = dropped (deactivate_package os config path)
  answer call_get_active = dropped (get_active_packages os binder)
  answer (call_get_package name) = dropped (get_active_package os binder name binder.new_apex_info)
  answer call_get_all = dropped (get_all_packages os binder)
  answer (call_preinstall paths) = dropped (preinstall_packages os config paths)
  answer (call_postinstall paths) = dropped (postinstall_packages os config paths)
  answer call_abort = dropped (abort_active_session os)
  answer call_rollback = dropped (rollback_active_session os)
  answer call_resume = dropped (resume_rollback_if_needed os)
  answer call_dump = dropped (dump os binder)
  answer (call_shell input output errors args) =
      dropped (shell_command os config binder input output errors args)

  unfoldable pub answer_all : List Request → Action (Daemon W) (Unit {0})
  answer_all [] = skip
  answer_all (request ∷ requests) = do answer request; answer_all requests
