-- ===== src/Service/Requests/Valid.antt =====
-- apexd/apexservice.cpp: sequences of requests, and the database of mounted packages.
use android_system_apex.Common.{List, [], ◌∷◌, arith}
use android_system_apex.Os.{Os}
use android_system_apex.Config.{Config}
use android_system_apex.Database.Invariant.{IsValid}
use android_system_apex.Daemon.{Daemon}
use android_system_apex.Service.{Binder}
use android_system_apex.Service.Info.{
  get_sessions, get_staged_session_info, get_active_packages, get_active_package, get_all_packages,
}
use android_system_apex.Service.Dump.{dump}
use android_system_apex.Service.Valid.{
  abort_active_session-IsValid, rollback_active_session-IsValid, resume_rollback_if_needed-IsValid,
  unstage_packages-IsValid, mark_staged_session_ready-IsValid,
  mark_staged_session_successful-IsValid, stage_packages-IsValid, stage_package-IsValid,
  submit_session-IsValid, activate-IsValid, deactivate-IsValid, preinstall_packages-IsValid,
  postinstall_packages-IsValid,
}
use android_system_apex.Service.Shell.Valid.{shell_command-IsValid}
use android_system_apex.Service.Requests.{
  Request, call_stage_package, call_stage_packages, call_unstage_packages, call_submit,
  call_mark_ready, call_mark_successful, call_get_session, call_get_sessions, call_get_active,
  call_get_all, call_dump, call_activate, call_deactivate, call_get_package, call_preinstall,
  call_postinstall, call_abort, call_rollback, call_resume, call_shell, answer, answer_all,
}

module _ {W : Type 0} (os : Os W) (config : Config) (binder : Binder) where
  pub answer-IsValid :
      (request : Request) (d : Daemon W)
      → IsValid d.mounted_apexes
      → IsValid (answer os config binder request d).1.mounted_apexes
  unfolding answer get_sessions get_staged_session_info get_active_packages get_active_package
      get_all_packages dump
  answer-IsValid (call_stage_package path) d v =
      ground (arith, stage_package-IsValid os config path d v)
  answer-IsValid (call_stage_packages paths) d v =
      ground (arith, stage_packages-IsValid os config paths d v)
  answer-IsValid (call_unstage_packages paths) d v =
      ground (arith, unstage_packages-IsValid os paths d v)
  answer-IsValid (call_submit session_id children) d v =
      ground (arith, submit_session-IsValid os config binder session_id children d v)
  answer-IsValid (call_mark_ready session_id) d v =
      ground (arith, mark_staged_session_ready-IsValid os session_id d v)
  answer-IsValid (call_mark_successful session_id) d v =
      ground (arith, mark_staged_session_successful-IsValid os session_id d v)
  answer-IsValid call_get_sessions d v = v
  answer-IsValid (call_get_session session_id) d v = v
  answer-IsValid (call_activate path) d v = ground (arith, activate-IsValid os config path d v)
  answer-IsValid (call_deactivate path) d v = ground (arith, deactivate-IsValid os config path d v)
  answer-IsValid call_get_active d v = v
  answer-IsValid (call_get_package name) d v = v
  answer-IsValid call_get_all d v = v
  answer-IsValid (call_preinstall paths) d v =
      ground (arith, preinstall_packages-IsValid os config paths d v)
  answer-IsValid (call_postinstall paths) d v =
      ground (arith, postinstall_packages-IsValid os config paths d v)
  answer-IsValid call_abort d v = ground (arith, abort_active_session-IsValid os d v)
  answer-IsValid call_rollback d v = ground (arith, rollback_active_session-IsValid os d v)
  answer-IsValid call_resume d v = ground (arith, resume_rollback_if_needed-IsValid os d v)
  answer-IsValid call_dump d v = ground arith
  answer-IsValid (call_shell input output errors args) d v =
      ground (arith, shell_command-IsValid os config binder d v input output errors args)

  pub answer_all-IsValid :
      (requests : List Request) (d : Daemon W)
      → IsValid d.mounted_apexes
      → IsValid (answer_all os config binder requests d).1.mounted_apexes
  unfolding answer_all
  answer_all-IsValid [] d v = v
  answer_all-IsValid (request ∷ requests) d v =
      let v' = answer-IsValid request d v in
      ground (arith, v', answer_all-IsValid requests (answer os config binder request d).1 v')
