-- ===== src/Service/Shell/Valid.antt =====
-- apexd/apexservice.cpp: the commands of the shell, against the invariant of the database of
-- mounted packages.
use android_system_apex.Common.{Bool, true, false, List, [], ◌∷◌, Text, ℤ, arith}
use android_system_apex.Os.{Os}
use android_system_apex.Config.{Config}
use android_system_apex.Database.Invariant.{IsValid}
use android_system_apex.Daemon.{Daemon}
use android_system_apex.Service.{Binder}
use android_system_apex.Service.Valid.{
  stage_packages-IsValid, submit_session-IsValid, activate-IsValid, deactivate-IsValid,
  preinstall_packages-IsValid, postinstall_packages-IsValid,
}
use android_system_apex.Service.Info.{
  get_staged_session_info, get_active_packages, get_active_package, get_all_packages,
}
use android_system_apex.Service.SessionId.{parse_session_id}
use android_system_apex.Service.Shell.{
  Command, stage_one, stage_many, list_all, list_active, show_active, activate, deactivate,
  show_session, submit, preinstall, postinstall, help, unrecognized, command_of,
}
use android_system_apex.Service.Shell.{
  stage, activate_one, deactivate_one, run_hooks, show_all, show_actives, show_one, with_session_id,
  query_session, submit_session, run_command, shell_command,
}

module _ {W : Type 0} (os : Os W) (config : Config) (binder : Binder) (d : Daemon W)
    (v : IsValid d.mounted_apexes) where
  stage-IsValid : (paths : List Text) → IsValid (stage os config binder paths d).1.mounted_apexes
  unfolding stage
  stage-IsValid paths = ground (arith, stage_packages-IsValid os config paths d v)

  activate_one-IsValid :
      (path : Text) → IsValid (activate_one os config binder path d).1.mounted_apexes
  unfolding activate_one
  activate_one-IsValid path = ground (arith, activate-IsValid os config path d v)

  deactivate_one-IsValid :
      (path : Text) → IsValid (deactivate_one os config binder path d).1.mounted_apexes
  unfolding deactivate_one
  deactivate_one-IsValid path = ground (arith, deactivate-IsValid os config path d v)

  run_hooks-IsValid :
      (before : Bool) (paths : List Text)
      → IsValid (run_hooks os config binder before paths d).1.mounted_apexes
  unfolding run_hooks
  run_hooks-IsValid before paths = ground (
    arith,
    preinstall_packages-IsValid os config paths d v,
    postinstall_packages-IsValid os config paths d v,
  )

  show_all-IsValid : IsValid (show_all os config binder d).1.mounted_apexes
  unfolding show_all get_all_packages
  show_all-IsValid = ground arith

  show_actives-IsValid : IsValid (show_actives os config binder d).1.mounted_apexes
  unfolding show_actives get_active_packages
  show_actives-IsValid = ground arith

  show_one-IsValid : (name : Text) → IsValid (show_one os config binder name d).1.mounted_apexes
  unfolding show_one get_active_package
  show_one-IsValid name = ground arith

  query_session-IsValid :
      (text : Text)
      → IsValid
          (with_session_id os config binder text
            (query_session os config binder)
            d).1.mounted_apexes
  unfolding with_session_id query_session get_staged_session_info
  query_session-IsValid text = ground arith

  submit_session-IsValid' :
      (text : Text)
      → IsValid
          (with_session_id os config binder text
            (submit_session os config binder)
            d).1.mounted_apexes
  unfolding with_session_id submit_session
  submit_session-IsValid' text =
      ground (arith, submit_session-IsValid os config binder (parse_session_id text) [] d v)

  run_command-IsValid :
      (c : Command) (args : List Text)
      → IsValid (run_command os config binder c args d).1.mounted_apexes
  unfolding run_command
  run_command-IsValid stage_one [] = v
  run_command-IsValid stage_one (path ∷ []) = stage-IsValid (path ∷ [])
  run_command-IsValid stage_one (path ∷ other ∷ paths) = v
  run_command-IsValid stage_many [] = v
  run_command-IsValid stage_many (path ∷ paths) = stage-IsValid (path ∷ paths)
  run_command-IsValid list_all [] = show_all-IsValid
  run_command-IsValid list_all (a ∷ args) = v
  run_command-IsValid list_active [] = show_actives-IsValid
  run_command-IsValid list_active (a ∷ args) = v
  run_command-IsValid show_active [] = v
  run_command-IsValid show_active (name ∷ []) = show_one-IsValid name
  run_command-IsValid show_active (a ∷ b ∷ args) = v
  run_command-IsValid activate [] = v
  run_command-IsValid activate (path ∷ []) = activate_one-IsValid path
  run_command-IsValid activate (a ∷ b ∷ args) = v
  run_command-IsValid deactivate [] = v
  run_command-IsValid deactivate (path ∷ []) = deactivate_one-IsValid path
  run_command-IsValid deactivate (a ∷ b ∷ args) = v
  run_command-IsValid show_session [] = v
  run_command-IsValid show_session (text ∷ []) = query_session-IsValid text
  run_command-IsValid show_session (a ∷ b ∷ args) = v
  run_command-IsValid submit [] = v
  run_command-IsValid submit (text ∷ []) = submit_session-IsValid' text
  run_command-IsValid submit (a ∷ b ∷ args) = v
  run_command-IsValid preinstall [] = v
  run_command-IsValid preinstall (path ∷ paths) = run_hooks-IsValid true (path ∷ paths)
  run_command-IsValid postinstall [] = v
  run_command-IsValid postinstall (path ∷ paths) = run_hooks-IsValid false (path ∷ paths)
  run_command-IsValid help [] = v
  run_command-IsValid help (a ∷ args) = v
  run_command-IsValid unrecognized args = v

  pub shell_command-IsValid :
      (input output errors : ℤ) (args : List Text)
      → IsValid (shell_command os config binder input output errors args d).1.mounted_apexes
  unfolding shell_command
  shell_command-IsValid input output errors [] = ground arith
  shell_command-IsValid input output errors (cmd ∷ rest) =
      ground (arith, run_command-IsValid (command_of cmd) rest)
