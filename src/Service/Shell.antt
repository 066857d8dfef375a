-- ===== src/Service/Shell.antt =====
-- apexd/apexservice.cpp: the shell commands of the service, and `dump`.
pub mod Valid
use android_system_apex.Common.{
  Bool, true, false, ◌||◌, none, some, List, [], ◌∷◌, ◌++◌, Text, codes, text_eq, ltb_ℤ, ℤ, pos,
  if◌then◌else◌, Action,
}
use android_system_apex.Common.Effects.{◌>>=◌, pure}
use android_system_apex.Os.{Os}
use android_system_apex.Config.{Config}
use android_system_apex.Daemon.{Daemon}
use android_system_apex.Service.{
  BinderStatus, no_error, Binder, stage_packages, submit_staged_session, activate_package,
  deactivate_package, preinstall_packages, postinstall_packages,
}
use android_system_apex.Service.Info.{
  endl, get_active_packages, get_active_package, get_all_packages, get_staged_session_info,
}
use android_system_apex.Service.SessionId.{parse_session_id, int_eq}
use android_system_apex.Service.Help.{
  to_out, to_err, Printed, print_help, print_infos, session_info_text,
}

-- OK and BAD_VALUE.
pub data ShellStatus : Type 0 where
  no_problem bad_value : ShellStatus

-- What a command is compared with.
pub data Command : Type 0 where
  stage_one stage_many list_all list_active show_active activate deactivate : Command
  show_session submit preinstall postinstall help unrecognized : Command

unfoldable pub command_of : Text → Command
command_of cmd =
    if text_eq cmd (codes "stagePackage")
    then stage_one
    else if text_eq cmd (codes "stagePackages")
    then stage_many
    else if text_eq cmd (codes "getAllPackages")
    then list_all
    else if text_eq cmd (codes "getActivePackages")
    then list_active
    else if text_eq cmd (codes "getActivePackage")
    then show_active
    else if text_eq cmd (codes "activatePackage")
    then activate
    else if text_eq cmd (codes "deactivatePackage")
    then deactivate
    else if text_eq cmd (codes "getStagedSessionInfo")
    then show_session
    else if text_eq cmd (codes "submitStagedSession")
    then submit
    else if text_eq cmd (codes "preinstallPackages")
    then preinstall
    else if text_eq cmd (codes "postinstallPackages")
    then postinstall
    else if text_eq cmd (codes "help")
    then help
    else unrecognized

-- A file descriptor that could not be read.
abbrev pub bad_stream : Binder → ℤ → ℤ → ℤ → Bool
bad_stream binder input output errors =
    int_eq input binder.bad_type || (int_eq output binder.bad_type || int_eq errors binder.bad_type)

module _ {W : Type 0} (os : Os W) (config : Config) (binder : Binder) where
  abbrev pub Reply : Type 0
  Reply = Action (Daemon W) (ShellStatus × Printed)

  abbrev misuse : Text → Reply
  misuse message = pure (bad_value, print_help to_err (some message))

  -- What was printed where the call has no exception, else the exception.
  abbrev finish : Text → BinderStatus × Printed → Reply
  finish failure (status, printed) =
      if no_error status
      then pure (no_problem, printed)
      else pure (bad_value, (to_err, failure ++ (binder.describe status ++ endl)) ∷ [])

  abbrev quiet : {A : Type 0} → BinderStatus × A → BinderStatus × Printed
  quiet (status, a) = (status, [])

  stage : List Text → Reply
  stage paths = do
    r ← stage_packages os config paths
    finish (codes "Failed to stage package(s): ") (quiet r)

  activate_one : Text → Reply
  activate_one path = do
    r ← activate_package os config path
    finish (codes "Failed to activate package: ") (quiet r)

  deactivate_one : Text → Reply
  deactivate_one path = do
    r ← deactivate_package os config path
    finish (codes "Failed to deactivate package: ") (quiet r)

  run_hooks : Bool → List Text → Reply
  run_hooks before paths = do
    r ← elim before [
      | true ↦ preinstall_packages os config paths
      | false ↦ postinstall_packages os config paths
    ]
    finish (codes "Failed to pre/postinstall package(s): ") (quiet r)

  show_all : Reply
  show_all = do
    (status, infos) ← get_all_packages os binder
    finish (codes "Failed to retrieve packages: ") (status, print_infos infos)

  show_actives : Reply
  show_actives = do
    (status, infos) ← get_active_packages os binder
    finish (codes "Failed to retrieve packages: ") (status, print_infos infos)

  show_one : Text → Reply
  show_one name = do
    (status, info) ← get_active_package os binder name binder.new_apex_info
    finish (codes "Failed to fetch active package: " ++ (name ++ codes ", error: "))
        (status, print_infos (info ∷ []))

  -- The id is read; a negative one is refused.
  with_session_id : Text → (ℤ → Reply) → Reply
  with_session_id text f =
      let session_id = parse_session_id text in
      if ltb_ℤ session_id (pos 0)
      then pure (bad_value, (to_err, codes "Failed to parse session id. Must be an integer.") ∷ [])
      else f session_id

  query_session : ℤ → Reply
  query_session session_id = do
    (status, info) ← get_staged_session_info os session_id
    finish (codes "Failed to query session: ") (status, (to_out, session_info_text info) ∷ [])

  submit_session : ℤ → Reply
  submit_session session_id = do
    (status, result) ← submit_staged_session os config binder session_id []
    finish (codes "Failed to submit session: ") (
      status,
      if result.1
          then print_infos result.0
          else (to_out, codes "Verification failed." ++ endl) ∷ [],
    )

  -- The arguments that follow the command.
  unfoldable pub run_command : Command → List Text → Reply
  unfolding stage activate_one deactivate_one run_hooks show_all show_actives show_one
      with_session_id query_session submit_session
  run_command stage_one [] = misuse (codes "stagePackage(s) requires at least one packagePath")
  run_command stage_one (path ∷ []) = stage (path ∷ [])
  run_command stage_one (path ∷ other ∷ paths) =
      misuse (codes "stagePackage requires one packagePath")
  run_command stage_many [] = misuse (codes "stagePackage(s) requires at least one packagePath")
  run_command stage_many (path ∷ paths) = stage (path ∷ paths)
  run_command list_all [] = show_all
  run_command list_all (a ∷ args) = misuse (codes "Unrecognized options")
  run_command list_active [] = show_actives
  run_command list_active (a ∷ args) = misuse (codes "Unrecognized options")
  run_command show_active (name ∷ []) = show_one name
  run_command show_active args = misuse (codes "Unrecognized options")
  run_command activate (path ∷ []) = activate_one path
  run_command activate args = misuse (codes "activatePackage requires one packagePath")
  run_command deactivate (path ∷ []) = deactivate_one path
  run_command deactivate args = misuse (codes "deactivatePackage requires one packagePath")
  run_command show_session (text ∷ []) = with_session_id text query_session
  run_command show_session args = misuse (codes "getStagedSessionInfo requires one session id")
  run_command submit (text ∷ []) = with_session_id text submit_session
  run_command submit args = misuse (codes "submitStagedSession requires one session id")
  run_command preinstall (path ∷ paths) = run_hooks true (path ∷ paths)
  run_command preinstall [] =
      misuse (codes "preinstallPackages/postinstallPackages requires at least one packagePath")
  run_command postinstall (path ∷ paths) = run_hooks false (path ∷ paths)
  run_command postinstall [] =
      misuse (codes "preinstallPackages/postinstallPackages requires at least one packagePath")
  run_command help [] = pure (no_problem, print_help to_out none)
  run_command help (a ∷ args) = misuse (codes "Help has no options")
  run_command unrecognized args = pure (bad_value, print_help to_err none)

  -- `shellCommand`, over its file descriptors and arguments.
  unfoldable pub shell_command : ℤ → ℤ → ℤ → List Text → Reply
  unfolding run_command
  shell_command input output errors args =
      if bad_stream binder input output errors then pure (bad_value, []) else elim args [
        | [] ↦ misuse (codes "No command given")
        | cmd ∷ rest ↦ run_command (command_of cmd) rest
      ]
