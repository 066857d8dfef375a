-- ===== src/Service.antt =====
-- apexd/apexservice.cpp: the binder service, over the functions of apexd/apexd.cpp. The methods
-- that change packages or sessions stand here, those that list them in Info, the shell in Shell.
pub mod Transact
pub mod Requests
pub mod Valid
pub mod Info
pub mod SessionId
pub mod Help
pub mod Shell
pub mod Dump
pub mod Usage
pub mod Debug
pub mod Sessions
pub mod Listing
use android_system_apex.Common.{
  Bool, true, false, Option, none, some, List, [], ◌∷◌, Text, codes, ℤ, Error, StatusOr, ok, fail,
  Action, if◌then◌else◌,
}
use android_system_apex.Common.Effects.{◌>>=◌, ◌>>◌, pure, try_run}
use android_system_apex.Os.{Os}
use android_system_apex.Config.{Config}
use android_system_apex.ApexInfo.{ApexInfo}
use android_system_apex.SessionState.{State}
use android_system_apex.ApexFile.{ApexFile}
use android_system_apex.Hooks.{pre_install, post_install, install_hook_packages}
use android_system_apex.Activate.{
  activate_package as activate_impl, deactivate_package as deactivate_impl,
}
use android_system_apex.Staging.{stage_packages as stage_impl, unstage_packages as unstage_impl}
use android_system_apex.Rollback.{
  abort_active_session as abort_impl, rollback_active_session as rollback_impl,
  resume_rollback_if_needed as resume_impl,
}
use android_system_apex.Lifecycle.{
  submit_staged_session as submit_impl, mark_staged_session_ready as mark_ready_impl,
  mark_staged_session_successful as mark_successful_impl,
}
use android_system_apex.Daemon.{Daemon, look}

-- A `binder::Status`: no exception, EX_SECURITY with the method that is not available, or
-- EX_ILLEGAL_ARGUMENT with the error of the function.
pub data BinderStatus : Type 0 where
  no_exception : BinderStatus
  ex_security : Text → BinderStatus
  ex_illegal_argument : Error → BinderStatus

-- `isOk`.
abbrev pub no_error : BinderStatus → Bool
no_error no_exception = true
no_error status = false

-- What libbinder and the code generated from the .aidl and .proto files provide: BAD_TYPE, a new
-- ApexInfo, `toString8` of a status, and the name of a session's state.
pub record Binder : Type 0 where
  pub bad_type : ℤ
  pub new_apex_info : ApexInfo
  pub describe : BinderStatus → Text
  pub state_name : State → Text

abbrev pub exception_of : {A : Type 0} → StatusOr A → BinderStatus
exception_of (ok a) = no_exception
exception_of (fail e) = ex_illegal_argument e

-- An ApexInfo with the fields that submitStagedSession fills.
abbrev pub submitted_info : Binder → ApexFile → ApexInfo
submitted_info binder apex = record (binder.new_apex_info) {
  package_name = apex.manifest.name;
  package_path = apex.apex_path;
  version_code = apex.manifest.version;
}

abbrev submitted_infos : Binder → List ApexFile → List ApexInfo
submitted_infos binder [] = []
submitted_infos binder (apex ∷ apexes) = submitted_info binder apex ∷ submitted_infos binder apexes

module _ {W : Type 0} (os : Os W) where
  -- `CheckDebuggable`.
  unfoldable pub check_debuggable : Text → W → BinderStatus
  check_debuggable name w =
      if os.get_bool_property (codes "ro.debuggable") false w
      then no_exception
      else ex_security name

  -- A method that begins with the check.
  unfoldable pub if_debuggable :
      {A : Type 0}
      → Text
      → A
      → Action (Daemon W) (BinderStatus × A)
      → Action (Daemon W) (BinderStatus × A)
  if_debuggable name untouched method = do
    debug_check ← look (check_debuggable name)
    elim (no_error debug_check) [ true ↦ method | false ↦ pure (debug_check, untouched) ]

  -- A method that returns the status of an apexd function.
  abbrev pub reported :
      {A : Type 0} → Action (Daemon W) A → Action (Daemon W) (BinderStatus × Unit {0})
  reported f = do res ← try_run f; pure (exception_of res, tt)

  unfoldable pub abort_active_session : Action (Daemon W) (BinderStatus × Unit {0})
  abort_active_session = reported (abort_impl os)

  unfoldable pub rollback_active_session : Action (Daemon W) (BinderStatus × Unit {0})
  rollback_active_session =
      if_debuggable (codes "rollbackActiveSession") tt (reported (rollback_impl os))

  unfoldable pub resume_rollback_if_needed : Action (Daemon W) (BinderStatus × Unit {0})
  resume_rollback_if_needed =
      if_debuggable (codes "resumeRollbackIfNeeded") tt (reported (resume_impl os))

  unfoldable pub unstage_packages : List Text → Action (Daemon W) (BinderStatus × Unit {0})
  unstage_packages paths = reported (unstage_impl os paths)

  -- The value is `aidl_return`.
  unfoldable pub mark_staged_session_ready : ℤ → Action (Daemon W) (BinderStatus × Bool)
  mark_staged_session_ready session_id = do
    res ← try_run (mark_ready_impl os session_id)
    pure (no_exception, elim res [ ok _ ↦ true | fail e ↦ false ])

  unfoldable pub mark_staged_session_successful : ℤ → Action (Daemon W) (BinderStatus × Unit {0})
  mark_staged_session_successful session_id = reported (mark_successful_impl os session_id)

  module _ (config : Config) where
    -- `aidl_return`, `none` while it is not written.
    unfoldable pub stage_packages : List Text → Action (Daemon W) (BinderStatus × Option Bool)
    stage_packages paths = if_debuggable (codes "stagePackages") none (do
      res ← try_run (stage_impl os config paths)
      pure (exception_of res, elim res [ ok _ ↦ some true | fail e ↦ some false ]))

    unfoldable pub stage_package : Text → Action (Daemon W) (BinderStatus × Option Bool)
    stage_package path = if_debuggable (codes "stagePackage") none (stage_packages (path ∷ []))

    -- `apex_info_list` and `aidl_return`.
    unfoldable pub submit_staged_session :
        Binder → ℤ → List ℤ → Action (Daemon W) (BinderStatus × (List ApexInfo × Bool))
    submit_staged_session binder session_id child_session_ids = do
      packages ← try_run (submit_impl os config session_id child_session_ids)
      elim packages [
        | fail e ↦ pure (no_exception, ([], false))
        | ok apexes ↦ pure (no_exception, (submitted_infos binder apexes, true))
      ]

    unfoldable pub activate_package : Text → Action (Daemon W) (BinderStatus × Unit {0})
    activate_package path =
        if_debuggable (codes "activatePackage") tt (reported (activate_impl os config path))

    unfoldable pub deactivate_package : Text → Action (Daemon W) (BinderStatus × Unit {0})
    deactivate_package path =
        if_debuggable (codes "deactivatePackage") tt (reported (deactivate_impl os config path))

    unfoldable pub preinstall_packages : List Text → Action (Daemon W) (BinderStatus × Unit {0})
    preinstall_packages paths =
        if_debuggable (codes "preinstallPackages") tt
          (reported (install_hook_packages os config pre_install paths))

    unfoldable pub postinstall_packages : List Text → Action (Daemon W) (BinderStatus × Unit {0})
    postinstall_packages paths =
        if_debuggable (codes "postinstallPackages") tt
          (reported (install_hook_packages os config post_install paths))
