-- ===== src/Service/Valid.antt =====
-- apexd/apexservice.cpp: the methods of the service, against the invariant of the database of
-- mounted packages.
use android_system_apex.Common.{List, [], ◌∷◌, Text, ℤ, Action, arith}
use android_system_apex.Os.{Os}
use android_system_apex.Config.{Config}
use android_system_apex.Database.Invariant.{IsValid}
use android_system_apex.Daemon.{Daemon}
use android_system_apex.Mount.Valid.{moved}
use android_system_apex.Hooks.{pre_install, post_install}
use android_system_apex.Hooks.Valid.{install_hook_packages-IsValid}
use android_system_apex.Activate.Valid.{activate_package-IsValid, deactivate_package-IsValid}
use android_system_apex.Staging.Frame.{
  mounted_apexes-stage_packages, mounted_apexes-unstage_packages,
}
use android_system_apex.Rollback.Frame.{
  mounted_apexes-abort_active_session, mounted_apexes-rollback_active_session,
  mounted_apexes-resume_rollback_if_needed,
}
use android_system_apex.Lifecycle.Valid.{
  submit_staged_session-IsValid, mounted_apexes-mark_staged_session_ready,
  mounted_apexes-mark_staged_session_successful,
}
use android_system_apex.Service.{
  Binder, BinderStatus, if_debuggable, abort_active_session, rollback_active_session,
  resume_rollback_if_needed, unstage_packages, mark_staged_session_ready,
  mark_staged_session_successful, stage_packages, stage_package, submit_staged_session,
  activate_package, deactivate_package, preinstall_packages, postinstall_packages,
}

module _ {W : Type 0} (os : Os W) where
  -- The two ways in which a method is guarded.
  if_debuggable-IsValid :
      {A : Type 0} (name : Text) (untouched : A) (method : Action (Daemon W) (BinderStatus × A))
      (d : Daemon W)
      → IsValid d.mounted_apexes
      → IsValid (method d).1.mounted_apexes
      → IsValid (if_debuggable os name untouched method d).1.mounted_apexes
  unfolding if_debuggable
  if_debuggable-IsValid name untouched method d v v' = ground arith

  pub abort_active_session-IsValid :
      (d : Daemon W)
      → IsValid d.mounted_apexes
      → IsValid (abort_active_session os d).1.mounted_apexes
  unfolding abort_active_session
  abort_active_session-IsValid d v =
      ground (arith, moved (mounted_apexes-abort_active_session os d) v)

  pub rollback_active_session-IsValid :
      (d : Daemon W)
      → IsValid d.mounted_apexes
      → IsValid (rollback_active_session os d).1.mounted_apexes
  unfolding rollback_active_session if_debuggable
  rollback_active_session-IsValid d v =
      ground (arith, moved (mounted_apexes-rollback_active_session os d) v)

  pub resume_rollback_if_needed-IsValid :
      (d : Daemon W)
      → IsValid d.mounted_apexes
      → IsValid (resume_rollback_if_needed os d).1.mounted_apexes
  unfolding resume_rollback_if_needed if_debuggable
  resume_rollback_if_needed-IsValid d v =
      ground (arith, moved (mounted_apexes-resume_rollback_if_needed os d) v)

  pub unstage_packages-IsValid :
      (paths : List Text) (d : Daemon W)
      → IsValid d.mounted_apexes
      → IsValid (unstage_packages os paths d).1.mounted_apexes
  unfolding unstage_packages
  unstage_packages-IsValid paths d v =
      ground (arith, moved (mounted_apexes-unstage_packages os paths d) v)

  pub mark_staged_session_ready-IsValid :
      (session_id : ℤ) (d : Daemon W)
      → IsValid d.mounted_apexes
      → IsValid (mark_staged_session_ready os session_id d).1.mounted_apexes
  unfolding mark_staged_session_ready
  mark_staged_session_ready-IsValid session_id d v =
      ground (arith, moved (mounted_apexes-mark_staged_session_ready os session_id d) v)

  pub mark_staged_session_successful-IsValid :
      (session_id : ℤ) (d : Daemon W)
      → IsValid d.mounted_apexes
      → IsValid (mark_staged_session_successful os session_id d).1.mounted_apexes
  unfolding mark_staged_session_successful
  mark_staged_session_successful-IsValid session_id d v =
      ground (arith, moved (mounted_apexes-mark_staged_session_successful os session_id d) v)

  module _ (config : Config) where
    pub stage_packages-IsValid :
        (paths : List Text) (d : Daemon W)
        → IsValid d.mounted_apexes
        → IsValid (stage_packages os config paths d).1.mounted_apexes
    unfolding stage_packages if_debuggable
    stage_packages-IsValid paths d v =
        ground (arith, moved (mounted_apexes-stage_packages os config paths d) v)

    pub stage_package-IsValid :
        (path : Text) (d : Daemon W)
        → IsValid d.mounted_apexes
        → IsValid (stage_package os config path d).1.mounted_apexes
    unfolding stage_package if_debuggable
    stage_package-IsValid path d v = ground (arith, stage_packages-IsValid (path ∷ []) d v)

    pub submit_session-IsValid :
        (binder : Binder) (session_id : ℤ) (children : List ℤ) (d : Daemon W)
        → IsValid d.mounted_apexes
        → IsValid (submit_staged_session os config binder session_id children d).1.mounted_apexes
    unfolding submit_staged_session
    submit_session-IsValid binder session_id children d v =
        ground (arith, submit_staged_session-IsValid os config session_id children d v)

    pub activate-IsValid :
        (path : Text) (d : Daemon W)
        → IsValid d.mounted_apexes
        → IsValid (activate_package os config path d).1.mounted_apexes
    unfolding activate_package if_debuggable
    activate-IsValid path d v = ground (arith, activate_package-IsValid os config path d v)

    pub deactivate-IsValid :
        (path : Text) (d : Daemon W)
        → IsValid d.mounted_apexes
        → IsValid (deactivate_package os config path d).1.mounted_apexes
    unfolding deactivate_package if_debuggable
    deactivate-IsValid path d v = ground (arith, deactivate_package-IsValid os config path d v)

    pub preinstall_packages-IsValid :
        (paths : List Text) (d : Daemon W)
        → IsValid d.mounted_apexes
        → IsValid (preinstall_packages os config paths d).1.mounted_apexes
    unfolding preinstall_packages if_debuggable
    preinstall_packages-IsValid paths d v =
        ground (arith, install_hook_packages-IsValid os config pre_install paths d v)

    pub postinstall_packages-IsValid :
        (paths : List Text) (d : Daemon W)
        → IsValid d.mounted_apexes
        → IsValid (postinstall_packages os config paths d).1.mounted_apexes
    unfolding postinstall_packages if_debuggable
    postinstall_packages-IsValid paths d v =
        ground (arith, install_hook_packages-IsValid os config post_install paths d v)
