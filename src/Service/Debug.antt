-- ===== src/Service/Debug.antt =====
-- apexd/apexservice.cpp: the methods that a build offers only if it is debuggable.
use android_system_apex.Common.{◌≡◌, false, none, List, Text, codes, arith, done, Action}
use android_system_apex.Os.{Os}
use android_system_apex.Config.{Config}
use android_system_apex.Daemon.{Daemon}
use android_system_apex.Service.{
  BinderStatus, ex_security, if_debuggable, check_debuggable, stage_package, stage_packages,
  activate_package, deactivate_package, preinstall_packages, postinstall_packages,
  rollback_active_session, resume_rollback_if_needed,
}

module _ {W : Type 0} (os : Os W) where
  -- The build is not debuggable.
  abbrev pub Locked : Daemon W → Type 0
  Locked d = os.get_bool_property (codes "ro.debuggable") false d.world ≡ false

  check_refuses :
      {A : Type 0} (name : Text) (untouched : A) (method : Action (Daemon W) (BinderStatus × A))
      (d : Daemon W)
      → Locked d
      → if_debuggable os name untouched method d ≡ (done (ex_security name, untouched), d)
  unfolding if_debuggable check_debuggable
  check_refuses name untouched method d locked = ground arith

  -- On a build that is not debuggable, stagePackage, stagePackages, activatePackage,
  -- deactivatePackage, preinstallPackages, postinstallPackages, rollbackActiveSession and
  -- resumeRollbackIfNeeded return EX_SECURITY with their name, and change nothing.
  pub debug_methods-Locked :
      (config : Config) (path : Text) (paths : List Text) (d : Daemon W)
      → Locked d
      → (stage_package os config path d ≡ (done (ex_security (codes "stagePackage"), none), d))
        × (stage_packages os config paths d ≡ (done (ex_security (codes "stagePackages"), none), d))
        × (activate_package os config path d
            ≡ (done (ex_security (codes "activatePackage"), tt), d))
        × (deactivate_package os config path d
            ≡ (done (ex_security (codes "deactivatePackage"), tt), d))
        × (preinstall_packages os config paths d
            ≡ (done (ex_security (codes "preinstallPackages"), tt), d))
        × (postinstall_packages os config paths d
            ≡ (done (ex_security (codes "postinstallPackages"), tt), d))
        × (rollback_active_session os d
            ≡ (done (ex_security (codes "rollbackActiveSession"), tt), d))
        × (resume_rollback_if_needed os d
            ≡ (done (ex_security (codes "resumeRollbackIfNeeded"), tt), d))
  unfolding stage_package stage_packages activate_package deactivate_package preinstall_packages
      postinstall_packages rollback_active_session resume_rollback_if_needed
  debug_methods-Locked config path paths d locked = (
    check_refuses _ _ _ d locked,
    check_refuses _ _ _ d locked,
    check_refuses _ _ _ d locked,
    check_refuses _ _ _ d locked,
    check_refuses _ _ _ d locked,
    check_refuses _ _ _ d locked,
    check_refuses _ _ _ d locked,
    check_refuses _ _ _ d locked,
  )
