-- ===== src/Service/Info.antt =====
-- apexd/apexservice.cpp: the methods that list packages and sessions, and the conversions to the
-- parcelables.
use android_system_apex.Common.{
  Bool, true, false, List, [], ◌∷◌, ◌++◌, map, Text, codes, text_eq, any_of, ℤ, negsuc, ok, fail,
  to_string, Action, if◌then◌else◌,
}
use android_system_apex.Common.Effects.{◌>>=◌, pure, gets}
use android_system_apex.Os.{Os}
use android_system_apex.Paths.{is_path_for_builtin_apexes}
use android_system_apex.ApexInfo.{ApexInfo, ApexSessionInfo}
use android_system_apex.SessionState.{
  SessionState, unknown, verified, staged, activated, activation_failed, succeeded,
  rollback_in_progress, rolled_back, rollback_failed,
}
use android_system_apex.ApexFile.{ApexFile}
use android_system_apex.Session.{get_sessions as sessions_on_disk, get_session}
use android_system_apex.Activate.{
  get_active_packages as active_impl, get_active_package as active_package_impl,
  get_factory_packages,
}
use android_system_apex.Daemon.{Daemon, look}
use android_system_apex.Service.{BinderStatus, no_exception, Binder}

-- `ClearSessionInfo`: it writes every field.
abbrev pub clear_session_info : ApexSessionInfo
clear_session_info = record {
  session_id = negsuc 0;
  is_unknown = false;
  is_verified = false;
  is_staged = false;
  is_activated = false;
  is_rollback_in_progress = false;
  is_activation_failed = false;
  is_success = false;
  is_rolled_back = false;
  is_rollback_failed = false;
}

-- `convertToApexSessionInfo`.
unfoldable pub convert_to_apex_session_info : SessionState → ApexSessionInfo
convert_to_apex_session_info session =
    let info = record clear_session_info { session_id = session.id } in
    elim session.state [
      | verified ↦ record info { is_verified = true }
      | staged ↦ record info { is_staged = true }
      | activated ↦ record info { is_activated = true }
      | activation_failed ↦ record info { is_activation_failed = true }
      | succeeded ↦ record info { is_success = true }
      | rollback_in_progress ↦ record info { is_rollback_in_progress = true }
      | rolled_back ↦ record info { is_rolled_back = true }
      | rollback_failed ↦ record info { is_rollback_failed = true }
      | unknown ↦ record info { is_unknown = true }
    ]

-- `getApexInfo`.
abbrev pub get_apex_info : Binder → ApexFile → ApexInfo
get_apex_info binder apex = record (binder.new_apex_info) {
  package_name = apex.manifest.name;
  package_path = apex.apex_path;
  version_code = apex.manifest.version;
  version_name = apex.manifest.version_name;
}

abbrev bool_alpha : Bool → Text
bool_alpha true = codes "true"
bool_alpha false = codes "false"

-- `std::endl`.
abbrev pub endl : Text
endl = 10 ∷ []

-- `toString(const ApexInfo&)`.
unfoldable pub info_to_string : ApexInfo → Text
info_to_string info =
    codes "Package: "
    ++ (info.package_name
        ++ (codes " Version: "
            ++ (to_string info.version_code
                ++ (codes " VersionName: "
                    ++ (info.version_name
                        ++ (codes " Path: "
                            ++ (info.package_path
                                ++ (codes " IsActive: "
                                    ++ (bool_alpha info.is_active
                                        ++ (codes " IsFactory: "
                                            ++ (bool_alpha info.is_factory ++ endl)))))))))))

-- `contains`.
unfoldable pub contains : List ApexFile → ApexFile → Bool
contains apexes apex = any_of (λ listed. text_eq apex.apex_path listed.apex_path) apexes

abbrev pub active_info : Binder → ApexFile → ApexInfo
active_info binder apex = record (get_apex_info binder apex) {
  is_active = true;
  is_factory = is_path_for_builtin_apexes apex.apex_path;
}

abbrev pub factory_info : Binder → List ApexFile → ApexFile → ApexInfo
factory_info binder active apex = record (get_apex_info binder apex) {
  is_factory = true;
  is_active = contains active apex;
}

-- The active packages that are no factory packages.
unfoldable pub other_infos : Binder → List ApexFile → List ApexFile → List ApexInfo
other_infos binder factory [] = []
other_infos binder factory (apex ∷ apexes) =
    let rest = other_infos binder factory apexes in
    if contains factory apex
    then rest
    else record (get_apex_info binder apex) { is_factory = false; is_active = true } ∷ rest

-- The list of `getAllPackages`.
unfoldable pub all_infos : Binder → List ApexFile → List ApexFile → List ApexInfo
all_infos binder active factory =
    map (factory_info binder active) factory ++ other_infos binder factory active

module _ {W : Type 0} (os : Os W) where
  unfoldable pub get_sessions : Action (Daemon W) (BinderStatus × List ApexSessionInfo)
  get_sessions = do
    sessions ← look (sessions_on_disk os)
    pure (no_exception, map convert_to_apex_session_info sessions)

  unfoldable pub get_staged_session_info : ℤ → Action (Daemon W) (BinderStatus × ApexSessionInfo)
  get_staged_session_info session_id = do
    session ← look (get_session os session_id)
    pure (
      no_exception,
      elim session [
        | fail e ↦ record clear_session_info { is_unknown = true }
        | ok s ↦ convert_to_apex_session_info s
      ],
    )

  module _ (binder : Binder) where
    unfoldable pub get_active_packages : Action (Daemon W) (BinderStatus × List ApexInfo)
    get_active_packages = do
      db ← gets (λ d. d.mounted_apexes)
      apexes ← look (active_impl os db)
      pure (no_exception, map (active_info binder) apexes)

    -- `aidl_return`, as it is given where there is no such package.
    unfoldable pub get_active_package :
        Text → ApexInfo → Action (Daemon W) (BinderStatus × ApexInfo)
    get_active_package name given = do
      db ← gets (λ d. d.mounted_apexes)
      apex ← look (active_package_impl os name db)
      pure (no_exception, elim apex [ fail e ↦ given | ok a ↦ active_info binder a ])

    unfoldable pub get_all_packages : Action (Daemon W) (BinderStatus × List ApexInfo)
    get_all_packages = do
      db ← gets (λ d. d.mounted_apexes)
      active ← look (active_impl os db)
      factory ← look (get_factory_packages os)
      pure (no_exception, all_infos binder active factory)
