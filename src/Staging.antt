-- ===== src/Staging.antt =====
-- apexd/apexd.cpp: verifying packages, and linking them into /data/apex/active.
pub mod Frame
pub mod Files
pub mod Removal
use android_system_apex.Common.{
  ℕ, Bool, true, false, not, ◌&&◌, ◌||◌, Option, none, some, List, [], ◌∷◌, ◌++◌, Text, codes,
  text_eq, if◌then◌else◌, any_of, to_u64, to_string, ℤ, ◌==◌, empty_inputs, more_than_one_apex,
  flattened, not_updatable, cannot_link, cannot_access, ok, fail, Action, for_each,
}
use android_system_apex.Common.Effects.{◌>>=◌, ◌>>◌, pure, raise, gets, ensure, skip, guarded}
use android_system_apex.Os.{Os, is_success}
use android_system_apex.Config.{Config}
use android_system_apex.Manifest.{get_package_id}
use android_system_apex.Paths.{
  active_apex_packages_data_dir, apex_package_system_dir, apex_package_suffix, staged_sessions_dir,
  ◌/+◌,
}
use android_system_apex.ApexFile.{ApexFile, open_apex, find_apex_files_by_name}
use android_system_apex.Verity.{verify_apex_verity}
use android_system_apex.Shim.{is_shim_apex, validate_update}
use android_system_apex.Daemon.{
  Daemon, call, call_or, look, look_status, create_dir_if_needed, unlink_file,
}
use android_system_apex.Mount.{run_verify_fn_inside_temp_mount}
use android_system_apex.Activate.{get_active_packages_map}
use android_system_apex.Hooks.{open_packages}

abbrev pub contains : Text → List Text → Bool
contains a = any_of (text_eq a)

-- `unordered_set::insert`.
abbrev pub insert : Text → List Text → List Text
insert a set = if contains a set then set else a ∷ set

-- `StageDestPath`.
unfoldable pub stage_dest_path : ApexFile → Text
stage_dest_path apex =
    active_apex_packages_data_dir /+ (get_package_id apex.manifest ++ apex_package_suffix)

module _ {W : Type 0} (os : Os W) where
  -- `RemovePreviouslyActiveApexFiles`, over the files that are found.
  unfoldable pub remove_previous : List Text → List Text → List Text → Action (Daemon W) (Unit {0})
  remove_previous affected_packages files_to_keep [] = skip
  remove_previous affected_packages files_to_keep (path ∷ paths) = do
    apex ← look_status (open_apex os path)
    elim (contains apex.manifest.name affected_packages
        && not (contains apex.apex_path files_to_keep)) [
          | false ↦ skip
          | true ↦ unlink_file os apex.apex_path
        ]
    remove_previous affected_packages files_to_keep paths

  -- `RemovePreviouslyActiveApexFiles`.
  unfoldable pub remove_previously_active_apex_files :
      List Text → List Text → Action (Daemon W) (Unit {0})
  remove_previously_active_apex_files affected_packages files_to_keep = do
    files ← look_status (find_apex_files_by_name os active_apex_packages_data_dir false)
    remove_previous affected_packages files_to_keep files

  -- The filter of `FilterUnnecessaryStagingPaths`.
  abbrev same_version : Option ℕ → ℕ → Bool
  same_version none v = false
  same_version (some active) v = active == v

  unfoldable pub is_necessary : (Text → Option ℕ) → W → Text → Bool
  is_necessary packages_with_code w path = elim (open_apex os path w) [
    | fail e ↦ true
    | ok apex ↦
        not (is_success (os.access (stage_dest_path apex) w))
        && not (same_version (packages_with_code apex.manifest.name) (to_u64 apex.manifest.version))
  ]

  keep_necessary : (Text → Option ℕ) → W → List Text → List Text
  keep_necessary packages_with_code w [] = []
  keep_necessary packages_with_code w (path ∷ paths) =
      let rest = keep_necessary packages_with_code w paths in
      if is_necessary packages_with_code w path then path ∷ rest else rest

  -- `staged_files` and `staged_packages`.
  abbrev pub Staged : Type 0
  Staged = List Text × List Text

  -- One round of the loop that links.
  unfoldable pub link_one : Text → Staged → Action (Daemon W) Staged
  link_one path (files, packages) = do
    apex ← look_status (open_apex os path)
    call_or (os.link apex.apex_path (stage_dest_path apex)) cannot_link
    pure (insert (stage_dest_path apex) files, insert apex.manifest.name packages)

  -- The scope guard of `stagePackages`: failures to unlink are logged.
  unfoldable pub unlink_all : List Text → Action (Daemon W) (Unit {0})
  unlink_all [] = skip
  unlink_all (path ∷ paths) = do call (os.unlink path); unlink_all paths

  -- The loop, its guard included: what was linked is unlinked when a later round fails.
  unfoldable pub link_all : List Text → Staged → Action (Daemon W) Staged
  link_all [] staged = pure staged
  link_all (path ∷ paths) staged = do
    staged' ← guarded (unlink_all staged.0) (link_one path staged)
    link_all paths staged'

  any_inaccessible : List Text → W → Bool
  any_inaccessible [] w = false
  any_inaccessible (path ∷ paths) w =
      not (is_success (os.access path w)) || any_inaccessible paths w

  -- `unstagePackages`.
  unfoldable pub unstage_packages : List Text → Action (Daemon W) (Unit {0})
  unfolding any_inaccessible
  unstage_packages [] = raise empty_inputs
  unstage_packages (path ∷ paths) = do
    bad ← look (any_inaccessible (path ∷ paths))
    ensure (not bad) cannot_access
    for_each (unlink_file os) (path ∷ paths)

  module _ (config : Config) where
    -- `ValidateStagingShimApex`.
    validate_staging_shim_apex : ApexFile → Action (Daemon W) (Unit {0})
    validate_staging_shim_apex to = do
      system_shim ←
          look_status
            (open_apex os (apex_package_system_dir /+ codes "com.android.apex.cts.shim.apex"))
      run_verify_fn_inside_temp_mount os config system_shim (λ system_apex_path.
          look_status (λ w. validate_update os w system_apex_path to.apex_path))

    -- `VerifyPackageBoot`.
    unfoldable pub verify_package_boot : ApexFile → Action (Daemon W) (Unit {0})
    unfolding validate_staging_shim_apex
    verify_package_boot apex = do
      ensure (not apex.is_flattened) flattened
      keys ← gets (λ d. d.scanned_apex_keys)
      look_status (verify_apex_verity os config.debug_allow_bundled_key keys apex)
      elim (is_shim_apex apex) [ true ↦ validate_staging_shim_apex apex | false ↦ skip ]

    -- `VerifyPackageInstall`.
    unfoldable pub verify_package_install : ApexFile → Action (Daemon W) (Unit {0})
    verify_package_install apex = do
      verify_package_boot apex
      ensure config.updatable not_updatable
      run_verify_fn_inside_temp_mount os config apex (λ _. skip)

    -- `verifyPackages`.
    unfoldable pub verify_packages :
        (ApexFile → Action (Daemon W) (Unit {0})) → List Text → Action (Daemon W) (List ApexFile)
    verify_packages verify_apex_fn [] = raise empty_inputs
    verify_packages verify_apex_fn (path ∷ paths) = do
      apexes ← look_status (open_packages os config (path ∷ paths))
      for_each verify_apex_fn apexes
      pure apexes

    session_dir : ℤ → Text
    session_dir session_id = staged_sessions_dir /+ (codes "session_" ++ to_string session_id)

    verify_found : List Text → Action (Daemon W) ApexFile
    verify_found (a ∷ b ∷ more) = raise more_than_one_apex
    verify_found paths = do
      verified ← verify_packages verify_package_install paths
      elim verified [ [] ↦ raise empty_inputs | apex ∷ _ ↦ pure apex ]

    -- `verifySessionDir`.
    unfoldable pub verify_session_dir : ℤ → Action (Daemon W) ApexFile
    unfolding session_dir verify_found
    verify_session_dir session_id = do
      scan ← look_status (find_apex_files_by_name os (session_dir session_id) false)
      verify_found scan

    -- `stagePackages` on the paths that need staging.
    unfoldable pub stage_necessary : List Text → Action (Daemon W) (Unit {0})
    stage_necessary [] = skip
    stage_necessary (path ∷ paths) = do
      (staged_files, staged_packages) ← link_all (path ∷ paths) ([], [])
      remove_previously_active_apex_files staged_packages staged_files

    -- `stagePackages`.
    unfoldable pub stage_packages : List Text → Action (Daemon W) (Unit {0})
    unfolding keep_necessary
    stage_packages [] = raise empty_inputs
    stage_packages (path ∷ paths) = do
      verify_packages verify_package_boot (path ∷ paths)
      create_dir_if_needed os active_apex_packages_data_dir 0o750
      db ← gets (λ d. d.mounted_apexes)
      packages_with_code ← look (get_active_packages_map os db)
      paths_to_stage ← look (λ w. keep_necessary packages_with_code w (path ∷ paths))
      stage_necessary paths_to_stage
