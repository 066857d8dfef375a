-- ===== src/Activate.antt =====
-- apexd/apexd.cpp: activating, deactivating and listing packages.
pub mod Listed
pub mod Outcome
pub mod Valid
pub mod Versions
pub mod Dangling
use android_system_apex.Common.{
  ℕ, Bool, true, false, not, ◌&&◌, ◌||◌, Option, none, some, List, [], ◌∷◌, ◌++◌, Text, text_eq,
  if◌then◌else◌, any_of, to_u64, ltb, leb, ◌==◌, activation_failed, not_found, StatusOr, ok, fail,
  Action,
}
use android_system_apex.Common.Effects.{◌>>=◌, ◌>>◌, pure, gets, ensure, skip, try_run}
use android_system_apex.Os.{Os}
use android_system_apex.Config.{Config, bootstrap_apexes}
use android_system_apex.Manifest.{get_package_mount_point, get_active_mount_point}
use android_system_apex.Paths.{is_path_for_builtin_apexes, apex_package_builtin_dirs}
use android_system_apex.ApexFile.{ApexFile, open_apex, find_apex_files_by_name}
use android_system_apex.Database.{PackageMap, Database, entries, package_map, set_latest}
use android_system_apex.Daemon.{Daemon, look, look_status}
use android_system_apex.Mount.Bind.{bind_mount}
use android_system_apex.Mount.{mount_package, unmount_package, update_database}

-- `isBootstrapApex`.
unfoldable pub is_bootstrap_apex : ApexFile → Bool
is_bootstrap_apex apex = any_of (text_eq apex.manifest.name) bootstrap_apexes

-- What the walk over the package's mounts finds out about a version.
pub record Found : Type 0 where
  pub is_newest_version : Bool
  pub version_found_mounted : Bool
  pub version_found_active : Bool

module _ {W : Type 0} (os : Os W) where
  abbrev see : ℕ → ℕ → Bool → Found → Found
  see new_version other latest f = record {
    is_newest_version = if ltb new_version other then false else f.is_newest_version;
    version_found_mounted = if other == new_version then true else f.version_found_mounted;
    version_found_active = if other == new_version then latest else f.version_found_active;
  }

  see_mounts : ℕ → W → PackageMap → Found → Found
  see_mounts new_version w [] f = f
  see_mounts new_version w ((d, latest) ∷ m) f = elim (open_apex os d.full_path w) [
    | fail e ↦ see_mounts new_version w m f
    | ok other ↦
        see_mounts new_version w m (see new_version (to_u64 other.manifest.version) latest f)
  ]

  -- The handler that `activatePackageImpl` runs over the package's mounts.
  unfoldable pub look_for_version : ℕ → PackageMap → W → Found
  unfolding see_mounts
  look_for_version new_version m w = see_mounts new_version w m (record {
    is_newest_version = true;
    version_found_mounted = false;
    version_found_active = false;
  })

  latest_packages : W → PackageMap → List ApexFile
  latest_packages w [] = []
  latest_packages w ((d, latest) ∷ m) =
      let rest = latest_packages w m in
      if latest
      then elim (open_apex os d.full_path w) [ fail e ↦ rest | ok apex ↦ apex ∷ rest ]
      else rest

  -- `getActivePackages`.
  unfoldable pub get_active_packages : Database → W → List ApexFile
  unfolding latest_packages
  get_active_packages db w = latest_packages w (entries db)

  -- `GetActivePackagesMap`, looked up at a name: the first active package counts.
  active_version_of : Text → List ApexFile → Option ℕ
  active_version_of name [] = none
  active_version_of name (apex ∷ apexes) =
      if text_eq apex.manifest.name name
      then some (to_u64 apex.manifest.version)
      else active_version_of name apexes

  unfoldable pub get_active_packages_map : Database → W → Text → Option ℕ
  unfolding active_version_of
  get_active_packages_map db w name = active_version_of name (get_active_packages db w)

  find_package : Text → List ApexFile → StatusOr ApexFile
  find_package name [] = fail not_found
  find_package name (apex ∷ apexes) =
      if text_eq apex.manifest.name name then ok apex else find_package name apexes

  -- `getActivePackage`.
  unfoldable pub get_active_package : Text → Database → W → StatusOr ApexFile
  unfolding find_package
  get_active_package name db w = find_package name (get_active_packages db w)

  open_all : List Text → W → List ApexFile
  open_all [] w = []
  open_all (path ∷ paths) w =
      let rest = open_all paths w in
      elim (open_apex os path w) [ fail e ↦ rest | ok apex ↦ apex ∷ rest ]

  factory_from : List Text → W → List ApexFile
  factory_from [] w = []
  factory_from (dir ∷ dirs) w =
      let rest = factory_from dirs w in
      elim (find_apex_files_by_name os dir false w) [
        | fail e ↦ rest
        | ok files ↦ open_all files w ++ rest
      ]

  -- `getFactoryPackages`.
  unfoldable pub get_factory_packages : W → List ApexFile
  unfolding open_all factory_from
  get_factory_packages = factory_from apex_package_builtin_dirs

  module _ (config : Config) where
    mount_unless : Bool → ApexFile → Action (Daemon W) (Unit {0})
    mount_unless true apex = skip
    mount_unless false apex = mount_package os config apex (get_package_mount_point apex.manifest)

    make_latest : Bool → ApexFile → Action (Daemon W) (Unit {0})
    make_latest false apex = skip
    make_latest true apex = do
      bind_mount os (get_active_mount_point apex.manifest) (get_package_mount_point apex.manifest)
      update_database (set_latest apex.manifest.name apex.apex_path)

    -- `activatePackageImpl` after its bootstrap tests.
    activate_version : ApexFile → Action (Daemon W) (Unit {0})
    activate_version apex = do
      db ← gets (λ d. d.mounted_apexes)
      found ←
          look (look_for_version (to_u64 apex.manifest.version) (package_map apex.manifest.name db))
      elim found.version_found_active [
        | true ↦ skip
        | false ↦ do
          mount_unless found.version_found_mounted apex
          make_latest found.is_newest_version apex
      ]

    -- `activatePackageImpl`.
    unfoldable pub activate_package_impl : ApexFile → Action (Daemon W) (Unit {0})
    unfolding mount_unless make_latest activate_version
    activate_package_impl apex = do
      bootstrap ← gets (λ d. d.bootstrap)
      elim (bootstrap && not (is_bootstrap_apex apex)) [
        | true ↦ skip
        | false ↦ elim (not config.updatable && (not bootstrap && is_bootstrap_apex apex)) [
          | true ↦ skip
          | false ↦ activate_version apex
        ]
      ]

    -- `activatePackage`.
    unfoldable pub activate_package : Text → Action (Daemon W) (Unit {0})
    activate_package full_path = do
      apex ← look_status (open_apex os full_path)
      activate_package_impl apex

    -- `deactivatePackage`.
    unfoldable pub deactivate_package : Text → Action (Daemon W) (Unit {0})
    deactivate_package full_path = do
      apex ← look_status (open_apex os full_path)
      unmount_package os apex true

    abbrev is_at_least : Option ℕ → ℕ → Bool
    is_at_least none new_version = false
    is_at_least (some active) new_version = leb new_version active

    -- One file of `scanPackagesDirAndActivate`: whether it failed.
    scan_one : (Text → Option ℕ) → Text → Action (Daemon W) Bool
    scan_one packages_with_code name = do
      opened ← look (open_apex os name)
      elim opened [
        | fail e ↦ pure true
        | ok apex ↦
            elim (is_at_least (packages_with_code apex.manifest.name) (to_u64 apex.manifest.version)
              || (not config.updatable && not apex.is_flattened)) [
                | true ↦ pure false
                | false ↦ do
                  res ← try_run (activate_package_impl apex)
                  pure (elim res [ ok _ ↦ false | fail e ↦ true ])
              ]
      ]

    scan_all : (Text → Option ℕ) → Bool → List Text → Action (Daemon W) Bool
    scan_all packages_with_code failed [] = pure failed
    scan_all packages_with_code failed (name ∷ names) = do
      bad ← scan_one packages_with_code name
      scan_all packages_with_code (failed || bad) names

    -- `scanPackagesDirAndActivate`.
    unfoldable pub scan_packages_dir_and_activate : Text → Action (Daemon W) (Unit {0})
    unfolding scan_one scan_all
    scan_packages_dir_and_activate apex_package_dir = do
      names ← look_status (
          find_apex_files_by_name os apex_package_dir (is_path_for_builtin_apexes apex_package_dir))
      db ← gets (λ d. d.mounted_apexes)
      packages_with_code ← look (get_active_packages_map db)
      failed ← scan_all packages_with_code false names
      ensure (not failed) activation_failed
