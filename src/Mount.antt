-- ===== src/Mount.antt =====
-- apexd/apexd.cpp and apexd/apexd_private.cpp: mounting and unmounting packages.
pub mod Release
pub mod Outcome
pub mod Valid
pub mod Frame
pub mod Bind
use android_system_apex.Common.{
  ℕ, zero, suc, Bool, true, false, not, ◌||◌, Option, none, some, List, [], ◌∷◌, ◌++◌, Text, codes,
  text_eq, is_empty, if◌then◌else◌, any_of, cannot_mkdir, cannot_mount, cannot_unmount, loop_failed,
  not_updatable, flattened, not_empty, is_active, not_found, StatusOr, ok, fail, Action,
}
use android_system_apex.Common.Effects.{
  ◌>>=◌, ◌>>◌, pure, raise, abort, gets, ensure, skip, guarded, finally, ignore, try_run,
}
use android_system_apex.Os.{Os, Errno}
use android_system_apex.Config.{Config, loop_device_setup_attempts, mkdir_mode}
use android_system_apex.Manifest.{get_package_id, get_package_mount_point, get_active_mount_point}
use android_system_apex.Paths.{is_path_for_builtin_apexes}
use android_system_apex.ApexFile.{ApexFile, path_exists, read_dir}
use android_system_apex.Verity.{ApexVerityData, verify_apex_verity, verify_manifest_matches}
use android_system_apex.Shim.{is_shim_apex, validate_shim_apex}
use android_system_apex.Loop.{
  create_loop_device, destroy_loop_device, configure_read_ahead, maybe_close_bad, open_loop_device,
}
use android_system_apex.Database.Entry.{MountedApexData}
use android_system_apex.Database.{
  PackageMap, Database, add_mounted_apex, remove_mounted_apex, package_map,
}
use android_system_apex.Daemon.{Daemon, call, call_or, look, look_status}
use Bind.{bind_mount}
use android_system_apex.Devices.{
  wait_for_device, wait_to_be_created, delete_verity_device, destroy_verity_device,
  verity_device_at, create_verity_table, create_verity_device, read_verity_device,
}

abbrev mounted_data : Text → Text → Text → Text → MountedApexData
mounted_data loop_name full_path mount_point device_name = record {
  loop_name = loop_name;
  full_path = full_path;
  mount_point = mount_point;
  device_name = device_name;
}

-- A method of gMountedApexes that aborts when a CHECK of it fails.
abbrev pub update_database :
    {W : Type 0} → (Database → Option Database) → Action (Daemon W) (Unit {0})
update_database f d = elim (f d.mounted_apexes) [
  | none ↦ abort d
  | some db ↦ skip (record d { mounted_apexes = db })
]

-- `UnmountPackage`: the last entry of the package with the path, and whether it is the latest.
unfoldable pub find_mounted : Text → PackageMap → Option (MountedApexData × Bool)
find_mounted path [] = none
find_mounted path ((d, l) ∷ m) =
    let later = find_mounted path m in
    elim later [ some e ↦ some e | none ↦ if text_eq d.full_path path then some (d, l) else none ]

module _ {W : Type 0} (os : Os W) where
  abbrev unmount_ok : Errno → Bool
  unmount_ok Errno.no_error = true
  unmount_ok Errno.einval = true
  unmount_ok Errno.enoent = true
  unmount_ok e = false

  free_device : Bool → Text → Action (Daemon W) (Unit {0})
  free_device true name = skip
  free_device false name = ignore (delete_verity_device os name)

  free_loop : Bool → Text → Action (Daemon W) (Unit {0})
  free_loop true name = skip
  free_loop false name = destroy_loop_device os name

  -- `Unmount`.
  unfoldable pub unmount : MountedApexData → Action (Daemon W) (Unit {0})
  unfolding free_device free_loop
  unmount data' = do
    r ← call (os.umount data'.mount_point)
    ensure (unmount_ok r) cannot_unmount
    call (os.rmdir data'.mount_point)
    free_device (is_empty data'.device_name) data'.device_name
    free_loop (is_empty data'.loop_name) data'.loop_name

  pub unmount_latest : Bool → Bool → Text → Action (Daemon W) (Unit {0})
  unmount_latest false allow_latest mount_point = skip
  unmount_latest true allow_latest mount_point = do
    ensure allow_latest is_active
    call_or (os.umount mount_point) cannot_unmount
    call (os.rmdir mount_point)
    skip

  -- `UnmountPackage`.
  unfoldable pub unmount_package : ApexFile → Bool → Action (Daemon W) (Unit {0})
  unfolding unmount_latest
  unmount_package apex allow_latest = do
    let name = apex.manifest.name
    db ← gets (λ d. d.mounted_apexes)
    elim (find_mounted apex.apex_path (package_map name db)) [
      | none ↦ raise not_found
      | some (data', latest) ↦ do
        unmount_latest latest allow_latest (get_active_mount_point apex.manifest)
        update_database (λ m. some (remove_mounted_apex name apex.apex_path m))
        unmount data'
    ]

  -- `IsMounted`.
  unfoldable pub is_mounted : Text → Text → Database → Bool
  is_mounted name full_path db = any_of (λ e. text_eq full_path e.0.full_path) (package_map name db)

  module _ (config : Config) where
    pub attempt_loop_device : ℕ → ApexFile → Action (Daemon W) Text
    attempt_loop_device zero apex = raise loop_failed
    attempt_loop_device (suc attempts) apex = do
      ret ← try_run (create_loop_device os apex.apex_path apex.image_offset apex.image_size)
      elim ret [ ok device ↦ pure device | fail e ↦ attempt_loop_device attempts apex ]

    verify_mounted : ApexFile → Text → Action (Daemon W) (Unit {0})
    verify_mounted apex mount_point = do
      look_status (verify_manifest_matches os apex mount_point)
      elim (is_shim_apex apex) [
        | true ↦ look_status (λ w. validate_shim_apex os w mount_point apex)
        | false ↦ skip
      ]

    -- `mount` and what follows it.
    mount_device : ApexFile → Text → Text → Action (Daemon W) (Unit {0})
    mount_device apex block_device mount_point = do
      call_or (os.mount_ext4 block_device mount_point) cannot_mount
      guarded (do call (os.umount mount_point); skip) (verify_mounted apex mount_point)

    check_device : Bool → Text → ApexVerityData → Action (Daemon W) (Unit {0})
    check_device true block_device verity =
        read_verity_device os block_device verity.desc.image_size
    check_device false block_device verity = skip

    -- What is mounted over a block device that exists. DmVerityDevice's destructor is the guard.
    mount_on :
        Bool → ApexFile → Text → Text → Text → ApexVerityData → Bool → Action (Daemon W) (Unit {0})
    mount_on true apex mount_point device_name loop_name verity verify_image = do
      block_device ←
          create_verity_device os device_name
            (create_verity_table verity loop_name (not verify_image))
      guarded (destroy_verity_device os (verity_device_at device_name block_device)) (do
        configure_read_ahead os block_device
        wait_for_device os block_device wait_to_be_created
        check_device verify_image block_device verity
        mount_device apex block_device mount_point)
    mount_on false apex mount_point device_name loop_name verity verify_image = do
      wait_for_device os loop_name wait_to_be_created
      mount_device apex loop_name mount_point

    -- `mountNonFlattened` over its loop device.
    verify_and_mount : ApexFile → Text → Text → Bool → Text → Action (Daemon W) (Unit {0})
    verify_and_mount apex mount_point device_name verify_image loop_name = do
      keys ← gets (λ d. d.scanned_apex_keys)
      verity ← look_status (verify_apex_verity os config.debug_allow_bundled_key keys apex)
      mount_on (config.force_dm_verity_on_system || not (is_path_for_builtin_apexes apex.apex_path))
          apex mount_point device_name loop_name verity verify_image

    -- `mountNonFlattened`.
    unfoldable pub mount_non_flattened :
        ApexFile → Text → Text → Bool → Action (Daemon W) MountedApexData
    unfolding attempt_loop_device verify_and_mount mount_on check_device mount_device verify_mounted
    mount_non_flattened apex mount_point device_name verify_image = do
      ensure config.updatable not_updatable
      loop_name ← attempt_loop_device loop_device_setup_attempts apex
      guarded (maybe_close_bad os (open_loop_device loop_name))
          (verify_and_mount apex mount_point device_name verify_image loop_name)
      pure (mounted_data loop_name apex.apex_path mount_point device_name)

    -- `mountFlattened`.
    unfoldable pub mount_flattened : ApexFile → Text → Action (Daemon W) MountedApexData
    mount_flattened apex mount_point = do
      ensure (is_path_for_builtin_apexes apex.apex_path) flattened
      call_or (os.bind_mount apex.apex_path mount_point) cannot_mount
      pure (mounted_data [] apex.apex_path mount_point [])

    abbrev pub is_empty_list : StatusOr (List Text) → Bool
    is_empty_list (ok []) = true
    is_empty_list s = false

    unfoldable pub make_mount_point : Bool → Text → Action (Daemon W) (Unit {0})
    make_mount_point true mount_point = skip
    make_mount_point false mount_point = call_or (os.mkdir mount_point mkdir_mode) cannot_mkdir

    -- `MountPackageImpl`.
    unfoldable pub mount_package_impl :
        ApexFile → Text → Text → Bool → Action (Daemon W) MountedApexData
    unfolding make_mount_point
    mount_package_impl apex mount_point device_name verify_image = do
      exists ← look_status (path_exists os mount_point)
      make_mount_point exists mount_point
      guarded (do call (os.rmdir mount_point); skip)
          (do
            empty ← look (λ w. is_empty_list (read_dir os mount_point (λ _. true) w))
            ensure empty not_empty
            elim apex.is_flattened [
              | true ↦ mount_flattened apex mount_point
              | false ↦ mount_non_flattened apex mount_point device_name verify_image
            ])

    -- `apexd_private::MountPackage`.
    unfoldable pub mount_package : ApexFile → Text → Action (Daemon W) (Unit {0})
    mount_package apex mount_point = do
      mounted ← mount_package_impl apex mount_point (get_package_id apex.manifest) false
      update_database (add_mounted_apex apex.manifest.name false mounted)

    -- `RunVerifyFnInsideTempMount`, over the check that it runs.
    unfoldable pub run_verify_fn_inside_temp_mount :
        ApexFile → (Text → Action (Daemon W) (Unit {0})) → Action (Daemon W) (Unit {0})
    run_verify_fn_inside_temp_mount apex verify_fn = do
      let temp_mount_point = get_package_mount_point apex.manifest ++ codes ".tmp"
      mounted ←
          mount_package_impl apex temp_mount_point (get_package_id apex.manifest ++ codes ".tmp")
            true
      finally (ignore (unmount mounted)) (verify_fn temp_mount_point)
