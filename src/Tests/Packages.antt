-- ===== src/Tests/Packages.antt =====
-- Runs of mounting and activating packages (apexd/apexd.cpp).
use android_system_apex.Common.{
  pos, ◌≡◌, ◌⊎◌, refl, true, false, some, [], Text, codes, Outcome, Error, verification_failed, ok,
  done, failed, aborted, starts_with, text_lt, text_eq,
}
use android_system_apex.Manifest.{get_package_mount_point, get_active_mount_point, parse_manifest}
use android_system_apex.Paths.{is_path_for_builtin_apexes}
use android_system_apex.ApexFile.{ApexFile, path_exists, read_dir, open_apex}
use android_system_apex.Verity.{verify_apex_verity}
use android_system_apex.Database.Entry.{MountedApexData}
use android_system_apex.Database.{
  latest_count, add_mounted_apex, set_latest, set_latest_in, entries, check_unique_loop_dm,
  check_at_most_one_latest,
}
use android_system_apex.Daemon.{Daemon}
use android_system_apex.OrdMap.{find, emplace, update, is_new}
use android_system_apex.Loop.{create_loop_device, configure_read_ahead}
use android_system_apex.Mount.{
  mount_package, mount_package_impl, mount_flattened, mount_non_flattened, make_mount_point,
  is_empty_list,
}
use android_system_apex.Mount.Bind.{bind_mount}
use android_system_apex.Mount.Release.{LoopCleared, mount_package_impl_releases}
use android_system_apex.Mount.Outcome.{MountOf, mount_package_outcome}
use android_system_apex.Activate.{
  get_active_packages, activate_package_impl, look_for_version, is_bootstrap_apex,
}
use android_system_apex.Activate.Outcome.{found_for}
use android_system_apex.Activate.Listed.{Lists, activate_package_impl-Lists}
use android_system_apex.Tests.World.{Files, files_os, set_file}
use android_system_apex.Tests.Data.{shim_apex, no_files, daemon_on, media}
use android_system_apex.Tests.Sessions.{config}
use android_system_apex.Tests.Service.{daemon}

abbrev media_apex : ApexFile
media_apex = record shim_apex { apex_path = codes "/system/apex/media"; is_flattened = true }

abbrev media_point : Text
media_point = get_package_mount_point media_apex.manifest

mount_package_outcome_example :
    let after : Daemon Files = (mount_package files_os config media_apex media_point daemon).1 in
    let r : Outcome (Unit {0}) = (mount_package files_os config media_apex media_point daemon).0 in
    ((mounted : MountedApexData) × (r ≡ done tt)
      × MountOf media_apex media_point mounted
      × (add_mounted_apex media_apex.manifest.name false mounted [] ≡ some after.mounted_apexes))
    ⊎ ((e : Error) × (r ≡ failed e) × (after.mounted_apexes ≡ []))
    ⊎ ((r ≡ aborted) × (after.mounted_apexes ≡ []))
mount_package_outcome_example = mount_package_outcome files_os config media_apex media_point daemon

abbrev shim_there : Daemon Files
shim_there = daemon_on (set_file shim_apex.apex_path (some (codes "image")) no_files)

shim_point-missing : path_exists files_os media_point shim_there.world ≡ ok false
unfolding path_exists text_eq get_package_mount_point
shim_point-missing = refl

shim_point-made :
    make_mount_point files_os config false media_point shim_there ≡ (done tt, shim_there)
unfolding make_mount_point
shim_point-made = refl

shim_refused :
    (mount_package_impl files_os config shim_apex media_point media false shim_there).0
    ≡ failed verification_failed
unfolding mount_package_impl path_exists text_eq get_package_mount_point read_dir
    mount_non_flattened create_loop_device configure_read_ahead starts_with verify_apex_verity
shim_refused = refl

mount_package_impl_releases_example :
    (before : Files) × ((mount_package_impl files_os config shim_apex media_point media false
        shim_there).1.world
      ≡ (files_os.rmdir media_point before).1)
    × ((is_empty_list files_os config (read_dir files_os media_point (λ _. true) shim_there.world)
          ≡ false)
        ⊎ LoopCleared files_os config shim_apex shim_there before)
mount_package_impl_releases_example =
    mount_package_impl_releases files_os config shim_apex media_point media false false shim_there
      shim_there verification_failed shim_point-missing shim_point-made refl shim_refused

abbrev media_there : Daemon Files
media_there = daemon_on (set_file media_apex.apex_path (some media) no_files)

-- What is in the file.
abbrev media_read : ApexFile
media_read = record media_apex {
  is_flattened = false;
  image_offset = pos 0;
  image_size = 4096;
  bundled_public_key = media;
}

abbrev media_after : Daemon Files
media_after = (activate_package_impl files_os config media_apex media_there).1

media_there-activates : (activate_package_impl files_os config media_apex media_there).0 ≡ done tt
unfolding activate_package_impl look_for_version is_bootstrap_apex mount_package mount_package_impl
    mount_flattened bind_mount add_mounted_apex set_latest set_latest_in entries
    check_unique_loop_dm check_at_most_one_latest find emplace update is_new path_exists read_dir
    is_path_for_builtin_apexes starts_with text_lt latest_count text_eq get_package_mount_point
    get_active_mount_point
media_there-activates = refl

media_there-newest : (found_for files_os config media_apex media_there).is_newest_version ≡ true
unfolding look_for_version find
media_there-newest = refl

media_after-opens : open_apex files_os media_apex.apex_path media_after.world ≡ ok media_read
unfolding activate_package_impl look_for_version is_bootstrap_apex mount_package mount_package_impl
    mount_flattened bind_mount add_mounted_apex set_latest set_latest_in entries
    check_unique_loop_dm check_at_most_one_latest find emplace update is_new path_exists read_dir
    is_path_for_builtin_apexes starts_with text_lt latest_count text_eq open_apex
    get_package_mount_point get_active_mount_point parse_manifest
media_after-opens = refl

activate_package_impl-Lists_example :
    (media_after ≡ media_there)
    ⊎ Lists files_os media_after.world media_read
        (get_active_packages files_os media_after.mounted_apexes media_after.world)
activate_package_impl-Lists_example =
    activate_package_impl-Lists files_os config media_apex media_there media_read
      media_there-activates media_there-newest media_after-opens
